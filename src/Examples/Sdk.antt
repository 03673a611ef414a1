-- ===== src/Examples/Sdk.antt =====
-- The client of crates/rustbox-sdk, whose requests lead to the handlers of the daemon.
use rustbox.Prelude.{
  ◌≡◌, ℕ, zero, suc, ◌-◌, Text, codes, List, [], ◌∷◌, ◌++◌, Option, none, some, Result, ok, err,
  refl, ap, ◌∙◌, arith, length, take, length-append, take-length_append, strip_prefix,
}
use rustbox.Prelude.Dict
use rustbox.Prelude.Dict.{Dict}
use rustbox.Core.Error.{to_string}
use rustbox.Core.Sandbox.{Runtime, SandboxStatus}
use rustbox.Daemon.Dto.{SandboxResponse}
use rustbox.Daemon.Orchestrator
use rustbox.Daemon.Routes.{Response, serve}
use rustbox.Daemon.Routes.Sandboxes
use rustbox.Vm.MockBackend
use rustbox.Vm.MockBackend.{MockBackend}
use rustbox.Core.Command.{CommandOutput}
use rustbox.Storage.Snapshot.{SnapshotMetadata}
use rustbox.Sdk.Errors.{SdkError}
use rustbox.Sdk.Http.{SandboxInfo, Value, Request, Reply, Json, HttpMethod}
use rustbox.Sdk.Client.{RustboxClient}
use rustbox.Sdk.Client.Sandboxes.{get_sandbox, update_timeout}
use rustbox.Sdk.Client.Served.{reply_of}
use rustbox.Sdk.Client.Routed.{ReadsBack, IsRouted, get_sandbox-served}
use rustbox.Examples.Daemon.{services, start}

abbrev status_number : SandboxStatus → ℕ
status_number SandboxStatus.pending = 0
status_number SandboxStatus.running = 1
status_number SandboxStatus.stopping = 2
status_number SandboxStatus.stopped = 3
status_number SandboxStatus.failed = 4

abbrev status_read : ℕ → SandboxStatus
status_read zero = SandboxStatus.pending
status_read (suc zero) = SandboxStatus.running
status_read (suc (suc zero)) = SandboxStatus.stopping
status_read (suc (suc (suc zero))) = SandboxStatus.stopped
status_read _ = SandboxStatus.failed

status_read-status_number : (s : SandboxStatus) → status_read (status_number s) ≡ s
status_read-status_number SandboxStatus.pending = refl
status_read-status_number SandboxStatus.running = refl
status_read-status_number SandboxStatus.stopping = refl
status_read-status_number SandboxStatus.stopped = refl
status_read-status_number SandboxStatus.failed = refl

abbrev runtime_code : Runtime → ℕ
runtime_code Runtime.node24 = 0
runtime_code Runtime.node22 = 1
runtime_code Runtime.python313 = 2

abbrev runtime_of : ℕ → Runtime
runtime_of zero = Runtime.node24
runtime_of (suc zero) = Runtime.node22
runtime_of _ = Runtime.python313

runtime_of-runtime_code : (r : Runtime) → runtime_of (runtime_code r) ≡ r
runtime_of-runtime_code Runtime.node24 = refl
runtime_of-runtime_code Runtime.node22 = refl
runtime_of-runtime_code Runtime.python313 = refl

abbrev date_code : Option ℕ → ℕ
date_code none = 0
date_code (some n) = suc n

abbrev date_of : ℕ → Option ℕ
date_of zero = none
date_of (suc n) = some n

date_of-date_code : (d : Option ℕ) → date_of (date_code d) ≡ d
date_of-date_code none = refl
date_of-date_code (some n) = refl

-- Numbers in front of the identifier.
abbrev encode : SandboxResponse → Text
encode r =
    status_number r.status
    ∷ runtime_code r.runtime
    ∷ r.created_at
    ∷ date_code r.started_at
    ∷ date_code r.stopped_at
    ∷ r.id

abbrev decode : Text → Result Text SandboxInfo
decode (s ∷ r ∷ created ∷ started ∷ stopped ∷ id) = ok (record {
  id = id;
  status = status_read s;
  runtime = runtime_of r;
  created_at = created;
  started_at = date_of started;
  stopped_at = date_of stopped;
})
decode text = err text

abbrev json : Json
json = record {
  sandbox_info = decode;
  sandbox_infos = λ text. ok [];
  exec_response = λ text. ok (record { command_id = text });
  command_info = λ text. err text;
  read_file_body = λ text. ok (record { path = []; content = text });
  snapshot_info = λ text. err text;
  snapshot_infos = λ text. ok [];
  metrics = λ text. err text;
  error_field = λ text. some text;
}

abbrev itself : Text → Text
itself t = t

reads : ReadsBack json encode itself
reads = record {
  reads_one = λ r.
      rw
        (
          status_read-status_number r.status,
          runtime_of-runtime_code r.runtime,
          date_of-date_code r.started_at,
          date_of-date_code r.stopped_at,
        )
        refl;
  reads_error = λ message. refl;
}

abbrev Daemon : Type 0
Daemon = Orchestrator.Orchestrator ℕ (MockBackend ℕ) (List CommandOutput) (List SnapshotMetadata)

-- The path behind the prefix, and in front of "/timeout"
abbrev after_prefix : Text → Text
after_prefix url = elim (strip_prefix (codes "b/v1/sandboxes/") url) [
  | none ↦ []
  | some rest ↦ rest
]

abbrev before_timeout : Text → Text
before_timeout path = take (length path - 8) path

before_timeout-append : (id : Text) → before_timeout (id ++ codes "/timeout") ≡ id
before_timeout-append id =
    ap (λ n. take n (id ++ codes "/timeout")) (omega (arith, length-append id (codes "/timeout")))
    ∙ take-length_append id (codes "/timeout")

abbrev seconds_of : Option (Dict (Value ℕ)) → ℕ
seconds_of (some ((key, Value.number n) ∷ fields)) = n
seconds_of _ = 0

abbrev replied : Response SandboxResponse × Daemon → Result Text Reply × Daemon
replied (response, o) = (ok (reply_of encode itself response), o)

-- Two routes.
abbrev send : Request ℕ → Daemon → Result Text Reply × Daemon
send request o = elim request.method [
  | HttpMethod.patch ↦ replied (
      serve
        (Sandboxes.update_timeout services (before_timeout (after_prefix request.url))
          (record { timeout_secs = seconds_of request.json }))
        o)
  | _ ↦ replied (serve (Sandboxes.get_sandbox services (after_prefix request.url)) o)
]

routed : IsRouted services (codes "b") encode itself send
unfolding strip_prefix
routed = record {
  get = λ id plain o. refl;
  timeout = λ id timeout_secs plain fits o.
      ap
        (λ i.
          replied (
            serve (Sandboxes.update_timeout services i (record { timeout_secs = timeout_secs })) o))
        (before_timeout-append id);
}

abbrev client : RustboxClient
client = record { base_url = codes "b" }

-- Of a sandbox that the daemon does not know.
get_sandbox-served_example :
    (get_sandbox send json client (codes "a") start
      ≡ (err (SdkError.not_found (codes "sandbox not found: a")), start))
    × (update_timeout send json client (codes "a") 5 start
        ≡ (err (SdkError.not_found (codes "sandbox not found: a")), start))
unfolding to_string Sandboxes.get_sandbox Sandboxes.update_timeout Orchestrator.get_sandbox
    Orchestrator.update_timeout Orchestrator.new MockBackend.new Dict.get
get_sandbox-served_example =
    get_sandbox-served services client json encode itself reads send routed (codes "a") 5 start
      (refl, (refl, tt)) (omega arith)
