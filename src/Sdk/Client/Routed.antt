-- ===== src/Sdk/Client/Routed.antt =====
-- crates/rustbox-sdk/src/client.rs over the handlers of crates/rustbox-daemon/src/routes/sandboxes.rs.
use rustbox.Prelude.{
  ℕ, ◌^◌, ◌<◌, ◌&&◌, ◌||◌, ◌==◌, Bool, false, leb, is_empty, All, Text, codes, [], ◌∷◌, ◌++◌, true,
  none, some, Result, ok, err, Exec, ◌>>=◌, lift, bind-eq-ok, ◌≡◌, refl, sym, ap, subst, ◌∙◌,
}
use rustbox.Core.Error.{RustboxError}
use rustbox.Core.Sandbox.{from_secs}
use rustbox.Daemon.Dto.{SandboxResponse}
use rustbox.Daemon.Orchestrator
use rustbox.Daemon.Orchestrator.{Method, Services}
use rustbox.Daemon.Routes.{serve}
use rustbox.Daemon.Routes.Sandboxes
use rustbox.Sdk.Http.{SandboxInfo, Value, Request, Reply, Json, HttpMethod, is_success}
use rustbox.Sdk.Client.{RustboxClient, url}
use rustbox.Sdk.Client.Sandboxes.{get_sandbox, update_timeout}
use rustbox.Sdk.Client.Served.{reply_of, answered, fetch-serve}

-- What the client reads of what the daemon writes.
abbrev pub info_of : SandboxResponse → SandboxInfo
info_of r = record {
  id = r.id;
  status = r.status;
  runtime = r.runtime;
  created_at = r.created_at;
  started_at = r.started_at;
  stopped_at = r.stopped_at;
}

-- JSON is read as it was written, and so is the message of an error.
pub record ReadsBack (json : Json) (one : SandboxResponse → Text) (error : Text → Text)
    : Type 0 where
  pub reads_one : (r : SandboxResponse) → json.sandbox_info (one r) ≡ ok (info_of r)
  pub reads_error : (message : Text) → json.error_field (error message) ≡ some message

-- A character that stands for itself in a path, wherever it stands: a letter, a digit or a hyphen.
abbrev pub is_unreserved : ℕ → Bool
is_unreserved c =
    (leb b'0' c && leb c b'9')
    || ((leb b'A' c && leb c b'Z') || ((leb b'a' c && leb c b'z') || (c == b'-')))

-- A segment of a path, such as a UUID is.
abbrev pub IsSegment : Text → Type 0
IsSegment id = (is_empty id ≡ false) × All (λ c. is_unreserved c ≡ true) id

module _ {IpNet B Sender Receiver S E : Type 0} (services : Services IpNet B Sender Receiver S E)
    (base : Text) (one : SandboxResponse → Text) (error : Text → Text)
    (send : Request IpNet
      → Orchestrator.Orchestrator IpNet B Sender S
      → Result Text Reply × Orchestrator.Orchestrator IpNet B Sender S) where
  -- `axum` leads a request to the handler of its method and path, with the body that it has read:
  -- the segment of the path as it stands, where no character of it needs an escape, and a number
  -- that fits in a `u64`.
  pub record IsRouted : Type 0 where
    pub get :
        (id : Text)
        → IsSegment id
        → (o : Orchestrator.Orchestrator IpNet B Sender S)
        → send
            (record {
              method = HttpMethod.get;
              url = base ++ codes "/v1" ++ (codes "/sandboxes/" ++ id);
              query = [];
              json = none;
            })
            o
          ≡ (
            ok (reply_of one error (serve (Sandboxes.get_sandbox services id) o).0),
            (serve (Sandboxes.get_sandbox services id) o).1,
          )
    pub timeout :
        (id : Text) (timeout_secs : ℕ)
        → IsSegment id
        → timeout_secs < 2 ^ 64
        → (o : Orchestrator.Orchestrator IpNet B Sender S)
        → send
            (record {
              method = HttpMethod.patch;
              url = base ++ codes "/v1" ++ (codes "/sandboxes/" ++ id ++ codes "/timeout");
              query = [];
              json = some ((codes "timeout_secs", Value.number timeout_secs) ∷ []);
            })
            o
          ≡ (
            ok (
                reply_of one error
                  (serve
                    (Sandboxes.update_timeout services id (record { timeout_secs = timeout_secs }))
                    o).0),
            (serve
                (Sandboxes.update_timeout services id (record { timeout_secs = timeout_secs }))
                o).1,
          )

-- A handler that answers with one status.
abbrev answer : {C : Type 0} → ℕ → C → Result RustboxError (ℕ × C)
answer status c = ok (status, c)

ok_status :
    {C : Type 0} (n status : ℕ) (a c : C)
    → answer n a ≡ answer status c
    → is_success n ≡ true
    → is_success status ≡ true
ok_status {C = C} n status a c h fine =
    subst (λ s. is_success s ≡ true)
      (ap (λ (r : Result RustboxError (ℕ × C)). elim r [ ok x ↦ x.0 | err x ↦ 0 ]) h) fine

succeeds_with :
    {O A C : Type 0} (m : Exec O RustboxError A) (f : A → C) (n : ℕ) (o : O) (status : ℕ) (c : C)
    → is_success n ≡ true
    → ((m >>= λ a. lift (answer n (f a))) o).0 ≡ answer status c
    → is_success status ≡ true
succeeds_with m f n o status c fine e =
    let (a, _, after) = bind-eq-ok m (λ a. lift (answer n (f a))) o e in
    ok_status n status (f a) c (sym (ap (λ p. p.0) after) ∙ e) fine

module _ {IpNet B Sender Receiver S E : Type 0} (services : Services IpNet B Sender Receiver S E)
    (client : RustboxClient) (json : Json) (one : SandboxResponse → Text) (error : Text → Text)
    (reads : ReadsBack json one error)
    (send : Request IpNet
      → Orchestrator.Orchestrator IpNet B Sender S
      → Result Text Reply × Orchestrator.Orchestrator IpNet B Sender S)
    (routed : IsRouted services client.base_url one error send) where
  -- Where the requests are led to the daemon's handlers and JSON is read as it was written, for an
  -- identifier of letters, digits and hyphens and a timeout that fits in a `u64`, the client returns
  -- what the handlers for a sandbox and for a new timeout return, an error as its own of the same
  -- kind and message; and it leaves the daemon as the handler does.
  pub get_sandbox-served :
      (id : Text) (timeout_secs : ℕ) (o : Orchestrator.Orchestrator IpNet B Sender S)
      → IsSegment id
      → timeout_secs < 2 ^ 64
      → (get_sandbox send json client id o ≡ (
        answered info_of (Sandboxes.get_sandbox services id o).0,
        (Sandboxes.get_sandbox services id o).1,
      ))
        × (update_timeout send json client id timeout_secs o ≡ (
          answered info_of
              (Sandboxes.update_timeout services id (record { timeout_secs = timeout_secs }) o).0,
          (Sandboxes.update_timeout services id (record { timeout_secs = timeout_secs }) o).1,
        ))
  unfolding get_sandbox update_timeout url Sandboxes.get_sandbox Sandboxes.update_timeout
  get_sandbox-served id timeout_secs o plain fits = (
    fetch-serve json error one info_of json.sandbox_info reads.reads_error reads.reads_one send _
        (Sandboxes.get_sandbox services id) o (routed.get id plain o)
        (λ status a e.
          succeeds_with (Orchestrator.get_sandbox id) Sandboxes.sandbox_response 200 o status a refl
            e),
    fetch-serve json error one info_of json.sandbox_info reads.reads_error reads.reads_one send _
        (Sandboxes.update_timeout services id (record { timeout_secs = timeout_secs })) o
        (routed.timeout id timeout_secs plain fits o)
        (λ status a e.
          succeeds_with (Orchestrator.update_timeout id (from_secs timeout_secs))
            Sandboxes.sandbox_response 200 o status a refl e),
  )
