-- ===== src/Examples/Daemon.antt =====
-- The daemon over `MockBackend`, as the repository's tests set it up. A sender is the messages sent
-- so far, and a snapshot store keeps its metadata in a list.
use rustbox.Prelude.{
  ℕ, ◌+◌, ◌-◌, ◌^◌, ◌<◌, Text, codes, List, [], ◌∷◌, ◌++◌, true, false, none, some, ok, ◌≡◌, ◌↔◌,
  refl, arith, ◌∙◌, Option-cases, inl, inr, if◌then◌else◌, and_then, text_eq,
}
use rustbox.Prelude.Int.{pos}
use rustbox.Prelude.Dict
use rustbox.Prelude.Dict.{Dict, get-insert_ne}
use rustbox.Core.Network
use rustbox.Core.Sandbox.{
  SandboxStatus, SandboxConfig, Sandbox, Runtime, CpuCount, as_secs, from_secs,
}
use rustbox.Core.Command.{CommandRequest, CommandOutput, CommandStatus}
use rustbox.Vm.MockBackend
use rustbox.Vm.MockBackend.{MockBackend, MockSandbox, mock_backend}
use rustbox.Storage.Snapshot.{SnapshotMetadata, SnapshotStore}
use rustbox.Daemon.Orchestrator.{
  Broadcast, Orchestrator, CommandEntry, Services, new, create_sandbox, exec_command,
}
use rustbox.Daemon.Orchestrator.Calls.{Call, history}
use rustbox.Daemon.Orchestrator.Collector.{collect, round}
use rustbox.Daemon.Orchestrator.Collector.Outcome.{logged, collect-exit, collect-lost}
use rustbox.Daemon.Orchestrator.Sandboxes.{
  IsLive, IsLiveTable, history-IsLive, history-IsLiveTable, exec_command-history,
}
use rustbox.Daemon.Orchestrator.Commands.{Explains, history-Explains}
use rustbox.Daemon.Orchestrator.Mirror.{mocked, IsMirror, history-IsMirror}
use rustbox.Daemon.Watchdog.{timed_out, check_once}
use rustbox.Daemon.Watchdog.Sweep.{
  timed_out_iff, timed_out-overflow, CanStop, check_once-survivor, check_once-exact,
}

abbrev pub queue : Broadcast (List CommandOutput) (Unit {0})
queue = record {
  channel = λ capacity. [];
  send = λ sent output. sent ++ output ∷ [];
  subscribe = λ sent. (sent, tt);
}

abbrev pub listed : SnapshotStore Text (List SnapshotMetadata)
listed = record {
  save = λ m s. (ok tt, m ∷ s);
  get = λ id s. (ok none, s);
  list_all = λ s. (ok s, s);
  delete = λ id s. (ok false, s);
  list_expired = λ now s. (ok [], s);
  to_string = λ e. e;
}

abbrev pub uuid : ℕ → Text
uuid n = n ∷ []

abbrev pub services :
    Services ℕ (MockBackend ℕ) (List CommandOutput) (Unit {0}) (List SnapshotMetadata) Text
services = mocked uuid queue listed

abbrev config : SandboxConfig ℕ
config = record {
  runtime = Runtime.node24;
  cpu_count = CpuCount.one;
  timeout = from_secs 300;
  env = [];
  ports = [];
  network_policy = Network.default;
  source = none;
}

abbrev pub sandbox : Sandbox ℕ
sandbox = record {
  id = codes "sb";
  config = config;
  status = SandboxStatus.running;
  created_at = 10;
  started_at = some 11;
  stopped_at = none;
}

abbrev cmd : CommandRequest
cmd = record {
  cmd = codes "echo";
  args = codes "hello" ∷ [];
  cwd = none;
  env = none;
  sudo = false;
  detached = false;
}

-- A sandbox is created, a command runs in it, and its collector takes both messages.
abbrev pub calls : List (Call ℕ)
calls =
    Call.create (codes "sb") 10 11 config
    ∷ Call.exec (codes "sb") cmd
    ∷ Call.collector_round 0
    ∷ Call.collector_round 0
    ∷ []

abbrev pub start : Orchestrator ℕ (MockBackend ℕ) (List CommandOutput) (List SnapshotMetadata)
start = new MockBackend.new []

abbrev pub end : Orchestrator ℕ (MockBackend ℕ) (List CommandOutput) (List SnapshotMetadata)
end = history services calls start

known : Dict.get (codes "sb") end.sandboxes ≡ some (record { sandbox = sandbox })
unfolding history create_sandbox exec_command mock_backend new MockBackend.new Dict.get Dict.insert
    text_eq round
known = refl

abbrev pub finished : CommandEntry (List CommandOutput)
finished = record {
  sandbox_id = codes "sb";
  status = CommandStatus.completed (pos 0);
  output_log = CommandOutput.stdout (codes "mock output\n") ∷ CommandOutput.exit (pos 0) ∷ [];
  subscribers = CommandOutput.stdout (codes "mock output\n") ∷ CommandOutput.exit (pos 0) ∷ [];
}

pub completed : Dict.get (uuid 0) end.commands ≡ some finished
unfolding history create_sandbox exec_command mock_backend new MockBackend.new Dict.get Dict.insert
    text_eq round
completed = refl

history-IsLive_example : IsLive (codes "sb") (record { sandbox = sandbox })
history-IsLive_example =
    history-IsLive services MockBackend.new [] calls (codes "sb") (record { sandbox = sandbox })
      known

exec_command-history_example :
    (exec_command services (codes "sb") cmd end).0
    ≡ and_then (services.backend.exec (codes "sb") cmd end.backend).0 (λ r. ok r.0)
exec_command-history_example =
    exec_command-history services MockBackend.new [] calls (codes "sb") cmd
      (record { sandbox = sandbox }) known

history-Explains_example : Explains finished.status finished.output_log
history-Explains_example =
    history-Explains services MockBackend.new [] calls (uuid 0) finished completed

history-IsMirror_example :
    (m : MockSandbox ℕ) × (Dict.get (codes "sb") end.backend.sandboxes ≡ some m)
    × IsMirror (record { sandbox = sandbox }) m
history-IsMirror_example =
    history-IsMirror uuid queue listed calls [] (codes "sb") (record { sandbox = sandbox }) known

abbrev started : CommandEntry (List CommandOutput)
started = record {
  sandbox_id = codes "sb";
  status = CommandStatus.running;
  output_log = [];
  subscribers = [];
}

abbrev table : Dict (CommandEntry (List CommandOutput))
table = (uuid 0, started) ∷ []

abbrev chunk : CommandOutput
chunk = CommandOutput.stdout (1 ∷ 2 ∷ [])

started_listed : Dict.get (uuid 0) table ≡ some started
unfolding Dict.get text_eq
started_listed = refl

collect-exit_example :
    Dict.get
      (uuid 0)
      (collect queue (uuid 0) (chunk ∷ CommandOutput.exit (pos 3) ∷ chunk ∷ []) table)
    ≡ some (
        logged queue started
          (chunk ∷ CommandOutput.exit (pos 3) ∷ [])
          (CommandStatus.completed (pos 3)))
collect-exit_example =
    collect-exit queue (uuid 0) (chunk ∷ []) (chunk ∷ []) (pos 3) table started (refl, tt)
      started_listed

collect-lost_example :
    Dict.get (uuid 0) (collect queue (uuid 0) (chunk ∷ []) table)
    ≡ some
        (logged queue started (chunk ∷ []) (CommandStatus.failed (codes "agent connection lost")))
collect-lost_example =
    collect-lost queue (uuid 0) (chunk ∷ []) table started (refl, tt) started_listed

-- 301 seconds after the creation.
abbrev late : ℕ
late = 10 + from_secs 301

timed_out_iff_example : (timed_out late sandbox ≡ true) ↔ (as_secs (from_secs 300) < 301)
timed_out_iff_example = timed_out_iff late sandbox (omega arith) (omega arith)

abbrev eternal : Sandbox ℕ
eternal = record sandbox { config = record config { timeout = from_secs (2 ^ 64 - 1) } }

timed_out-overflow_example : timed_out 10 eternal ≡ true
timed_out-overflow_example =
    timed_out-overflow 10 eternal (2 ^ 64 - 1) refl (omega arith) (omega arith) (omega arith)

end_live : IsLiveTable end.sandboxes
end_live = history-IsLiveTable services MockBackend.new [] calls

on_time : timed_out 20 sandbox ≡ false
unfolding timed_out
on_time = refl

check_once-survivor_example :
    Dict.get (codes "sb") (check_once services 20 end).1.sandboxes
    ≡ some (record { sandbox = sandbox })
check_once-survivor_example =
    check_once-survivor services 20 end (codes "sb") (record { sandbox = sandbox }) end_live known
      on_time

-- The mock backend can stop a sandbox that it has.
abbrev Has : Text → MockBackend ℕ → Type 0
Has id b = (m : MockSandbox ℕ) × (Dict.get id b.sandboxes ≡ some m)

mock-CanStop : (id : Text) → CanStop services late id (Has id)
unfolding MockBackend.mock_backend
mock-CanStop id = record {
  stops = λ b (m, has). rw has refl;
  keeps = λ j b other (m, has). elim (Option-cases (Dict.get j b.sandboxes)) [
    | inl missing ↦ rw missing (m, has)
    | inr (n, there) ↦ rw there (m, get-insert_ne j id _ b.sandboxes other ∙ has)
  ];
}

check_once-exact_example :
    Dict.get (codes "sb") (check_once services late end).1.sandboxes
    ≡ (if timed_out late sandbox then none else some (record { sandbox = sandbox }))
check_once-exact_example =
    let (m, has, same) = history-IsMirror_example in
    check_once-exact services late (codes "sb") (Has (codes "sb")) (mock-CanStop (codes "sb")) end
      (record { sandbox = sandbox }) end_live (m, has) known
