-- ===== src/Daemon/Orchestrator/Calls.antt =====
-- The daemon's history as a sequence of calls: each method of the orchestrator that a route or a
-- background task calls, and single rounds of the spawned collectors in any order between them.
use rustbox.Prelude.{ℕ, zero, suc, Text, List, [], ◌∷◌, Option, if◌then◌else◌}
use rustbox.Prelude.Dict.{Dict}
use rustbox.Prelude.Int.{ℤ}
use rustbox.Core.Network.{NetworkPolicy}
use rustbox.Core.Sandbox.{SandboxId, CommandId, SandboxConfig, Duration, DateTime}
use rustbox.Core.Command.{CommandRequest, CommandOutput}
use rustbox.Daemon.Orchestrator
use rustbox.Daemon.Orchestrator.{Broadcast, CommandEntry, Orchestrator, Services}
use rustbox.Daemon.Orchestrator.Collector.{round, connection_lost}

pub data Call (IpNet : Type 0) : Type 0 where
  create : SandboxId → DateTime → DateTime → SandboxConfig IpNet → Call IpNet
  delete : Text → Call IpNet
  update_timeout : Text → Duration → Call IpNet
  update_network_policy : Text → NetworkPolicy IpNet → Call IpNet
  exec : Text → CommandRequest → Call IpNet
  subscribe : Text → Call IpNet
  kill : Text → Text → ℤ → Call IpNet
  write_file : Text → Text → List ℕ → Call IpNet
  read_file : Text → Text → Call IpNet
  mkdir : Text → Text → Call IpNet
  metrics : Text → Call IpNet
  create_snapshot : Text → Option Text → DateTime → Call IpNet
  list_snapshots : Call IpNet
  get_snapshot : Text → Call IpNet
  delete_snapshot : Text → Call IpNet
  -- One round of the collector at this place in the list of tasks.
  collector_round : ℕ → Call IpNet

module _ {Sender Receiver : Type 0} (broadcast : Broadcast Sender Receiver) where
  -- The collector at a place takes one message from its receiver, or ends when there is none.
  unfoldable pub advance :
      ℕ
      → List (CommandId × List CommandOutput)
      → Dict (CommandEntry Sender)
      → List (CommandId × List CommandOutput) × Dict (CommandEntry Sender)
  advance n [] m = ([], m)
  advance zero ((cid, []) ∷ tasks) m = (tasks, connection_lost cid m)
  advance zero ((cid, o ∷ os) ∷ tasks) m =
      let (more, m') = round broadcast cid o m in (if more then (cid, os) ∷ tasks else tasks, m')
  advance (suc n) (task ∷ tasks) m = let (tasks', m') = advance n tasks m in (task ∷ tasks', m')

module _ {IpNet B Sender Receiver S E : Type 0}
    (services : Services IpNet B Sender Receiver S E) where
  -- The state that a call leaves, whether it succeeds or fails.
  unfoldable pub perform :
      Call IpNet → Orchestrator IpNet B Sender S → Orchestrator IpNet B Sender S
  unfolding advance
  perform (Call.create id created started config) o =
      (Orchestrator.create_sandbox services id created started config o).1
  perform (Call.delete id) o = (Orchestrator.delete_sandbox services id o).1
  perform (Call.update_timeout id timeout) o = (Orchestrator.update_timeout id timeout o).1
  perform (Call.update_network_policy id policy) o =
      (Orchestrator.update_network_policy services id policy o).1
  perform (Call.exec id cmd) o = (Orchestrator.exec_command services id cmd o).1
  perform (Call.subscribe id) o = (Orchestrator.subscribe_command_logs services id o).1
  perform (Call.kill id cmd signal) o = (Orchestrator.kill_command services id cmd signal o).1
  perform (Call.write_file id path content) o =
      (Orchestrator.write_file services id path content o).1
  perform (Call.read_file id path) o = (Orchestrator.read_file services id path o).1
  perform (Call.mkdir id path) o = (Orchestrator.mkdir services id path o).1
  perform (Call.metrics id) o = (Orchestrator.get_metrics services id o).1
  perform (Call.create_snapshot id description now) o =
      (Orchestrator.create_snapshot services id description now o).1
  perform Call.list_snapshots o = (Orchestrator.list_snapshots services o).1
  perform (Call.get_snapshot id) o = (Orchestrator.get_snapshot services id o).1
  perform (Call.delete_snapshot id) o = (Orchestrator.delete_snapshot services id o).1
  perform (Call.collector_round n) o =
      let (tasks, m) = advance services.broadcast n o.collectors o.commands in
      record o { collectors = tasks; commands = m }

  -- The states after any sequence of calls.
  unfoldable pub history :
      List (Call IpNet) → Orchestrator IpNet B Sender S → Orchestrator IpNet B Sender S
  unfolding perform
  history [] o = o
  history (call ∷ calls) o = history calls (perform call o)

  -- What every call keeps holds after every history.
  pub history_induction :
      (P : Orchestrator IpNet B Sender S → Type 0)
      → ((call : Call IpNet) (o : Orchestrator IpNet B Sender S) → P o → P (perform call o))
      → (calls : List (Call IpNet)) (o : Orchestrator IpNet B Sender S) → P o
      → P (history calls o)
  unfolding history
  history_induction P step [] o h = h
  history_induction P step (call ∷ calls) o h =
      history_induction P step calls (perform call o) (step call o h)
