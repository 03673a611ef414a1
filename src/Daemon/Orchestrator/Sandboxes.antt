-- ===== src/Daemon/Orchestrator/Sandboxes.antt =====
-- What holds of every sandbox in the daemon's table, whatever the backend does.
use rustbox.Prelude.{
  Text, List, Option, none, some, ok, Exec, ◌≡◌, ◌≢◌, refl, arith, Option-cases, inl, inr, ◌>>=◌,
  lift, and_then,
}
use rustbox.Prelude.Dict
use rustbox.Prelude.Dict.{
  Dict, AllEntries, AllEntries-nil, AllEntries-insert, AllEntries-remove, HasDistinctKeys,
  insert-HasDistinctKeys, remove-HasDistinctKeys,
}
use rustbox.Prelude.Keeps.{Keeps, keeps_rules}
use rustbox.Core.Network.{NetworkPolicy}
use rustbox.Core.Sandbox.{Sandbox, SandboxStatus, SandboxConfig, SandboxId, DateTime, Duration}
use rustbox.Core.Command.{CommandRequest, CommandOutput}
use rustbox.Core.Error.{RustboxError}
use rustbox.Daemon.Orchestrator.{
  Orchestrator, Services, SandboxEntry, CommandEntry, on_backend, on_store, insert_sandbox,
  remove_sandbox, insert_command, spawn, new, create_sandbox, delete_sandbox, update_timeout,
  update_network_policy, exec_command, subscribe_command_logs, kill_command, write_file, read_file,
  mkdir, create_snapshot, list_snapshots, get_snapshot, delete_snapshot, get_metrics,
}
use rustbox.Daemon.Orchestrator.Calls.{Call, perform, history, history_induction}

-- An entry is filed under its own identifier, is running, was started and never stopped.
pub record IsLive {IpNet : Type 0} (id : Text) (e : SandboxEntry IpNet) : Type 0 where
  pub filed : e.sandbox.id ≡ id
  pub running : e.sandbox.status ≡ SandboxStatus.running
  pub started : e.sandbox.started_at ≢ none
  pub never_stopped : e.sandbox.stopped_at ≡ none

-- A table of such entries, in which no identifier stands twice.
abbrev pub IsLiveTable : {IpNet : Type 0} → Dict (SandboxEntry IpNet) → Type 0
IsLiveTable m = AllEntries IsLive m × HasDistinctKeys m

IsLiveTable-insert :
    {IpNet : Type 0} (id : Text) (e : SandboxEntry IpNet) (m : Dict (SandboxEntry IpNet))
    → IsLive id e
    → IsLiveTable m
    → IsLiveTable (Dict.insert id e m)
IsLiveTable-insert id e m live (h, distinct) =
    (AllEntries-insert IsLive id e m live h, insert-HasDistinctKeys id e m distinct)

module _ {IpNet B Sender S : Type 0} where
  abbrev pub AllLive : Orchestrator IpNet B Sender S → Type 0
  AllLive o = IsLiveTable o.sandboxes

  on_backend-AllLive : {A : Type 0} (m : Exec B RustboxError A) → Keeps AllLive (on_backend m)
  on_backend-AllLive m = record { after = λ o h. h }

  on_store-AllLive :
      {E A : Type 0} (show : E → Text) (m : Exec S E A) → Keeps AllLive (on_store show m)
  on_store-AllLive show m = record { after = λ o h. h }

  insert_command-AllLive :
      (id : Text) (c : CommandEntry Sender) → Keeps AllLive (insert_command id c)
  insert_command-AllLive id c = record { after = λ o h. h }

  spawn-AllLive : (id : Text) (os : List CommandOutput) → Keeps AllLive (spawn id os)
  spawn-AllLive id os = record { after = λ o h. h }

  insert_sandbox-AllLive :
      (id : Text) (s : Sandbox IpNet)
      → IsLive id (record { sandbox = s })
      → Keeps AllLive (insert_sandbox id s)
  insert_sandbox-AllLive id s live = record {
    after = λ o h. IsLiveTable-insert id (record { sandbox = s }) o.sandboxes live h;
  }

  remove_sandbox-AllLive : (id : Text) → Keeps AllLive (remove_sandbox id)
  remove_sandbox-AllLive id = record {
    after = λ o h.
        (AllEntries-remove IsLive id o.sandboxes h.0, remove-HasDistinctKeys id o.sandboxes h.1);
  }

ruleset live_rules = (
  keeps_rules, on_backend-AllLive, on_store-AllLive, insert_command-AllLive, spawn-AllLive,
  insert_sandbox-AllLive, remove_sandbox-AllLive,
)

created-IsLive :
    {IpNet : Type 0} (id : SandboxId) (created begun : DateTime) (config : SandboxConfig IpNet)
    → IsLive id (record {
      sandbox = record {
        id = id;
        config = config;
        status = SandboxStatus.running;
        created_at = created;
        started_at = some begun;
        stopped_at = none;
      };
    })
created-IsLive id created begun config = record {
  filed = refl;
  running = refl;
  started = λ e. cc;
  never_stopped = refl;
}

-- A change of the configuration alone.
configured-IsLive :
    {IpNet : Type 0} (id : Text) (e : SandboxEntry IpNet) (config : SandboxConfig IpNet)
    → IsLive id e
    → IsLive id (record { sandbox = record e.sandbox { config = config } })
configured-IsLive id e config live = record {
  filed = live.filed;
  running = live.running;
  started = live.started;
  never_stopped = live.never_stopped;
}

module _ {IpNet B Sender Receiver S E : Type 0}
    (services : Services IpNet B Sender Receiver S E) where
  create_sandbox-AllLive :
      (id : SandboxId) (created begun : DateTime) (config : SandboxConfig IpNet)
      → Keeps AllLive (create_sandbox services id created begun config)
  unfolding create_sandbox
  create_sandbox-AllLive id created begun config =
      search (live_rules, created-IsLive id created begun config)

  delete_sandbox-AllLive : (id : Text) → Keeps AllLive (delete_sandbox services id)
  unfolding delete_sandbox
  delete_sandbox-AllLive id = search live_rules

  update_timeout-AllLive :
      (id : Text) (timeout : Duration) (o : Orchestrator IpNet B Sender S)
      → AllLive o
      → AllLive (update_timeout id timeout o).1
  unfolding update_timeout
  update_timeout-AllLive id timeout o h = elim (Option-cases (Dict.get id o.sandboxes)) [
    | inl e ↦ rw (e, update_timeout) h
    | inr (entry, e) ↦
        rw (e, update_timeout)
          (IsLiveTable-insert id _ o.sandboxes (configured-IsLive id entry _ (h.0 id entry e)) h)
  ]

  update_network_policy-AllLive :
      (id : Text) (policy : NetworkPolicy IpNet) (o : Orchestrator IpNet B Sender S)
      → AllLive o
      → AllLive (update_network_policy services id policy o).1
  unfolding update_network_policy
  update_network_policy-AllLive id policy o h = elim (Option-cases (Dict.get id o.sandboxes)) [
    | inl e ↦ rw (e, update_network_policy) h
    | inr (entry, e) ↦
        let inserted =
          IsLiveTable-insert id _ o.sandboxes
            (configured-IsLive id entry (record entry.sandbox.config { network_policy = policy })
              (h.0 id entry e))
            h in
        let propagate : Keeps AllLive (
            on_backend (services.backend.update_network_policy id policy) >>= λ _. lift (
              ok (record entry.sandbox {
                config = record entry.sandbox.config { network_policy = policy };
              }))) =
          search live_rules in
        rw (e, update_network_policy) (propagate.after _ inserted)
  ]

  exec_command-AllLive :
      (id : Text) (cmd : CommandRequest) → Keeps AllLive (exec_command services id cmd)
  unfolding exec_command
  exec_command-AllLive id cmd = search live_rules

  subscribe_command_logs-AllLive : (id : Text) → Keeps AllLive (subscribe_command_logs services id)
  unfolding subscribe_command_logs
  subscribe_command_logs-AllLive id = search live_rules

  create_snapshot-AllLive :
      (id : Text) (description : Option Text) (now : DateTime)
      → Keeps AllLive (create_snapshot services id description now)
  unfolding create_snapshot
  create_snapshot-AllLive id description now = search live_rules

  get_snapshot-AllLive : (id : Text) → Keeps AllLive (get_snapshot services id)
  unfolding get_snapshot
  get_snapshot-AllLive id = search live_rules

  delete_snapshot-AllLive : (id : Text) → Keeps AllLive (delete_snapshot services id)
  unfolding delete_snapshot
  delete_snapshot-AllLive id = search live_rules

  perform-AllLive :
      (call : Call IpNet) (o : Orchestrator IpNet B Sender S)
      → AllLive o
      → AllLive (perform services call o)
  unfolding perform kill_command write_file read_file mkdir get_metrics list_snapshots
  perform-AllLive (Call.create id created begun config) o h =
      (create_sandbox-AllLive id created begun config).after o h
  perform-AllLive (Call.delete id) o h = (delete_sandbox-AllLive id).after o h
  perform-AllLive (Call.update_timeout id timeout) o h = update_timeout-AllLive id timeout o h
  perform-AllLive (Call.update_network_policy id policy) o h =
      update_network_policy-AllLive id policy o h
  perform-AllLive (Call.exec id cmd) o h = (exec_command-AllLive id cmd).after o h
  perform-AllLive (Call.subscribe id) o h = (subscribe_command_logs-AllLive id).after o h
  perform-AllLive (Call.create_snapshot id description now) o h =
      (create_snapshot-AllLive id description now).after o h
  perform-AllLive (Call.get_snapshot id) o h = (get_snapshot-AllLive id).after o h
  perform-AllLive (Call.delete_snapshot id) o h = (delete_snapshot-AllLive id).after o h
  perform-AllLive _ o h = h

  pub history-IsLiveTable :
      (b : B) (s : S) (calls : List (Call IpNet))
      → IsLiveTable (history services calls (new b s)).sandboxes
  unfolding new
  history-IsLiveTable b s calls =
      history_induction services AllLive perform-AllLive calls (new b s) (AllEntries-nil IsLive, tt)

  exec_command-running :
      (id : Text) (cmd : CommandRequest) (o : Orchestrator IpNet B Sender S)
      (e : SandboxEntry IpNet)
      → Dict.get id o.sandboxes ≡ some e
      → e.sandbox.status ≡ SandboxStatus.running
      → (exec_command services id cmd o).0
        ≡ and_then (services.backend.exec id cmd o.backend).0 (λ r. ok r.0)
  unfolding exec_command
  exec_command-running id cmd o e h r = ground arith

  -- After any sequence of calls from the start, with any backend and any interleaving with the
  -- collectors, every sandbox in the table is filed under its own identifier, has the status
  -- Running, was started and was never stopped.
  pub history-IsLive :
      (b : B) (s : S) (calls : List (Call IpNet)) (id : Text) (e : SandboxEntry IpNet)
      → Dict.get id (history services calls (new b s)).sandboxes ≡ some e
      → IsLive id e
  history-IsLive b s calls = (history-IsLiveTable b s calls).0

  -- After any sequence of calls from the start, running a command in a known sandbox gives what the
  -- backend gives, its identifier or its error: the test of the status never stops it.
  pub exec_command-history :
      (b : B) (s : S) (calls : List (Call IpNet)) (id : Text) (cmd : CommandRequest)
      (e : SandboxEntry IpNet)
      → Dict.get id (history services calls (new b s)).sandboxes ≡ some e
      → (exec_command services id cmd (history services calls (new b s))).0
        ≡ and_then
            (services.backend.exec id cmd (history services calls (new b s)).backend).0
            (λ r. ok r.0)
  exec_command-history b s calls id cmd e h =
      exec_command-running id cmd (history services calls (new b s)) e h
        (history-IsLive b s calls id e h).running
