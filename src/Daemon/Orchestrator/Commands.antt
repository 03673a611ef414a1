-- ===== src/Daemon/Orchestrator/Commands.antt =====
-- What holds of every command in the daemon's table, whatever the backend delivers and however the
-- collectors interleave with the calls.
use rustbox.Prelude.{
  ℕ, zero, suc, Text, codes, List, [], ◌∷◌, ◌++◌, some, Exec, All, All-append, false, ◌≡◌, refl, ap,
  ◌∙◌, append_assoc, Option-cases, inl, inr,
}
use rustbox.Prelude.Dict
use rustbox.Prelude.Dict.{Dict, AllEntries, AllEntries-nil, AllEntries-insert, AllEntries-remove}
use rustbox.Prelude.Keeps.{Keeps, keeps_rules}
use rustbox.Core.Sandbox.{Sandbox, CommandId}
use rustbox.Core.Command.{CommandOutput, CommandStatus}
use rustbox.Core.Error.{RustboxError}
use rustbox.Daemon.Orchestrator.{
  Broadcast, Orchestrator, Services, CommandEntry, on_backend, on_store, insert_sandbox,
  remove_sandbox, insert_command, spawn, new, create_sandbox, delete_sandbox, update_timeout,
  update_network_policy, exec_command, subscribe_command_logs, kill_command, write_file, read_file,
  mkdir, create_snapshot, list_snapshots, get_snapshot, delete_snapshot, get_metrics,
}
use rustbox.Daemon.Orchestrator.Collector.{is_exit, connection_lost, round}
use rustbox.Daemon.Orchestrator.Collector.Outcome.{round-exit, round-data}
use rustbox.Daemon.Orchestrator.Calls.{Call, advance, perform, history, history_induction}

-- What a status says about the log.
abbrev pub Explains : CommandStatus → List CommandOutput → Type 0
Explains CommandStatus.running log = All (λ o. is_exit o ≡ false) log
Explains (CommandStatus.completed code) log =
    (before : List CommandOutput) × (after : List CommandOutput) × (log
      ≡ before ++ CommandOutput.exit code ∷ after)
    × All (λ o. is_exit o ≡ false) after
Explains (CommandStatus.failed message) log = message ≡ codes "agent connection lost"
Explains CommandStatus.killed log = ⊥

Explains-append :
    (s : CommandStatus) (log : List CommandOutput) (o : CommandOutput)
    → is_exit o ≡ false
    → Explains s log
    → Explains s (log ++ o ∷ [])
Explains-append CommandStatus.running log o quiet h =
    All-append (λ o. is_exit o ≡ false) log (o ∷ []) h (quiet, tt)
Explains-append (CommandStatus.completed code) log o quiet (before, after, e, last) = (
  before,
  after ++ o ∷ [],
  ap (λ l. l ++ o ∷ []) e ∙ append_assoc before _ _,
  All-append (λ o. is_exit o ≡ false) after (o ∷ []) last (quiet, tt),
)
Explains-append (CommandStatus.failed message) log o quiet h = h
Explains-append CommandStatus.killed log o quiet h = h

module _ {Sender : Type 0} where
  pub record IsExplained (id : Text) (e : CommandEntry Sender) : Type 0 where
    pub by_log : Explains e.status e.output_log

  abbrev pub AllExplained : Dict (CommandEntry Sender) → Type 0
  AllExplained = AllEntries IsExplained

  connection_lost-AllExplained :
      (cid : CommandId) (m : Dict (CommandEntry Sender))
      → AllExplained m
      → AllExplained (connection_lost cid m)
  unfolding connection_lost
  connection_lost-AllExplained cid m h = elim (Option-cases (Dict.get cid m)) [
    | inl e ↦ rw (e, connection_lost) h
    | inr (entry, e) ↦
        rw (e, connection_lost) (AllEntries-insert IsExplained cid _ m (record { by_log = refl }) h)
  ]

module _ {Sender Receiver : Type 0} (broadcast : Broadcast Sender Receiver) where
  round_known :
      (cid : CommandId) (o : CommandOutput) (m : Dict (CommandEntry Sender))
      (entry : CommandEntry Sender)
      → Dict.get cid m ≡ some entry
      → AllExplained m
      → AllExplained (round broadcast cid o m).1
  round_known cid (CommandOutput.exit code) m entry e h =
      rw (round-exit broadcast cid code m entry e) (
        AllEntries-insert IsExplained cid _ m (record { by_log = (entry.output_log, [], refl, tt) })
          h)
  round_known cid (CommandOutput.stdout bytes) m entry e h =
      rw (round-data broadcast cid (CommandOutput.stdout bytes) m entry refl e) (
        AllEntries-insert IsExplained cid _ m
          (record {
            by_log = Explains-append entry.status entry.output_log _ refl (h cid entry e).by_log;
          })
          h)
  round_known cid (CommandOutput.stderr bytes) m entry e h =
      rw (round-data broadcast cid (CommandOutput.stderr bytes) m entry refl e) (
        AllEntries-insert IsExplained cid _ m
          (record {
            by_log = Explains-append entry.status entry.output_log _ refl (h cid entry e).by_log;
          })
          h)

  round-AllExplained :
      (cid : CommandId) (o : CommandOutput) (m : Dict (CommandEntry Sender))
      → AllExplained m
      → AllExplained (round broadcast cid o m).1
  unfolding round
  round-AllExplained cid o m h = elim (Option-cases (Dict.get cid m)) [
    | inl e ↦ rw (e, round) h
    | inr (entry, e) ↦ round_known cid o m entry e h
  ]

  advance-AllExplained :
      (n : ℕ) (tasks : List (CommandId × List CommandOutput)) (m : Dict (CommandEntry Sender))
      → AllExplained m
      → AllExplained (advance broadcast n tasks m).1
  unfolding advance
  advance-AllExplained zero [] m h = h
  advance-AllExplained (suc n) [] m h = h
  advance-AllExplained zero ((cid, []) ∷ tasks) m h = connection_lost-AllExplained cid m h
  advance-AllExplained zero ((cid, o ∷ os) ∷ tasks) m h = round-AllExplained cid o m h
  advance-AllExplained (suc n) (task ∷ tasks) m h = advance-AllExplained n tasks m h

module _ {Sender : Type 0} where
  -- A command that has just been started.
  started-IsExplained :
      (id sandbox_id : Text) (sender : Sender)
      → IsExplained id (record {
        sandbox_id = sandbox_id;
        status = CommandStatus.running;
        output_log = [];
        subscribers = sender;
      })
  started-IsExplained id sandbox_id sender = record { by_log = tt }

module _ {IpNet B Sender S : Type 0} where
  abbrev pub CommandsExplained : Orchestrator IpNet B Sender S → Type 0
  CommandsExplained o = AllExplained o.commands

  on_backend-Keeps :
      {A : Type 0} (m : Exec B RustboxError A) → Keeps CommandsExplained (on_backend m)
  on_backend-Keeps m = record { after = λ o h. h }

  on_store-Keeps :
      {E A : Type 0} (show : E → Text) (m : Exec S E A) → Keeps CommandsExplained (on_store show m)
  on_store-Keeps show m = record { after = λ o h. h }

  insert_sandbox-Keeps :
      (id : Text) (s : Sandbox IpNet) → Keeps CommandsExplained (insert_sandbox id s)
  insert_sandbox-Keeps id s = record { after = λ o h. h }

  remove_sandbox-Keeps : (id : Text) → Keeps CommandsExplained (remove_sandbox id)
  remove_sandbox-Keeps id = record { after = λ o h. h }

  spawn-Keeps : (id : Text) (os : List CommandOutput) → Keeps CommandsExplained (spawn id os)
  spawn-Keeps id os = record { after = λ o h. h }

  insert_command-Keeps :
      (id : Text) (c : CommandEntry Sender)
      → IsExplained id c
      → Keeps CommandsExplained (insert_command id c)
  insert_command-Keeps id c new = record {
    after = λ o h. AllEntries-insert IsExplained id c o.commands new h;
  }

ruleset explained_rules = (
  keeps_rules, on_backend-Keeps, on_store-Keeps, insert_sandbox-Keeps, remove_sandbox-Keeps,
  spawn-Keeps, insert_command-Keeps, started-IsExplained,
)

module _ {IpNet B Sender Receiver S E : Type 0}
    (services : Services IpNet B Sender Receiver S E) where
  subscribe-keeps :
      (id : Text) (o : Orchestrator IpNet B Sender S)
      → CommandsExplained o
      → CommandsExplained (subscribe_command_logs services id o).1
  unfolding subscribe_command_logs
  subscribe-keeps id o h = elim (Option-cases (Dict.get id o.commands)) [
    | inl e ↦ rw (e, subscribe_command_logs) h
    | inr (entry, e) ↦
        rw (e, subscribe_command_logs)
          (AllEntries-insert IsExplained id _ o.commands (record { by_log = (h id entry e).by_log })
            h)
  ]

  perform-keeps :
      (call : Call IpNet) (o : Orchestrator IpNet B Sender S)
      → CommandsExplained o
      → CommandsExplained (perform services call o)
  unfolding perform create_sandbox delete_sandbox update_timeout update_network_policy exec_command
      create_snapshot get_snapshot delete_snapshot kill_command write_file read_file mkdir
      get_metrics list_snapshots
  perform-keeps (Call.subscribe id) o h = subscribe-keeps id o h
  perform-keeps (Call.collector_round n) o h =
      advance-AllExplained services.broadcast n o.collectors o.commands h
  perform-keeps (Call.create id created begun config) o h =
      let k : Keeps CommandsExplained (create_sandbox services id created begun config) =
        search explained_rules in
      k.after o h
  perform-keeps (Call.delete id) o h =
      let k : Keeps CommandsExplained (delete_sandbox services id) = search explained_rules in
      k.after o h
  perform-keeps (Call.update_timeout id timeout) o h =
      let k : Keeps CommandsExplained (update_timeout id timeout) = search explained_rules in
      k.after o h
  perform-keeps (Call.update_network_policy id policy) o h =
      let k : Keeps CommandsExplained (update_network_policy services id policy) =
        search explained_rules in
      k.after o h
  perform-keeps (Call.exec id cmd) o h =
      let k : Keeps CommandsExplained (exec_command services id cmd) =
        search explained_rules depth 9 in
      k.after o h
  perform-keeps (Call.create_snapshot id description now) o h =
      let k : Keeps CommandsExplained (create_snapshot services id description now) =
        search explained_rules in
      k.after o h
  perform-keeps (Call.get_snapshot id) o h =
      let k : Keeps CommandsExplained (get_snapshot services id) = search explained_rules in
      k.after o h
  perform-keeps (Call.delete_snapshot id) o h =
      let k : Keeps CommandsExplained (delete_snapshot services id) = search explained_rules in
      k.after o h
  perform-keeps _ o h = h

  -- After any sequence of calls and collector rounds from the start, a command's status agrees with
  -- its log: of a running command no exit message was logged, and the last one that was logged of a
  -- completed command has its code. Of a failed command the message says that the connection was
  -- lost, and no command is marked as killed.
  pub history-Explains :
      (b : B) (s : S) (calls : List (Call IpNet)) (id : Text) (e : CommandEntry Sender)
      → Dict.get id (history services calls (new b s)).commands ≡ some e
      → Explains e.status e.output_log
  unfolding new
  history-Explains b s calls id e h =
      (history_induction services CommandsExplained perform-keeps calls (new b s)
        (AllEntries-nil IsExplained) id e h).by_log
