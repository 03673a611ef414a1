-- ===== src/Daemon/Orchestrator/Collector/Outcome.antt =====
-- What a command's record holds when its collector has run.
use rustbox.Prelude.{
  Option-cases, Bool-cases, inl, inr, codes, List, [], ◌∷◌, ◌++◌, true, false, some, ◌≡◌, ◌≢◌, refl,
  ap, ◌∙◌, arith, append_assoc, append-nil, All,
}
use rustbox.Prelude.Dict
use rustbox.Prelude.Dict.{Dict, dict_laws, get-insert, get-insert_self, get-insert_ne}
use rustbox.Prelude.Int.{ℤ}
use mathlib.Core.List.{foldl}
use rustbox.Core.Sandbox.{CommandId}
use rustbox.Core.Command.{CommandOutput, CommandStatus}
use rustbox.Daemon.Orchestrator.{Broadcast, CommandEntry}
use rustbox.Daemon.Orchestrator.Collector.{is_exit, last, connection_lost, round, collect}

last-append : (log : List CommandOutput) (o : CommandOutput) → last (log ++ o ∷ []) ≡ some o
last-append [] o = refl
last-append (p ∷ []) o = refl
last-append (p ∷ q ∷ log) o = last-append (q ∷ log) o

module _ {Sender Receiver : Type 0} (broadcast : Broadcast Sender Receiver) where
  -- A record after `outputs` were logged and sent to its subscribers, with a new status.
  abbrev pub logged : CommandEntry Sender → List CommandOutput → CommandStatus → CommandEntry Sender
  logged entry outputs status = record entry {
    status = status;
    output_log = entry.output_log ++ outputs;
    subscribers = foldl broadcast.send entry.subscribers outputs;
  }

  module _ (cid : CommandId) where
    pub round-exit :
        (code : ℤ) (commands : Dict (CommandEntry Sender)) (entry : CommandEntry Sender)
        → Dict.get cid commands ≡ some entry
        → round broadcast cid (CommandOutput.exit code) commands ≡ (
          false,
          Dict.insert cid
              (logged entry (CommandOutput.exit code ∷ []) (CommandStatus.completed code))
              commands,
        )
    unfolding round
    round-exit code commands entry h =
        ground (arith, last-append entry.output_log (CommandOutput.exit code))

    pub round-data :
        (output : CommandOutput) (commands : Dict (CommandEntry Sender))
        (entry : CommandEntry Sender)
        → is_exit output ≡ false
        → Dict.get cid commands ≡ some entry
        → round broadcast cid output commands
          ≡ (true, Dict.insert cid (logged entry (output ∷ []) entry.status) commands)
    unfolding round
    round-data output commands entry e h = ground arith

    collect-stop :
        (o : CommandOutput) (os : List CommandOutput) (m n : Dict (CommandEntry Sender))
        → round broadcast cid o m ≡ (false, n)
        → collect broadcast cid (o ∷ os) m ≡ n
    unfolding collect
    collect-stop o os m n h = ground (arith, h)

    collect-go :
        (o : CommandOutput) (os : List CommandOutput) (m n : Dict (CommandEntry Sender))
        → round broadcast cid o m ≡ (true, n)
        → collect broadcast cid (o ∷ os) m ≡ collect broadcast cid os n
    unfolding collect
    collect-go o os m n h = ground (arith, h)

    logged_twice :
        (entry : CommandEntry Sender) (o : CommandOutput) (os : List CommandOutput)
        (s t : CommandStatus)
        → logged (logged entry (o ∷ []) s) os t ≡ logged entry (o ∷ os) t
    logged_twice entry o os s t =
        ap (λ log. record (logged entry (o ∷ os) t) { output_log = log })
          (append_assoc entry.output_log (o ∷ []) os)

    -- Up to its first exit message a command's output is logged and sent to the subscribers in
    -- order, its status becomes the exit code, and what comes later is dropped.
    pub collect-exit :
        (outputs rest : List CommandOutput) (code : ℤ) (commands : Dict (CommandEntry Sender))
        (entry : CommandEntry Sender)
        → All (λ o. is_exit o ≡ false) outputs
        → Dict.get cid commands ≡ some entry
        → Dict.get cid (collect broadcast cid (outputs ++ CommandOutput.exit code ∷ rest) commands)
          ≡ some (
              logged entry (outputs ++ CommandOutput.exit code ∷ []) (CommandStatus.completed code))
    collect-exit [] rest code commands entry no_exit h =
        rw (collect-stop _ rest commands _ (round-exit code commands entry h))
          (get-insert_self cid _ commands)
    collect-exit (o ∷ outputs) rest code commands entry (e, no_exit) h =
        rw (collect-go o _ commands _ (round-data o commands entry e h)) (
          collect-exit outputs rest code
            (Dict.insert cid (logged entry (o ∷ []) entry.status) commands)
            (logged entry (o ∷ []) entry.status) no_exit (get-insert_self cid _ commands)
          ∙ ap some (logged_twice entry o _ entry.status (CommandStatus.completed code)))

    -- If the channel closes without an exit message, all output is logged and sent in order and the
    -- command has failed.
    pub collect-lost :
        (outputs : List CommandOutput) (commands : Dict (CommandEntry Sender))
        (entry : CommandEntry Sender)
        → All (λ o. is_exit o ≡ false) outputs
        → Dict.get cid commands ≡ some entry
        → Dict.get cid (collect broadcast cid outputs commands)
          ≡ some (logged entry outputs (CommandStatus.failed (codes "agent connection lost")))
    unfolding collect connection_lost
    collect-lost [] commands entry no_exit h =
        rw (append-nil, h, collect, connection_lost) (get-insert_self cid _ commands)
    collect-lost (o ∷ outputs) commands entry (e, no_exit) h =
        rw (collect-go o _ commands _ (round-data o commands entry e h)) (
          collect-lost outputs (Dict.insert cid (logged entry (o ∷ []) entry.status) commands)
            (logged entry (o ∷ []) entry.status) no_exit (get-insert_self cid _ commands)
          ∙ ap some (logged_twice entry o _ entry.status _))

    round-other :
        (j : CommandId) (output : CommandOutput) (commands : Dict (CommandEntry Sender))
        → cid ≢ j
        → Dict.get j (round broadcast cid output commands).1 ≡ Dict.get j commands
    unfolding round
    round-other j output commands ne = elim (Option-cases (Dict.get cid commands)) [
      | inl e ↦ rw (e, round)
      | inr (entry, e) ↦ elim (Bool-cases (is_exit output)) [
        | inl x ↦ rw (e, round, x) (get-insert_ne cid j _ commands ne)
        | inr x ↦ rw (e, round, x) (get-insert_ne cid j _ commands ne)
      ]
    ]

    -- A collector touches the record of its own command only.
    pub collect-other :
        (j : CommandId) (outputs : List CommandOutput) (commands : Dict (CommandEntry Sender))
        → cid ≢ j
        → Dict.get j (collect broadcast cid outputs commands) ≡ Dict.get j commands
    unfolding collect connection_lost
    collect-other j [] commands ne = elim (Option-cases (Dict.get cid commands)) [
      | inl e ↦ rw (e, collect, connection_lost)
      | inr (entry, e) ↦ rw (e, collect, connection_lost) (get-insert_ne cid j _ commands ne)
    ]
    collect-other j (o ∷ outputs) commands ne = ground (
      arith,
      round-other j o commands ne,
      collect-other j outputs (round broadcast cid o commands).1 ne,
    )
