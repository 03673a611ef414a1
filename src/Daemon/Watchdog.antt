-- ===== src/Daemon/Watchdog.antt =====
-- crates/rustbox-daemon/src/watchdog.rs. `now` is the clock at the start of a check.
pub mod Sweep
use rustbox.Prelude.{
  ℕ, suc, zero, ◌+◌, ◌-◌, ◌/◌, Text, List, [], ◌∷◌, Bool, true, false, Result, ok, err, leb,
  if◌then◌else◌,
}
use rustbox.Prelude.Int.{ℤ, pos, negsuc, ltbℤ, as_i64}
use rustbox.Core.Sandbox.{Sandbox, DateTime, as_secs}
use rustbox.Daemon.Orchestrator.{Orchestrator, Services, list_sandboxes, delete_sandbox}

-- `-n`
abbrev negative : ℕ → ℤ
negative zero = pos zero
negative (suc n) = negsuc n

-- `now.signed_duration_since(created_at).num_seconds()`, which rounds towards zero
abbrev pub elapsed_seconds : DateTime → DateTime → ℤ
elapsed_seconds now created_at =
    if leb created_at now
    then pos ((now - created_at) / 1_000_000_000)
    else negative ((created_at - now) / 1_000_000_000)

unfoldable pub timed_out : {IpNet : Type 0} → DateTime → Sandbox IpNet → Bool
timed_out now sandbox =
    ltbℤ (as_i64 (as_secs sandbox.config.timeout)) (elapsed_seconds now sandbox.created_at)

module _ {IpNet B Sender Receiver S E : Type 0} (services : Services IpNet B Sender Receiver S E)
    (now : DateTime) where
  -- The loop over the sandboxes that were listed when the check began.
  unfoldable pub sweep :
      List (Sandbox IpNet) → ℕ → Orchestrator IpNet B Sender S → ℕ × Orchestrator IpNet B Sender S
  sweep [] stopped o = (stopped, o)
  sweep (sandbox ∷ sandboxes) stopped o = elim (timed_out now sandbox) [
    | false ↦ sweep sandboxes stopped o
    | true ↦
        let (r, o') = delete_sandbox services sandbox.id o in
        elim r [ ok _ ↦ sweep sandboxes (stopped + 1) o' | err _ ↦ sweep sandboxes stopped o' ]
  ]

  unfoldable pub check_once : Orchestrator IpNet B Sender S → ℕ × Orchestrator IpNet B Sender S
  unfolding sweep
  check_once o = sweep (list_sandboxes o) 0 o
