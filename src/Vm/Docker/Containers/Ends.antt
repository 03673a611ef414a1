-- ===== src/Vm/Docker/Containers/Ends.antt =====
-- The fuel of `wait_for_agent`, crates/rustbox-vm/src/docker/backend.rs, for an agent with which each
-- exchange comes to an end: the code sets no timeout on it.
use rustbox.Prelude.{
  ℕ, zero, suc, ◌+◌, ◌*◌, ◌≤◌, Result, ok, err, leb, ◌≡◌, ◌⊎◌, inl, inr, refl, Bool-cases, arith,
}
use rustbox.Core.Error.{RustboxError}
use rustbox.Core.Protocol.{AgentRequest}
use rustbox.Vm.AgentClient.{ask}
use rustbox.Vm.Docker.Engine.{Engine}
use rustbox.Vm.Docker.Containers.{poll, wait_for_agent, late, local_agent, is_pong}

module _ {IpNet X H : Type 0} (engine : Engine IpNet X H) (port timeout_secs : ℕ)
    -- What is documented of the clock: a sleep takes its time, and a request does not turn it back.
    (sleeps : (h : H) → engine.now h + 100 ≤ engine.now (engine.sleep 100 h))
    (goes_on : (h : H)
      → engine.now h
        ≤ engine.now (ask engine.sockets (local_agent port) AgentRequest.ping h).1) where
  -- The agent answered, or the deadline is over.
  abbrev Ended : ℕ → Result RustboxError (Unit {0}) × H → Type 0
  Ended deadline (result, h) =
      (result ≡ ok tt)
      ⊎ ((result ≡ err (late engine port timeout_secs)) × (deadline ≤ engine.now h))

  poll-Ended :
      (fuel deadline : ℕ) (h : H)
      → deadline ≤ engine.now h + fuel * 100
      → Ended deadline (poll engine fuel port timeout_secs deadline h)
  unfolding poll
  poll-Ended zero deadline h enough = inr (refl, omega (arith, enough))
  poll-Ended (suc fuel) deadline h enough = elim (Bool-cases (leb deadline (engine.now h))) [
    | inl over ↦ rw over (inr (refl, ground (arith, over)))
    | inr before ↦
        rw before
          (elim (Bool-cases
            (is_pong engine (ask engine.sockets (local_agent port) AgentRequest.ping h).0)) [
              | inl up ↦ rw up (inl refl)
              | inr down ↦ rw down (
                  poll-Ended fuel deadline
                    (engine.sleep 100 (ask engine.sockets (local_agent port) AgentRequest.ping h).1)
                    later)
            ])
  ]
    where
      later :
          deadline
          ≤ engine.now
              (engine.sleep 100 (ask engine.sockets (local_agent port) AgentRequest.ping h).1)
            + fuel * 100
      later =
          let h' = (ask engine.sockets (local_agent port) AgentRequest.ping h).1 in
          omega (arith, enough, goes_on h, sleeps h')

  -- On a clock on which a sleep takes its time and that a request does not turn back,
  -- `wait_for_agent` does not run out of fuel: it gives the timeout only when the given number of
  -- seconds is over, and otherwise success.
  pub wait_for_agent-ends :
      (h : H)
      → ((wait_for_agent engine port timeout_secs h).0 ≡ ok tt)
        ⊎ (((wait_for_agent engine port timeout_secs h).0 ≡ err (late engine port timeout_secs))
            × (engine.now h + timeout_secs * 1000
                ≤ engine.now (wait_for_agent engine port timeout_secs h).1))
  unfolding wait_for_agent
  wait_for_agent-ends h =
      poll-Ended (timeout_secs * 10) (engine.now h + timeout_secs * 1000) h (omega arith)
