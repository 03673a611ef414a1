-- ===== src/Daemon/Routes/Lookups.antt =====
-- What one request leaves for the next, in crates/rustbox-daemon/src/routes/sandboxes.rs.
use rustbox.Prelude.{
  ℕ, Text, codes, ◌++◌, ok, some, none, ◌≡◌, refl, Option-cases, inl, inr, Result-cases, arith, sym,
  ap, subst, false,
}
use rustbox.Prelude.Dict
use rustbox.Prelude.Dict.{get-insert_self, get-remove_self}
use rustbox.Core.Error.{to_string}
use rustbox.Core.Sandbox.{DateTime, Sandbox, SandboxConfig, SandboxId, SandboxStatus, from_secs}
use rustbox.Daemon.ApiError.{into_response}
use rustbox.Daemon.Dto.{CreateSandboxRequest, SandboxResponse}
use rustbox.Daemon.Orchestrator
use rustbox.Daemon.Orchestrator.{Services}
use rustbox.Daemon.Routes.{Response, serve}
use rustbox.Daemon.Routes.Sandboxes.{sandbox_response, create_sandbox, get_sandbox, delete_sandbox}

module _ {IpNet B Sender Receiver S E : Type 0}
    (services : Services IpNet B Sender Receiver S E) where
  -- A sandbox that was filed is answered.
  get_sandbox-known :
      (id : Text) (s : Sandbox IpNet) (o : Orchestrator.Orchestrator IpNet B Sender S)
      → Dict.get id o.sandboxes ≡ some (record { sandbox = s })
      → serve (get_sandbox services id) o ≡ (Response.success 200 (sandbox_response s), o)
  unfolding get_sandbox Orchestrator.get_sandbox
  get_sandbox-known id s o e = rw e refl

  get_sandbox-unknown :
      (id : Text) (o : Orchestrator.Orchestrator IpNet B Sender S)
      → Dict.get id o.sandboxes ≡ none
      → serve (get_sandbox services id) o
        ≡ (Response.failure 404 (codes "sandbox not found: " ++ id), o)
  unfolding get_sandbox Orchestrator.get_sandbox into_response to_string
  get_sandbox-unknown id o e = rw e refl

  -- A sandbox that was created answers the next lookup as it answered its creation, with 200 for
  -- the 201.
  pub get_sandbox-create_sandbox :
      (id : SandboxId) (created started : DateTime) (req : CreateSandboxRequest IpNet)
      (o : Orchestrator.Orchestrator IpNet B Sender S) (status : ℕ) (body : SandboxResponse)
      → (create_sandbox services id created started req o).0 ≡ ok (status, body)
      → (status ≡ 201)
        × ((serve
              (get_sandbox services body.id)
              (create_sandbox services id created started req o).1).0
            ≡ Response.success 200 body)
  unfolding create_sandbox Orchestrator.create_sandbox
  get_sandbox-create_sandbox id created started req o status body e =
      let config : SandboxConfig IpNet = record {
        runtime = req.runtime;
        cpu_count = req.cpu_count;
        timeout = from_secs req.timeout_secs;
        env = req.env;
        ports = req.ports;
        network_policy = req.network_policy;
        source = req.source;
      } in
      elim (Result-cases (services.backend.create id config o.backend).0) [
        | inr (fault, made) ↦ absurd (ground (arith, made, e))
        | inl (u, made) ↦
            elim (Result-cases
              (services.backend.start id (services.backend.create id config o.backend).1).0) [
                | inr (fault, begun) ↦ absurd (ground (arith, made, begun, e))
                | inl (v, begun) ↦
                    let s : Sandbox IpNet = record {
                      id = id;
                      config = config;
                      status = SandboxStatus.running;
                      created_at = created;
                      started_at = some started;
                      stopped_at = none;
                    } in
                    let o' = (create_sandbox services id created started req o).1 in
                    let answered : (create_sandbox services id created started req o).0
                        ≡ ok (201, sandbox_response s) =
                      rw (made, begun) refl in
                    let filed : Dict.get id o'.sandboxes ≡ some (record { sandbox = s }) =
                      rw (made, begun) (get-insert_self id _ _) in
                    let same : (status ≡ 201) × (body ≡ sandbox_response s) = (cc, cc) in
                    (
                      same.0,
                      subst (λ b. (serve (get_sandbox services b.id) o').0 ≡ Response.success 200 b)
                          (sym same.1) (ap (λ p. p.0) (get_sandbox-known id s o' filed)),
                    )
              ]
      ]

  -- A sandbox that was deleted is unknown to the next lookup.
  pub get_sandbox-delete_sandbox :
      (id : Text) (o : Orchestrator.Orchestrator IpNet B Sender S)
      → (delete_sandbox services id o).0 ≡ ok (200, tt)
      → (serve (get_sandbox services id) (delete_sandbox services id o).1).0
        ≡ Response.failure 404 (codes "sandbox not found: " ++ id)
  unfolding delete_sandbox Orchestrator.delete_sandbox
  get_sandbox-delete_sandbox id o e =
      elim (Result-cases (services.backend.stop id false o.backend).0) [
        | inr (fault, stopped) ↦ absurd (ground (arith, stopped, e))
        | inl (u, stopped) ↦ elim (Option-cases (Dict.get id o.sandboxes)) [
          | inl missing ↦ absurd (ground (arith, stopped, missing, e))
          | inr (entry, found) ↦
              let o' = (delete_sandbox services id o).1 in
              let gone : Dict.get id o'.sandboxes ≡ none =
                rw (stopped, found) (get-remove_self id o.sandboxes) in
              ap (λ p. p.0) (get_sandbox-unknown id o' gone)
        ]
      ]
