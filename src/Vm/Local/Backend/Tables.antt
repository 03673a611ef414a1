-- ===== src/Vm/Local/Backend/Tables.antt =====
-- The table of sandboxes of crates/rustbox-vm/src/local_backend.rs, as the mock backend would keep it.
use rustbox.Prelude.{
  [], ◌∷◌, Option, none, some, Result, Exec, ◌>>=◌, text_eq, subst, continue, ◌≡◌, refl, ap, sym,
  ◌∙◌, arith, Option-cases, Bool-cases, inl, inr,
}
use rustbox.Prelude.Dict
use rustbox.Prelude.Dict.{Dict}
use rustbox.Prelude.Atomic.{Quiet, Atomic, Quiet-bind, quiet_rules, atomic_rules}
use rustbox.Core.Sandbox.{SandboxId}
use rustbox.Core.Error.{RustboxError}
use rustbox.Core.Backend.Calls.{error_of}
use rustbox.Vm.MockBackend.{MockSandbox, MockBackend}
use rustbox.Vm.Local.State.{found, LocalSandbox, LocalBackend, sandbox_of, on_host}

module _ {IpNet : Type 0} where
  -- A sandbox without its directory.
  abbrev pub forget : LocalSandbox IpNet → MockSandbox IpNet
  forget s = record { config = s.config; status = s.status }

  abbrev pub forget_all : Dict (LocalSandbox IpNet) → Dict (MockSandbox IpNet)
  forget_all [] = []
  forget_all ((id, s) ∷ m) = (id, forget s) ∷ forget_all m

  abbrev pub forget_found : Option (LocalSandbox IpNet) → Option (MockSandbox IpNet)
  forget_found none = none
  forget_found (some s) = some (forget s)

  pub get-forget_all :
      (id : SandboxId) (m : Dict (LocalSandbox IpNet))
      → Dict.get id (forget_all m) ≡ forget_found (Dict.get id m)
  unfolding Dict.get
  get-forget_all id [] = refl
  get-forget_all id ((j, s) ∷ m) = ground (arith, get-forget_all id m)

  pub forget_all-insert :
      (id : SandboxId) (s : LocalSandbox IpNet) (m : Dict (LocalSandbox IpNet))
      → forget_all (Dict.insert id s m) ≡ Dict.insert id (forget s) (forget_all m)
  unfolding Dict.insert
  forget_all-insert id s [] = refl
  forget_all-insert id s ((j, t) ∷ m) = elim (Bool-cases (text_eq j id)) [
    | inl same ↦ rw same refl
    | inr other ↦ rw other (ap (λ rest. (j, forget t) ∷ rest) (forget_all-insert id s m))
  ]

module _ {IpNet C H : Type 0} where
  abbrev pub mock_of : LocalBackend IpNet C H → MockBackend IpNet
  mock_of b = record { sandboxes = forget_all b.sandboxes; issued = 0 }

  abbrev pub table : LocalBackend IpNet C H → Dict (LocalSandbox IpNet)
  table b = b.sandboxes

  pub on_host-Quiet : {A : Type 0} (m : Exec H RustboxError A) → Quiet table (on_host m)
  on_host-Quiet m = record { same = λ b. refl }

  pub sandbox_of-Quiet : (id : SandboxId) → Quiet table (sandbox_of id)
  sandbox_of-Quiet id = record { same = λ b. refl }

pub ruleset local_rules = (quiet_rules, on_host-Quiet, sandbox_of-Quiet)

-- A method of a table that stays as it is, whatever the method's error.
abbrev pub either {ℓ} : {A : Type ℓ} → Option RustboxError → A → A → A
either none new old = new
either (some e) new old = old

either-same : {A : Type 0} (o : Option RustboxError) (x y z : A) → x ≡ z → y ≡ z → x ≡ either o y z
either-same none x y z p q = p ∙ sym q
either-same (some e) x y z p q = p

module _ {IpNet C H : Type 0} where
  -- The table behind a method: the new one, or the old one where it fails.
  abbrev pub Follows :
      {A : Type 0}
      → Dict (MockSandbox IpNet)
      → Dict (MockSandbox IpNet)
      → Result RustboxError A × LocalBackend IpNet C H
      → Type 0
  Follows old new (r, b) = forget_all b.sandboxes ≡ either (error_of r) new old

  pub Quiet-Follows :
      {A : Type 0} (m : Exec (LocalBackend IpNet C H) RustboxError A) (b : LocalBackend IpNet C H)
      (new : Dict (MockSandbox IpNet))
      → Quiet table m
      → new ≡ forget_all b.sandboxes
      → Follows (forget_all b.sandboxes) new (m b)
  Quiet-Follows m b new quiet e =
      either-same (error_of (m b).0) _ new (forget_all b.sandboxes) (ap forget_all (quiet.same b)) e

  -- A sandbox that is missing is an error.
  pub sandbox_of-Follows :
      {A : Type 0} (id : SandboxId)
      (f : LocalSandbox IpNet → Exec (LocalBackend IpNet C H) RustboxError A)
      (b : LocalBackend IpNet C H) (new : Dict (MockSandbox IpNet))
      → ((s : LocalSandbox IpNet)
          → Dict.get id (forget_all b.sandboxes) ≡ some (forget s)
          → Follows (forget_all b.sandboxes) new (f s b))
      → Follows (forget_all b.sandboxes) new ((sandbox_of id >>= f) b)
  sandbox_of-Follows id f b new k = elim (Option-cases (Dict.get id b.sandboxes)) [
    | inl missing ↦
        subst (λ o. Follows (forget_all b.sandboxes) new (continue (found id o) f b)) (sym missing)
          refl
    | inr (s, there) ↦
        subst (λ o. Follows (forget_all b.sandboxes) new (continue (found id o) f b)) (sym there)
          (k s (get-forget_all id b.sandboxes ∙ ap forget_found there))
  ]
