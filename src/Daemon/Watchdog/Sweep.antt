-- ===== src/Daemon/Watchdog/Sweep.antt =====
-- Which sandboxes a check of the watchdog stops, and which it leaves alone.
use rustbox.Prelude.{
  ℕ, ◌+◌, ◌-◌, ◌/◌, ◌^◌, ◌<◌, ◌≤◌, Text, List, [], ◌∷◌, map, Bool, true, false, none, some, ok, ◌≡◌,
  ◌≢◌, ◌↔◌, ap, subst, sym, ◌∙◌, All-imp, All-any, any, ◌&&◌, if◌then◌else◌, arith, All, Bool-cases,
  inl, inr, text_eq, text_eq_iff, text_eq_refl,
}
use rustbox.Prelude.Dict
use rustbox.Prelude.Dict.{
  Dict, HasDistinctKeys, get-remove, get-remove_ne, get-remove_self, AllEntries,
}
use rustbox.Core.Sandbox.{Sandbox, DateTime, as_secs, from_secs}
use rustbox.Daemon.Orchestrator.{
  Orchestrator, Services, SandboxEntry, list_sandboxes, delete_sandbox,
}
use rustbox.Daemon.Orchestrator.Sandboxes.{IsLiveTable}
use rustbox.Daemon.Watchdog.{timed_out, sweep, check_once}

-- For a timeout below 2^63 seconds and a clock that has not gone back behind the creation, a
-- sandbox is timed out exactly when the whole seconds since its creation exceed its timeout.
pub timed_out_iff :
    {IpNet : Type 0} (now : DateTime) (sandbox : Sandbox IpNet)
    → as_secs sandbox.config.timeout < 2 ^ 63
    → sandbox.created_at ≤ now
    → (timed_out now sandbox ≡ true)
      ↔ (as_secs sandbox.config.timeout < (now - sandbox.created_at) / 1_000_000_000)
unfolding timed_out
timed_out_iff now sandbox small past = (λ h. ground arith, λ h. ground arith)

-- A timeout of 2^63 seconds or more, as a `u64` can hold, becomes negative and is over at once.
pub timed_out-overflow :
    {IpNet : Type 0} (now : DateTime) (sandbox : Sandbox IpNet) (secs : ℕ)
    → sandbox.config.timeout ≡ from_secs secs
    → 2 ^ 63 ≤ secs
    → secs < 2 ^ 64
    → sandbox.created_at ≤ now
    → timed_out now sandbox ≡ true
unfolding timed_out
timed_out-overflow now sandbox secs e large u64 past = ground arith

get_head :
    {IpNet : Type 0} (k : Text) (x : SandboxEntry IpNet) (m : Dict (SandboxEntry IpNet))
    → Dict.get k ((k, x) ∷ m) ≡ some x
unfolding Dict.get
get_head k x m = ground (arith, text_eq_refl k)

get_tail :
    {IpNet : Type 0} (k j : Text) (x e : SandboxEntry IpNet) (m : Dict (SandboxEntry IpNet))
    → Dict.get k m ≡ none
    → Dict.get j m ≡ some e
    → Dict.get j ((k, x) ∷ m) ≡ some e
unfolding Dict.get
get_tail k j x e m fresh h =
    ground (arith, text_eq_iff k j, ap (λ i. Dict.get i m) {x = k} {y = j}, h, fresh)

-- What holds of every listed sandbox holds of each one that can be looked up.
lookup_listed :
    {IpNet : Type 0} (P : Sandbox IpNet → Type 0) (m : Dict (SandboxEntry IpNet)) (id : Text)
    (e : SandboxEntry IpNet)
    → All P (map (λ x. x.sandbox) (Dict.values m))
    → Dict.get id m ≡ some e
    → P e.sandbox
unfolding Dict.get
lookup_listed P [] id e h g = absurd (ground arith)
lookup_listed {IpNet} P ((k, x) ∷ m) id e (p, h) g = elim (Bool-cases (text_eq k id)) [
  | inl same ↦ subst {A = SandboxEntry IpNet} (λ y. P y.sandbox) (ground (arith, g, same)) p
  | inr other ↦ lookup_listed P m id e h (ground (arith, g, other))
]

-- Every listed sandbox can be looked up under its identifier.
listed_lookup :
    {IpNet : Type 0} (m : Dict (SandboxEntry IpNet))
    → IsLiveTable m
    → All
        (λ s. Dict.get s.id m ≡ some (record { sandbox = s }))
        (map (λ x. x.sandbox) (Dict.values m))
listed_lookup [] h = tt
listed_lookup ((k, x) ∷ m) (live, (fresh, distinct)) = (
  ap (λ i. Dict.get i ((k, x) ∷ m)) (live k x (get_head k x m)).filed ∙ get_head k x m,
  All-imp (map (λ y. y.sandbox) (Dict.values m))
      (λ s h. get_tail k s.id x (record { sandbox = s }) m fresh h)
      (listed_lookup m ((λ j v h. live j v (get_tail k j x v m fresh h)), distinct)),
)

module _ {IpNet B Sender Receiver S E : Type 0} (services : Services IpNet B Sender Receiver S E)
    (now : DateTime) where
  -- Deleting one sandbox leaves the others in the table, whatever the backend answers.
  delete-other :
      (id j : Text) (o : Orchestrator IpNet B Sender S)
      → id ≢ j
      → Dict.get j (delete_sandbox services id o).1.sandboxes ≡ Dict.get j o.sandboxes
  unfolding delete_sandbox
  delete-other id j o ne = ground (arith, get-remove_ne id j o.sandboxes ne)

  delete_self :
      (id : Text) (o : Orchestrator IpNet B Sender S)
      → (services.backend.stop id false o.backend).0 ≡ ok tt
      → Dict.get id (delete_sandbox services id o).1.sandboxes ≡ none
  unfolding delete_sandbox
  delete_self id o h = ground (arith, get-remove_self id o.sandboxes)

  sweep-survivor :
      (j : Text) (e : SandboxEntry IpNet) (ss : List (Sandbox IpNet)) (n : ℕ)
      (o : Orchestrator IpNet B Sender S)
      → All (λ s. timed_out now s ≡ true → s.id ≢ j) ss
      → Dict.get j o.sandboxes ≡ some e
      → Dict.get j (sweep services now ss n o).1.sandboxes ≡ some e
  unfolding sweep
  sweep-survivor j e [] n o h g = g
  sweep-survivor j e (s ∷ ss) n o (p, h) g = ground (
    arith,
    p,
    sweep-survivor j e ss n o h g,
    delete-other s.id j o,
    sweep-survivor j e ss (n + 1) (delete_sandbox services s.id o).1 h,
    sweep-survivor j e ss n (delete_sandbox services s.id o).1 h,
  )

  delete-none :
      (id j : Text) (o : Orchestrator IpNet B Sender S)
      → Dict.get j o.sandboxes ≡ none
      → Dict.get j (delete_sandbox services id o).1.sandboxes ≡ none
  unfolding delete_sandbox
  delete-none id j o h = ground (arith, get-remove id j o.sandboxes)

  sweep-none :
      (j : Text) (ss : List (Sandbox IpNet)) (n : ℕ) (o : Orchestrator IpNet B Sender S)
      → Dict.get j o.sandboxes ≡ none
      → Dict.get j (sweep services now ss n o).1.sandboxes ≡ none
  unfolding sweep
  sweep-none j [] n o g = g
  sweep-none j (s ∷ ss) n o g = ground (
    arith,
    sweep-none j ss n o g,
    delete-none s.id j o g,
    sweep-none j ss (n + 1) (delete_sandbox services s.id o).1,
    sweep-none j ss n (delete_sandbox services s.id o).1,
  )

  -- Whatever the backend answers, a check of a table in which every sandbox is running and filed under
  -- its identifier leaves every sandbox that is not timed out there, unchanged.
  pub check_once-survivor :
      (o : Orchestrator IpNet B Sender S) (id : Text) (e : SandboxEntry IpNet)
      → IsLiveTable o.sandboxes
      → Dict.get id o.sandboxes ≡ some e
      → timed_out now e.sandbox ≡ false
      → Dict.get id (check_once services now o).1.sandboxes ≡ some e
  unfolding check_once
  check_once-survivor o id e table found alive =
      sweep-survivor id e (list_sandboxes o) 0 o
        (All-imp (list_sandboxes o)
          (λ s listed over same.
            ground (arith, listed, found, ap (λ i. Dict.get i o.sandboxes) same))
          (listed_lookup o.sandboxes table))
        found

  -- The sandbox is due, under this identifier.
  abbrev due : Text → Sandbox IpNet → Bool
  due j s = text_eq s.id j && timed_out now s

  -- What holds of the backend when it can stop the sandbox, however others are stopped.
  pub record CanStop (id : Text) (Able : B → Type 0) : Type 0 where
    pub stops : (b : B) → Able b → (services.backend.stop id false b).0 ≡ ok tt
    pub keeps : (j : Text) (b : B) → j ≢ id → Able b → Able (services.backend.stop j false b).1

  delete-backend :
      (j : Text) (o : Orchestrator IpNet B Sender S)
      → (delete_sandbox services j o).1.backend ≡ (services.backend.stop j false o.backend).1
  unfolding delete_sandbox
  delete-backend j o = ground arith

  module _ (id : Text) (Able : B → Type 0) (can : CanStop id Able) where
    sweep-clears :
        (ss : List (Sandbox IpNet)) (n : ℕ) (o : Orchestrator IpNet B Sender S)
        → Able o.backend
        → any (due id) ss ≡ true
        → Dict.get id (sweep services now ss n o).1.sandboxes ≡ none
    unfolding sweep
    sweep-clears [] n o able h = absurd (ground arith)
    sweep-clears (s ∷ ss) n o able h = elim (Bool-cases (text_eq s.id id)) [
      | inl same ↦ ground (
        arith,
        text_eq_iff s.id id,
        delete_self id o (can.stops o.backend able),
        sweep-none id ss (n + 1) (delete_sandbox services s.id o).1,
        sweep-none id ss n (delete_sandbox services s.id o).1,
        sweep-clears ss n o able,
      )
      | inr other ↦
          let able' : Able (delete_sandbox services s.id o).1.backend =
            subst Able (sym (delete-backend s.id o)) (
              can.keeps s.id o.backend (λ e. absurd (ground (arith, e, other, text_eq_iff s.id id)))
                able) in
          ground (
            arith,
            other,
            sweep-clears ss n o able,
            sweep-clears ss (n + 1) (delete_sandbox services s.id o).1 able',
            sweep-clears ss n (delete_sandbox services s.id o).1 able',
          )
    ]

    -- A check of a table in which every sandbox is running and filed under its identifier removes a
    -- sandbox that the backend can stop, and can still stop after it has tried to stop others, if it
    -- is timed out, and otherwise leaves it unchanged, whatever becomes of the other sandboxes.
    pub check_once-exact :
        (o : Orchestrator IpNet B Sender S) (e : SandboxEntry IpNet)
        → IsLiveTable o.sandboxes
        → Able o.backend
        → Dict.get id o.sandboxes ≡ some e
        → Dict.get id (check_once services now o).1.sandboxes
          ≡ (if timed_out now e.sandbox then none else some e)
    unfolding check_once
    check_once-exact o e table able found = elim (Bool-cases (timed_out now e.sandbox)) [
      | inr alive ↦ rw alive (check_once-survivor o id e table found alive)
      | inl over ↦ rw over (
          sweep-clears (list_sandboxes o) 0 o able (
            lookup_listed (λ s. due id s ≡ true → any (due id) (list_sandboxes o) ≡ true)
              o.sandboxes id e (All-any (due id) (list_sandboxes o)) found
              (ground (arith, over, text_eq_iff e.sandbox.id id, (table.0 id e found).filed))))
    ]
