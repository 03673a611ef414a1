-- ===== src/Prelude/Keeps.antt =====
-- Invariants of state-passing methods, one rule for each way to build a method.
use mathlib.Core.Bool.{Bool, true, false}
use rustbox.Prelude.Tests.{if◌then◌else◌}
use mathlib.Core.Path.{◌≡◌}
use mathlib.Core.Logic.{inl, inr}
use rustbox.Prelude.Results.{Result, ok, err, Exec, continue, ◌>>=◌, lift, gets, Result-cases}

-- The state that `m` leaves has the property if the state before had it, also where `m` fails.
pub record Keeps {S E A : Type 0} (P : S → Type 0) (m : Exec S E A) : Type 0 where
  pub after : (s : S) → P s → P (m s).1

module _ {S E A : Type 0} {P : S → Type 0} where
  pub Keeps-lift : (r : Result E A) → Keeps P (lift {S = S} r)
  Keeps-lift r = record { after = λ s h. h }

  pub Keeps-gets : (f : S → Result E A) → Keeps P (gets f)
  Keeps-gets f = record { after = λ s h. h }

  pub Keeps-if :
      (b : Bool) (m n : Exec S E A) → Keeps P m → Keeps P n → Keeps P (if b then m else n)
  Keeps-if true m n km kn = km
  Keeps-if false m n km kn = kn

module _ {S E A B : Type 0} {P : S → Type 0} where
  continue_after :
      (r : Result E A) (f : A → Exec S E B) (s : S)
      → ((a : A) → Keeps P (f a))
      → P s
      → P (continue r f s).1
  continue_after (ok a) f s kf h = (kf a).after s h
  continue_after (err e) f s kf h = h

  pub Keeps-bind :
      (m : Exec S E A) (f : A → Exec S E B)
      → Keeps P m
      → ((a : A) → Keeps P (f a))
      → Keeps P (m >>= f)
  Keeps-bind m f km kf = record {
    after = λ s h. continue_after (m s).0 f (m s).1 kf (km.after s h);
  }

-- A state on which the method succeeds with the value.
abbrev pub Succeeds : {S E A : Type 0} → Exec S E A → A → Type 0
Succeeds {S} m a = (s : S) × ((m s).0 ≡ ok a)

module _ {S E A B : Type 0} {P : S → Type 0} where
  -- What follows may use that the first part has succeeded.
  pub Keeps-then :
      (m : Exec S E A) (f : A → Exec S E B)
      → Keeps P m
      → ((a : A) → Succeeds m a → Keeps P (f a))
      → Keeps P (m >>= f)
  Keeps-then m f km kf = record {
    after = λ s h. elim (Result-cases (m s).0) [
      | inl (a, e) ↦ rw e ((kf a (s, e)).after (m s).1 (km.after s h))
      | inr (x, e) ↦ rw e (km.after s h)
    ];
  }

pub ruleset keeps_rules = (Keeps-lift, Keeps-gets, Keeps-if, Keeps-bind)
