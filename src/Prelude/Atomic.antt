-- ===== src/Prelude/Atomic.antt =====
-- Methods that leave a part of the state as it was where they fail, one rule for each way to build a
-- method.
use mathlib.Core.Path.{◌≡◌, refl, ◌∙◌}
use native.Mathlib.Omega.{arith}
use rustbox.Prelude.Results.{Result, ok, err, Exec, continue, ◌>>=◌, lift}

module _ {S E A V : Type 0} where
  -- `view` shows the same after the method, whether it succeeds or not.
  pub record Quiet (view : S → V) (m : Exec S E A) : Type 0 where
    pub same : (s : S) → view (m s).1 ≡ view s

  -- After an error it does.
  pub record Atomic (view : S → V) (m : Exec S E A) : Type 0 where
    pub unchanged : (s : S) (e : E) → (m s).0 ≡ err e → view (m s).1 ≡ view s

-- The method does not fail.
pub record Sure {S E A : Type 0} (m : Exec S E A) : Type 0 where
  pub succeeds : (s : S) → (a : A) × ((m s).0 ≡ ok a)

module _ {S E A V : Type 0} {view : S → V} where
  pub Quiet-lift : (r : Result E A) → Quiet view (lift r)
  Quiet-lift r = record { same = λ s. refl }

  pub Atomic-Quiet : (m : Exec S E A) → Quiet view m → Atomic view m
  Atomic-Quiet m q = record { unchanged = λ s e h. q.same s }

  pub Atomic-Sure : (m : Exec S E A) → Sure m → Atomic view m
  Atomic-Sure m sure = record {
    unchanged = λ s e h. absurd (ground (arith, h, (sure.succeeds s).1));
  }

module _ {S E A B V : Type 0} {view : S → V} where
  continue_same :
      (r : Result E A) (f : A → Exec S E B) (s : S)
      → ((a : A) → Quiet view (f a))
      → view (continue r f s).1 ≡ view s
  continue_same (ok a) f s qf = (qf a).same s
  continue_same (err e) f s qf = refl

  pub Quiet-bind :
      (m : Exec S E A) (f : A → Exec S E B)
      → Quiet view m
      → ((a : A) → Quiet view (f a))
      → Quiet view (m >>= f)
  Quiet-bind m f q qf = record { same = λ s. continue_same (m s).0 f (m s).1 qf ∙ q.same s }

  continue_unchanged :
      (r : Result E A) (f : A → Exec S E B) (s : S) (e : E)
      → ((a : A) → Atomic view (f a))
      → (continue r f s).0 ≡ err e
      → view (continue r f s).1 ≡ view s
  continue_unchanged (ok a) f s e af h = (af a).unchanged s e h
  continue_unchanged (err d) f s e af h = refl

  pub Atomic-bind :
      (m : Exec S E A) (f : A → Exec S E B)
      → Quiet view m
      → ((a : A) → Atomic view (f a))
      → Atomic view (m >>= f)
  Atomic-bind m f q af = record {
    unchanged = λ s e h. continue_unchanged (m s).0 f (m s).1 e af h ∙ q.same s;
  }

module _ {S E A B : Type 0} where
  continue_succeeds :
      (r : Result E A) (f : A → Exec S E B) (s : S)
      → (a : A) × (r ≡ ok a)
      → ((a : A) → Sure (f a))
      → (b : B) × ((continue r f s).0 ≡ ok b)
  continue_succeeds (ok a) f s h sf = (sf a).succeeds s
  continue_succeeds (err e) f s h sf = absurd (ground (arith, h.1))

  pub Sure-bind :
      (m : Exec S E A) (f : A → Exec S E B) → Sure m → ((a : A) → Sure (f a)) → Sure (m >>= f)
  Sure-bind m f sm sf = record {
    succeeds = λ s. continue_succeeds (m s).0 f (m s).1 (sm.succeeds s) sf;
  }

pub ruleset quiet_rules = (Quiet-lift, Quiet-bind)

pub ruleset atomic_rules = (Atomic-bind, Atomic-Sure, Atomic-Quiet, quiet_rules, Sure-bind)
