-- ===== src/Prelude/Affix.antt =====
-- What `strip_prefix`, `starts_with` and `ends_with` decide.
use rustbox.Prelude.Tests.{leb}
use rustbox.Prelude.Lists.{length, take, drop, length-append, take-append-drop, drop-length_append}
use rustbox.Prelude.Strings.{Text, text_eq_iff, strip_prefix, ends_with}
use Prim.Native.Nat.{ℕ, ◌-◌}
use mathlib.Core.Path.{◌≡◌, refl, ap, ap₂, sym, ◌∙◌}
use mathlib.Core.Bool.{Bool, true, ◌&&◌}
use mathlib.Core.Option.{some}
use mathlib.Core.List.{[], ◌∷◌, ◌++◌}
use native.Mathlib.Omega.{arith}

pub strip_prefix-append : (p s : Text) → strip_prefix p (p ++ s) ≡ some s
unfolding strip_prefix
strip_prefix-append [] s = refl
strip_prefix-append (a ∷ p) s = ground (arith, strip_prefix-append p s)

-- What is left of a stripped text is what follows the prefix.
pub append_of_strip_prefix : (p s r : Text) → strip_prefix p s ≡ some r → s ≡ p ++ r
unfolding strip_prefix
append_of_strip_prefix [] s r h = ground arith
append_of_strip_prefix (a ∷ p) [] r h = absurd (ground arith)
append_of_strip_prefix (a ∷ p) (b ∷ s) r h =
    ap₂ (λ (x : ℕ) (y : Text). x ∷ y) (ground arith) (append_of_strip_prefix p s r (ground arith))

pub ends_with-append : (s t : Text) → ends_with (s ++ t) t ≡ true
unfolding ends_with
ends_with-append s t =
    let e : length (s ++ t) - length t ≡ length s = omega (arith, length-append {0} s t) in
    (&&-true (leb (length t) (length (s ++ t))) _ (ground (arith, length-append s t)))
      ((text_eq_iff _ t).1 (ap (λ n. drop n (s ++ t)) e ∙ drop-length_append s t))
  where
    &&-true : (a b : Bool) → a ≡ true → b ≡ true → a && b ≡ true
    &&-true a b h k = ground arith

pub append_of_ends_with : (s t : Text) → ends_with s t ≡ true → (r : Text) × (s ≡ r ++ t)
unfolding ends_with
append_of_ends_with s t h =
    let n : ℕ = length s - length t in
    let same : drop n s ≡ t = (text_eq_iff _ t).0 (right (leb (length t) (length s)) _ h) in
    (take n s, sym (take-append-drop n s) ∙ ap (λ z. take n s ++ z) same)
  where
    right : (a b : Bool) → a && b ≡ true → b ≡ true
    right a b k = ground arith
