-- ===== src/Prelude/Dict.antt =====
-- `HashMap<String, V>` and `DashMap<String, V>` as association lists. The order of entries is the
-- order of iteration, about which nothing is promised.
use rustbox.Prelude.Tests.{if◌then◌else◌, Bool-cases}
use rustbox.Prelude.Strings.{Text, text_eq, text_eq_iff, text_eq_refl}
use mathlib.Core.Path.{◌≡◌, refl, sym, ap, ◌∙◌, subst₂}
use mathlib.Core.Logic.{◌≢◌}
use mathlib.Core.Option.{Option, none, some}
use mathlib.Core.Logic.{inl, inr}
use mathlib.Core.List.{List, [], ◌∷◌}
use native.Mathlib.Omega.{arith}

abbrev pub Dict {ℓ} : Type ℓ → Type ℓ
Dict V = List (Text × V)

module _ {ℓ} {V : Type ℓ} where
  -- `map.get(k)`
  unfoldable pub get : Text → Dict V → Option V
  get k [] = none
  get k ((j, v) ∷ m) = if text_eq j k then some v else get k m

  -- `map.insert(k, v)`, and a write through `get_mut(k)`
  unfoldable pub insert : Text → V → Dict V → Dict V
  insert k v [] = (k, v) ∷ []
  insert k v ((j, w) ∷ m) =
      let rest = insert k v m in if text_eq j k then (k, v) ∷ m else (j, w) ∷ rest

  -- `map.remove(k)`
  unfoldable pub remove : Text → Dict V → Dict V
  remove k [] = []
  remove k ((j, v) ∷ m) = let rest = remove k m in if text_eq j k then rest else (j, v) ∷ rest

  -- `map.iter()` without the keys
  abbrev pub values : Dict V → List V
  values [] = []
  values ((k, v) ∷ m) = v ∷ values m

  pub get-insert :
      (k j : Text) (v : V) (m : Dict V)
      → get j (insert k v m) ≡ (if text_eq k j then some v else get j m)
  unfolding get insert
  get-insert k j v [] = refl
  get-insert k j v ((i, w) ∷ m) =
      ground (arith, text_eq_iff k j, text_eq_iff i k, text_eq_iff i j, get-insert k j v m)

  pub get-remove :
      (k j : Text) (m : Dict V) → get j (remove k m) ≡ (if text_eq k j then none else get j m)
  unfolding get remove
  get-remove k j [] = ground arith
  get-remove k j ((i, w) ∷ m) =
      ground (arith, text_eq_iff k j, text_eq_iff i k, text_eq_iff i j, get-remove k j m)

  pub get-insert_self : (k : Text) (v : V) (m : Dict V) → get k (insert k v m) ≡ some v
  get-insert_self k v m = simp (get-insert, text_eq_refl)

  pub get-remove_self : (k : Text) (m : Dict V) → get k (remove k m) ≡ none
  get-remove_self k m = simp (get-remove, text_eq_refl)

  -- A second write under the same key replaces the first.
  pub insert-insert : (k : Text) (v w : V) (m : Dict V) → insert k v (insert k w m) ≡ insert k v m
  unfolding insert
  insert-insert k v w [] = ground (arith, text_eq_refl k)
  insert-insert k v w ((i, x) ∷ m) =
      ground (arith, text_eq_refl k, text_eq_iff i k, insert-insert k v w m)

  pub get-insert_ne : (k j : Text) (v : V) (m : Dict V) → k ≢ j → get j (insert k v m) ≡ get j m
  get-insert_ne k j v m ne = ground (arith, get-insert k j v m, text_eq_iff k j)

  pub get-remove_ne : (k j : Text) (m : Dict V) → k ≢ j → get j (remove k m) ≡ get j m
  get-remove_ne k j m ne = ground (arith, get-remove k j m, text_eq_iff k j)

pub ruleset dict_laws = (get-insert, get-remove, text_eq_refl)

module _ {ℓ} {V : Type ℓ} where
  -- No key stands twice, so that iterating meets what looking up finds.
  abbrev pub HasDistinctKeys : Dict V → Type ℓ
  HasDistinctKeys [] = Unit
  HasDistinctKeys ((k, v) ∷ m) = (get k m ≡ none) × HasDistinctKeys m

  pub insert-HasDistinctKeys :
      (k : Text) (v : V) (m : Dict V) → HasDistinctKeys m → HasDistinctKeys (insert k v m)
  unfolding insert get
  insert-HasDistinctKeys k v [] h = (refl, tt)
  insert-HasDistinctKeys k v ((j, w) ∷ m) (fresh, h) = elim (Bool-cases (text_eq j k)) [
    | inl same ↦ rw same (ap (λ i. get i m) (sym ((text_eq_iff j k).0 same)) ∙ fresh, h)
    | inr other ↦ rw other (
      ground (arith, get-insert k j v m, text_eq_iff k j, text_eq_iff j k),
      insert-HasDistinctKeys k v m h,
    )
  ]

  pub remove-HasDistinctKeys :
      (k : Text) (m : Dict V) → HasDistinctKeys m → HasDistinctKeys (remove k m)
  unfolding remove get
  remove-HasDistinctKeys k [] h = tt
  remove-HasDistinctKeys k ((j, w) ∷ m) (fresh, h) = elim (Bool-cases (text_eq j k)) [
    | inl same ↦ rw same (remove-HasDistinctKeys k m h)
    | inr other ↦ rw other (ground (arith, get-remove k j m, fresh), remove-HasDistinctKeys k m h)
  ]

module _ {ℓ κ} {V : Type ℓ} (P : Text → V → Type κ) where
  -- Every entry that can be looked up has the property.
  abbrev pub AllEntries : Dict V → Type (ℓ ⊔ κ)
  AllEntries m = (k : Text) (v : V) → get k m ≡ some v → P k v

  pub AllEntries-nil : AllEntries []
  unfolding get
  AllEntries-nil k v h = absurd (ground arith)

  pub AllEntries-insert :
      (k : Text) (v : V) (m : Dict V) → P k v → AllEntries m → AllEntries (insert k v m)
  AllEntries-insert k v m new old j w h = elim (Bool-cases (text_eq k j)) [
    | inl same ↦
        let e : k ≡ j = (text_eq_iff k j).0 same in
        let f : v ≡ w = ground (arith, h, get-insert k j v m, same) in subst₂ P e f new
    | inr other ↦ old j w (ground (arith, h, get-insert k j v m, other))
  ]

  pub AllEntries-remove : (k : Text) (m : Dict V) → AllEntries m → AllEntries (remove k m)
  AllEntries-remove k m old j w h = elim (Bool-cases (text_eq k j)) [
    | inl same ↦ absurd (ground (arith, h, get-remove k j m, same))
    | inr other ↦ old j w (ground (arith, h, get-remove k j m, other))
  ]
