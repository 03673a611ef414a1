-- ===== src/Storage/Snapshot/Shelf.antt =====
-- What the store of crates/rustbox-storage/src/snapshot.rs promises: snapshots filed under their
-- identifiers, as a list without the table's texts and as a function.
use rustbox.Prelude.{
  Text, List, [], ◌∷◌, ◌++◌, Option, none, some, find, if◌then◌else◌, text_eq, text_eq_iff,
  text_eq_refl, ◌≡◌, refl, arith, All, Bool-cases, inl, inr,
}
use rustbox.Storage.Snapshot.{SnapshotMetadata}

abbrev pub lookup : Text → List SnapshotMetadata → Option SnapshotMetadata
lookup id ms = find (λ m. text_eq m.id id) ms

unfoldable pub without : Text → List SnapshotMetadata → List SnapshotMetadata
without id [] = []
without id (m ∷ ms) = let rest = without id ms in if text_eq m.id id then rest else m ∷ rest

abbrev pub filed : SnapshotMetadata → List SnapshotMetadata → List SnapshotMetadata
filed m ms = without m.id ms ++ m ∷ []

-- The same as functions.
abbrev pub Shelf : Type 0
Shelf = Text → Option SnapshotMetadata

abbrev pub put : SnapshotMetadata → Shelf → Shelf
put m shelf id = if text_eq m.id id then some m else shelf id

abbrev pub take_off : Text → Shelf → Shelf
take_off id shelf j = if text_eq id j then none else shelf j

pub lookup-without :
    (id j : Text) (ms : List SnapshotMetadata)
    → lookup j (without id ms) ≡ (if text_eq id j then none else lookup j ms)
unfolding without
lookup-without id j [] = ground arith
lookup-without id j (m ∷ ms) =
    ground
      (arith, text_eq_iff m.id id, text_eq_iff m.id j, text_eq_iff id j, lookup-without id j ms)

lookup-append :
    (j : Text) (ms : List SnapshotMetadata) (m : SnapshotMetadata)
    → lookup j (ms ++ m ∷ []) ≡ elim (lookup j ms) [
      | some found ↦ some found
      | none ↦ if text_eq m.id j then some m else none
    ]
lookup-append j [] m = refl
lookup-append j (n ∷ ms) m = ground (arith, lookup-append j ms m)

pub lookup-filed :
    (j : Text) (m : SnapshotMetadata) (ms : List SnapshotMetadata)
    → lookup j (filed m ms) ≡ put m (λ id. lookup id ms) j
lookup-filed j m ms = ground (arith, lookup-append j (without m.id ms) m, lookup-without m.id j ms)

-- No identifier stands twice.
abbrev pub HasDistinctIds : List SnapshotMetadata → Type 0
HasDistinctIds [] = Unit
HasDistinctIds (m ∷ ms) = (lookup m.id ms ≡ none) × HasDistinctIds ms

pub without-HasDistinctIds :
    (id : Text) (ms : List SnapshotMetadata) → HasDistinctIds ms → HasDistinctIds (without id ms)
unfolding without
without-HasDistinctIds id [] h = tt
without-HasDistinctIds id (m ∷ ms) (fresh, h) = elim (Bool-cases (text_eq m.id id)) [
  | inl same ↦ rw (same, without) (without-HasDistinctIds id ms h)
  | inr other ↦
      rw (other, without)
        (ground (arith, lookup-without id m.id ms, fresh), without-HasDistinctIds id ms h)
]

append-HasDistinctIds :
    (ms : List SnapshotMetadata) (m : SnapshotMetadata)
    → lookup m.id ms ≡ none
    → HasDistinctIds ms
    → HasDistinctIds (ms ++ m ∷ [])
append-HasDistinctIds [] m fresh h = (refl, tt)
append-HasDistinctIds (n ∷ ms) m fresh (first, h) = (
  ground
      (arith, lookup-append n.id ms m, first, fresh, text_eq_iff n.id m.id, text_eq_iff m.id n.id),
  append-HasDistinctIds ms m (ground (arith, fresh)) h,
)

pub filed-HasDistinctIds :
    (m : SnapshotMetadata) (ms : List SnapshotMetadata)
    → HasDistinctIds ms
    → HasDistinctIds (filed m ms)
filed-HasDistinctIds m ms h =
    append-HasDistinctIds (without m.id ms) m
      (ground (arith, lookup-without m.id m.id ms, text_eq_refl m.id))
      (without-HasDistinctIds m.id ms h)

module _ (P : SnapshotMetadata → Type 0) where
  pub All-without : (id : Text) (ms : List SnapshotMetadata) → All P ms → All P (without id ms)
  unfolding without
  All-without id [] h = tt
  All-without id (m ∷ ms) (p, h) = elim (Bool-cases (text_eq m.id id)) [
    | inl same ↦ rw (same, without) (All-without id ms h)
    | inr other ↦ rw (other, without) (p, All-without id ms h)
  ]
