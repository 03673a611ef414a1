-- ===== src/Storage/Snapshot/Refinement.antt =====
-- The table of crates/rustbox-storage/src/snapshot.rs keeps a shelf: the statements, with the texts
-- and numbers that they store, do what the shelf does.
use rustbox.Prelude.{
  ℕ, All, ◌*◌, ◌^◌, ◌<◌, ◌≤◌, Text, List, [], ◌∷◌, ◌++◌, Bool, true, false, Option, none, some, ok,
  err, map, find, any, text_eq, ◌≡◌, refl, sym, ap, arith, Bool-cases, Option-cases, inl, inr,
}
use rustbox.Prelude.Int.{pos}
use rustbox.Core.Sandbox.{DateTime}
use rustbox.Storage.Snapshot.{SnapshotMetadata}
use rustbox.Storage.Snapshot.Shelf.{lookup, without, filed}
use rustbox.Storage.Snapshot.Store.{
  database_error, parse_expiry, expiry_text, Row, Connection, Formats, next_fault, later_faults,
  row_of, read_row, read_rows, delete_rows, save, get, delete,
}

-- The first date whose year has five digits, in nanoseconds: RFC 3339 has four.
abbrev pub year_10000 : DateTime
year_10000 = 253402300800 * 10 ^ 9

-- The dates of the snapshot lie before then.
pub record IsDated (m : SnapshotMetadata) : Type 0 where
  pub created : m.created_at < year_10000
  pub expiry : (t : DateTime) → m.expires_at ≡ some t → t < year_10000

-- What the packages promise: a date that was printed parses, and a `u64` is stored if it fits.
pub record AreFaithful (formats : Formats) : Type 0 where
  pub parses :
      (t : DateTime) → t < year_10000 → formats.parse_from_rfc3339 (formats.to_rfc3339 t) ≡ some t
  pub stores : (n : ℕ) → n < 2 ^ 63 → formats.to_sql n ≡ ok (pos n)
  pub refuses : (n : ℕ) → 2 ^ 63 ≤ n → (e : Text) × (formats.to_sql n ≡ err e)

module _ (formats : Formats) where
  abbrev pub written : SnapshotMetadata → Row
  written m = row_of formats m (pos m.size_bytes)

  -- The connection whose table holds these snapshots.
  abbrev pub table : List SnapshotMetadata → List (Option Text) → Connection
  table ms faults = record { rows = map written ms; faults = faults; poisoned = false }

  delete_rows-written :
      (id : Text) (ms : List SnapshotMetadata)
      → delete_rows id (map written ms) ≡ map written (without id ms)
  unfolding delete_rows without
  delete_rows-written id [] = refl
  delete_rows-written id (m ∷ ms) = elim (Bool-cases (text_eq m.id id)) [
    | inl same ↦ rw same (delete_rows-written id ms)
    | inr other ↦ rw other (ap (λ rows. written m ∷ rows) (delete_rows-written id ms))
  ]

  map-append :
      (ms : List SnapshotMetadata) (m : SnapshotMetadata)
      → map written (ms ++ m ∷ []) ≡ map written ms ++ written m ∷ []
  map-append [] m = refl
  map-append (n ∷ ms) m = ap (λ rows. written n ∷ rows) (map-append ms m)

  abbrev found_row : Option SnapshotMetadata → Option Row
  found_row none = none
  found_row (some m) = some (written m)

  find-written :
      (id : Text) (ms : List SnapshotMetadata)
      → find (λ row. text_eq row.id id) (map written ms) ≡ found_row (lookup id ms)
  find-written id [] = refl
  find-written id (m ∷ ms) = ground (arith, find-written id ms)

  abbrev pub is_some : Option SnapshotMetadata → Bool
  is_some none = false
  is_some (some m) = true

  any-written :
      (id : Text) (ms : List SnapshotMetadata)
      → any (λ row. text_eq row.id id) (map written ms) ≡ is_some (lookup id ms)
  any-written id [] = refl
  any-written id (m ∷ ms) = ground (arith, any-written id ms)

  module _ (faithful : AreFaithful formats) where
    parse_expiry-expiry_text :
        (o : Option DateTime)
        → ((t : DateTime) → o ≡ some t → t < year_10000)
        → parse_expiry formats (expiry_text formats o) ≡ some o
    parse_expiry-expiry_text none dated = refl
    parse_expiry-expiry_text (some t) dated = rw (faithful.parses t (dated t refl)) refl

    pub read_row-written : (m : SnapshotMetadata) → IsDated m → read_row formats (written m) ≡ ok m
    unfolding read_row
    read_row-written m dated =
        rw
          (
            read_row,
            faithful.parses m.created_at dated.created,
            parse_expiry-expiry_text m.expires_at dated.expiry,
          )
          refl

    pub read_rows-written :
        (ms : List SnapshotMetadata) → All IsDated ms → read_rows formats (map written ms) ≡ ok ms
    unfolding read_rows
    read_rows-written [] dated = refl
    read_rows-written (m ∷ ms) (dated, later) =
        rw (read_row-written m dated, read_rows-written ms later) refl

    -- What the statements do to a table, with and without a fault.
    pub get-table :
        (id : Text) (ms : List SnapshotMetadata) (faults : List (Option Text))
        → ((m : SnapshotMetadata) → lookup id ms ≡ some m → IsDated m)
        → next_fault faults ≡ none
        → get formats id (table ms faults) ≡ (ok (lookup id ms), table ms (later_faults faults))
    unfolding get
    get-table id ms faults dated quiet = elim (Option-cases (lookup id ms)) [
      | inl missing ↦ rw (quiet, find-written id ms, missing) refl
      | inr (m, e) ↦ rw (quiet, find-written id ms, e, read_row-written m (dated m e)) refl
    ]

    pub save-table :
        (m : SnapshotMetadata) (ms : List SnapshotMetadata) (faults : List (Option Text))
        → m.size_bytes < 2 ^ 63
        → next_fault faults ≡ none
        → save formats m (table ms faults) ≡ (ok tt, table (filed m ms) (later_faults faults))
    unfolding save
    save-table m ms faults fits quiet =
        rw (faithful.stores m.size_bytes fits, quiet, delete_rows-written m.id ms)
          (ap
            (λ rows.
              (ok tt, record { rows = rows; faults = later_faults faults; poisoned = false }))
            (sym (map-append (without m.id ms) m)))

    pub save-fault :
        (m : SnapshotMetadata) (ms : List SnapshotMetadata) (faults : List (Option Text)) (e : Text)
        → m.size_bytes < 2 ^ 63
        → next_fault faults ≡ some e
        → save formats m (table ms faults)
          ≡ (err (database_error e), table ms (later_faults faults))
    unfolding save
    save-fault m ms faults e fits fault = rw (faithful.stores m.size_bytes fits, fault) refl

    pub save-large :
        (m : SnapshotMetadata) (ms : List SnapshotMetadata) (faults : List (Option Text))
        → 2 ^ 63 ≤ m.size_bytes
        → (save formats m (table ms faults)).1 ≡ table ms faults
    unfolding save
    save-large m ms faults large =
        let (e, refused) = faithful.refuses m.size_bytes large in rw refused refl

  pub delete-table :
      (id : Text) (ms : List SnapshotMetadata) (faults : List (Option Text))
      → next_fault faults ≡ none
      → delete formats id (table ms faults)
        ≡ (ok (is_some (lookup id ms)), table (without id ms) (later_faults faults))
  unfolding delete
  delete-table id ms faults quiet = rw (quiet, any-written id ms, delete_rows-written id ms) refl

  pub delete-fault :
      (id : Text) (ms : List SnapshotMetadata) (faults : List (Option Text)) (e : Text)
      → next_fault faults ≡ some e
      → delete formats id (table ms faults)
        ≡ (err (database_error e), table ms (later_faults faults))
  unfolding delete
  delete-fault id ms faults e fault = rw fault refl
