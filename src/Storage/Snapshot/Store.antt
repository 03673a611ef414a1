-- ===== src/Storage/Snapshot/Store.antt =====
-- crates/rustbox-storage/src/snapshot.rs and error.rs. The connection is the table `snapshots` with
-- the faults of the statements to come: `some e` makes the next one fail. A row that does not parse
-- makes `unwrap` panic, which poisons the lock. The formats of `chrono` and the conversion of a
-- `u64` by `rusqlite` are the fields of `Formats`.
use rustbox.Prelude.{
  ℕ, ◌-◌, ◌^◌, Text, List, [], ◌∷◌, ◌++◌, Bool, true, false, ◌||◌, ◌&&◌, ◌==◌, Option, none, some,
  Result, ok, err, Exec, lift, ◌>>=◌, map_err, and_then, any, find, ltb, if◌then◌else◌, text_eq,
}
use rustbox.Prelude.Int.{ℤ, pos, negsuc}
use rustbox.Core.Sandbox.{DateTime}
use rustbox.Storage.Snapshot.{SnapshotMetadata}

pub data StorageError : Type 0 where
  snapshot_not_found base_image_not_found database io archive : Text → StorageError

-- A method returns an error, or panics.
pub data Failure : Type 0 where
  error : StorageError → Failure
  panicked : Failure

pub record Row : Type 0 where
  pub id : Text
  pub sandbox_id : Text
  pub created_at : Text
  pub expires_at : Option Text
  pub size_bytes : ℤ
  pub description : Option Text

pub record Connection : Type 0 where
  pub rows : List Row
  pub faults : List (Option Text)
  pub poisoned : Bool

pub record Formats : Type 0 where
  pub to_rfc3339 : DateTime → Text
  pub parse_from_rfc3339 : Text → Option DateTime
  -- `ToSql` of a `u64`, which SQLite keeps in 64 signed bits
  pub to_sql : ℕ → Result Text ℤ

-- `<` on TEXT, byte by byte
unfoldable pub text_lt : Text → Text → Bool
text_lt s [] = false
text_lt [] (b ∷ t) = true
text_lt (a ∷ s) (b ∷ t) = ltb a b || (a == b && text_lt s t)

-- `new_in_memory`, where nothing fails
unfoldable pub new_in_memory : Connection
new_in_memory = record { rows = []; faults = []; poisoned = false }

-- `i64 as u64`
abbrev as_u64 : ℤ → ℕ
as_u64 (pos n) = n
as_u64 (negsuc n) = 2 ^ 64 - n - 1

-- The fault of the next statement, and those after it.
abbrev pub next_fault : List (Option Text) → Option Text
next_fault [] = none
next_fault (fault ∷ faults) = fault

abbrev pub later_faults : List (Option Text) → List (Option Text)
later_faults [] = []
later_faults (fault ∷ faults) = faults

abbrev pub database_error : Text → Failure
database_error e = Failure.error (StorageError.database e)

module _ {A : Type 0} where
  -- A statement reads the table and leaves another, or fails and leaves it as it was.
  abbrev statement : (List Row → A) → (List Row → List Row) → Exec Connection Failure A
  statement result effect c = elim (next_fault c.faults) [
    | none ↦ (ok (result c.rows), record c { rows = effect c.rows; faults = later_faults c.faults })
    | some e ↦ (err (database_error e), record c { faults = later_faults c.faults })
  ]

  abbrev is_panic : Result Failure A → Bool
  is_panic (ok a) = false
  is_panic (err (Failure.error e)) = false
  is_panic (err Failure.panicked) = true

  -- `self.conn.lock().unwrap()` around the method
  abbrev locked : Exec Connection Failure A → Exec Connection Failure A
  locked m c =
      if c.poisoned
      then (err Failure.panicked, c)
      else let (r, c') = m c in (r, record c' { poisoned = is_panic r })

-- `INSERT OR REPLACE` and `DELETE` by the primary key
unfoldable pub delete_rows : Text → List Row → List Row
delete_rows id [] = []
delete_rows id (row ∷ rows) =
    let rest = delete_rows id rows in if text_eq row.id id then rest else row ∷ rest

-- `ORDER BY created_at DESC`
unfoldable insert_desc : Row → List Row → List Row
insert_desc row [] = row ∷ []
insert_desc row (other ∷ rows) =
    let rest = insert_desc row rows in
    if text_lt row.created_at other.created_at then other ∷ rest else row ∷ other ∷ rows

unfoldable pub order_desc : List Row → List Row
unfolding insert_desc text_lt
order_desc [] = []
order_desc (row ∷ rows) = insert_desc row (order_desc rows)

abbrev pub filter : {A : Type 0} → (A → Bool) → List A → List A
filter p [] = []
filter p (x ∷ xs) = let rest = filter p xs in if p x then x ∷ rest else rest

-- `expires_at IS NOT NULL AND expires_at < ?1`
unfoldable pub expires_before : Text → Row → Bool
expires_before now row = elim row.expires_at [ none ↦ false | some t ↦ text_lt t now ]

module _ (formats : Formats) where
  open formats use {to_rfc3339, parse_from_rfc3339, to_sql}

  abbrev pub expiry_text : Option DateTime → Option Text
  expiry_text none = none
  expiry_text (some t) = some (to_rfc3339 t)

  -- `parse_from_rfc3339(&s).unwrap()`, for a column that may be NULL; `none` where it panics
  abbrev pub parse_expiry : Option Text → Option (Option DateTime)
  parse_expiry none = some none
  parse_expiry (some s) = elim (parse_from_rfc3339 s) [ none ↦ none | some t ↦ some (some t) ]

  -- The closure that reads a row.
  unfoldable pub read_row : Row → Result Failure SnapshotMetadata
  read_row row = elim (parse_from_rfc3339 row.created_at) [
    | none ↦ err Failure.panicked
    | some created_at ↦ elim (parse_expiry row.expires_at) [
      | none ↦ err Failure.panicked
      | some expires_at ↦ ok (record {
        id = row.id;
        sandbox_id = row.sandbox_id;
        created_at = created_at;
        expires_at = expires_at;
        size_bytes = as_u64 row.size_bytes;
        description = row.description;
      })
    ]
  ]

  -- The loop over the rows.
  unfoldable pub read_rows : List Row → Result Failure (List SnapshotMetadata)
  unfolding read_row
  read_rows [] = ok []
  read_rows (row ∷ rows) = and_then (read_row row) λ m. and_then (read_rows rows) λ ms. ok (m ∷ ms)

  abbrev pub row_of : SnapshotMetadata → ℤ → Row
  row_of m size = record {
    id = m.id;
    sandbox_id = m.sandbox_id;
    created_at = to_rfc3339 m.created_at;
    expires_at = expiry_text m.expires_at;
    size_bytes = size;
    description = m.description;
  }

  unfoldable pub save : SnapshotMetadata → Exec Connection Failure (Unit {0})
  unfolding delete_rows
  save m = locked (do
    size ← lift (map_err database_error (to_sql m.size_bytes))
    statement (λ rows. tt) (λ rows. delete_rows m.id rows ++ row_of m size ∷ []))

  read_found : Option Row → Result Failure (Option SnapshotMetadata)
  unfolding read_row
  read_found none = ok none
  read_found (some row) = and_then (read_row row) λ m. ok (some m)

  unfoldable pub get : Text → Exec Connection Failure (Option SnapshotMetadata)
  unfolding read_found
  get id = locked (do
    found ← statement (λ rows. find (λ row. text_eq row.id id) rows) (λ rows. rows)
    lift (read_found found))

  abbrev select : (List Row → List Row) → Exec Connection Failure (List SnapshotMetadata)
  select choose = locked (do rows ← statement choose (λ rows. rows); lift (read_rows rows))

  unfoldable pub list_for_sandbox : Text → Exec Connection Failure (List SnapshotMetadata)
  unfolding read_rows order_desc
  list_for_sandbox sandbox_id =
      select (λ rows. order_desc (filter (λ row. text_eq row.sandbox_id sandbox_id) rows))

  unfoldable pub list_all : Exec Connection Failure (List SnapshotMetadata)
  unfolding read_rows order_desc
  list_all = select order_desc

  unfoldable pub delete : Text → Exec Connection Failure Bool
  unfolding delete_rows
  delete id =
      locked (statement (λ rows. any (λ row. text_eq row.id id) rows) (λ rows. delete_rows id rows))

  -- `now` is the clock before the lock is taken.
  unfoldable pub list_expired : DateTime → Exec Connection Failure (List SnapshotMetadata)
  unfolding read_rows expires_before
  list_expired now = select (λ rows. filter (expires_before (to_rfc3339 now)) rows)
