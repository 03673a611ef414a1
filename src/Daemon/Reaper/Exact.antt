-- ===== src/Daemon/Reaper/Exact.antt =====
-- What a run of the reaper of crates/rustbox-daemon/src/reaper.rs leaves in the store.
use rustbox.Prelude.{
  ℕ, ◌+◌, ◌<◌, All, ◌^◌, Text, List, [], ◌∷◌, Bool, false, Option, none, some, ok, map, any, ltb,
  if◌then◌else◌, text_eq, text_eq_iff, ◌≡◌, refl, sym, ap, ◌∙◌, arith, Bool-cases, Option-cases,
  inl, inr,
}
use rustbox.Core.Sandbox.{DateTime}
use rustbox.Storage.Snapshot.{SnapshotMetadata}
use rustbox.Storage.Snapshot.Shelf.{Shelf, lookup, without, lookup-without, HasDistinctIds}
use rustbox.Storage.Snapshot.Store
use rustbox.Storage.Snapshot.Store.{
  Connection, Formats, filter, text_lt, expires_before, new_in_memory,
}
use rustbox.Storage.Snapshot.Refinement.{
  AreFaithful, IsDated, year_10000, table, written, get-table, delete-table, read_rows-written,
}
use rustbox.Storage.Snapshot.History.{Write, history, shelf_after, history-Holds}
use rustbox.Storage.Snapshot.Contents.{Saves, shelf_after-AllFound, All-lookup}
use rustbox.Daemon.Reaper.{reap, reap_once}

-- Whether a snapshot has expired.
abbrev pub is_expired : DateTime → SnapshotMetadata → Bool
is_expired now m = elim m.expires_at [ none ↦ false | some t ↦ ltb t now ]

abbrev pub unless_expired : DateTime → Option SnapshotMetadata → Option SnapshotMetadata
unless_expired now none = none
unless_expired now (some m) = if is_expired now m then none else some m

unless_expired-some :
    (now : DateTime) (o : Option SnapshotMetadata) (m : SnapshotMetadata)
    → unless_expired now o ≡ some m
    → o ≡ some m
unless_expired-some now none m e = e
unless_expired-some now (some n) m e = elim (Bool-cases (is_expired now n)) [
  | inl old ↦ absurd (ground (arith, old, e))
  | inr young ↦ ground (arith, young, e)
]

-- Dates before the year 10000 are printed in their order.
abbrev pub IsChronological : Formats → Type 0
IsChronological formats =
    (s t : DateTime)
    → s < year_10000
    → t < year_10000
    → text_lt (formats.to_rfc3339 s) (formats.to_rfc3339 t) ≡ ltb s t

All-filter :
    (P : SnapshotMetadata → Type 0) (p : SnapshotMetadata → Bool) (ms : List SnapshotMetadata)
    → All P ms
    → All P (filter p ms)
All-filter P p [] h = tt
All-filter P p (m ∷ ms) (hm, h) = elim (Bool-cases (p m)) [
  | inl e ↦ rw e (hm, All-filter P p ms h)
  | inr e ↦ rw e (All-filter P p ms h)
]

-- All of these are taken from the list.
unfoldable without_all : List SnapshotMetadata → List SnapshotMetadata → List SnapshotMetadata
without_all [] ms = ms
without_all (snap ∷ snaps) ms = without_all snaps (without snap.id ms)

lookup-without_all :
    (snaps ms : List SnapshotMetadata) (id : Text)
    → lookup id (without_all snaps ms)
      ≡ (if any (λ s. text_eq s.id id) snaps then none else lookup id ms)
unfolding without_all
lookup-without_all [] ms id = refl
lookup-without_all (snap ∷ snaps) ms id =
    ground (arith, lookup-without_all snaps (without snap.id ms) id, lookup-without snap.id id ms)

-- With one snapshot under each identifier, the expired ones are those that are found expired.
any-filter :
    (p : SnapshotMetadata → Bool) (ms : List SnapshotMetadata) (id : Text)
    → HasDistinctIds ms
    → any (λ s. text_eq s.id id) (filter p ms) ≡ elim (lookup id ms) [ none ↦ false | some m ↦ p m ]
any-filter p [] id h = refl
any-filter p (m ∷ ms) id (fresh, h) = elim (Bool-cases (text_eq m.id id)) [
  | inl same ↦
      let absent : lookup id ms ≡ none =
        ap (λ j. lookup j ms) (sym ((text_eq_iff m.id id).0 same)) ∙ fresh in
      ground (arith, same, absent, any-filter p ms id h)
  | inr other ↦ ground (arith, other, any-filter p ms id h)
]

-- Without faults at the start there are none later.
shelf_after-quiet : (ws : List Write) (shelf : Shelf) → (shelf_after ws ([], shelf)).0 ≡ []
unfolding shelf_after
shelf_after-quiet [] shelf = refl
shelf_after-quiet (Write.delete id ∷ ws) shelf = shelf_after-quiet ws _
shelf_after-quiet (Write.save m ∷ ws) shelf = elim (Bool-cases (ltb m.size_bytes (2 ^ 63))) [
  | inl small ↦ rw (small, shelf_after) (shelf_after-quiet ws _)
  | inr large ↦ rw (large, shelf_after) (shelf_after-quiet ws _)
]

module _ (formats : Formats) where
  reap-table :
      (snaps ms : List SnapshotMetadata) (n : ℕ)
      → (reap formats snaps n (table formats ms [])).1 ≡ table formats (without_all snaps ms) []
  unfolding reap without_all
  reap-table [] ms n = refl
  reap-table (snap ∷ snaps) ms n = elim (Option-cases (lookup snap.id ms)) [
    | inl missing ↦
        rw (reap, delete-table formats snap.id ms [] refl, missing)
          (ap (λ p. (reap formats snaps n p.1).1) (delete-table formats snap.id ms [] refl)
            ∙ reap-table snaps (without snap.id ms) n)
    | inr (m, found) ↦
        rw (reap, delete-table formats snap.id ms [] refl, found)
          (ap (λ p. (reap formats snaps (n + 1) p.1).1) (delete-table formats snap.id ms [] refl)
            ∙ reap-table snaps (without snap.id ms) (n + 1))
  ]

  module _ (faithful : AreFaithful formats) (chronological : IsChronological formats)
      (now : DateTime) (now_in_range : now < year_10000) where
    expires_before-written :
        (m : SnapshotMetadata)
        → IsDated m
        → expires_before (formats.to_rfc3339 now) (written formats m) ≡ is_expired now m
    unfolding expires_before
    expires_before-written m in_range = elim (Option-cases m.expires_at) [
      | inl never ↦ rw never refl
      | inr (t, e) ↦ rw e (chronological t now (in_range.expiry t e) now_in_range)
    ]

    filter-written :
        (ms : List SnapshotMetadata)
        → All IsDated ms
        → filter (expires_before (formats.to_rfc3339 now)) (map (written formats) ms)
          ≡ map (written formats) (filter (is_expired now) ms)
    filter-written [] in_range = refl
    filter-written (m ∷ ms) (in_range, later) = elim (Bool-cases (is_expired now m)) [
      | inl old ↦
          rw (expires_before-written m in_range, old)
            (ap (λ rows. written formats m ∷ rows) (filter-written ms later))
      | inr young ↦ rw (expires_before-written m in_range, young) (filter-written ms later)
    ]

    list_expired-table :
        (ms : List SnapshotMetadata)
        → All IsDated ms
        → Store.list_expired formats now (table formats ms [])
          ≡ (ok (filter (is_expired now) ms), table formats ms [])
    unfolding Store.list_expired
    list_expired-table ms in_range =
        rw
          (
            filter-written ms in_range,
            read_rows-written formats faithful (filter (is_expired now) ms)
                (All-filter IsDated (is_expired now) ms in_range),
          )
          refl

    reap_once-table :
        (ms : List SnapshotMetadata)
        → All IsDated ms
        → (reap_once formats now (table formats ms [])).1
          ≡ table formats (without_all (filter (is_expired now) ms) ms) []
    unfolding reap_once
    reap_once-table ms in_range =
        rw (reap_once, list_expired-table ms in_range)
          (ap (λ p. (reap formats (filter (is_expired now) ms) 0 p.1).1)
              (list_expired-table ms in_range)
            ∙ reap-table (filter (is_expired now) ms) ms 0)

    lookup-left :
        (ms : List SnapshotMetadata) (id : Text)
        → HasDistinctIds ms
        → lookup id (without_all (filter (is_expired now) ms) ms)
          ≡ unless_expired now (lookup id ms)
    lookup-left ms id h = elim (Option-cases (lookup id ms)) [
      | inl missing ↦ ground (
        arith,
        lookup-without_all (filter (is_expired now) ms) ms id,
        any-filter (is_expired now) ms id h,
        missing,
      )
      | inr (m, found) ↦ ground (
        arith,
        lookup-without_all (filter (is_expired now) ms) ms id,
        any-filter (is_expired now) ms id h,
        found,
      )
    ]

    -- A run of the reaper before the year 10000: after any writes of snapshots that were created and
    -- expire before then, or never expire, to an empty store, and while the database does not fail, every snapshot whose
    -- expiry lies before the clock is gone, and every other is answered as before.
    pub reap_once-history :
        (ws : List Write) (id : Text)
        → All (Saves IsDated) ws
        → (Store.get formats id (reap_once formats now (history formats ws new_in_memory)).1).0
          ≡ ok (unless_expired now ((shelf_after ws ([], λ id. none)).1 id))
    unfolding new_in_memory
    reap_once-history ws id saves =
        let h =
          history-Holds formats faithful ws new_in_memory ([], λ j. none)
            (record { ms = []; held = refl; same = λ j. refl; distinct = tt }) in
        let quiet = shelf_after-quiet ws (λ j. none) in
        let held : history formats ws new_in_memory ≡ table formats h.ms [] =
          h.held ∙ ap (table formats h.ms) quiet in
        let kept =
          shelf_after-AllFound IsDated ws [] (λ j. none) saves
            (λ j m found. absurd (ground (arith, found))) in
        let in_range =
          All-lookup IsDated h.ms h.distinct (λ j m found. kept j m (sym (h.same j) ∙ found)) in
        let left = without_all (filter (is_expired now) h.ms) h.ms in
        let left_found : (m : SnapshotMetadata)
            → lookup id left ≡ some m
            → lookup id h.ms ≡ some m =
          λ m e.
            unless_expired-some now (lookup id h.ms) m (sym (lookup-left h.ms id h.distinct) ∙ e) in
        ap (λ c. (Store.get formats id (reap_once formats now c).1).0) held
        ∙ ap (λ c. (Store.get formats id c).0) (reap_once-table h.ms in_range)
        ∙ ap (λ p. p.0)
            (get-table formats faithful id left []
              (λ m e. kept id m (sym (h.same id) ∙ left_found m e)) refl)
        ∙ ap ok (lookup-left h.ms id h.distinct ∙ ap (unless_expired now) (h.same id))
