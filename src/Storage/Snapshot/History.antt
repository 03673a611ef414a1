-- ===== src/Storage/Snapshot/History.antt =====
-- Any sequence of writes to the store of crates/rustbox-storage/src/snapshot.rs, with any faults of
-- the database between them.
use rustbox.Prelude.{
  ◌^◌, Text, List, [], ◌∷◌, Bool, true, false, Option, none, some, if◌then◌else◌, ltb, text_eq, ◌≡◌,
  ap, ◌∙◌, arith, Bool-cases, Option-cases, inl, inr,
}
use rustbox.Storage.Snapshot.{SnapshotMetadata}
use rustbox.Storage.Snapshot.Shelf.{
  Shelf, lookup, without, filed, put, take_off, lookup-without, lookup-filed, HasDistinctIds,
  filed-HasDistinctIds, without-HasDistinctIds,
}
use rustbox.Storage.Snapshot.Store
use rustbox.Storage.Snapshot.Store.{Connection, Formats, next_fault, later_faults}
use rustbox.Storage.Snapshot.Refinement.{
  AreFaithful, table, save-table, save-fault, save-large, delete-table, delete-fault,
}

pub data Write : Type 0 where
  save : SnapshotMetadata → Write
  delete : Text → Write

module _ (formats : Formats) where
  unfoldable pub perform : Write → Connection → Connection
  perform (Write.save m) c = (Store.save formats m c).1
  perform (Write.delete id) c = (Store.delete formats id c).1

  unfoldable pub history : List Write → Connection → Connection
  unfolding perform
  history [] c = c
  history (w ∷ ws) c = history ws (perform w c)

abbrev pub change_of : Write → Shelf → Shelf
change_of (Write.save m) = put m
change_of (Write.delete id) = take_off id

-- Whether a write reaches the database: `rusqlite` refuses sizes of 2^63 and more.
abbrev pub is_sent : Write → Bool
is_sent (Write.save m) = ltb m.size_bytes (2 ^ 63)
is_sent (Write.delete id) = true

-- The faults that are left and the shelf, after a write of which a fault leaves nothing.
abbrev pub on_shelf :
    Bool → Option Text → Write → List (Option Text) × Shelf → List (Option Text) × Shelf
on_shelf false fault w (faults, shelf) = (faults, shelf)
on_shelf true none w (faults, shelf) = (later_faults faults, change_of w shelf)
on_shelf true (some e) w (faults, shelf) = (later_faults faults, shelf)

unfoldable pub shelf_after : List Write → List (Option Text) × Shelf → List (Option Text) × Shelf
shelf_after [] state = state
shelf_after (w ∷ ws) state = shelf_after ws (on_shelf (is_sent w) (next_fault state.0) w state)

module _ (formats : Formats) (faithful : AreFaithful formats) where
  -- One write, on the table and on the shelf.
  pub record Holds (c : Connection) (state : List (Option Text) × Shelf) : Type 0 where
    pub ms : List SnapshotMetadata
    pub held : c ≡ table formats ms state.0
    pub same : (id : Text) → lookup id ms ≡ state.1 id
    pub distinct : HasDistinctIds ms

  perform-Holds :
      (w : Write) (c : Connection) (state : List (Option Text) × Shelf)
      → Holds c state
      → Holds (perform formats w c) (on_shelf (is_sent w) (next_fault state.0) w state)
  unfolding perform
  perform-Holds (Write.save m) c (faults, shelf) h =
      let saved = ap (λ c. (Store.save formats m c).1) h.held in
      elim (Bool-cases (ltb m.size_bytes (2 ^ 63))) [
        | inr large ↦ rw large (record {
          ms = h.ms;
          held = saved ∙ save-large formats faithful m h.ms faults (ground (arith, large));
          same = h.same;
          distinct = h.distinct;
        })
        | inl small ↦ elim (Option-cases (next_fault faults)) [
          | inl quiet ↦
              rw (small, quiet)
                (record {
                  ms = filed m h.ms;
                  held =
                      saved
                      ∙ ap (λ p. p.1)
                          (save-table formats faithful m h.ms faults (ground (arith, small)) quiet);
                  same = λ id.
                      lookup-filed id m h.ms
                      ∙ ap (λ o. if text_eq m.id id then some m else o) (h.same id);
                  distinct = filed-HasDistinctIds m h.ms h.distinct;
                })
          | inr (e, fault) ↦
              rw (small, fault)
                (record {
                  ms = h.ms;
                  held =
                      saved
                      ∙ ap (λ p. p.1)
                          (save-fault formats faithful m h.ms faults e (ground (arith, small))
                            fault);
                  same = h.same;
                  distinct = h.distinct;
                })
        ]
      ]
  perform-Holds (Write.delete id) c (faults, shelf) h =
      let deleted = ap (λ c. (Store.delete formats id c).1) h.held in
      elim (Option-cases (next_fault faults)) [
        | inl quiet ↦ rw quiet (record {
          ms = without id h.ms;
          held = deleted ∙ ap (λ p. p.1) (delete-table formats id h.ms faults quiet);
          same =
              λ j. lookup-without id j h.ms ∙ ap (λ o. if text_eq id j then none else o) (h.same j);
          distinct = without-HasDistinctIds id h.ms h.distinct;
        })
        | inr (e, fault) ↦ rw fault (record {
          ms = h.ms;
          held = deleted ∙ ap (λ p. p.1) (delete-fault formats id h.ms faults e fault);
          same = h.same;
          distinct = h.distinct;
        })
      ]

  pub history-Holds :
      (ws : List Write) (c : Connection) (state : List (Option Text) × Shelf)
      → Holds c state
      → Holds (history formats ws c) (shelf_after ws state)
  unfolding history shelf_after
  history-Holds [] c state h = h
  history-Holds (w ∷ ws) c state h =
      history-Holds ws (perform formats w c) _ (perform-Holds w c state h)
