-- ===== src/Pg/Appends.antt =====
-- Appending a batch of events and loading the table (src/pg/mod.rs).
use Prim.Native.String.{String}
use rust_matching_engine.Prelude.{
  ℕ, ◌^◌, ◌<◌, ◌≡◌, refl, sym, subst, ◌∙◌, none, some, List, [], ◌∷◌, ◌++◌, append_assoc,
  append-nil, All, Has, ok,
}
use rust_matching_engine.Events.{SequencedEvent}
use rust_matching_engine.Pg.{Json, Database, insert_events, append_events, load_all_events}
use rust_matching_engine.Pg.Holds.{
  IsCodec, IsTable, Holds, Climbs, ids, row, row_of-row, insert-old, insert-new, map-append_one,
}

module _ (json : Json) (db : Database json.Value) (codec : IsCodec json) (sql : IsTable db) where
  abbrev HoldsLog : db.Table → List SequencedEvent → Type 0
  HoldsLog t log = Holds json db codec sql t log

  insert_one :
      (t : db.Table) (se : SequencedEvent) (log : List SequencedEvent)
      → insert_events json db (se ∷ log) t
        ≡ insert_events json db log (db.insert_or_ignore t (row json db codec sql se))
  unfolding insert_events
  insert_one t se log = rw (row_of-row json db codec sql se) refl

  -- A batch of events: those that the table holds already, and those that are above them.
  pub insert_events-Holds :
      (t : db.Table) (log old new : List SequencedEvent)
      → HoldsLog t log
      → All (λ (se : SequencedEvent). Has (ids log) se.seq_id) old
      → Climbs (ids log) new
      → (t' : db.Table) × (insert_events json db (old ++ new) t ≡ ok t') × HoldsLog t' (log ++ new)
  insert_events-Holds t log [] [] h _ _ =
      (t, unfold insert_events in refl, subst (HoldsLog t) (sym (append-nil log)) h)
  insert_events-Holds t log (se ∷ old) new h (here, rest) c =
      let (t', done, held) =
        insert_events-Holds (db.insert_or_ignore t (row json db codec sql se)) log old new
          (insert-old json db codec sql t log se here h) rest c in
      (t', insert_one t se (old ++ new) ∙ done, held)
  insert_events-Holds t log [] (se ∷ new) h _ c =
      let (above, small, more) = climbs c in
      let (t', done, held) =
        insert_events-Holds (db.insert_or_ignore t (row json db codec sql se)) (log ++ se ∷ []) []
          new (insert-new json db codec sql t log se above small h) tt
          (subst (λ (l : List ℕ). Climbs l new)
            (sym (map-append_one (λ (e : SequencedEvent). e.seq_id) log se)) more) in
      (t', insert_one t se new ∙ done, subst (HoldsLog t') (append_assoc log (se ∷ []) new) held)
    where
      climbs :
          Climbs (ids log) (se ∷ new)
          → All (λ (n : ℕ). n < se.seq_id) (ids log)
            × (se.seq_id < 2 ^ 63)
            × Climbs (ids log ++ se.seq_id ∷ []) new
      climbs k = unfold Climbs in k

  -- Persisting a batch of which the table holds a part already, the rest being above what it holds,
  -- succeeds if the database does, and then the table holds its log and the rest.
  pub append_events-Holds :
      (t : db.Table) (log old new : List SequencedEvent)
      → HoldsLog t log
      → All (λ (se : SequencedEvent). Has (ids log) se.seq_id) old
      → Climbs (ids log) new
      → ((append_events json db none (old ++ new) t).0 ≡ ok tt)
        × HoldsLog (append_events json db none (old ++ new) t).1 (log ++ new)
  append_events-Holds t log [] [] h _ _ =
      unfold append_events in (refl, subst (HoldsLog t) (sym (append-nil log)) h)
  append_events-Holds t log (se ∷ old) new h known c =
      let (t', done, held) = insert_events-Holds t log (se ∷ old) new h known c in
      unfold append_events in rw (done, append_events) (refl, held)
  append_events-Holds t log [] (se ∷ new) h known c =
      let (t', done, held) = insert_events-Holds t log [] (se ∷ new) h known c in
      unfold append_events in rw (done, append_events) (refl, held)

  -- What the table holds is what a load gives.
  pub load_all_events-Holds :
      (t : db.Table) (log : List SequencedEvent)
      → HoldsLog t log
      → load_all_events json db none t ≡ ok log
  unfolding load_all_events
  load_all_events-Holds t log h = h.decoded

  -- A call that the database refuses leaves the table as it was.
  pub append_events-refused :
      (t : db.Table) (log : List SequencedEvent) (e : String)
      → (append_events json db (some e) log t).1 ≡ t
  unfolding append_events
  append_events-refused t [] e = refl
  append_events-refused t (se ∷ log) e = refl
