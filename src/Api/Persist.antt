-- ===== src/Api/Persist.antt =====
-- What is persisted after the calls, and what a restart makes of it (src/api/mod.rs, src/pg/mod.rs
-- and src/engine/mod.rs).
use rust_matching_engine.Prelude.{
  ℕ, ◌+◌, ◌^◌, ◌%◌, ◌<◌, ◌≤◌, ◌≡◌, ◌≢◌, refl, sym, subst, ap, ◌∙◌, none, some, List, [], ◌∷◌, ◌++◌,
  append_assoc, true, length, length-append, add64-eq-add, All-map, add64, u64_mod, arith, ok, err,
}
use rust_matching_engine.Domain.Order.{Crypto}
use rust_matching_engine.Events.{SequencedEvent}
use rust_matching_engine.Sequencer.Log.{Numbered}
use rust_matching_engine.Engine.{Engine}
use rust_matching_engine.Replay.{ReplayError, seq_id_gap, start, replay, replay_events}
use rust_matching_engine.Replay.Gaps.{last_number}
use rust_matching_engine.Replay.Holes.{replay-hole}
use rust_matching_engine.Restore.{restore_from_events}
use rust_matching_engine.Restore.Refines.{SameRecords}
use rust_matching_engine.Run.{IsReachable, reachable-IsSafe, restore-SameRecords}
use rust_matching_engine.Pg.{Json, Database, append_events, load_all_events}
use rust_matching_engine.Pg.Holds.{IsCodec, IsTable, Holds, ids}
use rust_matching_engine.Pg.Appends.{append_events-Holds, load_all_events-Holds}
use rust_matching_engine.Api.{SharedState, since, persist_since}
use rust_matching_engine.Api.Since.{
  since-append, since-Has, since-above, since-exact, Numbered-split, Numbered-ids, Numbered-Climbs,
}

module _ (json : Json) (db : Database json.Value) (codec : IsCodec json) (sql : IsTable db) where
  persisted :
      (n : ℕ) (s : SharedState json db) (t : db.Table)
      → s.pg ≡ some t
      → (persist_since json db true none n s).pg
        ≡ some (append_events json db none (since n s.engine.sequencer.log) t).1
  unfolding persist_since
  persisted n s t h = rw h refl

  -- The table of the server holds a front of the engine's log, and the batch begins no later than
  -- where the front ends: after the batch the table holds the whole log.
  batch-Holds :
      (a b : List SequencedEvent) (n : ℕ) (t : db.Table)
      → Numbered 1 (a ++ b)
      → length (a ++ b) < 2 ^ 63
      → n ≤ length a
      → Holds json db codec sql t a
      → Holds json db codec sql (append_events json db none (since n (a ++ b)) t).1 (a ++ b)
  batch-Holds a b n t numbered bound le h =
      let (front, back) = Numbered-split 1 a b numbered in
      let size = length-append a b in
      let batch : since n (a ++ b) ≡ since n a ++ b =
        since-append n a b
        ∙ ap (λ (l : List SequencedEvent). since n a ++ l)
            (since-above n (1 + length a) b back (omega (arith, size, bound))
              (omega (arith, le))) in
      subst
        (λ (l : List SequencedEvent).
          Holds json db codec sql (append_events json db none l t).1 (a ++ b))
        (sym batch)
        (append_events-Holds json db codec sql t a (since n a) b h (since-Has n a) (
          Numbered-Climbs (1 + length a) (ids a) b
            (Numbered-ids 1 a front (omega (arith, size, bound))) back
            (omega (arith, size, bound)))).1

  -- A server whose table holds a front of the log of an engine that calls reach persists a batch that
  -- begins no later than where the front ends, with fewer than 2 ^ 63 events in the log, gets the lock
  -- and an answer from the database, which, as serde_json, does what it documents. Then a restart
  -- loads the whole log, and a restore from it succeeds on whatever engine: it gives the state store,
  -- the log, the next number and the index of this one, and an idempotency table that finds the same
  -- duplicates, with the same sequence number, id and hash, with the markets registered before and
  -- the books that a replay of the log builds. Nothing relates these to the books of this engine, nor
  -- the status in the replies to duplicates.
  pub persist-SameRecords :
      (x : Crypto) (e₀ : Engine) (s : SharedState json db) (a b : List SequencedEvent) (n : ℕ)
      (t : db.Table)
      → IsReachable x s.engine
      → s.engine.sequencer.log ≡ a ++ b
      → s.engine.sequencer.log ≢ []
      → length (a ++ b) < 2 ^ 63
      → n ≤ length a
      → s.pg ≡ some t
      → Holds json db codec sql t a
      → (t' : db.Table) × ((persist_since json db true none n s).pg ≡ some t')
        × (load_all_events json db none t' ≡ ok s.engine.sequencer.log)
        × ((restore_from_events e₀ s.engine.sequencer.log).0 ≡ ok tt)
        × SameRecords e₀ s.engine (restore_from_events e₀ s.engine.sequencer.log).1
  persist-SameRecords x e₀ s a b n t run log some_ bound le kept h =
      let safe = reachable-IsSafe x s.engine run in
      let held =
        batch-Holds a b n t
          (subst (λ (l : List SequencedEvent). Numbered 1 l) log safe.numbered.numbered) bound le
          h in
      let (good, recovers) = restore-SameRecords x e₀ s.engine run some_ in
      (
        _,
        persisted n s t kept,
        rw log (load_all_events-Holds json db codec sql _ (a ++ b) held),
        good,
        recovers,
      )

  last_number-Numbered :
      (first n : ℕ) (a : List SequencedEvent) (se : SequencedEvent)
      → Numbered first (se ∷ a)
      → first + length (se ∷ a) ≤ u64_mod
      → last_number n (se ∷ a) ≡ first + length a
  unfolding Numbered last_number
  last_number-Numbered first n [] se (here, _) k = omega arith
  last_number-Numbered first n (next ∷ a) se (here, rest) k =
      last_number-Numbered (first + 1) se.seq_id a next rest (omega arith) ∙ omega arith

  failed_restore :
      (e₀ : Engine) (se : SequencedEvent) (log : List SequencedEvent) (r : ReplayError)
      → replay (se ∷ log) ≡ err r
      → restore_from_events e₀ (se ∷ log) ≡ (err r, e₀)
  failed_restore e₀ se log r h = unfold restore_from_events in rw (h, restore_from_events) refl

  -- A batch that was not persisted, because the engine was locked, is never made up for: if the table
  -- holds the first events of an engine that calls reach, some events after them were left out and the
  -- next batch is persisted, with fewer than 2 ^ 63 events in the log and a database and a serde_json
  -- that do what they document, then the table holds a log with a hole, and every restart from it is
  -- refused for the gap and changes nothing.
  pub skipped_persist-blocks :
      (x : Crypto) (e₀ : Engine) (s : SharedState json db) (f m k : SequencedEvent)
      (a b c : List SequencedEvent) (t : db.Table)
      → IsReachable x s.engine
      → s.engine.sequencer.log ≡ ((f ∷ a) ++ m ∷ b) ++ k ∷ c
      → length (((f ∷ a) ++ m ∷ b) ++ k ∷ c) < 2 ^ 63
      → s.pg ≡ some t
      → Holds json db codec sql t (f ∷ a)
      → (t' : db.Table) × ((persist_since json db true none (length ((f ∷ a) ++ m ∷ b)) s).pg
          ≡ some t')
        × (load_all_events json db none t' ≡ ok ((f ∷ a) ++ k ∷ c))
        × (restore_from_events e₀ ((f ∷ a) ++ k ∷ c)
            ≡ (err (seq_id_gap (length (f ∷ a) + 1) k.seq_id), e₀))
  skipped_persist-blocks x e₀ s f m k a b c t run log bound kept h =
      let safe = reachable-IsSafe x s.engine run in
      let front = (f ∷ a) ++ m ∷ b in
      let numbered : Numbered 1 (front ++ k ∷ c) =
        subst (λ (l : List SequencedEvent). Numbered 1 l) log safe.numbered.numbered in
      let (before, after) = Numbered-split 1 front (k ∷ c) numbered in
      let (early, _) = Numbered-split 1 (f ∷ a) (m ∷ b) before in
      let size = length-append front (k ∷ c) in
      let part = length-append (f ∷ a) (m ∷ b) in
      let batch : since (length front) s.engine.sequencer.log ≡ k ∷ c =
        ap (since (length front)) log ∙ since-exact front (k ∷ c) numbered (omega (arith, bound)) in
      let held = append_events-Holds json db codec sql t (f ∷ a) [] (k ∷ c) h tt (
        Numbered-Climbs (1 + length front) (ids (f ∷ a)) (k ∷ c)
          (All-map (λ n lt. omega (arith, lt, part)) (ids (f ∷ a))
            (Numbered-ids 1 (f ∷ a) early (omega (arith, size, part, bound))))
          after (omega (arith, size, bound))) in
      let last : last_number 0 (f ∷ a) ≡ 1 + length a =
        last_number-Numbered 1 0 a f early (omega (arith, size, part, bound)) in
      let first : k.seq_id ≡ 1 + length front = number_of after (omega (arith, size, bound)) in
      let jumps : k.seq_id ≢ add64 (last_number 0 (f ∷ a)) 1 = λ z. omega (
        arith,
        z,
        first,
        last,
        part,
        size,
        bound,
        add64-eq-add (1 + length a) 1 (omega (arith, size, part, bound)),
        ap (λ (n : ℕ). add64 n 1) last,
      ) in
      let gap : replay ((f ∷ a) ++ k ∷ c)
          ≡ err (seq_id_gap (add64 (last_number 0 (f ∷ a)) 1) k.seq_id) =
        replay-hole (f ∷ a) ((m ∷ b) ++ k ∷ c) c k safe.recorded.tracked.working
          (ap (λ (l : List SequencedEvent). replay_events l start)
              (sym (log ∙ append_assoc (f ∷ a) (m ∷ b) (k ∷ c)))
            ∙ safe.recorded.tracked.replays)
          (λ z. omega (arith, z, last)) jumps in
      let expected : add64 (last_number 0 (f ∷ a)) 1 ≡ length (f ∷ a) + 1 =
        ap (λ (n : ℕ). add64 n 1) last
        ∙ (add64-eq-add (1 + length a) 1 (omega (arith, size, part, bound)) ∙ omega arith) in
      (
        _,
        persisted (length front) s t kept
            ∙ ap (λ (l : List SequencedEvent). some (append_events json db none l t).1) batch,
        load_all_events-Holds json db codec sql _ ((f ∷ a) ++ k ∷ c) held.1,
        failed_restore e₀ f (a ++ k ∷ c) _
            (gap ∙ ap (λ (n : ℕ). err (seq_id_gap n k.seq_id)) expected),
      )
    where
      number_of : {n : ℕ} → Numbered n (k ∷ c) → n + 1 ≤ u64_mod → k.seq_id ≡ n
      number_of {n} h le =
          let here : k.seq_id ≡ n % u64_mod = unfold Numbered in h.0 in omega (arith, here, le)
