-- ===== src/Replay/Holes.antt =====
-- A log with a hole is refused at the hole (src/replay/mod.rs).
use rust_matching_engine.Prelude.{
  ℕ, ◌≡◌, ◌≢◌, refl, sym, ap, ◌∙◌, inl, inr, List, [], ◌∷◌, ◌++◌, true, not, ◌&&◌, ◌==◌, add64,
  Result-cases, ok, err, arith,
}
use rust_matching_engine.Events.{SequencedEvent}
use rust_matching_engine.Replay.{Working, seq_id_gap, start, replay_event, replay_events, replay}
use rust_matching_engine.Replay.Gaps.{last_number, replay_events-Contiguous}

replay_events-front :
    (a b : List SequencedEvent) (w w' : Working)
    → replay_events (a ++ b) w ≡ ok w'
    → (v : Working) × (replay_events a w ≡ ok v)
unfolding replay_events
replay_events-front [] b w w' h = (w, refl)
replay_events-front (se ∷ a) b w w' h = elim (Result-cases (replay_event se w)) [
  | inr (e, failed) ↦ cc (rw failed at h)
  | inl (v, done) ↦ rw done (replay_events-front a b v w' (rw done at h))
]

replay_events-after :
    (a b : List SequencedEvent) (w v : Working)
    → replay_events a w ≡ ok v
    → replay_events (a ++ b) w ≡ replay_events b v
unfolding replay_events
replay_events-after [] b w v h = let same : w ≡ v = cc h in ap (replay_events b) same
replay_events-after (se ∷ a) b w v h = elim (Result-cases (replay_event se w)) [
  | inr (e, failed) ↦ cc (rw failed at h)
  | inl (u, done) ↦ rw done (replay_events-after a b u v (rw done at h))
]

replay_events-gap :
    (se : SequencedEvent) (log : List SequencedEvent) (w : Working)
    → w.last_seq_id ≢ 0
    → se.seq_id ≢ add64 w.last_seq_id 1
    → replay_events (se ∷ log) w ≡ err (seq_id_gap (add64 w.last_seq_id 1) se.seq_id)
unfolding replay_events replay_event
replay_events-gap se log w started jumps =
    let gap : (not (w.last_seq_id == 0) && not (se.seq_id == add64 w.last_seq_id 1)) ≡ true =
      ground arith in
    rw gap refl

-- A log that replays, with a part in its middle left out, is refused: the event after the hole is not
-- the expected one, unless the number before the hole is 0 or the numbers happen to follow.
pub replay-hole :
    (a b c : List SequencedEvent) (se : SequencedEvent) (w : Working)
    → replay_events (a ++ b) start ≡ ok w
    → last_number 0 a ≢ 0
    → se.seq_id ≢ add64 (last_number 0 a) 1
    → replay (a ++ se ∷ c) ≡ err (seq_id_gap (add64 (last_number 0 a) 1) se.seq_id)
replay-hole a b c se w h started jumps =
    let (v, done) = replay_events-front a b start w h in
    let last : v.last_seq_id ≡ last_number 0 a =
      (replay_events-Contiguous a start v done).1 ∙ (unfold start in refl) in
    let refused : replay_events (a ++ se ∷ c) start
        ≡ err (seq_id_gap (add64 v.last_seq_id 1) se.seq_id) =
      replay_events-after a (se ∷ c) start v done
      ∙ replay_events-gap se c v (λ z. started (sym last ∙ z))
          (λ z. jumps (z ∙ ap (λ (n : ℕ). add64 n 1) last)) in
    unfold replay in
    rw (refused, replay) (ap (λ (n : ℕ). err (seq_id_gap (add64 n 1) se.seq_id)) last)
