-- ===== src/Restore/Refines.antt =====
-- What a restored engine has in common with the engine that wrote the log (src/engine/mod.rs).
use rust_matching_engine.Prelude.{◌≡◌, ◌≢◌, refl, sym, List, [], ◌∷◌, ok}
use rust_matching_engine.Domain.Market.{Str}
use rust_matching_engine.Events.{SequencedEvent}
use rust_matching_engine.Sequencer.{resume, idempotency_check}
use rust_matching_engine.Sequencer.Restart.{answer}
use rust_matching_engine.Engine.{Engine}
use rust_matching_engine.Replay.{ReplayResult, replay}
use rust_matching_engine.Replay.Recovery.{IsRecorded, replay-rebuilds}
use rust_matching_engine.Restore.{restore_index, restore_from_events}
use rust_matching_engine.Restore.Follows.{IsResumable, next_of}

-- The two engines have the same state store, log, next number and index, and their idempotency tables
-- find the same duplicates, with the same sequence number, id and hash. The markets are those that
-- were registered before, and the books are those that a replay of the log builds. Nothing relates
-- them to the books of the earlier engine, nor the status in the replies to a duplicate, which the
-- engine reads from a book.
pub record SameRecords (e₀ e e' : Engine) : Type 0 where
  pub state : e'.state ≡ e.state
  pub log : e'.sequencer.log ≡ e.sequencer.log
  pub next : e'.sequencer.next_seq_id ≡ e.sequencer.next_seq_id
  pub index : e'.order_market_index ≡ e.order_market_index
  pub markets : e'.markets ≡ e₀.markets
  pub books : (r : ReplayResult) × (replay e.sequencer.log ≡ ok r) × (e'.books ≡ r.books)
  pub answers :
      (trader client : Str)
      → answer (idempotency_check e'.sequencer trader client)
        ≡ answer (idempotency_check e.sequencer trader client)

restored :
    (e₀ : Engine) (log : List SequencedEvent) (r : ReplayResult)
    → log ≢ []
    → replay log ≡ ok r
    → restore_from_events e₀ log ≡ (
      ok tt,
      record e₀ {
        books = r.books;
        state = r.state;
        order_market_index = restore_index [] log;
        sequencer = resume (next_of log 1) log;
      },
    )
unfolding restore_from_events
restored e₀ [] r some_ h = absurd (some_ refl)
restored e₀ (se ∷ log) r some_ h = rw (h, restore_from_events) refl

pub restored-SameRecords :
    (e₀ e : Engine)
    → e.sequencer.log ≢ []
    → IsRecorded e
    → IsResumable e.sequencer e.order_market_index
    → ((restore_from_events e₀ e.sequencer.log).0 ≡ ok tt)
      × SameRecords e₀ e (restore_from_events e₀ e.sequencer.log).1
restored-SameRecords e₀ e some_ rec res =
    let (r, good, state) = replay-rebuilds e rec in
    rw (restored e₀ e.sequencer.log r some_ good) (
      refl,
      record {
        state = state;
        log = unfold resume in refl;
        next = unfold resume in sym res.next;
        index = res.index_same;
        markets = refl;
        books = (r, good, refl);
        answers =
            λ trader client. unfold resume idempotency_check in res.answers.same (trader, client);
      },
    )
