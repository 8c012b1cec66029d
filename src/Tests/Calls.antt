-- ===== src/Tests/Calls.antt =====
-- The theorems on calls and runs, at a run of an ask and a bid that trades with it.
use rust_matching_engine.Prelude.{
  ◌≡◌, ◌≢◌, ◌<◌, [], ◌∷◌, some, none, true, false, ok, err, arith, length, refl, ◌⊎◌, ◌+◌, List,
  All, Result,
}
use rust_matching_engine.HashMap.{bytes_key, pair_key}
use rust_matching_engine.HashMap
use rust_matching_engine.Prelude
use rust_matching_engine.Sequencer.{IdempotencyRecord, idempotency_check}
use rust_matching_engine.Sequencer.Log.{IsNumbered, new-IsNumbered}
use rust_matching_engine.StateStore
use rust_matching_engine.StateStore.{last_nonce}
use rust_matching_engine.Events.{
  SequencedEvent, order_accepted, order_cancelled, market_paused, admin_force,
}
use rust_matching_engine.Engine.{
  OrderResult, find_order, new_order, with_clock, add_market, process_order, process_cancel,
}
use rust_matching_engine.Domain.Order.{Order, filled}
use rust_matching_engine.Engine.Validity.{IsValid}
use rust_matching_engine.Engine.Submit.{Keeps, process_order-Keeps}
use rust_matching_engine.Engine.Cancel.{process_cancel-Keeps}
use rust_matching_engine.Engine.History.{
  process_order_gates, resubmission, process_order-IsNumbered,
}
use rust_matching_engine.Replay.{ReplayError, ReplayResult, replay, seq_id_gap}
use rust_matching_engine.Replay.Gaps.{Consecutive, IsPositive, replay-Consecutive, replay-no_gap}
use rust_matching_engine.Replay.Recovery.{IsRecorded}
use rust_matching_engine.Run.{
  IsReachable, begin, then_, register, submit, IsSafe, reachable-IsSafe, replay-recovers,
}
use rust_matching_engine.Tests.Sample.{
  alice, bob, market, config, crypto, inputs, engine, ask, bid, answer_of, ask_call, after_ask,
  bid_call, after_bid, ask_accepted, bid_accepted, no_order, no_second_order, bid-valid_again,
}

pub engine-IsReachable : IsReachable crypto engine
engine-IsReachable = then_ with_clock engine begin (register config)

pub after_ask-IsReachable : IsReachable crypto after_ask
after_ask-IsReachable =
    then_ engine after_ask engine-IsReachable (
      submit (inputs 1) ask after_ask (ok (answer_of ask_call)) no_order (omega arith) ask_accepted)

pub after_bid-IsReachable : IsReachable crypto after_bid
after_bid-IsReachable = then_ after_ask after_bid after_ask-IsReachable (
    submit (inputs 2) bid after_bid (ok (answer_of bid_call)) no_second_order (omega arith)
      bid_accepted)

reachable-IsSafe_example : IsSafe after_bid
reachable-IsSafe_example = reachable-IsSafe crypto after_bid after_bid-IsReachable

replay-recovers_example :
    (r : ReplayResult) × (replay after_bid.sequencer.log ≡ ok r) × (r.state ≡ after_bid.state)
replay-recovers_example = replay-recovers crypto after_bid after_bid-IsReachable

pub after_ask-IsValid : IsValid after_ask
after_ask-IsValid = (reachable-IsSafe crypto after_ask after_ask-IsReachable).valid

process_order-Keeps_example : Keeps (process_order crypto (inputs 2) bid after_ask)
process_order-Keeps_example =
    process_order-Keeps crypto (inputs 2) bid after_ask after_ask-IsValid no_second_order
      (omega arith)

process_cancel-Keeps_example : Keeps (process_cancel (inputs 3) (1 ∷ []) alice after_ask)
process_cancel-Keeps_example =
    process_cancel-Keeps (inputs 3) (1 ∷ []) alice after_ask after_ask-IsValid

process_order_gates_example :
    (rec : IdempotencyRecord) × (idempotency_check after_bid.sequencer bob (3 ∷ []) ≡ some rec)
    × (rec.original_seq_id ≡ (answer_of bid_call).seq_id)
    × (rec.order_id ≡ (answer_of bid_call).order_id)
    × (rec.order_hash ≡ (answer_of bid_call).order_hash)
    × ((((answer_of bid_call).is_duplicate ≡ true) × (after_bid ≡ after_ask))
        ⊎ (((answer_of bid_call).is_duplicate ≡ false)
            × (last_nonce after_ask.state bob < 1)
            × (last_nonce after_bid.state bob ≡ 1)))
process_order_gates_example =
    process_order_gates crypto (inputs 2) bid after_ask after_bid (answer_of bid_call) bid_accepted

resubmission_example :
    (again : OrderResult) × (process_order crypto (inputs 7) bid after_bid
      ≡ some (ok again, after_bid))
    × (again.is_duplicate ≡ true)
    × (again.seq_id ≡ (answer_of bid_call).seq_id)
    × (again.order_id ≡ (answer_of bid_call).order_id)
    × (again.order_hash ≡ (answer_of bid_call).order_hash)
    × (again.fills ≡ [])
    × ((o : Order)
        → find_order after_bid (answer_of bid_call).order_id ≡ some o
        → again.final_status ≡ o.status)
    × (find_order after_bid (answer_of bid_call).order_id ≡ none → again.final_status ≡ filled)
resubmission_example =
    resubmission crypto (inputs 2) (inputs 7) bid after_ask after_bid (answer_of bid_call)
      bid_accepted bid-valid_again

engine-IsNumbered : IsNumbered engine.sequencer
engine-IsNumbered = unfold add_market with_clock in new-IsNumbered

after_ask-IsNumbered : IsNumbered after_ask.sequencer
after_ask-IsNumbered =
    process_order-IsNumbered crypto (inputs 1) ask engine after_ask (ok (answer_of ask_call))
      ask_accepted engine-IsNumbered

replay-no_gap_example : replay after_ask.sequencer.log ≢ err (seq_id_gap 2 3)
replay-no_gap_example = replay-no_gap after_ask.sequencer 2 3 after_ask-IsNumbered

-- The end of a log, from its fourth event on: an order, its cancel and a pause of the market.
abbrev log_end : List SequencedEvent
log_end =
    record {
      seq_id = 5;
      timestamp_ms = 1005;
      event =
          order_cancelled (new_order crypto (inputs 4) 4 ask).order_id
            (new_order crypto (inputs 4) 4 ask).order_hash admin_force;
    }
    ∷ record { seq_id = 6; timestamp_ms = 1006; event = market_paused market alice }
    ∷ []

abbrev log_start : SequencedEvent
log_start = record {
  seq_id = 4;
  timestamp_ms = 1004;
  event = order_accepted (new_order crypto (inputs 4) 4 ask);
}

replay_value : Result ReplayError ReplayResult → ReplayResult
replay_value (ok r) = r
replay_value (err e) = record {
  books = [];
  state = StateStore.new;
  last_seq_id = 0;
  event_count = 0;
}

log_end-replays : replay (log_start ∷ log_end) ≡ ok (replay_value (replay (log_start ∷ log_end)))
unfolding replay replay_value Prelude.add64 HashMap.get HashMap.insert HashMap.bytes_eq new_order
log_end-replays = refl

log-IsPositive : All IsPositive (log_start ∷ log_end)
log-IsPositive =
    ((omega arith, omega arith), ((omega arith, omega arith), ((omega arith, omega arith), tt)))

replay-Consecutive_example :
    Consecutive 4 (log_start ∷ log_end)
    × ((replay_value (replay (log_start ∷ log_end))).last_seq_id ≡ 4 + length log_end)
    × ((replay_value (replay (log_start ∷ log_end))).event_count ≡ length log_end + 1)
replay-Consecutive_example =
    replay-Consecutive log_start log_end (replay_value (replay (log_start ∷ log_end)))
      log-IsPositive log_end-replays

after_ask-IsRecorded : IsRecorded after_ask
after_ask-IsRecorded = (reachable-IsSafe crypto after_ask after_ask-IsReachable).recorded
