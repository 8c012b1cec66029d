-- ===== src/Run.antt =====
-- Runs of an engine: the calls of src/engine/mod.rs as steps, and what every run keeps.
use rust_matching_engine.Prelude.{
  ◌≢◌, refl, [], ℕ, ◌<◌, ◌≡◌, subst, Option, none, some, Result, ok, u64_mod,
}
use rust_matching_engine.HashMap.{HashMap, bytes_key}
use rust_matching_engine.HashMap
use rust_matching_engine.Domain.Market.{Str, MarketConfig}
use rust_matching_engine.Domain.Order.{OrderId, SignedOrder, Crypto}
use rust_matching_engine.Engine.{
  Engine, EngineError, OrderResult, CancelError, CancelResult, Inputs, with_clock, add_market,
  process_order, process_cancel,
}
use rust_matching_engine.Engine.Validity.{IsValid, with_clock-IsValid, add_market-IsValid}
use rust_matching_engine.Engine.Submit.{Keeps, process_order-Keeps}
use rust_matching_engine.Engine.Cancel.{process_cancel-Keeps}
use rust_matching_engine.Engine.Trace.{process_order-At, process_cancel-At}
use rust_matching_engine.Sequencer.Restart.{answer, new-IsRestorable}
use rust_matching_engine.Sequencer.{resume, idempotency_check}
use rust_matching_engine.Restore.{restore_index, restore_from_events}
use rust_matching_engine.Restore.Follows.{IsResumable, IsResumable-FollowsLog}
use rust_matching_engine.Restore.Refines.{SameRecords, restored-SameRecords}
use rust_matching_engine.Sequencer
use rust_matching_engine.Events.{Event}
use rust_matching_engine.Domain.Market.{MarketStatus}
use rust_matching_engine.Replay.Tracks.{IsTracked}
use rust_matching_engine.Admin.{set_status, pause_market, resume_market, cancel_all_orders}
use rust_matching_engine.Admin.CancelAll.{cancel_all_orders-IsValid}
use rust_matching_engine.Admin.Trace.{
  pause_market-keeps, resume_market-keeps, set_status-IsValid, set_status-At, cancel_all_orders-At,
}
use rust_matching_engine.Engine.Trace.{IsStatus}
use rust_matching_engine.Sequencer.Log.{IsNumbered, new-IsNumbered}
use rust_matching_engine.Engine.Growth.{
  Grows, same-Grows, Grows-FollowsLog, process_order-Grows, process_cancel-Grows,
}
use rust_matching_engine.Replay.{ReplayResult, replay}
use rust_matching_engine.Replay.Recovery.{
  IsRecorded, IsTracked-FollowsLog, with_clock-IsRecorded, add_market-IsRecorded,
  process_order-IsRecorded, process_cancel-IsRecorded, replay-rebuilds,
}

-- One call on an engine. A new order id is in no use yet, and sizes are `u64`.
pub data Step (x : Crypto) (e : Engine) : Engine → Type 0 where
  register : (c : MarketConfig) → Step x e (add_market e c)
  submit :
      (i : Inputs) (s : SignedOrder) (e' : Engine) (r : Result EngineError OrderResult)
      → HashMap.get e.order_market_index i.new_order_id ≡ none
      → s.size_lots < u64_mod
      → process_order x i s e ≡ some (r, e')
      → Step x e e'
  cancel :
      (i : Inputs) (id : OrderId) (trader : Str) (e' : Engine) (r : Result CancelError CancelResult)
      → process_cancel i id trader e ≡ some (r, e')
      → Step x e e'
  pause_ : (i : Inputs) (id by : Str) → Step x e (pause_market i e id by).1
  resume_ : (i : Inputs) (id by : Str) → Step x e (resume_market i e id by).1
  cancel_all : (i : Inputs) (id : Str) → Step x e (cancel_all_orders i e id).1

-- The engines that a run of calls reaches from the new one.
pub data IsReachable (x : Crypto) : Engine → Type 0 where
  begin : IsReachable x with_clock
  then_ : (e e' : Engine) → IsReachable x e → Step x e e' → IsReachable x e'

returned :
    {R : Type 0} {o : Option (R × Engine)} (r : R) (e : Engine)
    → o ≡ some (r, e)
    → Keeps o
    → IsValid e
returned r e h k = subst Keeps h k

-- The state of every run.
pub record IsSafe (e : Engine) : Type 0 where
  pub valid : IsValid e
  pub recorded : IsRecorded e
  pub resumable : IsResumable e.sequencer e.order_market_index
  pub numbered : IsNumbered e.sequencer

with_clock-IsResumable : IsResumable with_clock.sequencer with_clock.order_market_index
unfolding with_clock Sequencer.new restore_index
with_clock-IsResumable = record {
  index_same = refl;
  next = refl;
  answers = unfold Sequencer.new in new-IsRestorable;
}

-- A change of status keeps all of it.
set_status-IsSafe :
    (i : Inputs) (e : Engine) (m : MarketConfig) (s : MarketStatus) (ev : Event)
    → IsStatus ev
    → IsSafe e
    → IsSafe (set_status i e m s ev)
set_status-IsSafe i e m s ev kind safe = record {
  valid = set_status-IsValid i e m s ev safe.valid;
  recorded = record {
    tracked = set_status-At IsTracked IsTracked-FollowsLog i e m s ev safe.recorded.tracked kind;
  };
  resumable =
      set_status-At (λ q _ index. IsResumable q index) IsResumable-FollowsLog i e m s ev
        safe.resumable kind;
  numbered =
      (set_status-At (λ q _ _. Grows e.sequencer q) (Grows-FollowsLog e.sequencer) i e m s ev
        (same-Grows e.sequencer safe.numbered) kind).numbered;
}

step-IsSafe : (x : Crypto) (e e' : Engine) → Step x e e' → IsSafe e → IsSafe e'
step-IsSafe x e _ (register c) s = record {
  valid = add_market-IsValid e c s.valid;
  recorded = add_market-IsRecorded e c s.recorded;
  resumable = unfold add_market in s.resumable;
  numbered = unfold add_market in s.numbered;
}
step-IsSafe x e e' (submit i o _ r unused in_range h) s = record {
  valid = returned r e' h (process_order-Keeps x i o e s.valid unused in_range);
  recorded = process_order-IsRecorded x i o e e' r s.valid s.recorded in_range h;
  resumable =
      process_order-At (λ q _ index. IsResumable q index) IsResumable-FollowsLog x i o e e' r
        s.valid s.resumable in_range h;
  numbered = (process_order-Grows x i o e e' r s.valid s.numbered in_range h).numbered;
}
step-IsSafe x e e' (cancel i id trader _ r h) s = record {
  valid = returned r e' h (process_cancel-Keeps i id trader e s.valid);
  recorded = process_cancel-IsRecorded i id trader e e' r s.recorded h;
  resumable =
      process_cancel-At (λ q _ index. IsResumable q index) IsResumable-FollowsLog i id trader e e' r
        s.resumable h;
  numbered = (process_cancel-Grows i id trader e e' r s.numbered h).numbered;
}
step-IsSafe x e _ (pause_ i id by) s =
    pause_market-keeps IsSafe i e s (λ m k ev kind. set_status-IsSafe i e m k ev kind s) id by
step-IsSafe x e _ (resume_ i id by) s =
    resume_market-keeps IsSafe i e s (λ m k ev kind. set_status-IsSafe i e m k ev kind s) id by
step-IsSafe x e _ (cancel_all i id) s = record {
  valid = cancel_all_orders-IsValid i e id s.valid;
  recorded = record {
    tracked =
        cancel_all_orders-At IsTracked IsTracked-FollowsLog i e id s.resumable.index_same
          s.recorded.tracked;
  };
  resumable =
      cancel_all_orders-At (λ q _ index. IsResumable q index) IsResumable-FollowsLog i e id
        s.resumable.index_same s.resumable;
  numbered =
      (cancel_all_orders-At (λ q _ _. Grows e.sequencer q) (Grows-FollowsLog e.sequencer) i e id
        s.resumable.index_same (same-Grows e.sequencer s.numbered)).numbered;
}

-- Every engine that any sequence of registrations, submissions, cancels, pauses, resumes and
-- cancels of all orders of a market reaches from a new one, each submission under an order id that
-- is in no use and of a `u64` size, is valid: each market has a book, the books are well formed and
-- uncrossed, and the index knows the market of each of their orders; the replay of its log succeeds
-- with its state store; and the index, the next number and the answers of the idempotency table
-- that a restore rebuilds from its log are its own; and the events of its log are numbered one
-- after another from 1 (as `u64`).
pub reachable-IsSafe : (x : Crypto) (e : Engine) → IsReachable x e → IsSafe e
reachable-IsSafe x _ begin = record {
  valid = with_clock-IsValid;
  recorded = with_clock-IsRecorded;
  resumable = with_clock-IsResumable;
  numbered = unfold with_clock in new-IsNumbered;
}
reachable-IsSafe x e' (then_ e _ before step) =
    step-IsSafe x e e' step (reachable-IsSafe x e before)

-- After any such sequence of calls the replay of the log succeeds, and the state store that it builds
-- is that of the engine.
pub replay-recovers :
    (x : Crypto) (e : Engine)
    → IsReachable x e
    → (r : ReplayResult) × (replay e.sequencer.log ≡ ok r) × (r.state ≡ e.state)
replay-recovers x e run = replay-rebuilds e (reachable-IsSafe x e run).recorded

-- A sequencer that is resumed from the log of any such engine, at any next number, answers every
-- duplicate with the sequence number, id and hash that the engine's own answers, and finds no
-- duplicate where the engine finds none.
pub resume-answers :
    (x : Crypto) (e : Engine) (next : ℕ) (trader client : Str)
    → IsReachable x e
    → answer (idempotency_check (resume next e.sequencer.log) trader client)
      ≡ answer (idempotency_check e.sequencer trader client)
unfolding resume idempotency_check
resume-answers x e next trader client run =
    (reachable-IsSafe x e run).resumable.answers.same (trader, client)

-- A restore from the log of any such engine, if it has events, succeeds on whatever engine, and gives
-- the state store, the log, the next number and the index of the engine that wrote the log, and an
-- idempotency table that finds the same duplicates, with the same sequence number, id and hash. The
-- markets are those that were registered before, and the books those that a replay of the log builds.
-- Nothing relates them to the books of the earlier engine, nor the status in the replies to duplicates.
pub restore-SameRecords :
    (x : Crypto) (e₀ e : Engine)
    → IsReachable x e
    → e.sequencer.log ≢ []
    → ((restore_from_events e₀ e.sequencer.log).0 ≡ ok tt)
      × SameRecords e₀ e (restore_from_events e₀ e.sequencer.log).1
restore-SameRecords x e₀ e run some_ =
    let safe = reachable-IsSafe x e run in
    restored-SameRecords e₀ e some_ safe.recorded safe.resumable
