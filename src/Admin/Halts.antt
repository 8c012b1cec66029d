-- ===== src/Admin/Halts.antt =====
-- What a paused market refuses, and that a resume undoes a pause (src/ops/admin.rs).
use rust_matching_engine.Prelude.{
  ℕ, ◌≡◌, ◌≢◌, refl, sym, ap, ◌∙◌, inl, inr, some, false, if_pos, if_neg, arith, ok, err,
  Result-cases,
}
use rust_matching_engine.HashMap.{HashMap, bytes_eq, bytes_key}
use rust_matching_engine.HashMap
use rust_matching_engine.Domain.Market.{
  Str, MarketConfig, MarketStatus, active, paused, is_active, is_active_status,
}
use rust_matching_engine.Domain.Order.{SignedOrder, Crypto}
use rust_matching_engine.Sequencer.{peek_next_seq_id}
use rust_matching_engine.Engine.{Engine, EngineError, Inputs, validate, process_order}
use rust_matching_engine.Admin.{pause_market, resume_from, resume_market}
use rust_matching_engine.Admin.Pause.{
  IsManaged, Changes, find_market-eq-get, status_cases, pause_market-Changes, resume_market-Changes,
}

resume_succeeds :
    (i : Inputs) (e : Engine) (id by : Str) (m : MarketConfig)
    → IsManaged e
    → HashMap.get e.markets id ≡ some m
    → m.status ≡ paused
    → (resume_market i e id by).0 ≡ ok e.sequencer.next_seq_id
unfolding resume_from peek_next_seq_id
resume_succeeds i e id by m g known off =
    unfold resume_market in
    rw (find_market-eq-get e.markets id g.keyed ∙ known, resume_market) (rw off refl)

-- No submission to a market that is not active is accepted, nor answered as a duplicate, and it
-- leaves the engine as it was.
pub inactive_refuses :
    (x : Crypto) (i : Inputs) (s : SignedOrder) (e : Engine) (m : MarketConfig)
    → HashMap.get e.markets s.market_id ≡ some m
    → m.status ≢ active
    → (r : EngineError) × (process_order x i s e ≡ some (err r, e))
inactive_refuses x i s e m known off = elim (Result-cases (validate x i.now_ms e s)) [
  | inr (r, bad) ↦ (r, unfold process_order in rw (bad, process_order) refl)
  | inl (u, good) ↦ absurd (not_valid u good)
]
  where
    inactive : is_active m ≡ false
    inactive =
        unfold is_active is_active_status in
        elim (status_cases m.status) [
          | inl on ↦ absurd (off on)
          | inr (inl p) ↦ rw p refl
          | inr (inr p) ↦ rw p refl
        ]

    not_valid : (u : Unit {0}) → validate x i.now_ms e s ≢ ok u
    not_valid u good = unfold validate in ground (arith, known, inactive)

-- After a pause that succeeds in a valid engine whose markets are registered under their ids, no
-- submission to the market is accepted or answered as a duplicate.
pub pause_market_refuses :
    (i j : Inputs) (e : Engine) (by : Str) (n : ℕ) (x : Crypto) (s : SignedOrder)
    → IsManaged e
    → (pause_market i e s.market_id by).0 ≡ ok n
    → (r : EngineError) × (process_order x j s (pause_market i e s.market_id by).1
        ≡ some (err r, (pause_market i e s.market_id by).1))
pause_market_refuses i j e by n x s g done = elim (pause_market-Changes i e s.market_id by g) [
  | inr (r, failed, _) ↦ cc (done, failed)
  | inl (m, _, _, c) ↦
      inactive_refuses x j s _ (record m { status = paused })
        (c.after s.market_id ∙ if_pos (bytes_eq s.market_id s.market_id) refl _ _) (λ h. cc)
]

-- In a valid engine whose markets are registered under their ids, a resume right after a pause
-- that succeeded succeeds, and the two together leave every market, the books, the state store
-- and the index as they were.
pub pause_resume :
    (i j : Inputs) (e : Engine) (id by by' : Str) (n : ℕ)
    → IsManaged e
    → (pause_market i e id by).0 ≡ ok n
    → let paused_ = (pause_market i e id by).1 in
      let back = resume_market j paused_ id by' in
      (back.0 ≡ ok paused_.sequencer.next_seq_id)
      × ((k : Str) → HashMap.get back.1.markets k ≡ HashMap.get e.markets k)
      × (back.1.books ≡ e.books)
      × (back.1.state ≡ e.state)
      × (back.1.order_market_index ≡ e.order_market_index)
pause_resume i j e id by by' n g done = elim (pause_market-Changes i e id by g) [
  | inr (r, failed, _) ↦ cc (done, failed)
  | inl (m, on, _, c) ↦ elim (resume_market-Changes j (pause_market i e id by).1 id by' c.managed) [
    | inr (r, failed, _) ↦ cc (failed, resume_succeeds j _ id by' _ c.managed (after_pause c) refl)
    | inl (m', off, ok_, d) ↦
        (ok_, back_to m m' on c d, d.books ∙ c.books, d.state ∙ c.state, d.index ∙ c.index)
  ]
]
  where
    after_pause :
        {e' : Engine} {m : MarketConfig}
        → Changes e e' id m paused
        → HashMap.get e'.markets id ≡ some (record m { status = paused })
    after_pause c = c.after id ∙ if_pos (bytes_eq id id) refl _ _

    back_to :
        {e₁ e₂ : Engine} (m m' : MarketConfig)
        → m.status ≡ active
        → Changes e e₁ id m paused
        → Changes e₁ e₂ id m' active
        → (k : Str) → HashMap.get e₂.markets k ≡ HashMap.get e.markets k
    back_to m m' on c d k =
        let same_m : m' ≡ record m { status = paused } = cc (d.before, after_pause c) in
        let restored : record m' { status = active } ≡ m =
          ap (λ (z : MarketConfig). record z { status = active }) same_m
          ∙ ap (λ (z : MarketStatus). record m { status = z }) (sym on) in
        elim (bytes_eq id k) [
          | yes same ↦
              d.after k
              ∙ if_pos (bytes_eq id k) same _ _
              ∙ ap some restored
              ∙ sym c.before
              ∙ ap (HashMap.get e.markets) same
          | no other ↦
              d.after k
              ∙ if_neg (bytes_eq id k) other _ _
              ∙ c.after k
              ∙ if_neg (bytes_eq id k) other _ _
        ]
