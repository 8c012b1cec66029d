-- ===== src/Admin/Pause.antt =====
-- Pausing and resuming a market (src/ops/admin.rs).
use rust_matching_engine.Prelude.{
  ◌≡◌, ◌≢◌, refl, sym, subst, ◌∙◌, ◌⊎◌, inl, inr, none, some, Option-cases, [], ◌∷◌, ite, if_pos,
  if_neg, ok, err,
}
use rust_matching_engine.HashMap.{HashMap, bytes_eq, bytes_key}
use rust_matching_engine.HashMap
use rust_matching_engine.Domain.Market.{Str, MarketConfig, MarketStatus, active, paused, settled}
use rust_matching_engine.Sequencer.{peek_next_seq_id}
use rust_matching_engine.Events.{Event, market_paused, market_resumed}
use rust_matching_engine.Engine.{Engine, Inputs, add_market}
use rust_matching_engine.Engine.Validity.{IsValid, SameMarkets-IsValid, add_market-IsValid}
use rust_matching_engine.Admin.{
  AdminError, find_market, set_status, pause_from, pause_market, resume_from, resume_market,
}

-- Each market is registered under its own id.
unfoldable pub IsKeyed : HashMap Str MarketConfig → Type 0
IsKeyed [] = Unit {0}
IsKeyed ((k, m) ∷ markets) = (m.id ≡ k) × IsKeyed markets

pub find_market-eq-get :
    (markets : HashMap Str MarketConfig) (id : Str)
    → IsKeyed markets
    → find_market markets id ≡ HashMap.get markets id
unfolding IsKeyed find_market HashMap.get bytes_eq
find_market-eq-get [] id _ = refl
find_market-eq-get ((k, m) ∷ markets) id (own, rest) =
    rw (own, find_market-eq-get markets id rest) refl

found_id :
    (markets : HashMap Str MarketConfig) (id : Str) (m : MarketConfig)
    → find_market markets id ≡ some m
    → m.id ≡ id
unfolding find_market
found_id [] id m h = cc
found_id ((k, c) ∷ markets) id m h = elim (bytes_eq c.id id) [
  | yes same ↦ cc (same, h, if_pos (bytes_eq c.id id) same (some c) (find_market markets id))
  | no other ↦
      found_id markets id m
        (sym (if_neg (bytes_eq c.id id) other (some c) (find_market markets id)) ∙ h)
]

insert-IsKeyed :
    (markets : HashMap Str MarketConfig) (c : MarketConfig)
    → IsKeyed markets
    → IsKeyed (HashMap.insert markets c.id c)
unfolding IsKeyed HashMap.insert
insert-IsKeyed [] c _ = (refl, tt)
insert-IsKeyed ((k, m) ∷ markets) c (own, rest) =
    elim (bytes_key.key_eq k c.id)
      as (λ d. IsKeyed (ite d ((c.id, c) ∷ markets) ((k, m) ∷ HashMap.insert markets c.id c))) [
        | yes same ↦ (refl, rest)
        | no other ↦ (own, insert-IsKeyed markets c rest)
      ]

-- A valid engine whose markets are registered under their ids.
pub record IsManaged (e : Engine) : Type 0 where
  pub valid : IsValid e
  pub keyed : IsKeyed e.markets

-- The engine after a change of the status of one market, and of nothing else but the log.
pub record Changes (e e' : Engine) (id : Str) (m : MarketConfig) (status : MarketStatus)
    : Type 0 where
  pub managed : IsManaged e'
  pub books : e'.books ≡ e.books
  pub state : e'.state ≡ e.state
  pub index : e'.order_market_index ≡ e.order_market_index
  pub before : HashMap.get e.markets id ≡ some m
  pub after :
      (k : Str)
      → HashMap.get e'.markets k
        ≡ ite (bytes_eq id k) (some (record m { status = status })) (HashMap.get e.markets k)

get-insert_market :
    (markets : HashMap Str MarketConfig) (id k : Str) (c : MarketConfig)
    → HashMap.get (HashMap.insert markets id c) k
      ≡ ite (bytes_eq id k) (some c) (HashMap.get markets k)
unfolding bytes_eq
get-insert_market markets id k c = HashMap.get-insert markets id k c

set_status-Changes :
    (i : Inputs) (e : Engine) (id : Str) (m : MarketConfig) (status : MarketStatus) (event : Event)
    → IsManaged e
    → find_market e.markets id ≡ some m
    → Changes e (set_status i e m status event) id m status
set_status-Changes i e id m status event g found =
    let c : MarketConfig = record m { status = status } in
    let own : m.id ≡ id = found_id e.markets id m found in
    let before : HashMap.get e.markets id ≡ some m =
      sym (find_market-eq-get e.markets id g.keyed) ∙ found in
    let has_book : HashMap.get e.books m.id ≢ none = rw own (g.valid.market_book id m before) in
    elim (Option-cases (HashMap.get e.books m.id)) [
      | inl missing ↦ absurd (has_book missing)
      | inr (b, there) ↦ record {
        managed = record {
          valid =
              unfold set_status in
              SameMarkets-IsValid (add_market e c) _
                (record { books = refl; markets = refl; index = refl })
                (add_market-IsValid e c g.valid);
          keyed = unfold set_status add_market in insert-IsKeyed e.markets c g.keyed;
        };
        books = unfold set_status add_market in rw (there, set_status, add_market) refl;
        state = unfold set_status add_market in refl;
        index = unfold set_status add_market in refl;
        before = before;
        after = λ k.
            unfold set_status add_market in
            subst
              (λ (z : Str).
                HashMap.get (HashMap.insert e.markets m.id c) k
                ≡ ite (bytes_eq z k) (some c) (HashMap.get e.markets k))
              own (get-insert_market e.markets m.id k c);
      }
    ]

pub status_cases : (s : MarketStatus) → (s ≡ active) ⊎ ((s ≡ paused) ⊎ (s ≡ settled))
status_cases active = inl refl
status_cases paused = inr (inl refl)
status_cases settled = inr (inr refl)

-- In a valid engine whose markets are registered under their ids, a pause that succeeds turns an
-- active market into a paused one and changes nothing else of the books, the markets, the state
-- store and the index; one that fails changes nothing at all.
pub pause_market-Changes :
    (i : Inputs) (e : Engine) (id by : Str)
    → IsManaged e
    → ((m : MarketConfig) × (m.status ≡ active)
        × ((pause_market i e id by).0 ≡ ok e.sequencer.next_seq_id)
        × Changes e (pause_market i e id by).1 id m paused)
      ⊎ ((r : AdminError) × ((pause_market i e id by).0 ≡ err r) × ((pause_market i e id by).1 ≡ e))
unfolding pause_from
pause_market-Changes i e id by g = elim (Option-cases (find_market e.markets id)) [
  | inl missing ↦ unfold pause_market in rw (missing, pause_market) (inr (_, refl, refl))
  | inr (m, found) ↦ elim (status_cases m.status) [
    | inl is_on ↦
        unfold pause_market in
        rw (found, pause_market)
          (rw is_on (
            inl (
              m,
              is_on,
              unfold peek_next_seq_id in refl,
              set_status-Changes i e id m paused (market_paused id by) g found,
            )))
    | inr (inl off) ↦ unfold pause_market in rw (found, pause_market) (rw off (inr (_, refl, refl)))
    | inr (inr over) ↦
        unfold pause_market in rw (found, pause_market) (rw over (inr (_, refl, refl)))
  ]
]

-- In a valid engine whose markets are registered under their ids, a resume that succeeds turns a
-- paused market into an active one and changes nothing else of the books, the markets, the state
-- store and the index; one that fails changes nothing at all.
pub resume_market-Changes :
    (i : Inputs) (e : Engine) (id by : Str)
    → IsManaged e
    → ((m : MarketConfig) × (m.status ≡ paused)
        × ((resume_market i e id by).0 ≡ ok e.sequencer.next_seq_id)
        × Changes e (resume_market i e id by).1 id m active)
      ⊎ ((r : AdminError) × ((resume_market i e id by).0 ≡ err r)
          × ((resume_market i e id by).1 ≡ e))
unfolding resume_from
resume_market-Changes i e id by g = elim (Option-cases (find_market e.markets id)) [
  | inl missing ↦ unfold resume_market in rw (missing, resume_market) (inr (_, refl, refl))
  | inr (m, found) ↦ elim (status_cases m.status) [
    | inl is_on ↦ unfold resume_market in rw (found, resume_market) (rw is_on (inr (_, refl, refl)))
    | inr (inl off) ↦
        unfold resume_market in
        rw (found, resume_market)
          (rw off (
            inl (
              m,
              off,
              unfold peek_next_seq_id in refl,
              set_status-Changes i e id m active (market_resumed id by) g found,
            )))
    | inr (inr over) ↦
        unfold resume_market in rw (found, resume_market) (rw over (inr (_, refl, refl)))
  ]
]
