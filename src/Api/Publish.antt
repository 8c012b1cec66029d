-- ===== src/Api/Publish.antt =====
-- Every request publishes the envelopes of the events that it appends, each once and in order
-- (src/api/rest.rs and src/api/mod.rs).
use rust_matching_engine.Prelude.{
  ℕ, ◌+◌, ◌<◌, ◌≡◌, refl, sym, subst, ap, ◌∙◌, ◌⊎◌, inl, inr, Option, none, some, List, [], ◌++◌,
  append-nil, true, length, length-append, u64_mod, arith, Result, Result-cases, ok, err,
}
use rust_matching_engine.Domain.Market.{Str}
use rust_matching_engine.Domain.Order.{Crypto, SignedOrder}
use rust_matching_engine.Events.{SequencedEvent}
use rust_matching_engine.Sequencer.{Sequencer, peek_next_seq_id}
use rust_matching_engine.Sequencer.Log.{IsNumbered, Numbered}
use rust_matching_engine.Engine.{Engine, process_order, process_cancel}
use rust_matching_engine.Engine.Validity.{IsValid}
use rust_matching_engine.Engine.History.{refused_unchanged}
use rust_matching_engine.Engine.Growth.{
  Grows, process_order-Grows, process_cancel-Grows, cancel-refused_unchanged,
}
use rust_matching_engine.Risk.{check}
use rust_matching_engine.Pg.{Json, Database}
use rust_matching_engine.Api.{Locks, envelopes, since, publish_since, persist_since}
use rust_matching_engine.Api.Since.{since-exact}
use rust_matching_engine.Api.Rest.{Body, Headers, Request}
use rust_matching_engine.Api.Rest
use rust_matching_engine.Api.Handlers.{
  Answer, Turn, State, finish, last_committed, reply_order, submit, post_order, cancel_as,
}

pub last_committed-length :
    (q : Sequencer) → IsNumbered q → 1 + length q.log < u64_mod → last_committed q ≡ length q.log
unfolding peek_next_seq_id
last_committed-length q n h = let next = n.next in omega (arith, next, h)

module _ (json : Json) (db : Database json.Value) where
  -- The log has the new events, numbered, and the channel has their envelopes.
  pub record Published (s s' : State json db) : Type 0 where
    pub new : List SequencedEvent
    pub log : s'.engine.sequencer.log ≡ s.engine.sequencer.log ++ new
    pub sent : s'.events ≡ s.events ++ envelopes json new
    pub numbered : IsNumbered s'.engine.sequencer

  -- Nothing was appended and nothing was sent.
  quiet-Published :
      (s s' : State json db)
      → IsNumbered s.engine.sequencer
      → s'.engine ≡ s.engine
      → s'.events ≡ s.events
      → Published s s'
  quiet-Published s s' n same sent = record {
    new = [];
    log = ap (λ (e : Engine). e.sequencer.log) same ∙ sym (append-nil s.engine.sequencer.log);
    sent = unfold envelopes in sent ∙ sym (append-nil s.events);
    numbered = subst (λ (e : Engine). IsNumbered e.sequencer) (sym same) n;
  }

  finish-sends :
      (locks : Locks json db) (n : ℕ) (s : State json db)
      → locks.publishes ≡ true
      → ((finish json db locks n s).engine ≡ s.engine)
        × ((finish json db locks n s).events
            ≡ s.events ++ envelopes json (since n s.engine.sequencer.log))
  unfolding finish publish_since persist_since
  finish-sends locks n s h = (ground arith, ground arith)

  finish-Published :
      (locks : Locks json db) (s s' : State json db)
      → locks.publishes ≡ true
      → IsNumbered s.engine.sequencer
      → Grows s.engine.sequencer s'.engine.sequencer
      → s'.events ≡ s.events
      → 1 + length s'.engine.sequencer.log < u64_mod
      → Published s (finish json db locks (last_committed s.engine.sequencer) s')
  finish-Published locks s s' free n g same bound =
      let q = s.engine.sequencer in
      let size = length-append q.log g.new in
      let longer = ap length g.log in
      let first = last_committed-length q n (omega (arith, size, longer, bound)) in
      let sends = finish-sends locks (last_committed q) s' free in
      record {
        new = g.new;
        log = ap (λ (e : Engine). e.sequencer.log) sends.0 ∙ g.log;
        sent = sends.1 ∙ cc (same, first, after g.log g.numbered);
        numbered = subst (λ (e : Engine). IsNumbered e.sequencer) (sym sends.0) g.numbered;
      }
    where
      after :
          s'.engine.sequencer.log ≡ s.engine.sequencer.log ++ g.new
          → IsNumbered s'.engine.sequencer
          → since (length s.engine.sequencer.log) s'.engine.sequencer.log ≡ g.new
      after log numbered = rw log (
          since-exact s.engine.sequencer.log g.new
            (subst (λ (l : List SequencedEvent). Numbered 1 l) log numbered.numbered)
            (subst (λ (l : List SequencedEvent). length l < u64_mod) log (omega (arith, bound))))

-- A call panics, is refused, or answers.
pub call-cases :
    {E A : Type 0} (o : Option (Result E A × Engine))
    → (o ≡ none)
      ⊎ (((r : E) × (e : Engine) × (o ≡ some (err r, e)))
          ⊎ ((a : A) × (e : Engine) × (o ≡ some (ok a, e))))
call-cases none = inl refl
call-cases (some (err r, e)) = inr (inl (r, e, refl))
call-cases (some (ok a, e)) = inr (inr (a, e, refl))

-- Sizes are `u64`.
unfoldable pub IsInRange : Request → Type 0
IsInRange (Rest.post_order signed) = signed.size_lots < u64_mod
IsInRange _ = Unit {0}

module _ (json : Json) (db : Database json.Value) (x : Crypto) (t : Turn json db)
    (free : t.locks.publishes ≡ true) where
  -- What a call of a handler on the state may assume, and what its outcome is.
  abbrev pub Publishes : State json db → Option (Answer × State json db) → Type 0
  Publishes s o =
      (answer : Answer) (s' : State json db)
      → o ≡ some (answer, s')
      → 1 + length s'.engine.sequencer.log < u64_mod
      → Published json db s s'

  ended :
      {a b : Answer} {s s' : State json db}
      → ◌≡◌ {A = Option (Answer × State json db)} (some (a, s)) (some (b, s'))
      → s ≡ s'
  ended h = cc h

  pub same-Publishes :
      (s s₁ : State json db) (a : Answer)
      → IsNumbered s.engine.sequencer
      → s₁.engine ≡ s.engine
      → s₁.events ≡ s.events
      → Publishes s (some (a, s₁))
  same-Publishes s s₁ a n same sent answer s' h _ =
      subst (λ (z : State json db). Published json db s z) (ended h)
        (quiet-Published json db s s₁ n same sent)

  pub finish-Publishes :
      (s s₁ : State json db) (a : Answer)
      → IsNumbered s.engine.sequencer
      → Grows s.engine.sequencer s₁.engine.sequencer
      → s₁.events ≡ s.events
      → Publishes s (some (a, finish json db t.locks (last_committed s.engine.sequencer) s₁))
  finish-Publishes s s₁ a n g sent answer s' h bound =
      let sends = finish-sends json db t.locks (last_committed s.engine.sequencer) s₁ free in
      let same = ended h in
      let bound₁ : 1 + length s₁.engine.sequencer.log < u64_mod =
        subst (λ (e : Engine). 1 + length e.sequencer.log < u64_mod)
          (ap (λ (z : State json db). z.engine) (sym same) ∙ sends.0) bound in
      subst (λ (z : State json db). Published json db s z) same
        (finish-Published json db t.locks s s₁ free n g sent bound₁)

  submit-Publishes :
      (signed : SignedOrder) (s s₁ : State json db)
      → IsValid s.engine
      → IsNumbered s.engine.sequencer
      → signed.size_lots < u64_mod
      → s₁.engine ≡ s.engine
      → s₁.events ≡ s.events
      → Publishes s (submit json db x t signed s₁)
  submit-Publishes signed s s₁ v n in_range same sent =
      elim (call-cases (process_order x t.inputs signed s₁.engine)) [
        | inl panics ↦ unfold submit in rw (panics, submit) (λ a s' h. cc h)
        | inr (inl (r, e, said)) ↦
            unfold submit in
            rw (said, submit)
              (same-Publishes s _ _ n
                (refused_unchanged x t.inputs signed s₁.engine e r said ∙ same) sent)
        | inr (inr (r, e, said)) ↦
            unfold submit reply_order in
            rw (said, submit, same)
              (finish-Publishes s _ _ n
                (process_order-Grows x t.inputs signed s.engine e (ok r) v n in_range
                  (ap (process_order x t.inputs signed) (sym same) ∙ said))
                sent)
      ]

  pub post_order-Publishes :
      (signed : SignedOrder) (s : State json db)
      → IsValid s.engine
      → IsNumbered s.engine.sequencer
      → signed.size_lots < u64_mod
      → Publishes s (post_order json db x t signed s)
  post_order-Publishes signed s v n in_range =
      elim (Result-cases
        (check s.risk t.risk_now signed.trader_id signed.market_id signed.price_ticks
          signed.size_lots).0) [
            | inr (e, said) ↦
                unfold post_order in rw (said, post_order) (same-Publishes s _ _ n refl refl)
            | inl (_, said) ↦
                unfold post_order in
                rw (said, post_order) (submit-Publishes signed s _ v n in_range refl refl)
          ]

  pub cancel_as-Publishes :
      (order_id trader_id : Str) (s : State json db)
      → IsNumbered s.engine.sequencer
      → Publishes s (cancel_as json db t order_id trader_id s)
  cancel_as-Publishes order_id trader_id s n =
      elim (call-cases (process_cancel t.inputs order_id trader_id s.engine)) [
        | inl panics ↦ unfold cancel_as in rw (panics, cancel_as) (λ a s' h. cc h)
        | inr (inl (r, e, said)) ↦
            unfold cancel_as in
            rw (said, cancel_as)
              (same-Publishes s _ _ n
                (cancel-refused_unchanged t.inputs order_id trader_id s.engine e r said) refl)
        | inr (inr (r, e, said)) ↦
            unfold cancel_as in
            rw (said, cancel_as)
              (finish-Publishes s _ _ n
                (process_cancel-Grows t.inputs order_id trader_id s.engine e (ok r) n said) refl)
      ]
