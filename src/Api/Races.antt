-- ===== src/Api/Races.antt =====
-- Handlers that run at the same time: between its call on the engine and its publishing, a handler
-- holds no lock, and other handlers may call and publish (src/api/rest.rs and src/api/mod.rs).
use rust_matching_engine.Prelude.{
  ℕ, ◌+◌, ◌<◌, ◌≤◌, ◌≡◌, refl, sym, subst, ap, ◌⊎◌, inl, inr, List, [], ◌∷◌, ◌++◌, true, Bool-cases,
  ltb, length, length-append, All, All-append, All-map, Has, Has-append_left, Has-append_right,
  u64_mod, arith,
}
use rust_matching_engine.Events.{SequencedEvent}
use rust_matching_engine.Sequencer.Log.{IsNumbered, Numbered}
use rust_matching_engine.Engine.{Engine}
use rust_matching_engine.Engine.Growth.{Grows}
use rust_matching_engine.Pg.{Json, Database}
use rust_matching_engine.Api.{WsEnvelope, from_sequenced, envelopes, since, publish_since}
use rust_matching_engine.Api.Since.{Numbered-split}
use rust_matching_engine.Api.Handlers.{State, last_committed}
use rust_matching_engine.Api.Publish.{last_committed-length}

-- An event of the log after the number is among those that are looked for.
since-complete :
    (n : ℕ) (log : List SequencedEvent) (se : SequencedEvent)
    → Has log se
    → n < se.seq_id
    → Has (since n log) se
unfolding since
since-complete n [] se h lt = h
since-complete n (k ∷ log) se (inl same) lt =
    let later : ltb n k.seq_id ≡ true =
      ground (arith, ap (λ (z : SequencedEvent). z.seq_id) same) in
    rw later (inl same)
since-complete n (k ∷ log) se (inr h) lt =
    let rest = since-complete n log se h lt in
    elim (Bool-cases (ltb n k.seq_id)) [ inl c ↦ rw c (inr rest) | inr c ↦ rw c rest ]

Numbered-above :
    (first : ℕ) (log : List SequencedEvent)
    → Numbered first log
    → first + length log ≤ u64_mod
    → All (λ (se : SequencedEvent). first ≤ se.seq_id) log
unfolding Numbered
Numbered-above first [] h k = tt
Numbered-above first (se ∷ log) (here, rest) k = (
  omega (arith, here, k),
  All-map (λ z le. omega (arith, le)) log (Numbered-above (first + 1) log rest (omega (arith, k))),
)

pick : (a b : List ℕ) (n m : ℕ) → Has (a ++ n ∷ b) m → (n ≡ m) ⊎ Has (a ++ b) m
pick [] b n m (inl same) = inl same
pick [] b n m (inr h) = inr h
pick (k ∷ a) b n m (inl same) = inr (inl same)
pick (k ∷ a) b n m (inr h) = elim (pick a b n m h) [
  | inl same ↦ inl same
  | inr later ↦ inr (inr later)
]

-- Every element of a list is in the list, and in what continues it.
own : {A : Type 0} (xs ys : List A) → All (λ (x : A). Has (xs ++ ys) x) xs
own [] ys = tt
own (x ∷ xs) ys = (inl refl, All-map (λ z h. inr h) xs (own xs ys))

All-with :
    {A : Type 0} {P Q : A → Type 0} (xs : List A)
    → ((a : A) → Has xs a → P a → Q a)
    → All P xs
    → All Q xs
All-with [] f h = tt
All-with (x ∷ xs) f (here, rest) = (f x (inl refl) here, All-with xs (λ a m p. f a (inr m) p) rest)

module _ (json : Json) (db : Database json.Value) where
  -- The envelopes of an event are on the channel.
  abbrev pub IsSent : State json db → SequencedEvent → Type 0
  IsSent s se = All (λ (env : WsEnvelope json.Value). Has s.events env) (from_sequenced json se)

  -- One step of the server, with the numbers from which the handlers that have called the engine have
  -- yet to publish: a call on the engine, which appends to the log, or the publishing of one of them.
  pub data Race : State json db → List ℕ → State json db → List ℕ → Type 0 where
    call :
        (s : State json db) (pending : List ℕ) (e : Engine)
        → Grows s.engine.sequencer e.sequencer
        → 1 + length e.sequencer.log < u64_mod
        → Race s pending (record s { engine = e }) (last_committed s.engine.sequencer ∷ pending)
    publish :
        (s : State json db) (a b : List ℕ) (n : ℕ)
        → Race s (a ++ n ∷ b) (publish_since json db true n s) (a ++ b)

  -- Any number of steps.
  pub data Races (s₀ : State json db) (p₀ : List ℕ) : State json db → List ℕ → Type 0 where
    begin : Races s₀ p₀ s₀ p₀
    then_ :
        (s s' : State json db) (p p' : List ℕ)
        → Races s₀ p₀ s p
        → Race s p s' p'
        → Races s₀ p₀ s' p'

  -- Every event of the log has been sent, or will be by a handler that has yet to publish.
  record Covered (s : State json db) (pending : List ℕ) : Type 0 where
    pub numbered : IsNumbered s.engine.sequencer
    pub each :
        All
          (λ (se : SequencedEvent). IsSent s se ⊎ ((n : ℕ) × Has pending n × (n < se.seq_id)))
          s.engine.sequencer.log

  sent-since :
      (log : List SequencedEvent) (se : SequencedEvent)
      → Has log se
      → All (λ (env : WsEnvelope json.Value). Has (envelopes json log) env) (from_sequenced json se)
  unfolding envelopes
  sent-since [] se h = absurd h
  sent-since (k ∷ log) se (inl same) =
      subst
        (λ (z : SequencedEvent).
          All
            (λ (env : WsEnvelope json.Value). Has (from_sequenced json k ++ envelopes json log) env)
            (from_sequenced json z))
        same (own (from_sequenced json k) (envelopes json log))
  sent-since (k ∷ log) se (inr h) =
      All-map (λ env there. Has-append_right env (from_sequenced json k) (envelopes json log) there)
        (from_sequenced json se) (sent-since log se h)

  call-Covered :
      (s : State json db) (pending : List ℕ) (e : Engine)
      → Grows s.engine.sequencer e.sequencer
      → 1 + length e.sequencer.log < u64_mod
      → Covered s pending
      → Covered (record s { engine = e }) (last_committed s.engine.sequencer ∷ pending)
  call-Covered s pending e g bound c =
      let q = s.engine.sequencer in
      let size = length-append q.log g.new in
      let longer = ap length g.log in
      let first = last_committed-length q c.numbered (omega (arith, size, longer, bound)) in
      let fresh =
        Numbered-above (1 + length q.log) g.new
          (Numbered-split 1 q.log g.new
            (subst (λ (l : List SequencedEvent). Numbered 1 l) g.log g.numbered.numbered)).1
          (omega (arith, size, longer, bound)) in
      record {
        numbered = g.numbered;
        each = rw g.log (
            All-append _ q.log g.new
              (All-map
                (λ se old. elim old [
                  | inl sent ↦ inl sent
                  | inr (n, here, lt) ↦ inr (n, inr here, lt)
                ])
                q.log c.each)
              (All-map (λ se le. inr (last_committed q, inl refl, omega (arith, le, first))) g.new
                fresh));
      }

  publish-Covered :
      (s : State json db) (a b : List ℕ) (n : ℕ)
      → Covered s (a ++ n ∷ b)
      → Covered (publish_since json db true n s) (a ++ b)
  unfolding publish_since
  publish-Covered s a b n c = record {
    numbered = c.numbered;
    each =
        All-with s.engine.sequencer.log
          (λ se here old. elim old [
            | inl sent ↦ inl (
                All-map (λ env there. Has-append_left env s.events _ there) (from_sequenced json se)
                  sent)
            | inr (m, waits, lt) ↦ elim (pick a b n m waits) [
              | inr later ↦ inr (m, later, lt)
              | inl same ↦ inl (
                  All-map (λ env there. Has-append_right env s.events _ there)
                    (from_sequenced json se)
                    (sent-since (since n s.engine.sequencer.log) se (
                      since-complete n s.engine.sequencer.log se here
                        (subst (λ (k : ℕ). k < se.seq_id) (sym same) lt))))
            ]
          ])
          c.each;
  }

  Races-Covered :
      (s₀ : State json db) (p₀ : List ℕ) (s : State json db) (p : List ℕ)
      → Races s₀ p₀ s p
      → Covered s₀ p₀
      → Covered s p
  Races-Covered s₀ p₀ _ _ begin c = c
  Races-Covered s₀ p₀ _ _ (then_ s _ p _ before (call _ _ e g bound)) c =
      call-Covered s p e g bound (Races-Covered s₀ p₀ s p before c)
  Races-Covered s₀ p₀ _ _ (then_ s _ p _ before (publish _ a b n)) c =
      publish-Covered s a b n (Races-Covered s₀ p₀ s _ before c)

  -- Handlers that run at the same time, each of which gets the engine when it publishes: however
  -- their calls and their publishing interleave, from a state in which nothing is pending, the log
  -- is numbered and each of its events was sent, once nothing is pending any more every event of
  -- the log was sent, with all its envelopes.
  pub Races-send :
      (s₀ s : State json db)
      → IsNumbered s₀.engine.sequencer
      → All (IsSent s₀) s₀.engine.sequencer.log
      → Races s₀ [] s []
      → All (IsSent s) s.engine.sequencer.log
  Races-send s₀ s numbered sent run =
      let c = Races-Covered s₀ [] s [] run (record {
        numbered = numbered;
        each = All-map (λ se h. inl h) s₀.engine.sequencer.log sent;
      }) in
      All-map (λ se h. elim h [ inl done ↦ done | inr (n, waits, _) ↦ absurd waits ])
        s.engine.sequencer.log c.each
