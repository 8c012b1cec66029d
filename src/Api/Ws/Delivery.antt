-- ===== src/Api/Ws/Delivery.antt =====
-- What a connection delivers (src/api/ws.rs).
use rust_matching_engine.Prelude.{
  ℕ, ◌<◌, ◌≡◌, refl, sym, ap, ◌∙◌, inl, inr, some, List, [], ◌∷◌, ◌++◌, append_assoc, append-nil,
  true, Bool-cases, if◌then◌else◌, if_pos, ltb, map, arith, ok,
}
use rust_matching_engine.HashMap.{bytes_eq}
use rust_matching_engine.Domain.Market.{Str}
use rust_matching_engine.Events.{SequencedEvent}
use rust_matching_engine.Pg.{Json}
use rust_matching_engine.Api.{envelopes}
use rust_matching_engine.Api.Ws.{
  subscribe, ServerMsg, subscribed, event, Transport, Incoming, text_frame, published, lagged,
  disconnected, contains, add, from, Connection, Envelope, on_channel, send_msg, send_all,
  replay_history, answer_message, handle_client_message, turn, handle_socket,
}

module _ (json : Json) (io : Transport json.Value) where
  -- A socket that works: each frame that is sent arrives, in order; and every message has a frame.
  pub record Works : Type 0 where
    pub frame : ServerMsg json.Value → io.Frame
    pub framed : (m : ServerMsg json.Value) → io.to_text m ≡ some (frame m)
    pub arrived : io.Socket → List io.Frame
    pub sends : (k : io.Socket) (f : io.Frame) → (io.send k f).0 ≡ true
    pub delivers : (k : io.Socket) (f : io.Frame) → arrived (io.send k f).1 ≡ arrived k ++ f ∷ []

  module _ (w : Works) where
    -- The frames of envelopes.
    abbrev pub frames : List (Envelope json io) → List io.Frame
    frames envs = map (λ (env : Envelope json io). w.frame (event env)) envs

    -- The envelopes on the channels of the subscriptions.
    unfoldable pub wanted : List Str → List (Envelope json io) → List (Envelope json io)
    wanted subscriptions [] = []
    wanted subscriptions (env ∷ envs) =
        let rest = wanted subscriptions envs in
        if contains subscriptions env.channel then env ∷ rest else rest

    send_msg-Works :
        (k : io.Socket) (m : ServerMsg json.Value)
        → ((send_msg json io k m).0 ≡ true)
          × (w.arrived (send_msg json io k m).1 ≡ w.arrived k ++ w.frame m ∷ [])
    send_msg-Works k m =
        unfold send_msg in
        rw (w.framed m, send_msg) (w.sends k (w.frame m), w.delivers k (w.frame m))

    send_all-Works :
        (k : io.Socket) (envs : List (Envelope json io))
        → w.arrived (send_all json io k envs) ≡ w.arrived k ++ frames envs
    unfolding send_all
    send_all-Works k [] = sym (append-nil (w.arrived k))
    send_all-Works k (env ∷ envs) =
        let (goes_on, sent) = send_msg-Works k (event env) in
        rw goes_on (
          send_all-Works (send_msg json io k (event env)).1 envs
          ∙ (ap (λ (l : List io.Frame). l ++ frames envs) sent
              ∙ append_assoc (w.arrived k) (w.frame (event env) ∷ []) (frames envs)))

    -- What is published, each with the log at that time.
    abbrev pub broadcasts :
        List (List SequencedEvent × Envelope json io)
        → List (List SequencedEvent × Incoming json.Value)
    broadcasts envs =
        map (λ (p : List SequencedEvent × Envelope json io). (p.0, published p.1)) envs

    abbrev pub sent_envelopes :
        List (List SequencedEvent × Envelope json io) → List (Envelope json io)
    sent_envelopes envs = map (λ (p : List SequencedEvent × Envelope json io). p.1) envs

    -- A connection with a working socket delivers, of what is published, the envelopes on the channels
    -- of its subscriptions, all of them and in order, and keeps its subscriptions.
    pub broadcast-delivers :
        (c : Connection json io) (envs : List (List SequencedEvent × Envelope json io))
        → (w.arrived (handle_socket json io (broadcasts envs) c).socket
            ≡ w.arrived c.socket ++ frames (wanted c.subscriptions (sent_envelopes envs)))
          × ((handle_socket json io (broadcasts envs) c).subscriptions ≡ c.subscriptions)
    unfolding handle_socket turn wanted
    broadcast-delivers c [] = (sym (append-nil (w.arrived c.socket)), refl)
    broadcast-delivers c ((log, env) ∷ envs) =
        elim (Bool-cases (contains c.subscriptions env.channel)) [
          | inr unwanted ↦ rw unwanted (broadcast-delivers c envs)
          | inl here ↦
              let (goes_on, sent) = send_msg-Works c.socket (event env) in
              let c₁ : Connection json io = record c {
                socket = (send_msg json io c.socket (event env)).1;
              } in
              let (rest, kept) = broadcast-delivers c₁ envs in
              rw (here, goes_on)
                (
                  rest
                      ∙ (ap
                            (λ (l : List io.Frame).
                              l ++ frames (wanted c.subscriptions (sent_envelopes envs)))
                            sent
                          ∙ append_assoc (w.arrived c.socket) (w.frame (event env) ∷ [])
                              (frames (wanted c.subscriptions (sent_envelopes envs)))),
                  kept,
                )
        ]

    -- What the loop does after it has delivered what was published.
    handle_socket-broadcasts :
        (c : Connection json io) (envs : List (List SequencedEvent × Envelope json io))
        (rest : List (List SequencedEvent × Incoming json.Value))
        → handle_socket json io (broadcasts envs ++ rest) c
          ≡ handle_socket json io rest (handle_socket json io (broadcasts envs) c)
    unfolding handle_socket turn
    handle_socket-broadcasts c [] rest = refl
    handle_socket-broadcasts c ((log, env) ∷ envs) rest =
        elim (Bool-cases (contains c.subscriptions env.channel)) [
          | inr unwanted ↦ rw unwanted (handle_socket-broadcasts c envs rest)
          | inl here ↦
              rw (here, (send_msg-Works c.socket (event env)).0)
                (handle_socket-broadcasts
                  (record c { socket = (send_msg json io c.socket (event env)).1 }) envs rest)
        ]

    -- A connection that lags behind is told so and closed, whatever comes after.
    lagged-closes :
        (c : Connection json io) (log : List SequencedEvent)
        (rest : List (List SequencedEvent × Incoming json.Value))
        → w.arrived (handle_socket json io ((log, lagged) ∷ rest) c).socket
          ≡ w.arrived c.socket ++ w.frame (disconnected "lagged") ∷ []
    unfolding handle_socket turn
    lagged-closes c log rest = (send_msg-Works c.socket (disconnected "lagged")).1

    contains-add :
        (subscriptions : List Str) (channel : Str)
        → contains (add subscriptions channel) channel ≡ true
    unfolding add
    contains-add subscriptions channel = elim (Bool-cases (contains subscriptions channel)) [
      | inl here ↦ rw here here
      | inr new ↦ rw new (unfold contains in if_pos (bytes_eq channel channel) refl _ _)
    ]

    -- The frames of a subscription from a sequence number on: the events of the log from there on that
    -- are on the channel, then the confirmation.
    abbrev pub reply : List SequencedEvent → Str → ℕ → List io.Frame
    reply log channel from_seq =
        frames (on_channel json io channel (envelopes json (from from_seq log)))
        ++ w.frame (subscribed channel) ∷ []

    -- A client subscribes to a channel from a positive sequence number on, on a working socket, and
    -- after that its loop finds published envelopes only: no further message, no close, no error.
    -- Then it is sent the envelopes on the channel of all the events of the log from that number on,
    -- in order; then the confirmation; and then, of what the loop finds, the envelopes on its
    -- channels, all of them and in order, the new channel being one of them. If the loop then finds
    -- that it lags behind, the client is sent a last frame, the notice of its disconnection, and
    -- nothing of what comes later.
    pub subscribe-delivers :
        (c : Connection json io) (log : List SequencedEvent) (raw channel : Str) (from_seq : ℕ)
        (envs : List (List SequencedEvent × Envelope json io)) (lag_log : List SequencedEvent)
        (later : List (List SequencedEvent × Incoming json.Value))
        → io.from_str raw ≡ ok (subscribe channel from_seq)
        → 0 < from_seq
        → (w.arrived (handle_socket json io ((log, text_frame raw) ∷ broadcasts envs) c).socket
            ≡ (w.arrived c.socket ++ reply log channel from_seq)
              ++ frames (wanted (add c.subscriptions channel) (sent_envelopes envs)))
          × (w.arrived
                (handle_socket json io
                  ((log, text_frame raw) ∷ (broadcasts envs ++ (lag_log, lagged) ∷ later))
                  c).socket
              ≡ w.arrived (handle_socket json io ((log, text_frame raw) ∷ broadcasts envs) c).socket
                ++ w.frame (disconnected "lagged") ∷ [])
          × (contains (add c.subscriptions channel) channel ≡ true)
    unfolding handle_socket turn
    subscribe-delivers c log raw channel from_seq envs lag_log later parsed positive =
        let k = replay_history json io c.socket log channel from_seq in
        let c₁ : Connection json io = record {
          socket = (send_msg json io k (subscribed channel)).1;
          subscriptions = add c.subscriptions channel;
        } in
        let asks : ltb 0 from_seq ≡ true = ground arith in
        let turned : handle_client_message json io log raw c ≡ c₁ =
          unfold handle_client_message answer_message in
          rw (parsed, handle_client_message) (rw asks refl) in
        let history : w.arrived c₁.socket ≡ w.arrived c.socket ++ reply log channel from_seq =
          (send_msg-Works k (subscribed channel)).1
          ∙ (ap (λ (l : List io.Frame). l ++ w.frame (subscribed channel) ∷ [])
                (unfold replay_history in
                  send_all-Works c.socket
                    (on_channel json io channel (envelopes json (from from_seq log))))
              ∙ append_assoc (w.arrived c.socket)
                  (frames (on_channel json io channel (envelopes json (from from_seq log))))
                  (w.frame (subscribed channel) ∷ [])) in
        (
          ap
                (λ (z : Connection json io).
                  w.arrived (handle_socket json io (broadcasts envs) z).socket)
                turned
              ∙ ((broadcast-delivers c₁ envs).0
                  ∙ ap
                      (λ (l : List io.Frame).
                        l ++ frames (wanted (add c.subscriptions channel) (sent_envelopes envs)))
                      history),
          ap (λ (z : Connection json io). w.arrived z.socket)
                (handle_socket-broadcasts (handle_client_message json io log raw c) envs
                  ((lag_log, lagged) ∷ later))
              ∙ lagged-closes
                  (handle_socket json io (broadcasts envs)
                    (handle_client_message json io log raw c))
                  lag_log later,
          contains-add c.subscriptions channel,
        )
