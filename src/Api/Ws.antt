-- ===== src/Api/Ws.antt =====
-- The WebSocket feed: one connection, its subscriptions and what it sends (src/api/ws.rs).
pub mod Delivery
use Prim.Native.String.{String}
use rust_matching_engine.Prelude.{
  ℕ, Option, none, some, List, [], ◌∷◌, ◌++◌, Bool, true, false, ite, if◌then◌else◌, ltb, leb,
  Result, ok, err,
}
use rust_matching_engine.HashMap.{bytes_eq}
use rust_matching_engine.Domain.Market.{Str}
use rust_matching_engine.Events.{SequencedEvent}
use rust_matching_engine.Pg.{Json}
use rust_matching_engine.Api.{WsEnvelope, envelopes}

pub data ClientMsg : Type 0 where
  subscribe : (channel : Str) → (from_seq : ℕ) → ClientMsg
  unsubscribe : (channel : Str) → ClientMsg
  ping : ClientMsg

pub data ServerMsg (Value : Type 0) : Type 0 where
  subscribed unsubscribed : (channel : Str) → ServerMsg Value
  event : WsEnvelope Value → ServerMsg Value
  error : (code : String) → (message : Str) → ServerMsg Value
  pong : ServerMsg Value
  disconnected : (reason : String) → ServerMsg Value

-- serde_json on the messages, and the socket: `send` answers whether it succeeded.
pub record Transport (Value : Type 0) : Type 1 where
  pub Frame : Type 0
  pub from_str : Str → Result Str ClientMsg
  pub to_text : ServerMsg Value → Option Frame
  pub Socket : Type 0
  pub send : Socket → Frame → Bool × Socket

-- What `select!` finds: a message of the client or a result of the broadcast channel.
pub data Incoming (Value : Type 0) : Type 0 where
  text_frame : Str → Incoming Value
  other_frame : Incoming Value
  close_frame : Incoming Value
  read_error : Incoming Value
  published : WsEnvelope Value → Incoming Value
  lagged : Incoming Value
  channel_closed : Incoming Value

-- "could not parse message: ", which the reason of the parser follows.
abbrev parse_error_prefix : Str
parse_error_prefix =
    b'c' ∷ b'o' ∷ b'u' ∷ b'l' ∷ b'd' ∷ b' ' ∷ b'n' ∷ b'o' ∷ b't' ∷ b' ' ∷ b'p' ∷ b'a' ∷ b'r' ∷ b's'
    ∷ b'e' ∷ b' ' ∷ b'm' ∷ b'e' ∷ b's' ∷ b's' ∷ b'a' ∷ b'g' ∷ b'e' ∷ b':' ∷ b' ' ∷ []

-- The `HashSet` of channels.
unfoldable pub contains : List Str → Str → Bool
contains [] channel = false
contains (c ∷ subscriptions) channel =
    ite (bytes_eq c channel) true (contains subscriptions channel)

unfoldable pub remove : List Str → Str → List Str
remove [] channel = []
remove (c ∷ subscriptions) channel =
    ite (bytes_eq c channel) (remove subscriptions channel) (c ∷ remove subscriptions channel)

unfoldable pub add : List Str → Str → List Str
unfolding contains
add subscriptions channel =
    if contains subscriptions channel then subscriptions else channel ∷ subscriptions

-- The events from a sequence number on.
unfoldable pub from : ℕ → List SequencedEvent → List SequencedEvent
from n [] = []
from n (se ∷ log) = let rest = from n log in if leb n se.seq_id then se ∷ rest else rest

module _ (json : Json) (io : Transport json.Value) where
  abbrev pub Envelope : Type 0
  Envelope = WsEnvelope json.Value

  pub record Connection : Type 0 where
    pub socket : io.Socket
    pub subscriptions : List Str

  unfoldable pub on_channel : Str → List Envelope → List Envelope
  on_channel channel [] = []
  on_channel channel (env ∷ envs) =
      ite (bytes_eq env.channel channel) (env ∷ on_channel channel envs) (on_channel channel envs)

  -- A frame, if the message has one, and whether the socket still works.
  unfoldable pub send_msg : io.Socket → ServerMsg json.Value → Bool × io.Socket
  send_msg socket msg = elim (io.to_text msg) [
    | none ↦ (true, socket)
    | some frame ↦ io.send socket frame
  ]

  unfoldable pub send_all : io.Socket → List Envelope → io.Socket
  unfolding send_msg
  send_all socket [] = socket
  send_all socket (env ∷ envs) =
      let (works, socket') = send_msg socket (event env) in
      let rest = send_all socket' envs in if works then rest else socket'

  unfoldable pub replay_history : io.Socket → List SequencedEvent → Str → ℕ → io.Socket
  unfolding from on_channel send_all
  replay_history socket log channel from_seq =
      send_all socket (on_channel channel (envelopes json (from from_seq log)))

  -- The `match` of a message that is understood.
  unfoldable pub answer_message : List SequencedEvent → ClientMsg → Connection → Connection
  unfolding add remove replay_history send_msg
  answer_message log (subscribe channel from_seq) c =
      let socket =
        if ltb 0 from_seq then replay_history c.socket log channel from_seq else c.socket in
      record {
        socket = (send_msg socket (subscribed channel)).1;
        subscriptions = add c.subscriptions channel;
      }
  answer_message log (unsubscribe channel) c = record {
    socket = (send_msg c.socket (unsubscribed channel)).1;
    subscriptions = remove c.subscriptions channel;
  }
  answer_message log ping c = record c { socket = (send_msg c.socket pong).1 }

  unfoldable pub handle_client_message : List SequencedEvent → Str → Connection → Connection
  unfolding answer_message
  handle_client_message log raw c = elim (io.from_str raw) [
    | err e ↦ record c {
      socket = (send_msg c.socket (error "PARSE_ERROR" (parse_error_prefix ++ e))).1;
    }
    | ok msg ↦ answer_message log msg c
  ]

  -- One turn of the loop, and whether the loop goes on.
  unfoldable pub turn : List SequencedEvent → Incoming json.Value → Connection → Bool × Connection
  unfolding handle_client_message contains
  turn log (text_frame raw) c = (true, handle_client_message log raw c)
  turn log other_frame c = (true, c)
  turn log close_frame c = (false, c)
  turn log read_error c = (false, c)
  turn log (published env) c =
      let sent = send_msg c.socket (event env) in
      if contains c.subscriptions env.channel
      then (sent.0, record c { socket = sent.1 })
      else (true, c)
  turn log lagged c = (false, record c { socket = (send_msg c.socket (disconnected "lagged")).1 })
  turn log channel_closed c = (false, c)

  -- The loop, on what it finds in turn, each with the engine's log at that time.
  unfoldable pub handle_socket :
      List (List SequencedEvent × Incoming json.Value) → Connection → Connection
  unfolding turn
  handle_socket [] c = c
  handle_socket ((log, incoming) ∷ rest) c =
      let (goes_on, c') = turn log incoming c in
      let after = handle_socket rest c' in if goes_on then after else c'
