-- ===== src/Tests/Parameters.antt =====
-- Concrete parameters: a codec that keeps the events, a table as a sorted list of rows, a socket that
-- records its frames and a disk in memory.
use rust_matching_engine.Prelude.{
  ℕ, ◌<◌, ◌≡◌, refl, sym, subst, ap, ◌⊎◌, inl, inr, Option, none, some, List, [], ◌∷◌, ◌++◌, Bool,
  true, false, if◌then◌else◌, ltb, ◌==◌, map, All, Has, ok, ok_or, arith,
}
use rust_matching_engine.HashMap.{HashMap, bytes_key}
use rust_matching_engine.HashMap
use rust_matching_engine.Domain.Market.{Str}
use rust_matching_engine.Events.{Event, SequencedEvent}
use rust_matching_engine.Pg.{Row, Json, Database}
use rust_matching_engine.Pg.Holds.{IsCodec, IsTable}
use rust_matching_engine.Api.Ws.{subscribe, ServerMsg, Transport}
use rust_matching_engine.Api.Ws.Delivery.{Works}
use rust_matching_engine.Snapshot.{Snapshot, Files}
use rust_matching_engine.Snapshot.RoundTrip.{ReadsBack}

-- A value is the event or the sequenced event that was written.
abbrev pub Written : Type 0
Written = Event ⊎ SequencedEvent

abbrev read_event : Written → Option SequencedEvent
read_event (inl _) = none
read_event (inr se) = some se

abbrev pub json : Json
json = record {
  Value = Written;
  event_value = λ ev. some (inl ev);
  to_value = λ se. some (inr se);
  from_value = read_event;
}

reads_back :
    (se : SequencedEvent) (v : Written)
    → ◌≡◌ {A = Option Written} (some (inr se)) (some v)
    → read_event v ≡ some se
reads_back se v h =
    let same : inr se ≡ v = cc h in subst (λ (w : Written). read_event w ≡ some se) same refl

pub codec : IsCodec json
codec = record { writes = λ se. (inr se, refl); reads = reads_back }

abbrev has_id : ℕ → List (Row Written) → Bool
has_id n [] = false
has_id n (q ∷ rows) = let rest = has_id n rows in if q.seq_id == n then true else rest

abbrev insert_row : Row Written → List (Row Written) → List (Row Written)
insert_row r [] = r ∷ []
insert_row r (q ∷ rows) =
    let rest = insert_row r rows in if ltb r.seq_id q.seq_id then r ∷ q ∷ rows else q ∷ rest

abbrev insert_or_ignore : List (Row Written) → Row Written → List (Row Written)
insert_or_ignore rows r = if has_id r.seq_id rows then rows else insert_row r rows

abbrev pub db : Database Written
db = record {
  Table = List (Row Written);
  insert_or_ignore = insert_or_ignore;
  select_ordered = λ rows. rows;
}

abbrev id_list : List (Row Written) → List ℕ
id_list rows = map (λ (r : Row Written). r.seq_id) rows

has_id-Has : (n : ℕ) (rows : List (Row Written)) → Has (id_list rows) n → has_id n rows ≡ true
has_id-Has n [] h = absurd h
has_id-Has n (q ∷ rows) (inl same) = ground arith
has_id-Has n (q ∷ rows) (inr later) = let rest = has_id-Has n rows later in ground arith

has_id-above :
    (n : ℕ) (rows : List (Row Written))
    → All (λ (k : ℕ). k < n) (id_list rows)
    → has_id n rows ≡ false
has_id-above n [] h = refl
has_id-above n (q ∷ rows) (here, rest) = let tail = has_id-above n rows rest in ground arith

insert_row-last :
    (r : Row Written) (rows : List (Row Written))
    → All (λ (k : ℕ). k < r.seq_id) (id_list rows)
    → insert_row r rows ≡ rows ++ r ∷ []
insert_row-last r [] h = refl
insert_row-last r (q ∷ rows) (here, rest) =
    let below : ltb r.seq_id q.seq_id ≡ false = ground arith in
    rw below (ap (λ (l : List (Row Written)). q ∷ l) (insert_row-last r rows rest))

pub sql : IsTable db
sql = record {
  conflict = λ t r h. rw (has_id-Has r.seq_id t h) refl;
  last = λ t r h _. rw (has_id-above r.seq_id t h) (insert_row-last r t h);
}

-- Every message of the client is read as a subscription from the first event on.
abbrev pub transport : Str → Transport Written
transport channel = record {
  Frame = ServerMsg Written;
  from_str = λ _. ok (subscribe channel 1);
  to_text = λ m. some m;
  Socket = List (ServerMsg Written);
  send = λ k f. (true, k ++ f ∷ []);
}

abbrev pub works : (channel : Str) → Works json (transport channel)
works channel = record {
  frame = λ m. m;
  framed = λ m. refl;
  arrived = λ k. k;
  sends = λ k f. refl;
  delivers = λ k f. refl;
}

abbrev no_file : Str
no_file = []

abbrev pub files : Files
files = record {
  Disk = HashMap Str Snapshot;
  Text = Snapshot;
  write = λ disk path text. (ok tt, HashMap.insert disk path text);
  read_to_string = λ disk path. ok_or (HashMap.get disk path) no_file;
  to_string_pretty = λ snap. ok snap;
  from_str = λ snap. ok snap;
}

pub reads : ReadsBack files
reads = record {
  file = λ disk disk' path text h.
      let same : HashMap.insert disk path text ≡ disk' = cc h in
      rw (sym same, HashMap.get-insert_self disk path text) refl;
  text = λ snap text h. sym h;
}
