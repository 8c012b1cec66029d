-- ===== src/Pg/Holds.antt =====
-- What a table holds after appends (src/pg/mod.rs).
use rust_matching_engine.Prelude.{
  ℕ, ◌^◌, ◌<◌, ◌≡◌, refl, sym, subst, ap, ◌∙◌, inl, inr, some, List, [], ◌∷◌, ◌++◌, map, All, Has,
  Option-cases, Result-cases, ok, arith,
}
use rust_matching_engine.Events.{SequencedEvent}
use rust_matching_engine.Pg.{Row, Json, Database, event_type_tag, row_of, decode_rows}

-- serde_json writes every event and reads what it wrote.
pub record IsCodec (json : Json) : Type 0 where
  pub writes : (se : SequencedEvent) → (v : json.Value) × (json.to_value se ≡ some v)
  pub reads :
      (se : SequencedEvent) (v : json.Value)
      → json.to_value se ≡ some v
      → json.from_value v ≡ some se

abbrev row_ids : {Value : Type 0} → List (Row Value) → List ℕ
row_ids rows = map (λ (r : Row _). r.seq_id) rows

abbrev pub ids : List SequencedEvent → List ℕ
ids log = map (λ (se : SequencedEvent). se.seq_id) log

-- What PostgreSQL documents: a row whose number is in the table is left out, and the rows are read in
-- the order of their numbers, which are `BIGINT`s.
pub record IsTable {Value : Type 0} (db : Database Value) : Type 0 where
  pub conflict :
      (t : db.Table) (row : Row Value)
      → Has (row_ids (db.select_ordered t)) row.seq_id
      → db.select_ordered (db.insert_or_ignore t row) ≡ db.select_ordered t
  pub last :
      (t : db.Table) (row : Row Value)
      → All (λ (n : ℕ). n < row.seq_id) (row_ids (db.select_ordered t))
      → row.seq_id < 2 ^ 63
      → db.select_ordered (db.insert_or_ignore t row) ≡ db.select_ordered t ++ row ∷ []

pub map-append_one :
    {A : Type 0} (f : A → ℕ) (xs : List A) (x : A) → map f (xs ++ x ∷ []) ≡ map f xs ++ f x ∷ []
map-append_one f [] x = refl
map-append_one f (y ∷ xs) x = ap (λ (r : List ℕ). f y ∷ r) (map-append_one f xs x)

-- Each number is above those before it, and a positive `BIGINT`.
unfoldable pub Climbs : List ℕ → List SequencedEvent → Type 0
Climbs before [] = Unit {0}
Climbs before (se ∷ log) =
    All (λ (n : ℕ). n < se.seq_id) before
    × (se.seq_id < 2 ^ 63)
    × Climbs (before ++ se.seq_id ∷ []) log

module _ (json : Json) (db : Database json.Value) (codec : IsCodec json) (sql : IsTable db) where
  -- The table holds the log: its rows, in order, are the events.
  pub record Holds (t : db.Table) (log : List SequencedEvent) : Type 0 where
    pub decoded : decode_rows json (db.select_ordered t) ≡ ok log
    pub numbers : row_ids (db.select_ordered t) ≡ ids log

  decode_rows-append :
      (rows : List (Row json.Value)) (row : Row json.Value) (log : List SequencedEvent)
      (se : SequencedEvent)
      → decode_rows json rows ≡ ok log
      → json.from_value row.payload ≡ some se
      → decode_rows json (rows ++ row ∷ []) ≡ ok (log ++ se ∷ [])
  unfolding decode_rows
  decode_rows-append [] row log se h read = ground (arith, read)
  decode_rows-append (r ∷ rows) row log se h read =
      elim (Option-cases (json.from_value r.payload)) [
        | inl bad ↦ cc (rw bad at h)
        | inr (first, good) ↦ elim (Result-cases (decode_rows json rows)) [
          | inr (e, failed) ↦ cc (rw (good, failed) at h)
          | inl (rest, done) ↦
              let same : first ∷ rest ≡ log = cc (rw (good, done) at h) in
              rw (good, decode_rows-append rows row rest se done read)
                (ap (λ (l : List SequencedEvent). ok (l ++ se ∷ [])) same)
        ]
      ]

  unfoldable pub row : SequencedEvent → Row json.Value
  row se = record {
    seq_id = se.seq_id;
    timestamp_ms = se.timestamp_ms;
    event_type = event_type_tag se.event;
    payload = (codec.writes se).0;
  }

  pub row_of-row : (se : SequencedEvent) → row_of json se ≡ ok (row se)
  unfolding row_of row
  row_of-row se = rw ((codec.writes se).1, row_of) refl

  pub insert-old :
      (t : db.Table) (log : List SequencedEvent) (se : SequencedEvent)
      → Has (ids log) se.seq_id
      → Holds t log
      → Holds (db.insert_or_ignore t (row se)) log
  unfolding row
  insert-old t log se here h =
      let same =
        sql.conflict t (row se) (subst (λ (l : List ℕ). Has l se.seq_id) (sym h.numbers) here) in
      record {
        decoded = ap (decode_rows json) same ∙ h.decoded;
        numbers = ap row_ids same ∙ h.numbers;
      }

  pub insert-new :
      (t : db.Table) (log : List SequencedEvent) (se : SequencedEvent)
      → All (λ (n : ℕ). n < se.seq_id) (ids log)
      → se.seq_id < 2 ^ 63
      → Holds t log
      → Holds (db.insert_or_ignore t (row se)) (log ++ se ∷ [])
  unfolding row
  insert-new t log se above small h =
      let same =
        sql.last t (row se)
          (subst (λ (l : List ℕ). All (λ (n : ℕ). n < se.seq_id) l) (sym h.numbers) above) small in
      record {
        decoded =
            ap (decode_rows json) same
            ∙ decode_rows-append (db.select_ordered t) (row se) log se h.decoded
                (codec.reads se (codec.writes se).0 (codec.writes se).1);
        numbers =
            ap row_ids same
            ∙ (map-append_one (λ (r : Row json.Value). r.seq_id) (db.select_ordered t) (row se)
                ∙ (ap (λ (l : List ℕ). l ++ se.seq_id ∷ []) h.numbers
                    ∙ sym (map-append_one (λ (e : SequencedEvent). e.seq_id) log se)));
      }
