-- ===== src/Snapshot.antt =====
-- Snapshot files (src/snapshot/mod.rs): the file system and serde_json are parameters.
pub mod Names
pub mod RoundTrip
use rust_matching_engine.Prelude.{
  ℕ, Option, none, some, List, [], ◌∷◌, if◌then◌else◌, ite, ◌==◌, Result, ok, err, map_err, guard,
  decide, ◌>>=◌, ◌>>◌,
}
use rust_matching_engine.HashMap.{bytes_eq}
use rust_matching_engine.Domain.Market.{Str, MarketConfig}
use rust_matching_engine.Domain.Order.{Crypto}
use rust_matching_engine.Events.{SequencedEvent}
use rust_matching_engine.StateStore.{StateStore}
use rust_matching_engine.StateStore.Checksum.{checksum}
use rust_matching_engine.Replay.{ReplayError, ReplayResult, replay}

abbrev pub snapshot_schema_version : ℕ
snapshot_schema_version = 1

pub record Snapshot : Type 0 where
  pub schema_version : ℕ
  pub snapshot_seq : ℕ
  pub state_checksum : Str
  pub created_at_ms : ℕ
  pub events : List SequencedEvent
  pub markets : List MarketConfig

-- std::fs and serde_json; `Text` are the contents of files.
pub record Files : Type 1 where
  pub Disk : Type 0
  pub Text : Type 0
  pub write : Disk → Str → Text → Result Str (Unit {0}) × Disk
  pub read_to_string : Disk → Str → Result Str Text
  pub to_string_pretty : Snapshot → Result Str Text
  pub from_str : Text → Result Str Snapshot

pub data SnapshotError : Type 0 where
  io json : Str → SnapshotError
  unsupported_version : (found : ℕ) → SnapshotError
  checksum_mismatch : (stored computed : Str) → SnapshotError
  replay_failed : ReplayError → SnapshotError

-- `events.last().map(|e| e.seq_id).unwrap_or(0)`
unfoldable pub last_seq : ℕ → List SequencedEvent → ℕ
last_seq n [] = n
last_seq n (se ∷ log) = last_seq se.seq_id log

unfoldable pub new_snapshot : Crypto → ℕ → List SequencedEvent → List MarketConfig → Str → Snapshot
unfolding last_seq
new_snapshot x created_at_ms events markets checksum = record {
  schema_version = snapshot_schema_version;
  snapshot_seq = last_seq 0 events;
  state_checksum = x.hex_encode checksum;
  created_at_ms = created_at_ms;
  events = events;
  markets = markets;
}

-- The checks of `load_snapshot` on a snapshot that was read.
unfoldable pub verify_snapshot :
    Crypto → Snapshot → Result SnapshotError (ReplayResult × List MarketConfig × ℕ)
verify_snapshot x snap = do
  guard (snap.schema_version == snapshot_schema_version) (unsupported_version snap.schema_version)
  result ← map_err replay_failed (replay snap.events)
  guard (decide (bytes_eq (x.hex_encode (checksum x result.state)) snap.state_checksum))
      (checksum_mismatch snap.state_checksum (x.hex_encode (checksum x result.state)))
  ok (result, snap.markets, snap.snapshot_seq)

module _ (fs : Files) where
  unfoldable pub create_snapshot :
      Crypto
      → ℕ
      → Str
      → List SequencedEvent
      → List MarketConfig
      → Str
      → fs.Disk
      → Result SnapshotError Snapshot × fs.Disk
  unfolding new_snapshot
  create_snapshot x now path events markets checksum disk =
      let snap = new_snapshot x now events markets checksum in
      elim (fs.to_string_pretty snap) [
        | err e ↦ (err (json e), disk)
        | ok text ↦
            let (written, disk') = fs.write disk path text in
            elim written [ err e ↦ (err (io e), disk') | ok _ ↦ (ok snap, disk') ]
      ]

  unfoldable pub load_snapshot :
      Crypto → Str → fs.Disk → Result SnapshotError (ReplayResult × List MarketConfig × ℕ)
  unfolding verify_snapshot
  load_snapshot x path disk = do
    text ← map_err io (fs.read_to_string disk path)
    snap ← map_err json (fs.from_str text)
    verify_snapshot x snap
