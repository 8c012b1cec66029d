-- ===== src/Snapshot/RoundTrip.antt =====
-- What a snapshot file brings back, and what is refused (src/snapshot/mod.rs).
use rust_matching_engine.Prelude.{
  ℕ, ◌≡◌, ◌≢◌, refl, sym, ap, ◌∙◌, inl, inr, List, arith, Result-cases, ok, err, decide,
}
use rust_matching_engine.Domain.Market.{Str, MarketConfig}
use rust_matching_engine.Domain.Order.{Crypto}
use rust_matching_engine.Events.{SequencedEvent}
use rust_matching_engine.StateStore.{StateStore}
use rust_matching_engine.StateStore.Checksum.{checksum}
use rust_matching_engine.Engine.{Engine}
use rust_matching_engine.Replay.{ReplayResult, replay}
use rust_matching_engine.Replay.Recovery.{replay-rebuilds}
use rust_matching_engine.Run.{IsReachable, reachable-IsSafe}
use rust_matching_engine.Snapshot.{
  Snapshot, Files, last_seq, checksum_mismatch, new_snapshot, verify_snapshot, create_snapshot,
  load_snapshot, snapshot_schema_version,
}

-- A file holds what was last written to it, and serde_json reads what it wrote.
pub record ReadsBack (fs : Files) : Type 0 where
  pub file :
      (disk disk' : fs.Disk) (path : Str) (text : fs.Text)
      → fs.write disk path text ≡ (ok tt, disk')
      → fs.read_to_string disk' path ≡ ok text
  pub text :
      (snap : Snapshot) (text : fs.Text)
      → fs.to_string_pretty snap ≡ ok text
      → fs.from_str text ≡ ok snap

-- A snapshot that passes the checks.
verify_snapshot_passes :
    (x : Crypto) (snap : Snapshot) (r : ReplayResult)
    → snap.schema_version ≡ snapshot_schema_version
    → replay snap.events ≡ ok r
    → x.hex_encode (checksum x r.state) ≡ snap.state_checksum
    → verify_snapshot x snap ≡ ok (r, snap.markets, snap.snapshot_seq)
unfolding verify_snapshot mathlib.Core.Bool.decide
verify_snapshot_passes x snap r version good same = ground arith

-- A snapshot whose stored checksum is not that of the replayed state.
verify_snapshot_refuses :
    (x : Crypto) (snap : Snapshot) (r : ReplayResult)
    → snap.schema_version ≡ snapshot_schema_version
    → replay snap.events ≡ ok r
    → x.hex_encode (checksum x r.state) ≢ snap.state_checksum
    → verify_snapshot x snap
      ≡ err (checksum_mismatch snap.state_checksum (x.hex_encode (checksum x r.state)))
unfolding verify_snapshot mathlib.Core.Bool.decide
verify_snapshot_refuses x snap r version good other = ground arith

module _ (fs : Files) (x : Crypto) where
  -- A file that reads as a snapshot of the current version with the log of an engine that calls reach
  -- is loaded if, and only if, its stored checksum is that of the state store of the engine itself. A
  -- load gives a state store equal to the engine's, and the markets and the number of the file. A
  -- refusal is a checksum mismatch that names the stored checksum and the engine's.
  pub load_snapshot-detects :
      (e : Engine) (path : Str) (disk : fs.Disk) (text : fs.Text) (snap : Snapshot)
      → IsReachable x e
      → fs.read_to_string disk path ≡ ok text
      → fs.from_str text ≡ ok snap
      → snap.schema_version ≡ snapshot_schema_version
      → snap.events ≡ e.sequencer.log
      → (x.hex_encode (checksum x e.state) ≡ snap.state_checksum
          → (r : ReplayResult) × (load_snapshot fs x path disk
              ≡ ok (r, snap.markets, snap.snapshot_seq))
            × (r.state ≡ e.state))
        × (x.hex_encode (checksum x e.state) ≢ snap.state_checksum
            → load_snapshot fs x path disk
              ≡ err (checksum_mismatch snap.state_checksum (x.hex_encode (checksum x e.state))))
  unfolding load_snapshot
  load_snapshot-detects e path disk text snap run read parsed version same =
      let (r, good, state) = replay-rebuilds e (reachable-IsSafe x e run).recorded in
      let replayed : replay snap.events ≡ ok r = ap replay same ∙ good in
      let sum : x.hex_encode (checksum x r.state) ≡ x.hex_encode (checksum x e.state) =
        ap (λ (s : StateStore). x.hex_encode (checksum x s)) state in
      (
        (λ good_sum. (
          r,
          rw (read, parsed) (verify_snapshot_passes x snap r version replayed (sum ∙ good_sum)),
          state,
        )),
        (λ other.
            rw (read, parsed)
              (verify_snapshot_refuses x snap r version replayed (λ k. other (sym sum ∙ k))
                ∙ ap (λ (c : Str). err (checksum_mismatch snap.state_checksum c)) sum)),
      )

  written :
      (now : ℕ) (path : Str) (log : List SequencedEvent) (markets : List MarketConfig) (sum : Str)
      (disk disk' : fs.Disk) (snap : Snapshot)
      → ReadsBack fs
      → create_snapshot fs x now path log markets sum disk ≡ (ok snap, disk')
      → (text : fs.Text) × (fs.read_to_string disk' path ≡ ok text)
        × (fs.from_str text ≡ ok snap)
        × (snap ≡ new_snapshot x now log markets sum)
  written now path log markets sum disk disk' snap back =
      elim (Result-cases (fs.to_string_pretty (new_snapshot x now log markets sum))) [
        | inr (e, failed) ↦ unfold create_snapshot in rw (failed, create_snapshot) (λ h. cc h)
        | inl (text, printed) ↦ elim (Result-cases (fs.write disk path text).0) [
          | inr (e, failed) ↦
              unfold create_snapshot in rw (printed, failed, create_snapshot) (λ h. cc h)
          | inl (_, done) ↦
              unfold create_snapshot in
              rw (printed, done, create_snapshot)
                (λ h.
                  let same : new_snapshot x now log markets sum ≡ snap = cc h in
                  let where_ : (fs.write disk path text).1 ≡ disk' = cc h in
                  (
                    text,
                    back.file disk disk' path text (cc (done, where_)),
                    back.text snap text (ap fs.to_string_pretty (sym same) ∙ printed),
                    sym same,
                  ))
        ]
      ]

  -- A snapshot of an engine that calls reach, once it is written, is loaded again, if files hold what
  -- was last written to them and serde_json reads what it wrote:
  -- the replayed state store is that of the engine, and the markets and the last sequence number are
  -- those that were saved.
  pub snapshot-recovers :
      (e : Engine) (now : ℕ) (path : Str) (markets : List MarketConfig) (disk disk' : fs.Disk)
      (snap : Snapshot)
      → ReadsBack fs
      → IsReachable x e
      → create_snapshot fs x now path e.sequencer.log markets (checksum x e.state) disk
        ≡ (ok snap, disk')
      → (r : ReplayResult) × (load_snapshot fs x path disk'
          ≡ ok (r, markets, last_seq 0 e.sequencer.log))
        × (r.state ≡ e.state)
  unfolding new_snapshot load_snapshot
  snapshot-recovers e now path markets disk disk' snap back run h =
      let (text, read, parsed, same) =
        written now path e.sequencer.log markets (checksum x e.state) disk disk' snap back h in
      let (r, good, state) = replay-rebuilds e (reachable-IsSafe x e run).recorded in
      (
        r,
        rw (read, parsed, same)
            (verify_snapshot_passes x
              (new_snapshot x now e.sequencer.log markets (checksum x e.state)) r refl good
              (ap (λ (s : StateStore). x.hex_encode (checksum x s)) state)),
        state,
      )
