-- ===== src/Replay/Verify.antt =====
-- The determinism check of a replay (src/replay/mod.rs).
use rust_matching_engine.Prelude.{◌≡◌, refl, Option, none, some, List, ite, if_pos, Result, ok, err}
use rust_matching_engine.HashMap.{Bytes, bytes_eq}
use rust_matching_engine.Domain.Order.{Crypto}
use rust_matching_engine.Events.{SequencedEvent}
use rust_matching_engine.StateStore.Checksum.{checksum}
use rust_matching_engine.Replay.{ReplayError, ReplayResult, replay}

-- The end of `verify_replay`, with both results; `none` is the failed assertion.
unfoldable pub compare :
    Crypto → ReplayResult → ReplayResult → Option (Result ReplayError (Bytes × ReplayResult))
compare x first second =
    ite (bytes_eq (checksum x first.state) (checksum x second.state))
      (some (ok (checksum x first.state, first))) none

unfoldable pub verify_replay :
    Crypto → List SequencedEvent → Option (Result ReplayError (Bytes × ReplayResult))
unfolding compare
verify_replay x events = elim (replay events) [
  | err e ↦ some (err e)
  | ok first ↦ elim (replay events) [ err e ↦ some (err e) | ok second ↦ compare x first second ]
]

-- The assertion never fails: the check answers with the error of the replay, or with the checksum of
-- its state store and its result.
pub verify_replay-asserts :
    (x : Crypto) (events : List SequencedEvent) (r : ReplayResult)
    → replay events ≡ ok r
    → verify_replay x events ≡ some (ok (checksum x r.state, r))
verify_replay-asserts x events r h =
    unfold verify_replay in
    rw (h, verify_replay, h)
      (unfold compare in if_pos (bytes_eq (checksum x r.state) (checksum x r.state)) refl _ _)
