-- ===== src/StateStore/Checksum/Order.antt =====
-- The order of keys is total (src/db/mod.rs).
use rust_matching_engine.Prelude.{◌≡◌, refl, [], ◌∷◌, true, false, arith}
use rust_matching_engine.HashMap.{Bytes}
use rust_matching_engine.StateStore.Checksum.{bytes_le}

pub bytes_le_refl : (a : Bytes) → bytes_le a a ≡ true
unfolding bytes_le
bytes_le_refl [] = refl
bytes_le_refl (x ∷ a) = let rest = bytes_le_refl a in ground arith

pub bytes_le_total : (a b : Bytes) → bytes_le a b ≡ false → bytes_le b a ≡ true
unfolding bytes_le
bytes_le_total [] b h = cc
bytes_le_total (x ∷ a) [] h = refl
bytes_le_total (x ∷ a) (y ∷ b) h = let rest = bytes_le_total a b in ground arith

pub bytes_le_antisymm : (a b : Bytes) → bytes_le a b ≡ true → bytes_le b a ≡ true → a ≡ b
unfolding bytes_le
bytes_le_antisymm [] [] h k = refl
bytes_le_antisymm [] (y ∷ b) h k = cc
bytes_le_antisymm (x ∷ a) [] h k = cc
bytes_le_antisymm (x ∷ a) (y ∷ b) h k = let rest = bytes_le_antisymm a b in ground arith

pub bytes_le_trans :
    (a b c : Bytes) → bytes_le a b ≡ true → bytes_le b c ≡ true → bytes_le a c ≡ true
unfolding bytes_le
bytes_le_trans [] b c h k = refl
bytes_le_trans (x ∷ a) [] c h k = cc
bytes_le_trans (x ∷ a) (y ∷ b) [] h k = cc
bytes_le_trans (x ∷ a) (y ∷ b) (z ∷ c) h k = let rest = bytes_le_trans a b c in ground arith
