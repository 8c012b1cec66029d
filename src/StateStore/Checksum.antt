-- ===== src/StateStore/Checksum.antt =====
-- The fingerprint of the state store (`checksum` of src/db/mod.rs).
pub mod Order
pub mod Sorting
pub mod Canonical
use rust_matching_engine.Prelude.{
  ℕ, ◌%◌, ◌^◌, ◌==◌, List, [], ◌∷◌, ◌++◌, Bool, true, false, if◌then◌else◌, ltb, length,
}
use rust_matching_engine.HashMap.{HashMap, Bytes}
use rust_matching_engine.Domain.Order.{Crypto, to_be_bytes, prefixed}
use rust_matching_engine.StateStore.{StateStore}

-- `<=` of byte arrays and of texts.
unfoldable pub bytes_le : Bytes → Bytes → Bool
bytes_le [] _ = true
bytes_le (x ∷ xs) [] = false
bytes_le (x ∷ xs) (y ∷ ys) = let rest = bytes_le xs ys in if x == y then rest else ltb x y

module _ {V : Type 0} where
  unfoldable pub insert_by_key : Bytes → V → HashMap Bytes V → List (Bytes × V)
  unfolding bytes_le
  insert_by_key k v [] = (k, v) ∷ []
  insert_by_key k v ((j, w) ∷ m) =
      let rest = insert_by_key k v m in if bytes_le k j then (k, v) ∷ (j, w) ∷ m else (j, w) ∷ rest

  -- `iter().collect()` and `sort_by_key(|(k, _)| k)`
  unfoldable pub sort_by_key : HashMap Bytes V → List (Bytes × V)
  unfolding insert_by_key
  sort_by_key [] = []
  sort_by_key ((k, v) ∷ m) = insert_by_key k v (sort_by_key m)

  -- The updates of one of the three loops.
  unfoldable pub updates : (Bytes → V → Bytes) → List (Bytes × V) → Bytes
  updates f [] = []
  updates f ((k, v) ∷ m) = f k v ++ updates f m

abbrev pub bool_byte : Bool → ℕ
bool_byte false = 0
bool_byte true = 1

-- The bytes that the hash is fed with.
unfoldable pub checksum_bytes : StateStore → Bytes
unfolding sort_by_key updates
checksum_bytes s =
    updates (λ hash qty. hash ++ to_be_bytes 8 qty) (sort_by_key s.filled_amounts)
    ++ (updates (λ hash flag. hash ++ bool_byte flag ∷ []) (sort_by_key s.cancelled)
        ++ updates (λ trader nonce. prefixed trader ++ to_be_bytes 8 nonce) (sort_by_key s.nonces))

unfoldable pub checksum : Crypto → StateStore → Bytes
unfolding checksum_bytes
checksum x s = x.sha256 (checksum_bytes s)
