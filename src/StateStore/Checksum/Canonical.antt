-- ===== src/StateStore/Checksum/Canonical.antt =====
-- The checksum is a function of what the maps answer (src/db/mod.rs).
use rust_matching_engine.Prelude.{◌≡◌, refl, sym, subst, ◌∙◌, [], ◌∷◌, true, none, some}
use rust_matching_engine.HashMap.{HashMap, Bytes, bytes_eq, bytes_key}
use rust_matching_engine.HashMap
use rust_matching_engine.Domain.Order.{Crypto}
use rust_matching_engine.StateStore.{StateStore}
use rust_matching_engine.StateStore.Checksum.{bytes_le, sort_by_key, checksum_bytes, checksum}
use rust_matching_engine.StateStore.Checksum.Order.{bytes_le_antisymm, bytes_le_refl}
use rust_matching_engine.StateStore.Checksum.Sorting.{
  IsMap, Above, IsAscending, get-head, get-tail, get-sort_by_key, sort_by_key-IsAscending,
}

-- Two maps answer alike.
abbrev pub SameAnswers : {V : Type 0} → HashMap Bytes V → HashMap Bytes V → Type 0
SameAnswers m n = (j : Bytes) → HashMap.get m j ≡ HashMap.get n j

module _ {V : Type 0} where
  nothing : (j : Bytes) → HashMap.get {V = V} [] j ≡ none
  unfolding HashMap.get
  nothing j = refl

  get-Above : (k : Bytes) (m : HashMap Bytes V) → Above k m → HashMap.get m k ≡ none
  unfolding HashMap.get
  get-Above k [] _ = refl
  get-Above k ((i, w) ∷ m) (here, rest) = get-tail i k w m here.1 ∙ get-Above k m rest

  -- A key that is held and not the first one is above the first one.
  held-Above :
      (k j : Bytes) (w : V) (m : HashMap Bytes V)
      → Above k m
      → HashMap.get m j ≡ some w
      → bytes_le k j ≡ true
  unfolding HashMap.get
  held-Above k j w [] _ h = cc
  held-Above k j w ((i, x) ∷ m) (here, rest) h = elim (bytes_eq i j) [
    | yes same ↦ rw same at here.0
    | no other ↦ held-Above k j w m rest (sym (get-tail i j x m other) ∙ h)
  ]

  -- The least key of a map is the least key of a map that answers alike.
  head-le :
      (k i : Bytes) (v w : V) (m n : HashMap Bytes V)
      → Above k m
      → SameAnswers ((k, v) ∷ m) ((i, w) ∷ n)
      → bytes_le k i ≡ true
  head-le k i v w m n a h = elim (bytes_eq k i) [
    | yes same ↦ rw same (bytes_le_refl i)
    | no other ↦ held-Above k i w m a (sym (get-tail k i v m other) ∙ (h i ∙ get-head i w n))
  ]

  tail-SameAnswers :
      (k : Bytes) (v w : V) (m n : HashMap Bytes V)
      → Above k m
      → Above k n
      → SameAnswers ((k, v) ∷ m) ((k, w) ∷ n)
      → SameAnswers m n
  tail-SameAnswers k v w m n a b h j = elim (bytes_eq k j) [
    | yes same ↦
        subst (λ (i : Bytes). HashMap.get m i ≡ HashMap.get n i) same
          (get-Above k m a ∙ sym (get-Above k n b))
    | no other ↦ sym (get-tail k j v m other) ∙ (h j ∙ get-tail k j w n other)
  ]

  -- Ascending lists that answer alike are the same list.
  IsAscending-unique :
      (m n : HashMap Bytes V) → IsAscending m → IsAscending n → SameAnswers m n → m ≡ n
  unfolding IsAscending
  IsAscending-unique [] [] _ _ h = refl
  IsAscending-unique [] ((i, w) ∷ n) _ _ h = cc (h i, get-head i w n, nothing i)
  IsAscending-unique ((k, v) ∷ m) [] _ _ h = cc (h k, get-head k v m, nothing k)
  IsAscending-unique ((k, v) ∷ m) ((i, w) ∷ n) (a, above) (b, below) h =
      let same : k ≡ i =
        bytes_le_antisymm k i (head-le k i v w m n a h) (head-le i k w v n m b (λ j. sym (h j))) in
      let b' : Above k n = subst (λ (j : Bytes). Above j n) (sym same) b in
      let h' : SameAnswers ((k, v) ∷ m) ((k, w) ∷ n) =
        subst (λ (j : Bytes). SameAnswers ((k, v) ∷ m) ((j, w) ∷ n)) (sym same) h in
      let rest : m ≡ n = IsAscending-unique m n above below (tail-SameAnswers k v w m n a b' h') in
      let value : v ≡ w = cc (h' k, get-head k v m, get-head k w n) in cc (same, rest, value)

  sort_by_key-same :
      (m n : HashMap Bytes V) → IsMap m → IsMap n → SameAnswers m n → sort_by_key m ≡ sort_by_key n
  sort_by_key-same m n a b h =
      IsAscending-unique (sort_by_key m) (sort_by_key n) (sort_by_key-IsAscending m a)
        (sort_by_key-IsAscending n b)
        (λ j. get-sort_by_key m a j ∙ (h j ∙ sym (get-sort_by_key n b j)))

-- The three maps that the checksum covers hold each key once.
pub record HasMaps (s : StateStore) : Type 0 where
  pub filled : IsMap s.filled_amounts
  pub cancels : IsMap s.cancelled
  pub nonces : IsMap s.nonces

-- They answer alike.
pub record Agrees (s t : StateStore) : Type 0 where
  pub filled : SameAnswers s.filled_amounts t.filled_amounts
  pub cancels : SameAnswers s.cancelled t.cancelled
  pub nonces : SameAnswers s.nonces t.nonces

-- Two state stores whose maps of filled amounts, cancelled orders and nonces hold each key once
-- and answer every key alike have the same checksum, in whatever order the maps hold their entries
-- and whatever the balances are.
pub checksum-canonical :
    (x : Crypto) (s t : StateStore)
    → HasMaps s
    → HasMaps t
    → Agrees s t
    → checksum x s ≡ checksum x t
unfolding checksum checksum_bytes
checksum-canonical x s t a b h = cc (
  sort_by_key-same s.filled_amounts t.filled_amounts a.filled b.filled h.filled,
  sort_by_key-same s.cancelled t.cancelled a.cancels b.cancels h.cancels,
  sort_by_key-same s.nonces t.nonces a.nonces b.nonces h.nonces,
)
