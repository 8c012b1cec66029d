-- ===== src/Snapshot/Names/Decimal.antt =====
-- A number is read back from the name of its snapshot file (src/snapshot/mod.rs).
use rust_matching_engine.Prelude.{
  ℕ, zero, suc, ◌+◌, ◌*◌, ◌-◌, ◌/◌, ◌%◌, ◌^◌, ◌<◌, ◌≡◌, ◌≢◌, refl, ◌∙◌, some, [], ◌∷◌, ◌++◌, inl,
  inr, Bool-cases, ltb, arith, u64_mod,
}
use rust_matching_engine.HashMap.{bytes_eq}
use rust_matching_engine.Domain.Market.{Str}
use rust_matching_engine.Snapshot.Names.{
  digits, to_decimal, parse_digits, parse_u64, prefix, suffix, snapshot_name, strip_prefix,
  split_last_dot, json_stem, seq_of_stem,
}

parse_digits-append :
    (a m c : ℕ) (xs : Str)
    → parse_digits a xs ≡ some m
    → parse_digits a (xs ++ c ∷ []) ≡ parse_digits m (c ∷ [])
unfolding parse_digits
parse_digits-append a m c [] h = ground arith
parse_digits-append a m c (x ∷ xs) h =
    let rest = parse_digits-append (10 * a + (x - 48)) m c xs in ground arith

parse_digits-digits :
    (fuel n : ℕ) → n < 10 ^ fuel → n < u64_mod → parse_digits 0 (digits fuel n) ≡ some n
unfolding digits
parse_digits-digits zero n h k = unfold parse_digits in ground arith
parse_digits-digits (suc fuel) n h k = elim (Bool-cases (ltb n 10)) [
  | inl small ↦ rw small (unfold parse_digits in ground arith)
  | inr large ↦ rw large (
      parse_digits-append 0 (n / 10) (48 + n % 10) (digits fuel (n / 10))
        (parse_digits-digits fuel (n / 10) (omega arith) (omega arith))
      ∙ (unfold parse_digits in ground arith))
]

-- A text of digits has no sign.
parse_u64-digits :
    (text : Str) (n : ℕ) → text ≢ [] → parse_digits 0 text ≡ some n → parse_u64 text ≡ some n
unfolding parse_u64
parse_u64-digits [] n some_ h = absurd (some_ refl)
parse_u64-digits (c ∷ []) n some_ h = unfold parse_digits in ground arith
parse_u64-digits (c ∷ d ∷ text) n some_ h = unfold parse_digits in ground arith

append-some : (xs : Str) (c : ℕ) → xs ++ c ∷ [] ≢ []
append-some [] c h = cc h
append-some (x ∷ xs) c h = cc h

digits-some : (fuel n : ℕ) → digits (suc fuel) n ≢ []
unfolding digits
digits-some fuel n = elim (Bool-cases (ltb n 10)) [
  | inl small ↦ rw small (λ h. cc h)
  | inr large ↦ rw large (append-some (digits fuel (n / 10)) (48 + n % 10))
]

-- Printing a `u64` and parsing it gives it back.
pub parse_u64-to_decimal : (n : ℕ) → n < u64_mod → parse_u64 (to_decimal n) ≡ some n
unfolding to_decimal
parse_u64-to_decimal n h =
    parse_u64-digits (digits 20 n) n (digits-some 19 n) (parse_digits-digits 20 n (omega arith) h)

split_last_dot-suffix :
    (xs : Str) → split_last_dot (xs ++ suffix) ≡ some (xs, b'j' ∷ b's' ∷ b'o' ∷ b'n' ∷ [])
unfolding split_last_dot
split_last_dot-suffix [] = refl
split_last_dot-suffix (x ∷ xs) = rw (split_last_dot-suffix xs) refl

pub json_stem-snapshot_name : (n : ℕ) → json_stem (snapshot_name n) ≡ some (prefix ++ to_decimal n)
unfolding json_stem snapshot_name bytes_eq
json_stem-snapshot_name n = rw (split_last_dot-suffix (prefix ++ to_decimal n), json_stem) refl

pub seq_of_stem-prefix : (n : ℕ) → n < u64_mod → seq_of_stem (prefix ++ to_decimal n) ≡ some n
unfolding seq_of_stem strip_prefix
seq_of_stem-prefix n h = parse_u64-to_decimal n h
