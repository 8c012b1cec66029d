-- ===== src/Snapshot/Names.antt =====
-- The names of snapshot files and the search for the latest one (src/snapshot/mod.rs).
pub mod Decimal
pub mod Latest
use rust_matching_engine.Prelude.{
  ℕ, zero, suc, ◌+◌, ◌*◌, ◌-◌, ◌/◌, ◌%◌, ◌^◌, ◌&&◌, ◌≡◌, Option, none, some, List, [], ◌∷◌, ◌++◌,
  Bool, true, false, ite, if◌then◌else◌, ◌==◌, ltb, leb, u64_mod, decide,
}
use rust_matching_engine.HashMap.{bytes_eq}
use rust_matching_engine.Domain.Market.{Str}

-- `{seq_id}` in decimal, of at most `fuel` digits.
unfoldable pub digits : ℕ → ℕ → Str
digits zero n = []
digits (suc fuel) n =
    let front = digits fuel (n / 10) in
    if ltb n 10 then (48 + n) ∷ [] else front ++ (48 + n % 10) ∷ []

-- A `u64` has at most 20 digits.
unfoldable pub to_decimal : ℕ → Str
unfolding digits
to_decimal n = digits 20 n

-- The digits of `parse::<u64>()`, from left to right, with what was read before.
unfoldable pub parse_digits : ℕ → Str → Option ℕ
parse_digits n [] = some n
parse_digits n (c ∷ text) =
    let value = 10 * n + (c - 48) in
    let rest = parse_digits value text in
    if leb 48 c && leb c 57 && ltb value u64_mod then rest else none

-- `parse::<u64>()`: at least one digit, after an optional `+`.
unfoldable pub parse_u64 : Str → Option ℕ
unfolding parse_digits
parse_u64 [] = none
parse_u64 (c ∷ []) = if c == b'+' then none else parse_digits 0 (c ∷ [])
parse_u64 (c ∷ d ∷ text) =
    if c == b'+' then parse_digits 0 (d ∷ text) else parse_digits 0 (c ∷ d ∷ text)

-- "snapshot_"
abbrev pub prefix : Str
prefix = b's' ∷ b'n' ∷ b'a' ∷ b'p' ∷ b's' ∷ b'h' ∷ b'o' ∷ b't' ∷ b'_' ∷ []

-- ".json"
abbrev pub suffix : Str
suffix = b'.' ∷ b'j' ∷ b's' ∷ b'o' ∷ b'n' ∷ []

-- The last component of `snapshot_path`.
unfoldable pub snapshot_name : ℕ → Str
unfolding to_decimal
snapshot_name seq_id = prefix ++ (to_decimal seq_id ++ suffix)

unfoldable pub strip_prefix : Str → Str → Option Str
strip_prefix [] text = some text
strip_prefix (p ∷ ps) [] = none
strip_prefix (p ∷ ps) (c ∷ text) = let rest = strip_prefix ps text in if p == c then rest else none

-- The text before the last dot, and the text after it.
unfoldable pub split_last_dot : Str → Option (Str × Str)
split_last_dot [] = none
split_last_dot (c ∷ text) = elim (split_last_dot text) [
  | some (before, after) ↦ some (c ∷ before, after)
  | none ↦ if c == b'.' then some ([], text) else none
]

-- `file_stem()` of a name with the extension "json", as `extension()` reads it: a name whose only
-- dot is its first byte has no extension.
unfoldable pub json_stem : Str → Option Str
unfolding split_last_dot
json_stem name = elim (split_last_dot name) [
  | none ↦ none
  | some ([], after) ↦ none
  | some (c ∷ before, after) ↦
      ite (bytes_eq after (b'j' ∷ b's' ∷ b'o' ∷ b'n' ∷ [])) (some (c ∷ before)) none
]

-- The number of a file with the stem of a snapshot.
unfoldable pub seq_of_stem : Str → Option ℕ
unfolding strip_prefix parse_u64
seq_of_stem stem = elim (strip_prefix prefix stem) [ none ↦ none | some number ↦ parse_u64 number ]

-- `best` after one more file.
abbrev pub better : ℕ → Str → Option (ℕ × Str) → Option (ℕ × Str)
better seq name none = some (seq, name)
better seq name (some (s, p)) = if ltb s seq then some (seq, name) else some (s, p)

-- The loop over the directory's entries. The outer `none` is the return from within the loop.
unfoldable pub search : List Str → Option (ℕ × Str) → Option (Option (ℕ × Str))
unfolding json_stem seq_of_stem
search [] best = some best
search (name ∷ names) best = elim (json_stem name) [
  | none ↦ search names best
  | some stem ↦ elim (seq_of_stem stem) [
    | none ↦ none
    | some seq ↦ search names (better seq name best)
  ]
]

-- The names of a directory, or `none` if it cannot be read.
unfoldable pub find_latest_snapshot : Option (List Str) → Option Str
unfolding search
find_latest_snapshot none = none
find_latest_snapshot (some names) = elim (search names none) [
  | none ↦ none
  | some none ↦ none
  | some (some (_, name)) ↦ some name
]
