-- ===== src/Risk/Rate.antt =====
-- The rate limit over time (src/risk/mod.rs).
use rust_matching_engine.Prelude.{
  ℕ, ◌+◌, ◌-◌, ◌≤◌, ◌<◌, ◌≡◌, ◌≢◌, ◌⊎◌, refl, List, [], ◌∷◌, ◌++◌, ok, Result-cases, arith, length,
  inl, inr, ite, subst, leb, Result, err, if◌then◌else◌,
}
use rust_matching_engine.HashMap.{HashMap, bytes_eq, bytes_key}
use rust_matching_engine.HashMap
use rust_matching_engine.Domain.Market.{Str}
use rust_matching_engine.Risk.{
  RiskChecker, RiskError, recent, timestamps, count, record_submission, checks, check,
}
use rust_matching_engine.Risk.Limits.{check_rate_limit_iff, checks_iff}

length-recent_append :
    (w x : ℕ) (q : List ℕ) → length (recent w (q ++ x ∷ [])) ≤ length (recent w q) + 1
unfolding recent
length-recent_append w x [] = ground arith
length-recent_append w x (t ∷ q) = let rest = length-recent_append w x q in ground arith

length-recent_later :
    (w w' : ℕ) (q : List ℕ) → w ≤ w' → length (recent w' (recent w q)) ≤ length (recent w q)
unfolding recent
length-recent_later w w' [] h = ground arith
length-recent_later w w' (t ∷ q) h = let rest = length-recent_later w w' q h in ground arith

recent_again : (w : ℕ) (q : List ℕ) → recent w (recent w q) ≡ recent w q
unfolding recent
recent_again w [] = refl
recent_again w (t ∷ q) = let rest = recent_again w q in ground arith

recent_last :
    (w x : ℕ) (q : List ℕ) → w ≤ x → length (recent w (q ++ x ∷ [])) ≡ length (recent w q) + 1
unfolding recent
recent_last w x [] h = ground arith
recent_last w x (t ∷ q) h = let rest = recent_last w x q h in ground arith

timestamps-record_submission :
    (r : RiskChecker) (trader other : Str) (now : ℕ)
    → timestamps (record_submission r trader now) other
      ≡ ite
          (bytes_eq trader other)
          (recent (now - r.config.window_ms) (timestamps r trader) ++ now ∷ [])
          (timestamps r other)
unfolding timestamps record_submission
timestamps-record_submission r trader other now = ground (
  arith,
  HashMap.get-insert r.windows trader other
      (recent (now - r.config.window_ms) (timestamps r trader) ++ now ∷ []),
)

window-record_submission :
    (r : RiskChecker) (trader : Str) (now : ℕ) → (record_submission r trader now).config ≡ r.config
unfolding record_submission
window-record_submission r trader now = refl

count-submission :
    (r : RiskChecker) (trader : Str) (now : ℕ)
    → count (record_submission r trader now) trader now ≡ count r trader now + 1
unfolding count
count-submission r trader now =
    rw (window-record_submission, timestamps-record_submission)
      (ground (
        arith,
        recent_last (now - r.config.window_ms) now
            (recent (now - r.config.window_ms) (timestamps r trader)) (omega arith),
        recent_again (now - r.config.window_ms) (timestamps r trader),
      ))

-- A refused order leaves the checker as it was; an order that passes is counted once, for its trader.
pub check_state :
    (r : RiskChecker) (now : ℕ) (trader market : Str) (price size : ℕ)
    → (((check r now trader market price size).0 ≢ ok tt)
        × ((check r now trader market price size).1 ≡ r))
      ⊎ (((check r now trader market price size).0 ≡ ok tt)
          × ((check r now trader market price size).1 ≡ record_submission r trader now)
          × (count (check r now trader market price size).1 trader now ≡ count r trader now + 1))
unfolding check
check_state r now trader market price size =
    elim (Result-cases (checks r now trader market price size)) [
      | inl (u, passed) ↦ rw (passed, check) (inr (refl, refl, count-submission r trader now))
      | inr (e, failed) ↦ rw (failed, check) (inl ((λ h. cc), refl))
    ]

-- The orders that a checker let through, the newest first: the trader and the time.
abbrev pub History : Type 0
History = List (Str × ℕ)

-- How many orders of a trader a history has from a time on.
unfoldable pub passed_since : ℕ → Str → History → ℕ
passed_since since trader [] = 0
passed_since since trader ((other, time) ∷ history) =
    let rest = passed_since since trader history in
    ite (bytes_eq other trader) (if leb since time then rest + 1 else rest) rest

-- The history after an order was checked.
unfoldable pub extend : Result RiskError (Unit {0}) → Str → ℕ → History → History
extend (ok _) trader now history = (trader, now) ∷ history
extend (err _) trader now history = history

-- From a time on, each trader's window counts exactly the orders that were let through in it, and
-- they are no more than the limit.
pub record IsLimited (r : RiskChecker) (history : History) (now : ℕ) : Type 0 where
  pub counted :
      (trader : Str) (later : ℕ)
      → now ≤ later
      → count r trader later ≡ passed_since (later - r.config.window_ms) trader history
  pub limited :
      (trader : Str) (later : ℕ)
      → now ≤ later
      → passed_since (later - r.config.window_ms) trader history ≤ r.config.max_orders_per_window

recent-recent :
    (w w' x : ℕ) (q : List ℕ)
    → w ≤ w'
    → length (recent w' (recent w q ++ x ∷ []))
      ≡ (if leb w' x then length (recent w' q) + 1 else length (recent w' q))
unfolding recent
recent-recent w w' x [] h = ground arith
recent-recent w w' x (t ∷ q) h = let rest = recent-recent w w' x q h in ground arith

counted-submission :
    (r : RiskChecker) (trader other : Str) (now later : ℕ) (history : History)
    → now ≤ later
    → count r other later ≡ passed_since (later - r.config.window_ms) other history
    → count (record_submission r trader now) other later
      ≡ passed_since (later - r.config.window_ms) other ((trader, now) ∷ history)
unfolding count passed_since
counted-submission r trader other now later history h before =
    rw (window-record_submission, timestamps-record_submission)
      (elim (bytes_eq trader other) [
        | yes same ↦ ground (
          arith,
          recent-recent (now - r.config.window_ms) (later - r.config.window_ms) now
              (timestamps r trader) (omega arith),
        )
        | no other_one ↦ ground arith
      ])

count-later :
    (r : RiskChecker) (trader other : Str) (now later : ℕ)
    → now ≤ later
    → count r trader now < r.config.max_orders_per_window
    → count r other later ≤ r.config.max_orders_per_window
    → count (record_submission r trader now) other later ≤ r.config.max_orders_per_window
unfolding count
count-later r trader other now later h room before =
    rw (window-record_submission, timestamps-record_submission)
      (elim (bytes_eq trader other) [
        | yes same ↦ ground (
          arith,
          length-recent_append (later - r.config.window_ms) now
              (recent (now - r.config.window_ms) (timestamps r trader)),
          length-recent_later (now - r.config.window_ms) (later - r.config.window_ms)
              (timestamps r trader) (omega arith),
        )
        | no other_one ↦ ground arith
      ])

-- Take a checker whose windows, from some time on, count exactly the orders that it has let through,
-- and hold no more of them than the limit. Check an order at that time or later, whatever is submitted.
-- Then the windows count, from the time of the check on, exactly the orders let through before, and
-- this one for its trader if it passes; and no window holds more of them than the limit.
pub check-IsLimited :
    (r : RiskChecker) (history : History) (now then_ : ℕ) (trader market : Str) (price size : ℕ)
    → then_ ≤ now
    → IsLimited r history then_
    → IsLimited
        (check r now trader market price size).1
        (extend (check r now trader market price size).0 trader now history)
        now
unfolding check extend
check-IsLimited r history now then_ trader market price size forward l =
    elim (Result-cases (checks r now trader market price size)) [
      | inr (e, failed) ↦
          rw (failed, check)
            (record {
              counted = λ t later h. l.counted t later (omega arith);
              limited = λ t later h. l.limited t later (omega arith);
            })
      | inl (u, passed) ↦
          rw (passed, check)
            (passed_check (
              (check_rate_limit_iff r trader now).0
                ((checks_iff r now trader market price size).0 passed).0))
    ]
  where
    passed_check :
        count r trader now < r.config.max_orders_per_window
        → IsLimited (record_submission r trader now) ((trader, now) ∷ history) now
    passed_check room =
        let counts : (t : Str) (later : ℕ)
            → now ≤ later
            → count (record_submission r trader now) t later
              ≡ passed_since (later - r.config.window_ms) t ((trader, now) ∷ history) =
          λ t later h.
            counted-submission r trader t now later history h (l.counted t later (omega arith)) in
        record {
          counted = λ t later h. rw (window-record_submission r trader now) (counts t later h);
          limited = λ t later h. rw (window-record_submission r trader now) (
              subst (λ (n : ℕ). n ≤ r.config.max_orders_per_window) (counts t later h)
                (count-later r trader t now later h room
                  (rw (l.counted t later (omega arith)) (l.limited t later (omega arith)))));
        }
