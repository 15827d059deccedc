-- ===== src/Signaling/Backoff.antt =====
-- The reconnect delay of signaling.rs.
use native.Mathlib.Nat.{pow-suc}
use file_send.Prelude.{
  ltb, ◌==◌, if◌then◌else◌, Bool-cases, nat_key, text_key, ℕ, zero, suc, ◌+◌, ◌-◌, ◌*◌, ◌^◌, ◌≤◌,
  ◌<◌, min, ◌≡◌, refl, sym, ◌∙◌, subst, inl, inr, Bool, true, false, ◌&&◌, ◌||◌, arith,
}
use file_send.Signaling.{backoff_base_ms, backoff_cap_ms, checked_shl, next_backoff}

-- A table of tests, one for each attempt before a bound, and its entries.
table_holds : (ℕ → Bool) → ℕ → Bool
table_holds test zero = true
table_holds test (suc last) = table_holds test last && test last

table_entry :
    (test : ℕ → Bool) (bound attempt : ℕ)
    → attempt < bound
    → table_holds test bound ≡ true
    → test attempt ≡ true
unfolding table_holds
table_entry test zero attempt below holds = absurd (omega arith)
table_entry test (suc last) attempt below holds = ground (arith, table_entry test last attempt)

-- The delay that the comment of the function describes, `500 * 2^attempt` up to the cap, but none
-- at all where the shift has dropped every bit.
unfoldable pub backoff_for : ℕ → ℕ
backoff_for attempt =
    if attempt == 62 || attempt == 63 then 0 else min (backoff_base_ms * 2 ^ attempt) backoff_cap_ms

backoff_table : table_holds (λ n. next_backoff n == backoff_for n) 64 ≡ true
unfolding table_holds next_backoff backoff_for
backoff_table = refl

pow_large : (n : ℕ) → 32 ≤ 2 ^ (5 + n)
pow_large zero = omega arith
pow_large (suc n) = ground (arith, pow-suc 2 (5 + n), pow_large n)

pow_ge : (attempt : ℕ) → 5 ≤ attempt → 32 ≤ 2 ^ attempt
pow_ge attempt h = subst (λ a. 32 ≤ 2 ^ a) (omega arith) (pow_large (attempt - 5))

small_backoff : (attempt : ℕ) → attempt < 64 → next_backoff attempt ≡ backoff_for attempt
small_backoff attempt small = ground (arith, table_entry _ 64 attempt small backoff_table)

large_next : (attempt : ℕ) → ltb attempt 64 ≡ false → next_backoff attempt ≡ 15_000
unfolding next_backoff checked_shl
large_next attempt large = rw large

large_for : (attempt : ℕ) → 64 ≤ attempt → backoff_for attempt ≡ 15_000
unfolding backoff_for
large_for attempt large = ground (arith, pow_ge attempt)

-- For every attempt the delay is `500 * 2^attempt` milliseconds, at most 15 seconds, except at
-- attempts 62 and 63, where it is 0: `checked_shl` refuses only shifts of 64 and more, and at these
-- two every bit of 500 leaves the word.
pub next_backoff_lem : (attempt : ℕ) → next_backoff attempt ≡ backoff_for attempt
next_backoff_lem attempt = elim (Bool-cases (ltb attempt 64)) [
  | inl small ↦ small_backoff attempt (ground arith)
  | inr large ↦ large_next attempt large ∙ sym (large_for attempt (ground arith))
]
