-- ===== src/Ids/Ends.antt =====
-- The wait of the generator ends when the clock moves on.
use vms_engine.Common.{
  ℕ, zero, suc, ◌+◌, ◌%◌, ◌≤◌, ◌<◌, ◌≡◌, refl, false, Option, none, some, nat_eq, ◌==◌, if_split,
  sym, none-ne-some, arith,
}
use vms_engine.Ids.{Generator, wait_from, after_wait, next_stamp, with_bytes, generate_bytes}

abbrev Ends {ℓ} : {A : Type ℓ} → Option A → Type ℓ
Ends r = ¬ (r ≡ none)

module _ (clock : ℕ → ℕ) (last n : ℕ) (moved : (clock n == last) ≡ false) where
  wait_from-Ends :
      (rounds reads : ℕ) → reads ≤ n → n < reads + rounds → Ends (wait_from clock rounds last reads)
  unfolding wait_from
  wait_from-Ends zero reads h k = omega arith
  wait_from-Ends (suc rounds) reads h k =
      if_split Ends (clock reads == last) _ _
        (λ e.
          let other : ¬ (reads ≡ n) = (λ p. let e = e in let moved = moved in cc) in
          wait_from-Ends rounds (reads + 1) (omega arith) (omega arith))
        (λ e p. none-ne-some _ (sym p))

after_wait-Ends : (s : Generator) (r : Option (ℕ × ℕ)) → Ends r → Ends (after_wait s r)
after_wait-Ends s none h = λ p. h refl
after_wait-Ends s (some (ts, reads)) h = λ p. none-ne-some _ (sym p)

with_bytes-Ends :
    (clock random : ℕ → ℕ) (r : Option Generator) → Ends r → Ends (with_bytes clock random r)
with_bytes-Ends clock random none h = λ p. h refl
with_bytes-Ends clock random (some s) h = λ p. none-ne-some _ (sym p)

-- A call gives a value if some reading `n` of the clock after its first one, and within the
-- `rounds` rounds of the wait, differs from the time that the first one gave.
pub generate_bytes_ends :
    (clock random : ℕ → ℕ) (rounds n : ℕ) (s : Generator)
    → s.reads + 1 ≤ n
    → n < s.reads + 1 + rounds
    → (clock n == clock s.reads) ≡ false
    → ¬ (generate_bytes clock random rounds s ≡ none)
unfolding generate_bytes next_stamp
generate_bytes_ends clock random rounds n s h k moved = with_bytes-Ends clock random _ (
    if_split Ends (clock s.reads == s.last_timestamp_ms) _ _
      (λ e.
        if_split Ends ((s.sequence_counter + 1) % 4096 == 0) _ _
          (λ w.
            after_wait-Ends s _
              (wait_from-Ends clock (clock s.reads) n moved rounds (s.reads + 1) h k))
          (λ w p. none-ne-some _ (sym p)))
      (λ e p. none-ne-some _ (sym p)))
