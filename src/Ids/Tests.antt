-- ===== src/Ids/Tests.antt =====
-- Runs of the UUIDv7 generator.
use vms_engine.Common.{ℕ, zero, ◌+◌, ◌≤◌, ◌<◌, ◌≡◌, refl, suc, ◌*◌, none, some, arith}
use vms_engine.Ids.{Generator, layout, wait_from, next_stamp, generate_bytes}
use vms_engine.Ids.Ends.{generate_bytes_ends}
use vms_engine.Ids.Increasing.{
  time_of, counter_of, version_of, variant_of, IsForward, IsReady, generate_bytes-increasing,
}

-- A clock that moves every third reading, until it stays.
abbrev slow_clock : ℕ → ℕ
slow_clock zero = 100
slow_clock (suc zero) = 100
slow_clock (suc (suc zero)) = 100
slow_clock (suc (suc (suc n))) = 101

slow_clock_at_end : (n : ℕ) → 3 ≤ n → slow_clock n ≡ 101
slow_clock_at_end zero h = omega arith
slow_clock_at_end (suc zero) h = omega arith
slow_clock_at_end (suc (suc zero)) h = omega arith
slow_clock_at_end (suc (suc (suc n))) h = refl

slow_clock-IsForward : IsForward slow_clock
slow_clock-IsForward zero = omega arith
slow_clock-IsForward (suc zero) = omega arith
slow_clock-IsForward (suc (suc zero)) = omega arith
slow_clock-IsForward (suc (suc (suc n))) =
    let last = slow_clock_at_end (suc (suc (suc n)) + 1) (omega arith) in omega arith

slow_clock-small : (n : ℕ) → slow_clock n < 281474976710656
slow_clock-small zero = omega arith
slow_clock-small (suc zero) = omega arith
slow_clock-small (suc (suc zero)) = omega arith
slow_clock-small (suc (suc (suc n))) = omega arith

abbrev no_chance : ℕ → ℕ
no_chance n = 0

abbrev full : Generator
full = record { last_timestamp_ms = 100; sequence_counter = 4094; reads = 0; draws = 0 }

abbrev counted : Generator
counted = record { last_timestamp_ms = 100; sequence_counter = 4095; reads = 1; draws = 2 }

abbrev waited : Generator
waited = record { last_timestamp_ms = 101; sequence_counter = 0; reads = 4; draws = 4 }

full-IsReady : IsReady slow_clock full
full-IsReady = record { behind = omega arith; fits = omega arith }

generate_bytes-full :
    generate_bytes slow_clock no_chance 5 full ≡ some (counted, layout 100 4095 0 0)
unfolding generate_bytes next_stamp layout
generate_bytes-full = refl

generate_bytes-counted :
    generate_bytes slow_clock no_chance 5 counted ≡ some (waited, layout 101 0 0 0)
unfolding generate_bytes next_stamp wait_from layout
generate_bytes-counted = refl

generate_bytes-increasing_example :
    (time_of (layout 100 4095 0 0) * 4096 + counter_of (layout 100 4095 0 0)
      < time_of (layout 101 0 0 0) * 4096 + counter_of (layout 101 0 0 0))
    × (version_of (layout 101 0 0 0) ≡ 7)
    × (variant_of (layout 101 0 0 0) ≡ 2)
generate_bytes-increasing_example =
    generate_bytes-increasing slow_clock no_chance 5 full counted waited (layout 100 4095 0 0)
      (layout 101 0 0 0) slow_clock-IsForward slow_clock-small full-IsReady generate_bytes-full
      generate_bytes-counted

generate_bytes_ends_example : ¬ (generate_bytes slow_clock no_chance 5 counted ≡ none)
generate_bytes_ends_example =
    generate_bytes_ends slow_clock no_chance 5 3 counted (omega arith) (omega arith) refl
