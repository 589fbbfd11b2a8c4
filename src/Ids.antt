-- ===== src/Ids.antt =====
-- core/src/utils/uuid_v7_generator.cpp: the generator of UUIDv7 values. `clock` gives each reading
-- of the system clock, in milliseconds, and `random` each value of the random generator.
pub mod Ends
pub mod Increasing
mod Tests
use vms_engine.Common.{
  ℕ, zero, suc, ◌+◌, ◌*◌, ◌/◌, ◌%◌, Bool, true, false, Option, none, some, List, [], ◌∷◌, nat_eq,
  ◌==◌, if◌then◌else◌,
}

pub record Generator : Type 0 where
  pub last_timestamp_ms : ℕ
  pub sequence_counter : ℕ
  pub reads : ℕ
  pub draws : ℕ

abbrev pub new_generator : Generator
new_generator = record { last_timestamp_ms = 0; sequence_counter = 0; reads = 0; draws = 0 }

module _ (clock : ℕ → ℕ) where
  -- The loop that sleeps until the clock shows another time than `last`, for at most `rounds`
  -- rounds: that time, and the number of readings by then.
  unfoldable pub wait_from : ℕ → ℕ → ℕ → Option (ℕ × ℕ)
  wait_from zero last reads = none
  wait_from (suc rounds) last reads =
      let rest = wait_from rounds last (reads + 1) in
      if clock reads == last then rest else some (clock reads, reads + 1)

abbrev pub after_wait : Generator → Option (ℕ × ℕ) → Option Generator
after_wait s none = none
after_wait s (some (ts, reads)) =
    some (record s { last_timestamp_ms = ts; sequence_counter = 0; reads = reads })

module _ (clock : ℕ → ℕ) where
  -- The time and the counter of the next value, which the generator keeps.
  unfoldable pub next_stamp : ℕ → Generator → Option Generator
  next_stamp rounds s =
      let ts = clock s.reads in
      let counter = (s.sequence_counter + 1) % 4096 in
      if ts == s.last_timestamp_ms
      then (if counter == 0
          then after_wait s (wait_from clock rounds ts (s.reads + 1))
          else some (record s { sequence_counter = counter; reads = s.reads + 1 }))
      else some (record s { last_timestamp_ms = ts; sequence_counter = 0; reads = s.reads + 1 })

-- The sixteen bytes.
unfoldable pub layout : ℕ → ℕ → ℕ → ℕ → List ℕ
layout ts counter r1 r2 =
    ts / 1099511627776 % 256
    ∷ ts / 4294967296 % 256
    ∷ ts / 16777216 % 256
    ∷ ts / 65536 % 256
    ∷ ts / 256 % 256
    ∷ ts % 256
    ∷ (28672 + counter % 4096) / 256 % 256
    ∷ (28672 + counter % 4096) % 256
    ∷ (32768 + r1 % 16384) / 256 % 256
    ∷ (32768 + r1 % 16384) % 256
    ∷ r1 / 65536 % 256
    ∷ r1 / 16777216 % 256
    ∷ r1 / 4294967296 % 256
    ∷ r1 / 1099511627776 % 256
    ∷ r2 % 256
    ∷ r2 / 256 % 256
    ∷ []

module _ (clock random : ℕ → ℕ) where
  abbrev pub with_bytes : Option Generator → Option (Generator × List ℕ)
  with_bytes none = none
  with_bytes (some s) = some (
    record s { draws = s.draws + 2 },
    layout s.last_timestamp_ms s.sequence_counter (random s.draws) (random (s.draws + 1)),
  )

  unfoldable pub generate_bytes : ℕ → Generator → Option (Generator × List ℕ)
  generate_bytes rounds s = with_bytes (next_stamp clock rounds s)
