-- ===== src/Snowflake.antt =====
-- src/utils/snowflake.hpp and snowflake.cpp: the id generator, and `parse_id` of
-- tests/snowflake_test.hpp.
-- The static members are a record. The readings of the system clock are a list, in the order in
-- which `time_gen` takes them; `spinning` is a call whose readings have run out, so that it still
-- waits for the next one. Every 64-bit word is a number below `2 ^ 64`, with its wrap-around
-- written out; `last_timestamp_` is signed in the source and is compared as an unsigned word, so
-- it is kept as that word.
pub mod Fields
pub mod Layout
pub mod Order
pub mod Errors
pub mod Services
mod Witnesses
use Prim.Native.Nat.{bit_and, bit_or}
use tinychat_server.Base.{
  ℕ, ◌+◌, ◌-◌, ◌*◌, ◌/◌, ◌%◌, ◌^◌, List, [], ◌∷◌, Option, none, some, ltb, leb, ◌==◌, if◌then◌else◌,
}

abbrev pub init_service_bits : ℕ
init_service_bits = 1024

abbrev pub service_bits : ℕ
service_bits = 10

abbrev pub sequence_bits : ℕ
sequence_bits = 12

pub record SnowFlake : Type 0 where
  pub service_id : ℕ
  pub sequence_id : ℕ
  pub last_timestamp : ℕ
  pub custom_epoch : ℕ

-- The values with which the static members start.
abbrev pub unset : SnowFlake
unset = record {
  service_id = init_service_bits;
  sequence_id = 0;
  last_timestamp = 0;
  custom_epoch = 0;
}

pub data Error : Type 0 where
  already_initialized bad_service_id not_initialized clock_backwards : Error

pub data Outcome : Type 0 where
  returned : ℕ → Outcome
  initialized : Outcome
  threw : Error → Outcome
  spinning : Outcome

abbrev u64 : ℕ → ℕ
u64 n = n % 2 ^ 64

-- `a - b` and `a << k` on `u64`.
abbrev pub sub64 : ℕ → ℕ → ℕ
sub64 a b = u64 (a + 2 ^ 64 - b)

abbrev pub shl64 : ℕ → ℕ → ℕ
shl64 a k = u64 (a * 2 ^ k)

unfoldable pub init : ℕ → ℕ → SnowFlake → List ℕ → Outcome × SnowFlake × List ℕ
init service_id custom_epoch s [] =
    if s.service_id == init_service_bits
    then (if leb init_service_bits service_id
        then (threw bad_service_id, s, [])
        else (spinning, record s { service_id = service_id }, []))
    else (threw already_initialized, s, [])
init service_id custom_epoch s (t ∷ ts) =
    if s.service_id == init_service_bits
    then (if leb init_service_bits service_id then (threw bad_service_id, s, t ∷ ts) else (
      initialized,
      record s { service_id = service_id; last_timestamp = t; custom_epoch = custom_epoch },
      ts,
    ))
    else (threw already_initialized, s, t ∷ ts)

-- The loop of `wait_till_next_ms`: `now` is the latest reading that was kept, and each round reads
-- the clock once for the test and, where that fails, once more for the next `now`.
pub wait_loop : ℕ → List ℕ → Option (ℕ × List ℕ)
wait_loop now [] = none
wait_loop now (t ∷ []) = if leb t now then none else some (now, [])
wait_loop now (t ∷ again ∷ ts) =
    let rest = wait_loop again ts in if leb t now then rest else some (now, again ∷ ts)

pub wait_till_next_ms : List ℕ → Option (ℕ × List ℕ)
unfolding wait_loop
wait_till_next_ms [] = none
wait_till_next_ms (now ∷ ts) = wait_loop now ts

-- The id of a time stamp: `time_stamp | service_id | sequence_id_` after the two shifts.
pub make_id : ℕ → ℕ → ℕ → ℕ → ℕ
make_id epoch service_id sequence_id time_stamp =
    bit_or
      (bit_or (shl64 (sub64 time_stamp epoch) (service_bits + sequence_bits))
        (shl64 service_id sequence_bits))
      sequence_id

-- The end of `next_id`: the time stamp is stored, and the id is built.
pub finish : SnowFlake → ℕ → List ℕ → Outcome × SnowFlake × List ℕ
unfolding make_id
finish s time_stamp ts = (
  returned (make_id s.custom_epoch s.service_id s.sequence_id time_stamp),
  record s { last_timestamp = time_stamp },
  ts,
)

after_wait : SnowFlake → List ℕ → Option (ℕ × List ℕ) → Outcome × SnowFlake × List ℕ
after_wait s ts none = (spinning, s, [])
after_wait s ts (some (time_stamp, rest)) = finish s time_stamp rest

-- The branch of `next_id` that finds the time of the last id again.
pub same_ms : SnowFlake → ℕ → List ℕ → Outcome × SnowFlake × List ℕ
unfolding after_wait finish wait_till_next_ms
same_ms s time_stamp ts =
    if leb (2 ^ (sequence_bits - 1)) s.sequence_id
    then after_wait s ts (wait_till_next_ms ts)
    else finish s time_stamp ts

unfoldable pub next_id : SnowFlake → List ℕ → Outcome × SnowFlake × List ℕ
unfolding same_ms finish
next_id s [] =
    if s.service_id == init_service_bits then (threw not_initialized, s, []) else (spinning, s, [])
next_id s (t ∷ ts) =
    if s.service_id == init_service_bits
    then (threw not_initialized, s, t ∷ ts)
    else if ltb t s.last_timestamp
    then (threw clock_backwards, s, ts)
    else if t == s.last_timestamp
    then same_ms (record s { sequence_id = u64 (s.sequence_id + 1) }) t ts
    else finish (record s { sequence_id = 0 }) t ts

pub record Parsed : Type 0 where
  pub timestamp : ℕ
  pub service_id : ℕ
  pub sequence_id : ℕ

-- `parse_id` of the test: the fields that it prints.
pub parse_id : ℕ → ℕ → Parsed
parse_id own_epoch i = record {
  timestamp = u64 (i / 2 ^ sequence_bits / 2 ^ service_bits + own_epoch);
  service_id = bit_and (i / 2 ^ sequence_bits) (2 ^ service_bits - 1);
  sequence_id = bit_and i (2 ^ sequence_bits - 1);
}
