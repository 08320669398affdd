-- ===== src/Snowflake/Fields.antt =====
-- The layout of an id (src/utils/snowflake.cpp, the end of `next_id`): 42 bits of time since the
-- epoch, 10 of the service, 12 of the sequence.
use Prim.Native.Nat.{bit_or}
use tinychat_server.Base.{ℕ, ◌+◌, ◌-◌, ◌*◌, ◌/◌, ◌^◌, ◌≤◌, ◌<◌, ◌≡◌, ◌≢◌, ◌∙◌, arith}
use tinychat_server.Base.Bits.{or_disjoint, and_mask}
use tinychat_server.Snowflake.{sub64, shl64, make_id, parse_id}

-- The number that the three fields stand for.
abbrev pub fields : ℕ → ℕ → ℕ → ℕ
fields elapsed service_id sequence_id = elapsed * 4194304 + service_id * 4096 + sequence_id

-- The epoch and the service id that an initialised generator runs with, at a time that is less
-- than 2 ^ 42 milliseconds after the epoch, and a sequence number of 12 bits.
pub record Fits (epoch service_id sequence_id time_stamp : ℕ) : Type 0 where
  pub after_epoch : epoch ≤ time_stamp
  pub horizon : time_stamp < epoch + 2 ^ 42
  pub word : epoch + 2 ^ 42 ≤ 2 ^ 64
  pub service : service_id < 1024
  pub sequence : sequence_id < 4096

or_22 : (q r : ℕ) → r < 4194304 → bit_or (q * 4194304) r ≡ q * 4194304 + r
or_22 q r h = or_disjoint 22 q r h

or_12 : (q r : ℕ) → r < 4096 → bit_or (q * 4096) r ≡ q * 4096 + r
or_12 q r h = or_disjoint 12 q r h

shifted_time :
    (e t : ℕ)
    → e ≤ t
    → t < e + 2 ^ 42
    → e + 2 ^ 42 ≤ 2 ^ 64
    → shl64 (sub64 t e) 22 ≡ (t - e) * 4194304
shifted_time e t h k w = omega arith

pub make_id-fields :
    (epoch service_id sequence_id time_stamp : ℕ)
    → Fits epoch service_id sequence_id time_stamp
    → make_id epoch service_id sequence_id time_stamp
      ≡ fields (time_stamp - epoch) service_id sequence_id
unfolding make_id
make_id-fields e v q t h =
    let high : shl64 (sub64 t e) 22 ≡ (t - e) * 4194304 =
      shifted_time e t h.after_epoch h.horizon h.word in
    let middle : shl64 v 12 ≡ v * 4096 = omega arith in
    rw (high, middle, or_22 (t - e) (v * 4096) (omega arith))
      (rw (top t e v) (or_12 ((t - e) * 1024 + v) q h.sequence ∙ omega arith))
  where
    top : (t e v : ℕ) → (t - e) * 4194304 + v * 4096 ≡ ((t - e) * 1024 + v) * 4096
    top t e v = omega arith

-- Reading an id with the generator's epoch gives back its time stamp, service and sequence.
pub parse_id-make_id :
    (epoch service_id sequence_id time_stamp : ℕ)
    → Fits epoch service_id sequence_id time_stamp
    → parse_id epoch (make_id epoch service_id sequence_id time_stamp)
      ≡ record { timestamp = time_stamp; service_id = service_id; sequence_id = sequence_id }
unfolding parse_id
parse_id-make_id e v q t h =
    let i : ℕ = fields (t - e) v q in
    rw (make_id-fields e v q t h, and_mask 10 (i / 4096), and_mask 12 i) (ground arith)

-- Ids of two services never meet, whatever their times and sequence numbers, as long as both
-- generators use one epoch and are within its 2 ^ 42 milliseconds.
pub make_id_service_ne :
    (epoch v w q r t u : ℕ)
    → Fits epoch v q t
    → Fits epoch w r u
    → v ≢ w
    → make_id epoch v q t ≢ make_id epoch w r u
make_id_service_ne e v w q r t u h k other same =
    omega (arith, same, make_id-fields e v q t h, make_id-fields e w r u k)
