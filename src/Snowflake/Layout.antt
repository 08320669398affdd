-- ===== src/Snowflake/Layout.antt =====
-- Ids and the fields that they stand for: the end of `next_id` of src/utils/snowflake.cpp and
-- `parse_id` of tests/snowflake_test.hpp, as two ways between the same things.
use mathlib.Core.Equiv.{IsEquiv, iso_to_equiv}
use mathlib.Core.HLevel.{Σ_prop_path}
use native.Mathlib.Bridge.{le_prop}
use tinychat_server.Base.{ℕ, ◌+◌, ◌/◌, ◌%◌, ◌^◌, ◌≤◌, ◌<◌, ◌≡◌, ◌∙◌, refl, arith}
use tinychat_server.Base.Bits.{and_mask}
use tinychat_server.Snowflake.{Parsed, make_id, parse_id}
use tinychat_server.Snowflake.Fields.{Fits, make_id-fields, parse_id-make_id}

abbrev pub Id64 : Type 0
Id64 = (i : ℕ) × i < 2 ^ 64

-- The fields that a generator with this epoch may put into an id.
abbrev pub Stamped : ℕ → Type 0
Stamped epoch = (p : Parsed) × Fits epoch p.service_id p.sequence_id p.timestamp

Fits-prop : {e v q t : ℕ} → IsProp (Fits e v q t)
Fits-prop a b = λ i. record {
  after_epoch = le_prop a.after_epoch b.after_epoch i;
  horizon = le_prop a.horizon b.horizon i;
  word = le_prop a.word b.word i;
  service = le_prop a.service b.service i;
  sequence = le_prop a.sequence b.sequence i;
}

pub make_id_lt : (e v q t : ℕ) → Fits e v q t → make_id e v q t < 2 ^ 64
make_id_lt e v q t h =
    omega (arith, make_id-fields e v q t h, h.after_epoch, h.horizon, h.service, h.sequence)

-- The three fields of any word, with the time since the epoch.
parse_id-fields :
    (e i : ℕ)
    → e + 2 ^ 42 ≤ 2 ^ 64
    → i < 2 ^ 64
    → parse_id e i
      ≡ record { timestamp = i / 4194304 + e; service_id = i / 4096 % 1024; sequence_id = i % 4096 }
unfolding parse_id
parse_id-fields e i w h = rw (and_mask 10 (i / 4096), and_mask 12 i) (ground arith)

read-Fits :
    (e i : ℕ)
    → e + 2 ^ 42 ≤ 2 ^ 64
    → i < 2 ^ 64
    → Fits e (i / 4096 % 1024) (i % 4096) (i / 4194304 + e)
read-Fits e i w h = omega arith

parse_id-Fits :
    (e i : ℕ)
    → e + 2 ^ 42 ≤ 2 ^ 64
    → i < 2 ^ 64
    → (let p = parse_id e i in Fits e p.service_id p.sequence_id p.timestamp)
parse_id-Fits e i w h = rw (parse_id-fields e i w h) (read-Fits e i w h)

make_id-parse_id :
    (e i : ℕ)
    → e + 2 ^ 42 ≤ 2 ^ 64
    → i < 2 ^ 64
    → (let p = parse_id e i in make_id e p.service_id p.sequence_id p.timestamp ≡ i)
make_id-parse_id e i w h = rw (parse_id-fields e i w h) (
    make_id-fields e (i / 4096 % 1024) (i % 4096) (i / 4194304 + e) (read-Fits e i w h)
    ∙ omega arith)

abbrev pub id_of : (epoch : ℕ) → Stamped epoch → Id64
id_of epoch (p, h) = (
  make_id epoch p.service_id p.sequence_id p.timestamp,
  make_id_lt epoch p.service_id p.sequence_id p.timestamp h,
)

-- With an epoch that leaves room for 42 bits of time, building an id is an equivalence between the
-- time stamps, services and sequence numbers that fit and all words of 64 bits, and `parse_id` is
-- its inverse: no id is made of two different triples, and no word is left out.
pub id_of-IsEquiv :
    (epoch : ℕ)
    → (word : epoch + 2 ^ 42 ≤ 2 ^ 64)
    → IsEquiv (id_of epoch)
      × ((i : Id64) → (s : Stamped epoch) × (s.0 ≡ parse_id epoch i.0) × (id_of epoch s ≡ i))
id_of-IsEquiv epoch word =
    let inv : Id64 → Stamped epoch = λ i. (parse_id epoch i.0, parse_id-Fits epoch i.0 word i.1) in
    let rinv : (i : Id64) → id_of epoch (inv i) ≡ i =
      λ i. Σ_prop_path (λ n. le_prop) (make_id-parse_id epoch i.0 word i.1) in
    (
      (iso_to_equiv (record {
        fun = id_of epoch;
        inv = inv;
        rinv = rinv;
        linv = λ s.
            Σ_prop_path (λ p. Fits-prop)
              (parse_id-make_id epoch s.0.service_id s.0.sequence_id s.0.timestamp s.1);
      })).1,
      λ i. (inv i, refl, rinv i),
    )
