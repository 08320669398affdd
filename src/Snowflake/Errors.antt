-- ===== src/Snowflake/Errors.antt =====
-- Initialisation, the refusals and the wait of the id generator (src/utils/snowflake.hpp and
-- snowflake.cpp).
use tinychat_server.Base.{
  ℕ, ◌+◌, ◌^◌, ◌≤◌, ◌<◌, ◌≡◌, ◌≢◌, ◌↔◌, ◌⊎◌, inl, inr, refl, none, List, [], ◌∷◌, arith, leb,
  Bool-cases,
}
use tinychat_server.Snowflake.{
  SnowFlake, Outcome, Error, returned, initialized, threw, spinning, already_initialized,
  bad_service_id, not_initialized, clock_backwards, unset, init, wait_loop, wait_till_next_ms,
  finish, after_wait, same_ms, next_id,
}
use tinychat_server.Snowflake.Order.{Clock, Ready, Returns, next_id-Returns}

-- The first `init` with a service id below 1024 makes the generator ready for a clock that starts
-- at its first reading, at or after the epoch.
pub init-Ready :
    (service_id custom_epoch t : ℕ) (ts : List ℕ)
    → service_id < 1024
    → custom_epoch ≤ t
    → t < custom_epoch + 2 ^ 42
    → custom_epoch + 2 ^ 42 ≤ 2 ^ 64
    → Clock t (custom_epoch + 2 ^ 42) ts
    → (s : SnowFlake) × (init service_id custom_epoch unset (t ∷ ts) ≡ (initialized, s, ts))
      × Ready s ts
      × (s.service_id ≡ service_id)
      × (s.custom_epoch ≡ custom_epoch)
unfolding init
init-Ready v e t ts hv a b w c = (
  record { service_id = v; sequence_id = 0; last_timestamp = t; custom_epoch = e },
  ground arith,
  record {
    service = hv;
    after_epoch = a;
    word = w;
    horizon = b;
    room = omega arith;
    clock = c;
    passed = λ k. absurd (omega arith);
  },
  refl,
  refl,
)

-- `init` throws exactly when the generator is initialised already, or else when the service id is
-- not below 1024; then it changes nothing and does not read the clock.
pub init_throws :
    (v e : ℕ) (s : SnowFlake) (ts : List ℕ) (x : Error)
    → ((init v e s ts).0 ≡ threw x) ↔ (
        ((x ≡ already_initialized) × (s.service_id ≢ 1024))
        ⊎ ((x ≡ bad_service_id) × (s.service_id ≡ 1024) × (1024 ≤ v)))
unfolding init
init_throws v e s [] x = (λ h. ground arith, λ k. ground arith)
init_throws v e s (t ∷ ts) x = (λ h. ground arith, λ k. ground arith)

-- `next_id` throws exactly when the generator is not initialised, or else when the clock reads
-- less than the time of the last id.
pub next_id_throws :
    (s : SnowFlake) (t : ℕ) (ts : List ℕ) (x : Error)
    → ((next_id s (t ∷ ts)).0 ≡ threw x) ↔ (
        ((x ≡ not_initialized) × (s.service_id ≡ 1024))
        ⊎ ((x ≡ clock_backwards) × (s.service_id ≢ 1024) × (t < s.last_timestamp)))
unfolding next_id same_ms after_wait finish
next_id_throws s t ts x = (λ h. ground arith, λ k. ground arith)

-- A call that throws leaves the generator as it was.
pub next_id_throw_unchanged :
    (s : SnowFlake) (ts : List ℕ) (x : Error) → (next_id s ts).0 ≡ threw x → (next_id s ts).1 ≡ s
unfolding next_id same_ms after_wait finish
next_id_throw_unchanged s [] x h = ground arith
next_id_throw_unchanged s (t ∷ ts) x h = ground arith

-- The readings of a wait fall into pairs, the one that is kept and the one that tests it. Here the
-- clock moves on between the two of some pair.
pub data Ticks : List ℕ → Type 0 where
  soon : {now t : ℕ} {ts : List ℕ} → now < t → Ticks (now ∷ t ∷ ts)
  round : {now t : ℕ} {ts : List ℕ} → Ticks ts → Ticks (now ∷ t ∷ ts)

wait_returns : {ts : List ℕ} → Ticks ts → wait_till_next_ms ts ≢ none
unfolding wait_till_next_ms
wait_returns (soon {ts = []} h) = ground arith
wait_returns (soon {ts = again ∷ ts} h) = ground arith
wait_returns (round {ts = []} k) = elim k [ ]
wait_returns (round {ts = again ∷ ts} k) = ground (arith, wait_returns k)

Ticks-of_wait : (now : ℕ) (ts : List ℕ) → wait_loop now ts ≢ none → Ticks (now ∷ ts)
unfolding wait_loop
Ticks-of_wait now [] h = absurd (h refl)
Ticks-of_wait now (t ∷ []) h = soon (ground arith)
Ticks-of_wait now (t ∷ again ∷ ts) h = elim (Bool-cases (leb t now)) [
  | inl same ↦ round (Ticks-of_wait again ts (ground arith))
  | inr past ↦ soon (ground arith)
]

-- The wait ends exactly when the clock moves on between the two readings of a pair. A clock that
-- moves on only between pairs keeps it going.
pub wait_till_next_ms_iff : (ts : List ℕ) → (wait_till_next_ms ts ≢ none) ↔ Ticks ts
wait_till_next_ms_iff [] = (λ h. absurd (h (unfold wait_till_next_ms in refl)), wait_returns)
wait_till_next_ms_iff (now ∷ ts) =
    (λ h. Ticks-of_wait now ts (unfold wait_till_next_ms in h), wait_returns)

spins_only :
    (s : SnowFlake) (t : ℕ) (ts : List ℕ)
    → Ready s (t ∷ ts)
    → (next_id s (t ∷ ts)).0 ≡ spinning
    → (t ≡ s.last_timestamp) × (2048 ≤ s.sequence_id + 1) × (wait_till_next_ms ts ≡ none)
unfolding next_id same_ms after_wait finish
spins_only s t ts h e = ground arith

returned_of :
    (s : SnowFlake) (r : Outcome × SnowFlake × List ℕ)
    → Returns s r
    → r.0 ≢ spinning
    → (i : ℕ) × (r.0 ≡ returned i)
unfolding Returns
returned_of s (returned i, s', ts) h n = (i, refl)
returned_of s (initialized, s', ts) h n = absurd h
returned_of s (threw x, s', ts) h n = absurd h
returned_of s (spinning, s', ts) h n = absurd (n refl)

-- A call of an initialised generator with a steady clock returns an id, unless the sequence of
-- this millisecond is used up and the wait does not see the clock move on.
pub next_id_returns :
    (s : SnowFlake) (t : ℕ) (ts : List ℕ)
    → Ready s (t ∷ ts)
    → (s.sequence_id + 1 < 2048) ⊎ ((s.last_timestamp < t) ⊎ Ticks ts)
    → (i : ℕ) × ((next_id s (t ∷ ts)).0 ≡ returned i)
next_id_returns s t ts h c =
    returned_of s (next_id s (t ∷ ts)) (next_id-Returns s (t ∷ ts) h)
      λ e. refute c (spins_only s t ts h e)
  where
    refute :
        (s.sequence_id + 1 < 2048) ⊎ ((s.last_timestamp < t) ⊎ Ticks ts)
        → (t ≡ s.last_timestamp) × (2048 ≤ s.sequence_id + 1) × (wait_till_next_ms ts ≡ none)
        → ⊥
    refute (inl free) k = omega arith
    refute (inr (inl later)) k = omega arith
    refute (inr (inr ticks)) k = wait_returns ticks k.2
