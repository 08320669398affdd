-- ===== src/Snowflake/Order.antt =====
-- The order of the ids that one generator issues (src/utils/snowflake.cpp).
use tinychat_server.Base.{
  ℕ, suc, ◌+◌, ◌-◌, ◌^◌, ◌≤◌, ◌<◌, ◌≡◌, refl, ◌==◌, ◌%◌, Option, none, some, List, [], ◌∷◌, arith,
  leb, ltb, false, Bool-cases, inl, inr,
}
use mathlib.Core.Path.{subst}
use tinychat_server.Snowflake.{
  SnowFlake, Outcome, returned, initialized, threw, spinning, wait_loop, wait_till_next_ms, make_id,
  finish, after_wait, same_ms, next_id,
}
use tinychat_server.Snowflake.Fields.{fields, make_id-fields}

-- The clock does not go back below `low`, and stays below `high`.
abbrev pub Clock : ℕ → ℕ → List ℕ → Type 0
Clock low high [] = Unit {0}
Clock low high (t ∷ ts) = (low ≤ t) × (t < high) × Clock t high ts

-- An initialised generator before a call, with the readings that are still to come. A generator
-- that has waited holds a sequence number past its 11 bits: its millisecond is over.
pub record Ready (s : SnowFlake) (ts : List ℕ) : Type 0 where
  pub service : s.service_id < 1024
  pub after_epoch : s.custom_epoch ≤ s.last_timestamp
  pub word : s.custom_epoch + 2 ^ 42 ≤ 2 ^ 64
  pub horizon : s.last_timestamp < s.custom_epoch + 2 ^ 42
  pub room : s.sequence_id ≤ 2048
  pub clock : Clock s.last_timestamp (s.custom_epoch + 2 ^ 42) ts
  pub passed : s.sequence_id ≡ 2048 → Clock (suc s.last_timestamp) (s.custom_epoch + 2 ^ 42) ts

-- The id that the generator's state stands for: the one that it issued last.
abbrev pub last_id : SnowFlake → ℕ
last_id s = fields (s.last_timestamp - s.custom_epoch) s.service_id s.sequence_id

Clock-lower :
    (low low' high : ℕ) (ts : List ℕ) → low' ≤ low → Clock low high ts → Clock low' high ts
Clock-lower low low' high [] h c = tt
Clock-lower low low' high (t ∷ ts) h c = (omega arith, c.1, c.2)

-- The wait returns a reading that the clock has left behind.
wait_loop-Clock :
    (now high : ℕ) (ts : List ℕ) (r : ℕ) (rest : List ℕ)
    → now < high
    → Clock now high ts
    → wait_loop now ts ≡ some (r, rest)
    → (now ≤ r) × (r < high) × Clock (suc r) high rest
unfolding wait_loop
wait_loop-Clock now high [] r rest b c e = cc
wait_loop-Clock now high (t ∷ []) r rest b c e = ground arith
wait_loop-Clock now high (t ∷ again ∷ ts) r rest b c e =
    ground (arith, wait_loop-Clock again high ts r rest c.2.1 c.2.2, Clock-lower again now high ts)

wait_till_next_ms-Clock :
    (low high : ℕ) (ts : List ℕ) (r : ℕ) (rest : List ℕ)
    → Clock low high ts
    → wait_till_next_ms ts ≡ some (r, rest)
    → (low ≤ r) × (r < high) × Clock (suc r) high rest
unfolding wait_till_next_ms
wait_till_next_ms-Clock low high [] r rest c e = cc
wait_till_next_ms-Clock low high (now ∷ ts) r rest c e =
    ground (arith, wait_loop-Clock now high ts r rest c.1 c.2 e)

-- What a call that returns does to a generator with the readings of a steady clock.
pub record Issued (s : SnowFlake) (i : ℕ) (s' : SnowFlake) (ts' : List ℕ) : Type 0 where
  pub ready : Ready s' ts'
  pub exact : i ≡ last_id s'
  pub rises : last_id s < i
  pub epoch : s'.custom_epoch ≡ s.custom_epoch
  pub service : s'.service_id ≡ s.service_id

-- The end of a call, with the sequence number `q` and the time stamp `t`.
finish-Issued :
    (s : SnowFlake) (q t : ℕ) (ts : List ℕ)
    → s.service_id < 1024
    → s.custom_epoch + 2 ^ 42 ≤ 2 ^ 64
    → s.custom_epoch ≤ t
    → t < s.custom_epoch + 2 ^ 42
    → q ≤ 2048
    → Clock t (s.custom_epoch + 2 ^ 42) ts
    → (q ≡ 2048 → Clock (suc t) (s.custom_epoch + 2 ^ 42) ts)
    → last_id s < fields (t - s.custom_epoch) s.service_id q
    → Issued s
        (make_id s.custom_epoch s.service_id q t)
        (record s { sequence_id = q; last_timestamp = t })
        ts
finish-Issued s q t ts v w a b r c p l =
    let exact = make_id-fields s.custom_epoch s.service_id q t (omega arith) in
    record {
      ready = record {
        service = v;
        after_epoch = a;
        word = w;
        horizon = b;
        room = r;
        clock = c;
        passed = p;
      };
      exact = exact;
      rises = omega (arith, exact);
      epoch = refl;
      service = refl;
    }

-- A call returns an id, or it still waits for the clock: it does not throw.
unfoldable pub Returns : SnowFlake → Outcome × SnowFlake × List ℕ → Type 0
Returns s (returned i, s', ts') = Issued s i s' ts'
Returns s (initialized, s', ts') = ⊥
Returns s (threw x, s', ts') = ⊥
Returns s (spinning, s', ts') = Unit

after_wait-Returns :
    (s : SnowFlake) (us ts : List ℕ) (o : Option (ℕ × List ℕ))
    → wait_till_next_ms ts ≡ o
    → s.sequence_id < 2048
    → Ready s us
    → Clock s.last_timestamp (s.custom_epoch + 2 ^ 42) ts
    → Returns s (after_wait (record s { sequence_id = 2048 }) ts o)
unfolding after_wait finish Returns
after_wait-Returns s us ts none e f h clock = tt
after_wait-Returns s us ts (some (r, rest)) e f h clock =
    let hi : ℕ = s.custom_epoch + 2 ^ 42 in
    let (low, high, c) = wait_till_next_ms-Clock s.last_timestamp hi ts r rest clock e in
    finish-Issued s 2048 r rest h.service h.word (omega arith) high (omega arith)
      (Clock-lower (suc r) r hi rest (omega arith) c) (λ _. c) (omega arith)

same_ms-Returns :
    (s : SnowFlake) (ts : List ℕ)
    → Ready s (s.last_timestamp ∷ ts)
    → Returns s
        (same_ms (record s { sequence_id = (s.sequence_id + 1) % 2 ^ 64 }) s.last_timestamp ts)
unfolding same_ms finish Returns
same_ms-Returns s ts h =
    let below : s.sequence_id < 2048 = ground (arith, h.passed) in
    let next : (s.sequence_id + 1) % 2 ^ 64 ≡ s.sequence_id + 1 = omega arith in
    rw next (elim (Bool-cases (leb 2048 (s.sequence_id + 1))) [
      | inl full ↦
          let at : s.sequence_id + 1 ≡ 2048 = ground arith in
          rw (full, at)
            (after_wait-Returns s (s.last_timestamp ∷ ts) ts (wait_till_next_ms ts) refl below h
              h.clock.2)
      | inr free ↦ rw free (
          finish-Issued s (s.sequence_id + 1) s.last_timestamp ts h.service h.word h.after_epoch
            h.horizon (omega arith) h.clock.2 (λ k. absurd (ground arith)) (omega arith))
    ])

pub next_id-Returns : (s : SnowFlake) (ts : List ℕ) → Ready s ts → Returns s (next_id s ts)
unfolding next_id Returns
next_id-Returns s [] h = ground arith
next_id-Returns s (t ∷ ts) h = elim (Bool-cases (t == s.last_timestamp)) [
  | inl same ↦
      let at : t ≡ s.last_timestamp = ground arith in
      rw (set, steady, same) (rw at (same_ms-Returns s ts (rw at at h)))
  | inr later ↦
      rw (set, steady, later)
        (finish-Issued s 0 t ts h.service h.word (omega arith) h.clock.1 (omega arith) h.clock.2
          (λ k. absurd (omega arith)) (ground arith))
]
  where
    set : (s.service_id == 1024) ≡ false
    set = ground arith

    steady : ltb t s.last_timestamp ≡ false
    steady = ground arith

pub next_id-Issued :
    (s : SnowFlake) (ts : List ℕ) (i : ℕ) (s' : SnowFlake) (ts' : List ℕ)
    → Ready s ts
    → next_id s ts ≡ (returned i, s', ts')
    → Issued s i s' ts'
unfolding Returns
next_id-Issued s ts i s' ts' h e = subst (Returns s) e (next_id-Returns s ts h)

-- Calls in a row, by whichever threads: the mutex makes each call one step. `is` holds the ids of
-- those that returned; a call that throws leaves none.
pub data Run : SnowFlake → List ℕ → List ℕ → SnowFlake → List ℕ → Type 0 where
  done : {s : SnowFlake} {ts : List ℕ} → Run s ts [] s ts
  call :
      {s s' s'' : SnowFlake} {ts ts' ts'' is : List ℕ} {i : ℕ}
      → next_id s ts ≡ (returned i, s', ts')
      → Run s' ts' is s'' ts''
      → Run s ts (i ∷ is) s'' ts''

-- Each number is above the one before it, and the first above `low`.
abbrev pub Rising : ℕ → List ℕ → Type 0
Rising low [] = Unit {0}
Rising low (i ∷ is) = (low < i) × Rising i is

-- The ids of one generator rise strictly, call by call, as long as its clock does not go back and
-- is less than 2 ^ 42 milliseconds past the epoch; so no id is issued twice.
pub Run-Rising :
    {s s' : SnowFlake} {ts ts' is : List ℕ}
    → Run s ts is s' ts'
    → Ready s ts
    → Rising (last_id s) is × Ready s' ts'
Run-Rising done h = (tt, h)
Run-Rising {s} {s'} {ts} {ts'} (call {s' = u} {ts' = us} {is = is} {i = i} e r) h =
    let step = next_id-Issued s ts i u us h e in
    let rest = Run-Rising r step.ready in ((step.rises, rw step.exact rest.0), rest.1)
