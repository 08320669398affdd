-- ===== src/Snowflake/Services.antt =====
-- Ids of several generators (src/utils/snowflake.cpp): their width, and two services side by side.
use mathlib.Core.Path.{subst}
use tinychat_server.Base.{ℕ, ◌-◌, ◌^◌, ◌<◌, ◌≡◌, ◌≢◌, sym, List, arith, All, All-map}
use tinychat_server.Snowflake.{SnowFlake, returned, next_id}
use tinychat_server.Snowflake.Fields.{fields}
use tinychat_server.Snowflake.Order.{
  Ready, Issued, next_id-Issued, Run, done, call, Rising, Run-Rising, last_id,
}

-- An id of a service within its epoch: a time of 42 bits, the service, and a sequence number.
pub record IsOf (service_id i : ℕ) : Type 0 where
  pub elapsed : ℕ
  pub sequence_id : ℕ
  pub spelled : i ≡ fields elapsed service_id sequence_id
  pub service : service_id < 1024
  pub sequence : sequence_id < 4096
  pub horizon : elapsed < 2 ^ 42

Issued-IsOf :
    (s : SnowFlake) (i : ℕ) (s' : SnowFlake) (ts' : List ℕ)
    → Issued s i s' ts'
    → IsOf s.service_id i
Issued-IsOf s i s' ts' h = record {
  elapsed = s'.last_timestamp - s'.custom_epoch;
  sequence_id = s'.sequence_id;
  spelled = rw (sym h.service) h.exact;
  service = rw (sym h.service) h.ready.service;
  sequence = omega (arith, h.ready.room);
  horizon = omega (arith, h.ready.after_epoch, h.ready.horizon);
}

-- An id is a word of 64 bits.
pub next_id-fits :
    (s : SnowFlake) (ts : List ℕ) (i : ℕ) (s' : SnowFlake) (ts' : List ℕ)
    → Ready s ts
    → next_id s ts ≡ (returned i, s', ts')
    → i < 2 ^ 64
next_id-fits s ts i s' ts' h e =
    let o = Issued-IsOf s i s' ts' (next_id-Issued s ts i s' ts' h e) in
    omega (arith, o.spelled, o.service, o.sequence, o.horizon)

Run-IsOf :
    {s s' : SnowFlake} {ts ts' is : List ℕ}
    → Run s ts is s' ts'
    → Ready s ts
    → All (IsOf s.service_id) is
Run-IsOf done h = tt
Run-IsOf {s} {ts} (call {s' = u} {ts' = us} {is = is} {i = i} e r) h =
    let step = next_id-Issued s ts i u us h e in
    (Issued-IsOf s i u us step, subst (λ v. All (IsOf v) is) step.service (Run-IsOf r step.ready))

IsOf-ne : (v w i j : ℕ) → IsOf v i → IsOf w j → v ≢ w → i ≢ j
IsOf-ne v w i j h k other same =
    other (omega (arith, same, h.spelled, h.service, h.sequence, k.spelled, k.service, k.sequence))

-- No number is in both lists.
abbrev pub Disjoint : List ℕ → List ℕ → Type 0
Disjoint is js = All (λ i. All (λ j. i ≢ j) js) is

IsOf-Disjoint :
    (v w : ℕ) (is js : List ℕ) → v ≢ w → All (IsOf v) is → All (IsOf w) js → Disjoint is js
IsOf-Disjoint v w is js other h k =
    All-map (IsOf v) (λ i. All (λ j. i ≢ j) js) is
      (λ i own. All-map (IsOf w) (λ j. i ≢ j) js (λ j theirs. IsOf-ne v w i j own theirs other) k) h

services-Disjoint :
    {s s' r r' : SnowFlake} {ts ts' us us' is js : List ℕ}
    → Run s ts is s' ts'
    → Run r us js r' us'
    → Ready s ts
    → Ready r us
    → s.service_id ≢ r.service_id
    → Disjoint is js
services-Disjoint {s} {r = r} {is = is} {js = js} own theirs h k other =
    IsOf-Disjoint s.service_id r.service_id is js other (Run-IsOf own h) (Run-IsOf theirs k)

-- No id is issued twice, by one generator or by two of different services: the ids of each rise
-- strictly, call by call, and no id of one is an id of the other, whatever their clocks read and
-- whatever their epochs are, as long as each runs on a clock that does not go back and is within
-- 2 ^ 42 milliseconds of its own epoch.
pub no_id_twice :
    {s s' r r' : SnowFlake} {ts ts' us us' is js : List ℕ}
    → Run s ts is s' ts'
    → Run r us js r' us'
    → Ready s ts
    → Ready r us
    → s.service_id ≢ r.service_id
    → Rising (last_id s) is × Rising (last_id r) js × Disjoint is js
no_id_twice own theirs h k other =
    ((Run-Rising own h).0, (Run-Rising theirs k).0, services-Disjoint own theirs h k other)
