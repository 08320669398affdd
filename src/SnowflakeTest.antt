-- ===== src/SnowflakeTest.antt =====
-- src/tests/snowflake_test.hpp, which src/test_main.cpp runs: four threads draw ten ids each.
-- `next_id` holds its mutex, so that each call is one step; the threads take their steps in any
-- order.
pub mod Main
pub mod Unique
pub mod Issued
pub mod Printed
mod Witnesses
use tinychat_server.Base.{
  ℕ, zero, suc, ◌≡◌, Bool, true, false, List, [], ◌∷◌, ◌++◌, ltb, ◌==◌, if◌then◌else◌,
}
use tinychat_server.Snowflake.{
  SnowFlake, Parsed, Outcome, returned, threw, Error, next_id, parse_id,
}

pub record Test : Type 0 where
  pub snowflake : SnowFlake
  pub clock : List ℕ  -- the readings to come
  pub vv_id : ℕ → List ℕ
  pub rounds : ℕ → ℕ  -- that each thread has left
  pub terminated : Bool  -- by an exception that leaves a thread

-- Before the threads start: four of them have ten rounds each.
unfoldable pub started : SnowFlake → List ℕ → Test
started s ts = record {
  snowflake = s;
  clock = ts;
  vv_id = λ i. [];
  rounds = λ i. if ltb i 4 then 10 else 0;
  terminated = false;
}

abbrev pub update {ℓ} : {A : Type ℓ} → (ℕ → A) → ℕ → A → ℕ → A
update f i a j = if i == j then a else f j

-- One round of a thread whose call returned.
unfoldable pub push_back : Test → ℕ → ℕ → ℕ → SnowFlake → List ℕ → Test
push_back w i left drawn s ts = record w {
  snowflake = s;
  clock = ts;
  vv_id = update w.vv_id i (w.vv_id i ++ drawn ∷ []);
  rounds = update w.rounds i left;
}

-- Nothing in a thread catches what `next_id` throws, and the `try` of `main` is around another
-- thread, so such an exception ends the program.
pub data Step (w : Test) : Test → Type 0 where
  draws :
      (i left drawn : ℕ) (s : SnowFlake) (ts : List ℕ)
      → w.terminated ≡ false
      → w.rounds i ≡ suc left
      → next_id w.snowflake w.clock ≡ (returned drawn, s, ts)
      → Step w (push_back w i left drawn s ts)
  throws :
      (i left : ℕ) (e : Error) (s : SnowFlake) (ts : List ℕ)
      → w.terminated ≡ false
      → w.rounds i ≡ suc left
      → next_id w.snowflake w.clock ≡ (threw e, s, ts)
      → Step w (record w { terminated = true })

pub data Reach (s : SnowFlake) (ts : List ℕ) : Test → Type 0 where
  here : Reach s ts (started s ts)
  next : {w w' : Test} → Reach s ts w → Step w w' → Reach s ts w'

-- The loops that print the ids, after the threads are joined: what `parse_id` prints of each.
unfoldable pub print_ids : ℕ → List ℕ → List Parsed
print_ids own_epoch [] = []
print_ids own_epoch (i ∷ ids) = parse_id own_epoch i ∷ print_ids own_epoch ids

-- `left` vectors from the one with the number `k` on.
unfoldable pub print_from : ℕ → ℕ → ℕ → (ℕ → List ℕ) → List Parsed
unfolding print_ids
print_from own_epoch zero k vv_id = []
print_from own_epoch (suc left) k vv_id =
    print_ids own_epoch (vv_id k) ++ print_from own_epoch left (suc k) vv_id

-- The vector of vectors has six.
unfoldable pub printed : ℕ → Test → List Parsed
unfolding print_from
printed own_epoch w = print_from own_epoch 6 0 w.vv_id
