-- ===== src/SnowflakeTest/Printed.antt =====
-- What the test prints, from the configuration on (src/test_main.cpp, src/tests/snowflake_test.hpp).
use tinychat_server.Base.{
  ℕ, zero, suc, ◌+◌, ◌^◌, ◌≤◌, ◌<◌, ◌≡◌, refl, ap, Bool, Option, none, some, List, [], ◌∷◌, All,
  All-append, length, length-append, arith,
}
use tinychat_server.Snowflake.{SnowFlake, Parsed, make_id, parse_id}
use tinychat_server.Snowflake
use tinychat_server.Snowflake.Fields.{parse_id-make_id}
use tinychat_server.Snowflake.Order.{Clock, Ready}
use tinychat_server.Config.Init.{Tree, AppConfig, get}
use tinychat_server.Config.Init
use tinychat_server.Config.Accepts.{init_accepts}
use tinychat_server.SnowflakeTest.{Test, Reach, print_ids, print_from, printed}
use tinychat_server.SnowflakeTest.Main.{tests, init, configured, main}
use tinychat_server.SnowflakeTest.Unique.{IsUnique, Reach-IsUnique}
use tinychat_server.SnowflakeTest.Issued.{Drawn, Reach-IsIssued}

-- What is printed of an id: the generator's service, and a time that the clock has shown since.
abbrev pub IsOf : SnowFlake → Parsed → Type 0
IsOf s p =
    (p.service_id ≡ s.service_id)
    × (s.last_timestamp ≤ p.timestamp)
    × (p.timestamp < s.custom_epoch + 2 ^ 42)

parsed-IsOf : (s : SnowFlake) (i : ℕ) → Drawn s i → IsOf s (parse_id s.custom_epoch i)
parsed-IsOf s i (q, t, f, since, e) =
    rw (e, parse_id-make_id s.custom_epoch s.service_id q t f) (refl, since, f.horizon)

print_ids-IsOf :
    (s : SnowFlake) (is : List ℕ)
    → All (Drawn s) is
    → All (IsOf s) (print_ids s.custom_epoch is)
      × (length (print_ids s.custom_epoch is) ≡ length is)
unfolding print_ids
print_ids-IsOf s [] h = (tt, refl)
print_ids-IsOf s (i ∷ is) h =
    let (all, count) = print_ids-IsOf s is h.1 in ((parsed-IsOf s i h.0, all), ap suc count)

-- The sum over `left` threads from the one with the number `k` on.
abbrev pub total : (ℕ → ℕ) → ℕ → ℕ → ℕ
total f zero k = 0
total f (suc left) k = f k + total f left (suc k)

print_from-IsOf :
    (s : SnowFlake) (vv_id : ℕ → List ℕ) (left k : ℕ)
    → ((i : ℕ) → All (Drawn s) (vv_id i))
    → All (IsOf s) (print_from s.custom_epoch left k vv_id)
      × (length (print_from s.custom_epoch left k vv_id) ≡ total (λ i. length (vv_id i)) left k)
unfolding print_from
print_from-IsOf s vv_id zero k h = (tt, refl)
print_from-IsOf s vv_id (suc left) k h =
    let (first, count) = print_ids-IsOf s (vv_id k) (h k) in
    let (rest, counts) = print_from-IsOf s vv_id left (suc k) h in
    (
      All-append (IsOf s) (print_ids s.custom_epoch (vv_id k)) _ first rest,
      omega (
        arith,
        count,
        counts,
        length-append (print_ids s.custom_epoch (vv_id k))
            (print_from s.custom_epoch left (suc k) vv_id),
      ),
    )

-- The generator after `SnowFlake::init` of a fresh program.
abbrev pub initialised : AppConfig → ℕ → SnowFlake
initialised c now = record {
  service_id = c.server_.service_id_;
  sequence_id = 0;
  last_timestamp = now;
  custom_epoch = c.server_.custom_epoch_;
}

main_tests :
    (indeterminate : ℕ) (exists : Bool) (tree : Option Tree) (c : AppConfig) (now : ℕ)
    (later : List ℕ)
    → Init.init indeterminate exists tree none ≡ (none, some c)
    → main indeterminate exists tree (now ∷ later)
      ≡ tests c.server_.custom_epoch_ (initialised c now) later
unfolding main configured init Snowflake.init get
main_tests indeterminate exists tree c now later e =
    let (t, there, read, database, server) = (init_accepts indeterminate exists tree none c).0 e in
    rw e (ground (arith, server.service_id_given.1))

-- With a configuration that is accepted and a steady clock that starts at `now`, at or after the
-- epoch, and stays below 2 ^ 42 milliseconds after it, the program runs its test. In any
-- interleaving no thread ends it with an exception, the ids of each thread rise strictly, no id is
-- drawn by two threads, each of the four threads has drawn ten ids less the rounds that it has
-- left, and the others none. One line is printed for each id drawn, forty with the rounds that are
-- left, and each shows the configured service and a time from `now` on.
pub main_prints :
    (indeterminate : ℕ) (exists : Bool) (tree : Option Tree) (c : AppConfig) (now : ℕ)
    (later : List ℕ) (w : Test)
    → Init.init indeterminate exists tree none ≡ (none, some c)
    → c.server_.custom_epoch_ ≤ now
    → now < c.server_.custom_epoch_ + 2 ^ 42
    → c.server_.custom_epoch_ + 2 ^ 42 ≤ 2 ^ 64
    → Clock now (c.server_.custom_epoch_ + 2 ^ 42) later
    → Reach (initialised c now) later w
    → (main indeterminate exists tree (now ∷ later)
        ≡ tests c.server_.custom_epoch_ (initialised c now) later)
      × IsUnique (initialised c now) w
      × (length (printed c.server_.custom_epoch_ w) + total w.rounds 6 0 ≡ 40)
      × All (IsOf (initialised c now)) (printed c.server_.custom_epoch_ w)
unfolding printed
main_prints indeterminate exists tree c now later w e after before word clock r =
    let (t, there, read, database, server) = (init_accepts indeterminate exists tree none c).0 e in
    let service : c.server_.service_id_ < 1024 = ground (arith, server.service_id_given.1) in
    let ready : Ready (initialised c now) later = record {
      service = service;
      after_epoch = after;
      word = word;
      horizon = before;
      room = omega arith;
      clock = clock;
      passed = λ k. absurd (omega arith);
    } in
    let unique = Reach-IsUnique ready r in
    let (all, count) =
      print_from-IsOf (initialised c now) w.vv_id 6 0 (Reach-IsIssued ready r).drawn in
    (
      main_tests indeterminate exists tree c now later e,
      unique,
      omega (
        arith,
        count,
        unique.counted 0,
        unique.counted 1,
        unique.counted 2,
        unique.counted 3,
        unique.counted 4,
        unique.counted 5,
      ),
      all,
    )
