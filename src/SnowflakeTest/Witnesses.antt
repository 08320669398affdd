-- ===== src/SnowflakeTest/Witnesses.antt =====
-- A run of src/tests/snowflake_test.hpp at which the theorem is applied.
use tinychat_server.Base.{◌+◌, ◌≡◌, refl, true, some, [], ◌∷◌, All, length, arith}
use tinychat_server.Base.Int.{pos}
use tinychat_server.Config.Witnesses.{file, loaded, file-loaded}
use tinychat_server.SnowflakeTest.Main.{tests, main}
use tinychat_server.SnowflakeTest.Printed.{IsOf, total, main_prints}
use tinychat_server.Snowflake.{SnowFlake, next_id}
use tinychat_server.SnowflakeTest.{Test, started, push_back, draws, Reach, here, next, printed}
use tinychat_server.SnowflakeTest.Unique.{IsUnique}

-- The settings of `loaded`: service 8, an epoch of 8. Thread 0 draws an id at time 10.
abbrev fresh : SnowFlake
fresh = record { service_id = 8; sequence_id = 0; last_timestamp = 9; custom_epoch = 8 }

abbrev one : Test
one = push_back (started fresh (10 ∷ [])) 0 9 8421376 (record fresh { last_timestamp = 10 }) []

Reach-one : Reach fresh (10 ∷ []) one
unfolding started push_back next_id
Reach-one = next here (draws 0 9 8421376 _ [] refl refl refl)

main_prints_example :
    (main 0 true (some (file (pos 8))) (9 ∷ 10 ∷ []) ≡ tests 8 fresh (10 ∷ []))
    × IsUnique fresh one
    × (length (printed 8 one) + total one.rounds 6 0 ≡ 40)
    × All (IsOf fresh) (printed 8 one)
main_prints_example =
    main_prints 0 true (some (file (pos 8))) loaded 9 (10 ∷ []) one file-loaded (omega arith)
      (omega arith) (omega arith) (omega arith) Reach-one
