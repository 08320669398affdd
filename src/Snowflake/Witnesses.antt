-- ===== src/Snowflake/Witnesses.antt =====
-- The theorems on the id generator at concrete inputs, and runs of its code.
use tinychat_server.Base.{ℕ, ◌≡◌, refl, [], ◌∷◌, inr, arith}
use tinychat_server.Snowflake.{SnowFlake, returned, next_id, parse_id}
use mathlib.Core.Equiv.{IsEquiv}
use tinychat_server.Snowflake.Layout.{Id64, Stamped, id_of, id_of-IsEquiv}
use tinychat_server.Snowflake.Order.{Ready, Run, done, call, Rising}
use tinychat_server.Snowflake.Services.{Disjoint, no_id_twice}
use tinychat_server.Snowflake.Errors.{soon, next_id_returns}

-- Service 5, an epoch of 1000, the last id at time 2000.
abbrev sample : SnowFlake
sample = record { service_id = 5; sequence_id = 0; last_timestamp = 2000; custom_epoch = 1000 }

abbrev after_first : SnowFlake
after_first = record sample { sequence_id = 1 }

abbrev after_second : SnowFlake
after_second = record sample { last_timestamp = 2001 }

-- The state in which the sequence of a millisecond is used up.
abbrev used_up : SnowFlake
used_up = record sample { sequence_id = 2047 }

sample-Ready : Ready sample (2000 ∷ 2001 ∷ [])
sample-Ready = omega arith

two_calls : Run sample (2000 ∷ 2001 ∷ []) (4194324481 ∷ 4198518784 ∷ []) after_second []
unfolding next_id
two_calls = call {s' = after_first} refl (call {s' = after_second} refl done)

-- Service 6, with an epoch of its own.
abbrev other : SnowFlake
other = record { service_id = 6; sequence_id = 0; last_timestamp = 1000; custom_epoch = 0 }

other_call : Run other (1000 ∷ []) (4194328577 ∷ []) (record other { sequence_id = 1 }) []
unfolding next_id
other_call = call {s' = record other { sequence_id = 1 }} refl done

no_id_twice_example :
    Rising 4194324480 (4194324481 ∷ 4198518784 ∷ [])
    × Rising 4194328576 (4194328577 ∷ [])
    × Disjoint (4194324481 ∷ 4198518784 ∷ []) (4194328577 ∷ [])
no_id_twice_example =
    no_id_twice two_calls other_call sample-Ready (omega arith) (λ e. omega (arith, e))

id_of-IsEquiv_example :
    IsEquiv (id_of 1000)
    × ((i : Id64) → (s : Stamped 1000) × (s.0 ≡ parse_id 1000 i.0) × (id_of 1000 s ≡ i))
id_of-IsEquiv_example = id_of-IsEquiv 1000 (omega arith)

next_id_returns_example : (i : ℕ) × ((next_id used_up (2000 ∷ 2000 ∷ 2001 ∷ [])).0 ≡ returned i)
next_id_returns_example =
    next_id_returns used_up 2000 (2000 ∷ 2001 ∷ []) (omega arith)
      (inr (inr (soon {ts = []} (omega arith))))

-- The wait returns the reading before the one that ended it: here the millisecond of the last id.
last_of_a_millisecond :
    next_id used_up (2000 ∷ 2000 ∷ 2001 ∷ 2001 ∷ [])
    ≡ (returned 4194326528, record used_up { sequence_id = 2048 }, 2001 ∷ [])
unfolding next_id
last_of_a_millisecond = refl
