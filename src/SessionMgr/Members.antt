-- ===== src/SessionMgr/Members.antt =====
-- The first block of `WSSessionMgr::write_to_room` (src/core/ws_session_mgr.cpp): the members of the
-- room, read on a connection of its own.
use tinychat_server.Base.{ℕ, Option, some, List, [], ◌∷◌}
use tinychat_server.Base.Maybe
use tinychat_server.Database.{
  M, Mysql, Row, user_id, Outcome, returned, throws, waits, undefined, from_option, execute_query,
  with_conn, ◌>>=◌,
}
use tinychat_server.Database.Only.{within_rules}
use tinychat_server.Database.Held.{Held, held_rules}
use tinychat_server.Database.Statements.{select_members}

-- The loop over the rows: `getUInt64` throws where the column cannot be read as a number.
unfoldable pub user_ids : List Row → Option (List ℕ)
user_ids [] = some []
user_ids (row ∷ rows) =
    Maybe.◌>>=◌ (row.get_uint64 user_id)
      (λ user. Maybe.◌>>=◌ (user_ids rows) (λ users. some (user ∷ users)))

unfoldable pub users_in_group : Mysql → ℕ → M (List ℕ)
unfolding user_ids
users_in_group s room_id =
    with_conn s (do rows ← execute_query s (select_members room_id); from_option (user_ids rows))

-- How `write_to_room` ends: as that block does, since nothing after it throws or waits.
unfoldable pub room_outcome : Outcome (List ℕ) → Outcome (Unit {0})
room_outcome (returned users) = returned tt
room_outcome throws = throws
room_outcome waits = waits
room_outcome undefined = undefined

pub Held-users_in_group : (s : Mysql) (room_id : ℕ) → Held s (users_in_group s room_id)
unfolding users_in_group
Held-users_in_group s room_id = search (held_rules, within_rules) depth 20
