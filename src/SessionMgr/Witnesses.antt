-- ===== src/SessionMgr/Witnesses.antt =====
-- The theorems on the registry of sessions at concrete inputs.
use tinychat_server.SessionMgr.Addressed
use tinychat_server.SessionMgr.Owned.{update}
use tinychat_server.SessionMgr.Addressed.{System, handed_to, IsPrivate, Reach-IsPrivate}
use tinychat_server.SessionMgr.Rooms.{write_to_each, write_to_room-write_to_each}
use mathlib.Core.Quot
use tinychat_server.SessionMgr.Refine.{Op, replay}
use tinychat_server.SessionMgr.Unordered.{Registry, find_in, run_in, run_in_refines}
use tinychat_server.Base.{List, ℕ, ◌≡◌, ◌↔◌, refl, Bool, none, some, [], ◌∷◌, ◌==◌}
use tinychat_server.Text.{codes}
use tinychat_server.SessionMgr.{
  Sessions, find, add_session, remove_session, write_to, write_to_room, send_all, lock_session,
  collect_online, erase,
}
use tinychat_server.SessionMgr.Map.{Distinct}
use tinychat_server.SessionMgr.Reconnect
use tinychat_server.SessionMgr.Reconnect.{
  Reach, start, next, connect, destroy, IsExact, Reach-IsExact, reconnect_loses_session,
}

-- Users 1 and 2 with the sessions 10 and 20; session 20 has expired.
abbrev two_users : Sessions
two_users = (1, 10) ∷ (2, 20) ∷ []

abbrev alive : ℕ → Bool
alive session = session == 10

two_users-Distinct : Distinct two_users
unfolding find
two_users-Distinct = (refl, (refl, tt))

room_run :
    write_to_room alive (2 ∷ 1 ∷ []) (codes "hi") two_users ≡ ((10, codes "hi") ∷ [], (1, 10) ∷ [])
unfolding write_to_room collect_online lock_session find erase send_all
room_run = refl

reconnect_loses_session_example :
    ((write_to alive 3 (codes "hi") (add_session 3 10 (add_session 3 30 two_users))).0
      ≡ (10, codes "hi") ∷ [])
    × ((write_to alive 3
          (codes "hi")
          (remove_session 3 (add_session 3 10 (add_session 3 30 two_users)))).0
        ≡ [])
reconnect_loses_session_example =
    reconnect_loses_session alive 3 30 10 (codes "hi") two_users two_users-Distinct refl

Reach-IsExact_example :
    IsExact
      (record { sessions = add_session 3 10 []; owner = Reconnect.update (λ j. none) 3 (some 10) })
Reach-IsExact_example = Reach-IsExact (next start (connect 3 10 refl))

-- Ann, who is user 3, connects twice, and a message goes to her newer connection.
abbrev twice : System
twice = record {
  sessions = add_session 3 10 (add_session 3 30 []);
  user_of = update (update (λ j. none) 30 3) 10 3;
  handed = [];
}

abbrev told : System
told = record twice {
  sessions = (write_to alive 3 (codes "hi") twice.sessions).1;
  handed = handed_to (3 ∷ []) (write_to alive 3 (codes "hi") twice.sessions).0;
}

Reach-IsPrivate_example : IsPrivate told
Reach-IsPrivate_example = Reach-IsPrivate (
    Addressed.next
      (Addressed.next (Addressed.next Addressed.start (Addressed.connect 3 30 refl))
        (Addressed.connect 3 10 refl))
      (Addressed.send alive 3 (codes "hi")))

write_to_room-write_to_each_example :
    write_to_room alive (2 ∷ 1 ∷ []) (codes "hi") two_users
    ≡ write_to_each alive (2 ∷ 1 ∷ []) (codes "hi") two_users
write_to_room-write_to_each_example =
    write_to_room-write_to_each alive (2 ∷ 1 ∷ []) (codes "hi") two_users

abbrev calls : List Op
calls = Op.add 3 10 ∷ Op.write_room alive (2 ∷ 3 ∷ []) (codes "hi") ∷ Op.remove 1 ∷ []

abbrev registry : Registry
registry = Quot.mk (two_users, two_users-Distinct)

run_in_refines_example :
    ((run_in calls registry).0 ≡ (replay calls (find_in registry)).0)
    × (((run_in calls registry).1 ≡ registry)
        ↔ (find_in registry ≡ (replay calls (find_in registry)).1))
run_in_refines_example = run_in_refines calls registry registry
