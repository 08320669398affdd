-- ===== src/SessionMgr.antt =====
-- src/core/ws_session_mgr.hpp and ws_session_mgr.cpp: which WebSocket session each user has.
-- A session is named by a number, as a `weak_ptr` names it; `alive` says which sessions still have
-- an owner, so that `lock()` succeeds. The hash map is a list of entries with distinct keys. Each
-- method holds the mutex while it uses the map, so it is one step. A method returns the new map and
-- the messages that it hands to sessions, in order.
pub mod Map
pub mod Sends
pub mod Reconnect
pub mod Owned
pub mod Addressed
pub mod Members
pub mod Rooms
pub mod Refine
pub mod Unordered
pub mod Interface
pub mod Implementation
mod Witnesses
use tinychat_server.Base.{
  ℕ, Bool, true, false, Option, none, some, List, [], ◌∷◌, ◌++◌, ◌==◌, if◌then◌else◌,
}
use tinychat_server.Text.{Text}

abbrev pub Sessions : Type 0
Sessions = List (ℕ × ℕ)

-- `sessions_.find`.
unfoldable pub find : ℕ → Sessions → Option ℕ
find k [] = none
find k ((j, v) ∷ m) = if j == k then some v else find k m

-- `it->second = session`, at an entry that is there.
unfoldable pub assign : ℕ → ℕ → Sessions → Sessions
assign k v [] = []
assign k v ((j, w) ∷ m) = if j == k then (j, v) ∷ m else (j, w) ∷ assign k v m

unfoldable pub erase : ℕ → Sessions → Sessions
erase k [] = []
erase k ((j, w) ∷ m) = if j == k then m else (j, w) ∷ erase k m

unfoldable pub add_session : ℕ → ℕ → Sessions → Sessions
add_session session_id session m = elim (find session_id m) [
  | none ↦ (session_id, session) ∷ m
  | some old ↦ assign session_id session m
]

unfoldable pub remove_session : ℕ → Sessions → Sessions
remove_session session_id m = elim (find session_id m) [ none ↦ m | some old ↦ erase session_id m ]

-- The lookup that `write_to` and `write_to_room` share: the session of a user, if it can be locked;
-- an entry that has expired is erased.
unfoldable pub lock_session : (ℕ → Bool) → ℕ → Sessions → Option ℕ × Sessions
lock_session alive user m = elim (find user m) [
  | none ↦ (none, m)
  | some session ↦ if alive session then (some session, m) else (none, erase user m)
]

unfoldable pub write_to : (ℕ → Bool) → ℕ → Text → Sessions → List (ℕ × Text) × Sessions
write_to alive session_id msg m =
    let (found, m') = lock_session alive session_id m in
    (elim found [ none ↦ [] | some session ↦ (session, msg) ∷ [] ], m')

-- It takes the mutex, and that is all.
unfoldable pub broadcast : Text → Sessions → List (ℕ × Text) × Sessions
broadcast msg m = ([], m)

-- The loop over the members of a room, under the mutex.
unfoldable pub collect_online : (ℕ → Bool) → List ℕ → Sessions → List ℕ × Sessions
collect_online alive [] m = ([], m)
collect_online alive (user ∷ users) m =
    let (found, m') = lock_session alive user m in
    let (online, m'') = collect_online alive users m' in
    (elim found [ none ↦ online | some session ↦ session ∷ online ], m'')

unfoldable pub send_all : List ℕ → Text → List (ℕ × Text)
send_all [] msg = []
send_all (session ∷ rest) msg = (session, msg) ∷ send_all rest msg

-- `users_in_group` is what the query for the members of the room returned.
unfoldable pub write_to_room : (ℕ → Bool) → List ℕ → Text → Sessions → List (ℕ × Text) × Sessions
write_to_room alive users_in_group msg m =
    let (online, m') = collect_online alive users_in_group m in (send_all online msg, m')
