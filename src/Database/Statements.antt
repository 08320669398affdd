-- ===== src/Database/Statements.antt =====
-- The statements that the program executes, by their templates and bound parameters
-- (src/core/request_handler.hpp, ws_handler.cpp and ws_session_mgr.cpp), and the binding of
-- parameters in src/db/sql_conn_RAII.hpp.
use tinychat_server.Base.{ℕ, suc, String, ◌≡◌, refl, List, [], ◌∷◌, ◌==◌, if◌then◌else◌}
use tinychat_server.Text.{Text, codes}

pub data Param : Type 0 where
  int u64 : ℕ → Param
  str : Text → Param

-- The arguments are the parameters, in their order.
pub data Statement : Type 0 where
  insert_group_room : ℕ → Text → ℕ → ℕ → Statement
  insert_private_room : ℕ → ℕ → Statement
  insert_member : ℕ → ℕ → ℕ → Statement
  insert_two_members : ℕ → ℕ → ℕ → ℕ → ℕ → ℕ → Statement
  invite_member : ℕ → ℕ → ℕ → Statement
  select_role : ℕ → ℕ → Statement
  delete_members : ℕ → Statement
  delete_room : ℕ → Statement
  select_room_type : ℕ → Statement
  select_user : Text → Statement
  insert_user : ℕ → Text → Text → Text → Text → Statement
  select_room_ids : ℕ → Statement
  select_membership : ℕ → ℕ → Statement
  insert_message : ℕ → ℕ → ℕ → Text → Statement
  update_last_message : ℕ → ℕ → Statement
  select_members : ℕ → Statement

-- The text of each statement with the values bound to it, in order, as the program's calls of
-- `execute_update` and `execute_query` pass them.
abbrev pub Prepared : Type 0
Prepared = String × List Param

abbrev insert_group_room_call : ℕ → Text → ℕ → ℕ → Prepared
insert_group_room_call i name type owner = (
  "INSERT INTO rooms (id, name, type, owner_id) VALUES (?, ?, ?, ?)",
  u64 i ∷ str name ∷ int type ∷ u64 owner ∷ [],
)

abbrev insert_private_room_call : ℕ → ℕ → Prepared
insert_private_room_call i type =
    ("INSERT INTO rooms (id, type) VALUES (?, ?)", u64 i ∷ int type ∷ [])

abbrev insert_member_call : ℕ → ℕ → ℕ → Prepared
insert_member_call room user role = (
  "INSERT INTO room_members (room_id, user_id, role) VALUES (?, ?, ?)",
  u64 room ∷ u64 user ∷ int role ∷ [],
)

abbrev insert_two_members_call : ℕ → ℕ → ℕ → ℕ → ℕ → ℕ → Prepared
insert_two_members_call r u a r' u' a' = (
  "INSERT INTO room_members (room_id, user_id, role)VALUES (?, ?, ?), (?, ?, ?)",
  u64 r ∷ u64 u ∷ int a ∷ u64 r' ∷ u64 u' ∷ int a' ∷ [],
)

abbrev invite_member_call : ℕ → ℕ → ℕ → Prepared
invite_member_call room user role = (
  "INSERT INTO room_members (room_id, user_id, role) VALUE (?, ?, ?)",
  u64 room ∷ u64 user ∷ int role ∷ [],
)

abbrev select_role_call : ℕ → ℕ → Prepared
select_role_call room user =
    ("SELECT role FROM room_members WHERE room_id = ? AND user_id = ?", u64 room ∷ u64 user ∷ [])

abbrev delete_members_call : ℕ → Prepared
delete_members_call room = ("DELETE FROM room_members WHERE room_id = ?", u64 room ∷ [])

abbrev delete_room_call : ℕ → Prepared
delete_room_call room = ("DELETE FROM rooms WHERE id = ?", u64 room ∷ [])

abbrev select_room_type_call : ℕ → Prepared
select_room_type_call room = ("SELECT type FROM rooms WHERE id = ?", u64 room ∷ [])

abbrev select_user_call : Text → Prepared
select_user_call username = (
  "SELECT id, password_hash, nickname, email, avatar_url, created_at FROM users WHERE username = ?",
  str username ∷ [],
)

abbrev insert_user_call : ℕ → Text → Text → Text → Text → Prepared
insert_user_call i name hash email nickname = (
  "INSERT INTO users (id, username, password_hash, email, nickname) VALUES (?, ?, ?, ?, ?)",
  u64 i ∷ str name ∷ str hash ∷ str email ∷ str nickname ∷ [],
)

abbrev select_room_ids_call : ℕ → Prepared
select_room_ids_call user = ("SELECT room_id FROM room_members WHERE user_id = ?", u64 user ∷ [])

abbrev select_membership_call : ℕ → ℕ → Prepared
select_membership_call room user =
    ("SELECT 1 FROM room_members WHERE room_id = ? AND user_id = ?", u64 room ∷ u64 user ∷ [])

abbrev insert_message_call : ℕ → ℕ → ℕ → Text → Prepared
insert_message_call i room sender content = (
  "INSERT INTO messages (id, room_id, sender_id, content) VALUES (?, ?, ?, ?)",
  u64 i ∷ u64 room ∷ u64 sender ∷ str content ∷ [],
)

abbrev update_last_message_call : ℕ → ℕ → Prepared
update_last_message_call i room =
    ("UPDATE rooms set last_message_id = ? WHERE id = ?", u64 i ∷ u64 room ∷ [])

abbrev select_members_call : ℕ → Prepared
select_members_call room = ("SELECT user_id FROM room_members WHERE room_id = ?", u64 room ∷ [])

abbrev pub prepared : Statement → Prepared
prepared (insert_group_room i name type owner) = insert_group_room_call i name type owner
prepared (insert_private_room i type) = insert_private_room_call i type
prepared (insert_member room user role) = insert_member_call room user role
prepared (insert_two_members r u a r' u' a') = insert_two_members_call r u a r' u' a'
prepared (invite_member room user role) = invite_member_call room user role
prepared (select_role room user) = select_role_call room user
prepared (delete_members room) = delete_members_call room
prepared (delete_room room) = delete_room_call room
prepared (select_room_type room) = select_room_type_call room
prepared (select_user username) = select_user_call username
prepared (insert_user i name hash email nickname) = insert_user_call i name hash email nickname
prepared (select_room_ids user) = select_room_ids_call user
prepared (select_membership room user) = select_membership_call room user
prepared (insert_message i room sender content) = insert_message_call i room sender content
prepared (update_last_message i room) = update_last_message_call i room
prepared (select_members room) = select_members_call room

-- `bind_all_param(pstmt, idx, args...)`: the setter's calls, each with its index.
unfoldable pub bind_all_param : ℕ → List Param → List (ℕ × Param)
bind_all_param idx [] = []
bind_all_param idx (first ∷ rest) = (idx, first) ∷ bind_all_param (suc idx) rest

-- The indices that a prepared statement expects: one for each `?`, from `idx` on.
unfoldable pub placeholders : ℕ → Text → List ℕ
placeholders idx [] = []
placeholders idx (c ∷ s) =
    let here = idx ∷ placeholders (suc idx) s in
    let on = placeholders idx s in if c == b'?' then here else on

abbrev pub indices : List (ℕ × Param) → List ℕ
indices [] = []
indices ((i, p) ∷ rest) = i ∷ indices rest

-- Every statement of the program binds a value to each `?` of its template, once, and to no
-- other index.
pub bind_all_param_lem :
    (st : Statement)
    → indices (bind_all_param 1 (prepared st).1) ≡ placeholders 1 (codes (prepared st).0)
unfolding bind_all_param placeholders
bind_all_param_lem (insert_group_room a b c d) = refl
bind_all_param_lem (insert_private_room a b) = refl
bind_all_param_lem (insert_member a b c) = refl
bind_all_param_lem (insert_two_members a b c d e f) = refl
bind_all_param_lem (invite_member a b c) = refl
bind_all_param_lem (select_role a b) = refl
bind_all_param_lem (delete_members a) = refl
bind_all_param_lem (delete_room a) = refl
bind_all_param_lem (select_room_type a) = refl
bind_all_param_lem (select_user a) = refl
bind_all_param_lem (insert_user a b c d e) = refl
bind_all_param_lem (select_room_ids a) = refl
bind_all_param_lem (select_membership a b) = refl
bind_all_param_lem (insert_message a b c d) = refl
bind_all_param_lem (update_last_message a b) = refl
bind_all_param_lem (select_members a) = refl
