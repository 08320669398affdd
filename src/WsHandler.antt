-- ===== src/WsHandler.antt =====
-- src/core/ws_handler.cpp: what a worker does with a message of a client.
-- Messages to sessions are calls of `WSSessionMgr` (tinychat_server.SessionMgr). Writing to a room
-- takes a connection of its own for its query, which is no call of this handler: it is
-- `users_in_group` of SessionMgr.Members. How it ends is the parameter `room_written`.
pub mod Spec
pub mod Stored
pub mod Delivery
pub mod Escapes
pub mod Held
pub mod Permits
pub mod Witnesses
use tinychat_server.Base.{
  ℕ, Bool, true, false, Option, none, some, List, [], ◌∷◌, ◌==◌, if◌then◌else◌,
}
use tinychat_server.Base.Maybe
use tinychat_server.Text.{Text, lit, text_eq, c_str}
use tinychat_server.Json.{Json, Entries, null, as_object, at, as_string}
use tinychat_server.Claims.{UserClaims}
use tinychat_server.Models.Answers.{
  PrivateMsgToSend, GroupMsgToSend, server_resp_msg_json, private_msg_to_send_json,
  group_msg_to_send_json, msg_sent_info, p_msg_to_send, g_msg_to_send, permission_denied,
}
use tinychat_server.Models.Requests.{
  ClientPrivateMsg, ClientGroupMsg, client_private_msg, client_group_msg,
}
use tinychat_server.Database.{
  M, Row, Outcome, finish, returned, throws, perform, ◌>>=◌, ◌>>◌, try_catch, from_option, check,
  wait_for, begin_transaction, commit_all, roll_back, execute_update, execute_query, with_conn,
  write_to, write_to_room,
}
use tinychat_server.Database.Env.{Env, draw_id}
use tinychat_server.Database.Statements.{select_membership, insert_message, update_last_message}

module _ (env : Env) (room_written : ℕ → Outcome (Unit {0})) (user_claims : UserClaims) where
  -- The messages to clients.
  unfoldable pub denied_text : Text
  denied_text = env.serialize (server_resp_msg_json permission_denied null)

  unfoldable pub sent_text : Text
  sent_text = env.serialize (server_resp_msg_json msg_sent_info null)

  unfoldable pub private_text : ClientPrivateMsg → Text
  private_text m = env.serialize (
      server_resp_msg_json p_msg_to_send
        (private_msg_to_send_json (record { private_room_id = m.room_id; content = m.content })))

  unfoldable pub group_text : ClientGroupMsg → Text
  group_text m = env.serialize (
      server_resp_msg_json g_msg_to_send (
        group_msg_to_send_json
          (record { room_id = m.room_id; sender_id = user_claims.id; content = m.content })))

  -- From the id of a message to the commit, as both branches do it.
  unfoldable pub store_message : ℕ → Text → M (Unit {0})
  store_message room_id content = do
    msg_id ← draw_id env
    updated_row1 ← execute_update env.mysql (insert_message msg_id room_id user_claims.id content)
    check (updated_row1 == 1)
    updated_row2 ← execute_update env.mysql (update_last_message msg_id room_id)
    check (updated_row2 == 1)
    commit_all env.mysql

  -- `next()` of the query for the membership, and what follows.
  unfoldable pub private_as : ClientPrivateMsg → List Row → M (Unit {0})
  unfolding store_message
  private_as m [] = perform (write_to user_claims.id denied_text)
  private_as m (row ∷ rest) = do
    store_message m.room_id m.content
    perform (write_to m.other_user_id (private_text m))
    perform (write_to user_claims.id sent_text)

  unfoldable pub private_message : Json → M (Unit {0})
  unfolding private_as
  private_message payload = do
    m ← from_option (client_private_msg payload)
    rows ← execute_query env.mysql (select_membership m.room_id user_claims.id)
    private_as m rows

  unfoldable pub group_as : ClientGroupMsg → List Row → M (Unit {0})
  unfolding store_message
  group_as m [] = perform (write_to user_claims.id denied_text)
  group_as m (row ∷ rest) = do
    store_message m.room_id m.content
    wait_for (room_written m.room_id) (write_to_room m.room_id (group_text m))

  unfoldable pub group_message : Json → M (Unit {0})
  unfolding group_as
  group_message payload = do
    m ← from_option (client_group_msg payload)
    rows ← execute_query env.mysql (select_membership m.room_id user_claims.id)
    group_as m rows

  -- A type that is neither of the two is ignored.
  unfoldable pub dispatch : Text → Entries → M (Unit {0})
  unfolding private_message group_message
  dispatch type obj =
      if text_eq type (lit "private_message")
      then (do payload ← from_option (at (lit "data") obj); private_message payload)
      else if text_eq type (lit "group_message")
      then (do payload ← from_option (at (lit "data") obj); group_message payload)
      else finish (returned tt)

  -- The `try` block: the message is an object with a string for its type.
  unfoldable pub try_message : Text → M (Unit {0})
  unfolding dispatch
  try_message msg = do
    jv ← from_option (env.parse msg)
    obj ← from_option (as_object jv)
    field ← from_option (at (lit "type") obj)
    type ← from_option (as_string field)
    dispatch (c_str type) obj

  unfoldable pub handle_message : Text → M (Unit {0})
  unfolding try_message
  handle_message msg =
      with_conn env.mysql
        (do begin_transaction env.mysql; try_catch (try_message msg) (roll_back env.mysql))
