-- ===== src/Tasks.antt =====
-- The tasks that the connections give to the pool of workers: `handle_request`
-- (src/core/request_handler.hpp) from src/core/http_session.cpp, and `handle_message`
-- (src/core/ws_handler.cpp) from src/core/websocket_session.cpp.
pub mod Witnesses
use tinychat_server.Base.{All}
use tinychat_server.Database.Updates.{OnUpdates}
use tinychat_server.RequestHandler.Permits.{Permitted}
use tinychat_server.RequestHandler.Permits.Dispatch.{handle_request-Permitted}
use tinychat_server.WsHandler.Permits.{Storable, handle_message-Storable}
use tinychat_server.Base.{
  ℕ, ◌≡◌, Bool, true, false, Option, none, some, List, [], ◌∷◌, ◌==◌, if◌then◌else◌, Bool-cases,
  inl, inr,
}
use tinychat_server.Text.{Text, lit, is_empty, text_eq}
use tinychat_server.Text.Decimal.{stoull}
use tinychat_server.Json.{Json, Entries, at, as_object, as_string}
use tinychat_server.Claims.{UserClaims, extract_user_claims}
use tinychat_server.Models.Requests.{LoginRequest, GRoomInvtReq, ClientPrivateMsg, ClientGroupMsg}
use tinychat_server.Database.{M, Row, Mysql, Outcome}
use tinychat_server.Database.Only.{Only, Within, within_rules, Only-from_option}
use tinychat_server.Database.Held.{Held, Never, IsBalanced, held_rules, Held-bind, Held-IsBalanced}
use tinychat_server.Database.Env.{Env, claims_of_token}
use tinychat_server.WsHandler.{
  handle_message, try_message, dispatch, private_message, private_as, group_message, group_as,
  store_message,
}
use tinychat_server.Http.{Request, Response}
use tinychat_server.RequestHandler.Assets.{
  ReqContext, Files, handle_assets, asset_response, opened_response, OpenResult, opened,
  no_such_file, failed,
}
use tinychat_server.RequestHandler.Credentials.{Auth, hash_password}
use tinychat_server.RequestHandler.Dispatch.{handle_request, route, context_claims, context_body}
use tinychat_server.RequestHandler.Members.{
  try_delete_room, delete_by_role, delete_rows, deletion_failed, delete_room, invite_to,
  invite_member, room_operation, handle_chat_room,
}
use tinychat_server.RequestHandler.Rooms.{
  try_create_g_room, try_create_p_room, creation_failed, create_g_room, create_p_room,
}
use tinychat_server.RequestHandler.Users.{
  handle_login, login_parsed, login_with, user_of_row, answer, handle_register, register_parsed,
  registered, query_rooms, query_rooms_of,
}
use tinychat_server.RequestHandler.Held.{Held-handle_request}
use tinychat_server.WsHandler.Held.{Held-handle_message}
use tinychat_server.SessionMgr.Members.{users_in_group, Held-users_in_group}

-- Whatever a request or a message is and whatever the database answers: the handler itself makes no
-- call on the database at all, or takes one connection before its first call and lets go of it after
-- its last; and it gives back the connection exactly if it took one, does not wait for ever, the
-- connection is valid in the end and the destructor does not throw. The same holds, apart from the handler, of the block of
-- `write_to_room` that reads a room's members: it takes, and gives back, a connection of its own, so
-- a message for a group has two while that block runs. A connection that replaces an invalid one is
-- not counted: it becomes the one that is held.
pub tasks-IsBalanced :
    (env : Env) (auth : Auth) (files : Files) (doc_root : Text) (req : Request)
    (room_written : ℕ → Outcome (Unit {0})) (user_claims : UserClaims) (msg : Text) (inner : Mysql)
    (room_id : ℕ)
    → IsBalanced env.mysql (handle_request env auth files doc_root req)
      × IsBalanced env.mysql (handle_message env room_written user_claims msg)
      × IsBalanced inner (users_in_group inner room_id)
tasks-IsBalanced env auth files doc_root req room_written user_claims msg inner room_id = (
  Held-IsBalanced env.mysql (handle_request env auth files doc_root req)
      (Held-handle_request env auth files doc_root req),
  Held-IsBalanced env.mysql (handle_message env room_written user_claims msg)
      (Held-handle_message env room_written user_claims msg),
  Held-IsBalanced inner (users_in_group inner room_id) (Held-users_in_group inner room_id),
)

-- Whatever a request or a message is and whatever the database answers, every update that the server
-- executes for it is permitted. For a request: a user is inserted only as the body asks, with a hash
-- made of its password; rooms and their first members are inserted only in the name of the caller
-- that the token claims; a member is added only to a room that the database reports as a group;
-- members and rooms are deleted only where the database reports the caller as the owner. For a
-- message: it is stored only in its sender's name, and it, and its id as the room's last, only in a
-- room of which the database reports the sender as a member.
pub tasks-Permitted :
    (env : Env) (auth : Auth) (files : Files) (doc_root : Text) (req : Request)
    (room_written : ℕ → Outcome (Unit {0})) (user_claims : UserClaims) (msg : Text)
    → All (OnUpdates (Permitted env auth req)) (handle_request env auth files doc_root req).1
      × All
          (OnUpdates (Storable env room_written user_claims))
          (handle_message env room_written user_claims msg).1
tasks-Permitted env auth files doc_root req room_written user_claims msg = (
  handle_request-Permitted env auth files doc_root req,
  handle_message-Storable env room_written user_claims msg,
)
