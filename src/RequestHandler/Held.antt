-- ===== src/RequestHandler/Held.antt =====
-- How a request uses a connection to the database (src/core/request_handler.hpp).
use tinychat_server.Base.{ℕ, Option, none, some, List, [], ◌∷◌}
use tinychat_server.Text.{Text}
use tinychat_server.Json.{Json}
use tinychat_server.Claims.{UserClaims}
use tinychat_server.Models.Requests.{LoginRequest, GRoomInvtReq}
use tinychat_server.Database.{Row}
use tinychat_server.Database.Only.{Only, Within, within_rules, Only-from_option}
use tinychat_server.Database.Held.{Held, Never, held_rules, Held-bind}
use tinychat_server.Database.Env.{Env, claims_of_token}
use tinychat_server.Http.{Request}
use tinychat_server.RequestHandler.Assets.{
  ReqContext, Files, handle_assets, asset_response, opened_response, OpenResult, opened,
  no_such_file, failed,
}
use tinychat_server.RequestHandler.Credentials.{Auth}
use tinychat_server.RequestHandler.Dispatch.{handle_request, route, context_claims, context_body}
use tinychat_server.RequestHandler.Members.{
  try_delete_room, delete_by_role, delete_rows, deletion_failed, delete_room, invite_to,
  invite_member, room_operation, handle_chat_room,
}
use tinychat_server.RequestHandler.Rooms.{
  try_create_g_room, try_create_p_room, creation_failed, create_g_room, create_p_room,
}
use tinychat_server.RequestHandler.Users.{
  handle_login, login_parsed, login_with, user_of_row, answer, handle_register, register_parsed,
  registered, query_rooms, query_rooms_of,
}

module _ (env : Env) (req : Request) where
  Within-try_create_g_room : Only Within (try_create_g_room env req)
  unfolding try_create_g_room
  Within-try_create_g_room = search within_rules depth 20

  Within-try_create_p_room : Only Within (try_create_p_room env req)
  unfolding try_create_p_room
  Within-try_create_p_room = search within_rules depth 20

  Within-creation_failed : Only Within (creation_failed env req)
  unfolding creation_failed
  Within-creation_failed = search within_rules depth 20

  Within-delete_by_role :
      (room_id : ℕ) (rows : List Row) → Only Within (delete_by_role env req room_id rows)
  unfolding delete_by_role delete_rows
  Within-delete_by_role room_id [] = search within_rules depth 20
  Within-delete_by_role room_id (row ∷ rest) = search within_rules depth 20

  Within-try_delete_room : (room_id : ℕ) → Only Within (try_delete_room env req room_id)
  unfolding try_delete_room
  Within-try_delete_room room_id = search (within_rules, Within-delete_by_role) depth 20

  Within-deletion_failed : Only Within (deletion_failed env req)
  unfolding deletion_failed
  Within-deletion_failed = search within_rules depth 20

  Within-invite_to :
      (room_id : ℕ) (invt_req : GRoomInvtReq) (rows : List Row)
      → Only Within (invite_to env req room_id invt_req rows)
  unfolding invite_to
  Within-invite_to room_id invt_req [] = search within_rules depth 20
  Within-invite_to room_id invt_req (row ∷ rest) = search within_rules depth 20

  Within-registered : (updated_row : ℕ) → Only Within (registered env req updated_row)
  unfolding registered answer
  Within-registered updated_row = search within_rules depth 20

  Within-login_with :
      (auth : Auth) (r : LoginRequest) (rows : List Row)
      → Only Within (login_with env auth req r rows)
  unfolding login_with answer user_of_row
  Within-login_with auth r [] = search within_rules depth 20
  Within-login_with auth r (row ∷ rest) = search within_rules depth 20

Within-query_rooms_of :
    (env : Env) (claims : Option UserClaims) → Only Within (query_rooms_of env claims)
unfolding query_rooms_of
Within-query_rooms_of env none = search within_rules depth 20
Within-query_rooms_of env (some claims) = search within_rules depth 20

ruleset blocks = (
  within_rules, Within-try_create_g_room, Within-try_create_p_room, Within-creation_failed,
  Within-try_delete_room, Within-deletion_failed, Within-invite_to, Within-registered,
  Within-login_with, Within-query_rooms_of,
)

module _ (env : Env) (req : Request) where
  Held-create_g_room : Held env.mysql (create_g_room env req)
  unfolding create_g_room
  Held-create_g_room = search (held_rules, blocks) depth 20

  Held-create_p_room : Held env.mysql (create_p_room env req)
  unfolding create_p_room
  Held-create_p_room = search (held_rules, blocks) depth 20

  Held-delete_room : (room_id : ℕ) → Held env.mysql (delete_room env req room_id)
  unfolding delete_room
  Held-delete_room room_id = search (held_rules, blocks) depth 20

  Held-invite_member : (room_id : ℕ) → Held env.mysql (invite_member env req room_id)
  unfolding invite_member
  Held-invite_member room_id = search (held_rules, Held-bind, blocks) depth 20

  Held-room_operation :
      (room_id : ℕ) (room_verb : Text) → Held env.mysql (room_operation env req room_id room_verb)
  unfolding room_operation
  Held-room_operation room_id room_verb =
      search (held_rules, Held-delete_room, Held-invite_member) depth 20

  Held-handle_chat_room : Held env.mysql (handle_chat_room env req)
  unfolding handle_chat_room
  Held-handle_chat_room =
      search (held_rules, Held-bind, Only-from_option, Held-room_operation) depth 20

  Held-login_parsed :
      (auth : Auth) (jv_opt : Option Json) → Held env.mysql (login_parsed env auth req jv_opt)
  unfolding login_parsed
  Held-login_parsed auth none = search held_rules
  Held-login_parsed auth (some jv) = search (held_rules, Held-bind, blocks) depth 20

  Held-handle_login : (auth : Auth) → Held env.mysql (handle_login env auth req)
  unfolding handle_login
  Held-handle_login auth = search (held_rules, Held-login_parsed)

  Held-register_parsed :
      (auth : Auth) (jv_opt : Option Json) → Held env.mysql (register_parsed env auth req jv_opt)
  unfolding register_parsed
  Held-register_parsed auth none = search held_rules
  Held-register_parsed auth (some jv) = search (held_rules, Held-bind, blocks) depth 20

  Held-handle_register : (auth : Auth) → Held env.mysql (handle_register env auth req)
  unfolding handle_register
  Held-handle_register auth = search (held_rules, Held-register_parsed)

  Held-query_rooms : (ctx : ReqContext) → Held env.mysql (query_rooms env ctx)
  unfolding query_rooms
  Held-query_rooms ctx = search (held_rules, blocks) depth 20

module _ (env : Env) (auth : Auth) (files : Files) (doc_root : Text) where
  Held-opened_response :
      (ctx : ReqContext) (asset_path : Text) (result : OpenResult)
      → Held env.mysql (opened_response env.serialize files doc_root ctx asset_path result)
  unfolding opened_response
  Held-opened_response ctx asset_path no_such_file = search held_rules
  Held-opened_response ctx asset_path failed = search held_rules
  Held-opened_response ctx asset_path (opened size) = search held_rules

  Held-asset_response :
      (ctx : ReqContext) (asset_path : Option Text)
      → Held env.mysql (asset_response env.serialize files doc_root ctx asset_path)
  unfolding asset_response
  Held-asset_response ctx none = search held_rules
  Held-asset_response ctx (some asset_path) = search (held_rules, Held-opened_response)

  Held-handle_assets :
      (ctx : ReqContext) → Held env.mysql (handle_assets env.serialize files doc_root ctx)
  unfolding handle_assets
  Held-handle_assets ctx = search (held_rules, Held-asset_response)

  Never-context_claims :
      (header : Option Text) → Only Never (context_claims env auth files doc_root header)
  unfolding context_claims claims_of_token
  Never-context_claims none = search within_rules
  Never-context_claims (some token) = search within_rules depth 20

  Never-context_body : (body : Text) → Only Never (context_body env auth files doc_root body)
  unfolding context_body
  Never-context_body body = search within_rules depth 20

  Held-route :
      (req : Request) (ctx : ReqContext) → Held env.mysql (route env auth files doc_root req ctx)
  unfolding route
  Held-route req ctx =
      search
        (
          held_rules, Held-handle_login, Held-handle_register, Held-create_g_room,
          Held-create_p_room, Held-handle_chat_room, Held-query_rooms, Held-handle_assets,
        )
        depth 20

  pub Held-handle_request :
      (req : Request) → Held env.mysql (handle_request env auth files doc_root req)
  unfolding handle_request
  Held-handle_request req =
      search (Held-bind, Never-context_claims, Never-context_body, Held-route) depth 20
