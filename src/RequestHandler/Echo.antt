-- ===== src/RequestHandler/Echo.antt =====
-- What every answer has of its request (src/core/request_handler.hpp and request_handler.cpp).
use tinychat_server.Base.{ℕ, ◌≡◌, refl, ◌∙◌, Bool, Option, none, some, List, [], ◌∷◌}
use tinychat_server.Text.{Text}
use tinychat_server.Json.{Json}
use tinychat_server.Claims.{UserClaims}
use tinychat_server.Models.Requests.{LoginRequest, GRoomInvtReq}
use tinychat_server.Models.Answers.{StatusCode}
use tinychat_server.Database.{M, Row, returned}
use tinychat_server.Database.Returns.{Returns, Returns-returned, returns_rules}
use tinychat_server.Database.Env.{Env}
use tinychat_server.Http.{Request, Response, Status}
use tinychat_server.Http.Responses.{
  create_json_response, bad_request, error_resp, context_error_resp,
}
use tinychat_server.RequestHandler.Assets.{
  ReqContext, Files, handle_assets, asset_response, opened_response, OpenResult, opened,
  no_such_file, failed,
}
use tinychat_server.RequestHandler.Credentials.{Auth}
use tinychat_server.RequestHandler.Dispatch.{handle_request, route}
use tinychat_server.RequestHandler.Members.{
  try_delete_room, delete_by_role, delete_rows, deletion_failed, delete_room, invite_to,
  invite_member, room_operation, handle_chat_room,
}
use tinychat_server.RequestHandler.Rooms.{
  try_create_g_room, try_create_p_room, creation_failed, create_g_room, create_p_room,
}
use tinychat_server.RequestHandler.Users.{
  handle_login, login_parsed, login_with, answer, handle_register, register_parsed, registered,
  query_rooms, query_rooms_of,
}

-- The answer is in the version of the request, and keeps the connection open exactly if the request
-- asks for that.
pub record IsEcho (version : ℕ) (keep_alive : Bool) (r : Response) : Type 0 where
  pub version_kept : r.version ≡ version
  pub keep_alive_kept : r.keep_alive ≡ keep_alive

module _ (serialize : Json → Text) where
  create_json_response-IsEcho :
      (status : Status) (version : ℕ) (keep_alive : Bool) (jv : Json)
      → IsEcho version keep_alive (create_json_response serialize status version keep_alive jv)
  unfolding create_json_response
  create_json_response-IsEcho status version keep_alive jv = record {
    version_kept = refl;
    keep_alive_kept = refl;
  }

  bad_request-IsEcho :
      (req : Request) (msg : Text)
      → IsEcho req.version req.keep_alive (bad_request serialize req msg)
  unfolding bad_request create_json_response
  bad_request-IsEcho req msg = record { version_kept = refl; keep_alive_kept = refl }

  error_resp-IsEcho :
      (req : Request) (code : StatusCode) (msg : Text)
      → IsEcho req.version req.keep_alive (error_resp serialize req code msg)
  unfolding error_resp create_json_response
  error_resp-IsEcho req code msg = record { version_kept = refl; keep_alive_kept = refl }

  context_error_resp-IsEcho :
      (version : ℕ) (keep_alive : Bool) (code : StatusCode) (msg : Text)
      → IsEcho version keep_alive (context_error_resp serialize version keep_alive code msg)
  unfolding context_error_resp create_json_response
  context_error_resp-IsEcho version keep_alive code msg = record {
    version_kept = refl;
    keep_alive_kept = refl;
  }

ruleset echo_rules = (
  returns_rules, create_json_response-IsEcho, bad_request-IsEcho, error_resp-IsEcho,
  context_error_resp-IsEcho,
)

abbrev Echoes : Request → M Response → Type 0
Echoes req m = Returns (IsEcho req.version req.keep_alive) m

module _ (env : Env) (req : Request) where
  try_create_g_room-Echoes : Echoes req (try_create_g_room env req)
  unfolding try_create_g_room
  try_create_g_room-Echoes = search echo_rules depth 30

  try_create_p_room-Echoes : Echoes req (try_create_p_room env req)
  unfolding try_create_p_room
  try_create_p_room-Echoes = search echo_rules depth 30

  creation_failed-Echoes : Echoes req (creation_failed env req)
  unfolding creation_failed
  creation_failed-Echoes = search echo_rules depth 30

  create_g_room-Echoes : Echoes req (create_g_room env req)
  unfolding create_g_room
  create_g_room-Echoes =
      search (echo_rules, try_create_g_room-Echoes, creation_failed-Echoes) depth 30

  create_p_room-Echoes : Echoes req (create_p_room env req)
  unfolding create_p_room
  create_p_room-Echoes =
      search (echo_rules, try_create_p_room-Echoes, creation_failed-Echoes) depth 30

  delete_by_role-Echoes :
      (room_id : ℕ) (rows : List Row) → Echoes req (delete_by_role env req room_id rows)
  unfolding delete_by_role delete_rows
  delete_by_role-Echoes room_id [] = search echo_rules depth 30
  delete_by_role-Echoes room_id (row ∷ rest) = search echo_rules depth 30

  try_delete_room-Echoes : (room_id : ℕ) → Echoes req (try_delete_room env req room_id)
  unfolding try_delete_room
  try_delete_room-Echoes room_id = search (echo_rules, delete_by_role-Echoes) depth 30

  deletion_failed-Echoes : Echoes req (deletion_failed env req)
  unfolding deletion_failed
  deletion_failed-Echoes = search echo_rules depth 30

  delete_room-Echoes : (room_id : ℕ) → Echoes req (delete_room env req room_id)
  unfolding delete_room
  delete_room-Echoes room_id =
      search (echo_rules, try_delete_room-Echoes, deletion_failed-Echoes) depth 30

  invite_to-Echoes :
      (room_id : ℕ) (invt_req : GRoomInvtReq) (rows : List Row)
      → Echoes req (invite_to env req room_id invt_req rows)
  unfolding invite_to
  invite_to-Echoes room_id invt_req [] = search echo_rules depth 30
  invite_to-Echoes room_id invt_req (row ∷ rest) = search echo_rules depth 30

  invite_member-Echoes : (room_id : ℕ) → Echoes req (invite_member env req room_id)
  unfolding invite_member
  invite_member-Echoes room_id = search (echo_rules, invite_to-Echoes) depth 30

  room_operation-Echoes :
      (room_id : ℕ) (room_verb : Text) → Echoes req (room_operation env req room_id room_verb)
  unfolding room_operation
  room_operation-Echoes room_id room_verb =
      search (echo_rules, delete_room-Echoes, invite_member-Echoes) depth 30

  handle_chat_room-Echoes : Echoes req (handle_chat_room env req)
  unfolding handle_chat_room
  handle_chat_room-Echoes = search (echo_rules, room_operation-Echoes) depth 30

  module _ (auth : Auth) where
    login_with-Echoes :
        (r : LoginRequest) (rows : List Row) → Echoes req (login_with env auth req r rows)
    unfolding login_with answer
    login_with-Echoes r [] = search echo_rules depth 30
    login_with-Echoes r (row ∷ rest) = search echo_rules depth 30

    login_parsed-Echoes : (jv_opt : Option Json) → Echoes req (login_parsed env auth req jv_opt)
    unfolding login_parsed
    login_parsed-Echoes none = search echo_rules depth 30
    login_parsed-Echoes (some jv) = search (echo_rules, login_with-Echoes) depth 30

    handle_login-Echoes : Echoes req (handle_login env auth req)
    unfolding handle_login
    handle_login-Echoes = search (echo_rules, login_parsed-Echoes) depth 30

    register_parsed-Echoes :
        (jv_opt : Option Json) → Echoes req (register_parsed env auth req jv_opt)
    unfolding register_parsed registered answer
    register_parsed-Echoes none = search echo_rules depth 30
    register_parsed-Echoes (some jv) = search echo_rules depth 30

    handle_register-Echoes : Echoes req (handle_register env auth req)
    unfolding handle_register
    handle_register-Echoes = search (echo_rules, register_parsed-Echoes) depth 30

abbrev EchoesContext : ReqContext → M Response → Type 0
EchoesContext ctx m = Returns (IsEcho ctx.version ctx.keep_alive) m

module _ (env : Env) (ctx : ReqContext) where
  query_rooms_of-Echoes :
      (claims : Option UserClaims) → EchoesContext ctx (query_rooms_of env claims)
  unfolding query_rooms_of
  query_rooms_of-Echoes none = search echo_rules depth 30
  query_rooms_of-Echoes (some claims) = search echo_rules depth 30

  query_rooms-Echoes : EchoesContext ctx (query_rooms env ctx)
  unfolding query_rooms
  query_rooms-Echoes = search (echo_rules, query_rooms_of-Echoes) depth 30

  module _ (files : Files) (doc_root : Text) where
    opened_response-Echoes :
        (asset_path : Text) (result : OpenResult)
        → EchoesContext ctx (opened_response env.serialize files doc_root ctx asset_path result)
    unfolding opened_response
    opened_response-Echoes asset_path no_such_file = search echo_rules depth 30
    opened_response-Echoes asset_path failed = search echo_rules depth 30
    opened_response-Echoes asset_path (opened size) =
        Returns-returned _ (record { version_kept = refl; keep_alive_kept = refl })

    asset_response-Echoes :
        (asset_path : Option Text)
        → EchoesContext ctx (asset_response env.serialize files doc_root ctx asset_path)
    unfolding asset_response
    asset_response-Echoes none = search echo_rules depth 30
    asset_response-Echoes (some asset_path) = search (echo_rules, opened_response-Echoes) depth 30

    handle_assets-Echoes : EchoesContext ctx (handle_assets env.serialize files doc_root ctx)
    unfolding handle_assets
    handle_assets-Echoes = search (echo_rules, asset_response-Echoes) depth 30

module _ (env : Env) (auth : Auth) (files : Files) (doc_root : Text) (req : Request) where
  module _ (ctx : ReqContext) (v : ctx.version ≡ req.version)
      (k : ctx.keep_alive ≡ req.keep_alive) where
    of_context : (m : M Response) → EchoesContext ctx m → Echoes req m
    of_context m h = record {
      at = λ a e. record {
        version_kept = (h.at a e).version_kept ∙ v;
        keep_alive_kept = (h.at a e).keep_alive_kept ∙ k;
      };
    }

    rooms-Echoes : Echoes req (query_rooms env ctx)
    rooms-Echoes = of_context (query_rooms env ctx) (query_rooms-Echoes env ctx)

    assets-Echoes : Echoes req (handle_assets env.serialize files doc_root ctx)
    assets-Echoes =
        of_context (handle_assets env.serialize files doc_root ctx)
          (handle_assets-Echoes env ctx files doc_root)

    route-Echoes : Echoes req (route env auth files doc_root req ctx)
    unfolding route
    route-Echoes =
        search
          (
            echo_rules, handle_login-Echoes, handle_register-Echoes, create_g_room-Echoes,
            create_p_room-Echoes, handle_chat_room-Echoes, rooms-Echoes, assets-Echoes,
          )
          depth 30

  every_answer-Echoes : Echoes req (handle_request env auth files doc_root req)
  unfolding handle_request
  every_answer-Echoes = search (echo_rules, route-Echoes) depth 30

  -- Every answer to a request, an error included, is in the request's version of HTTP and keeps the
  -- connection open exactly if the request asks for that.
  pub handle_request-Echoes :
      (r : Response)
      → (handle_request env auth files doc_root req).0 ≡ returned r
      → (r.version ≡ req.version) × (r.keep_alive ≡ req.keep_alive)
  handle_request-Echoes r e =
      ((every_answer-Echoes.at r e).version_kept, (every_answer-Echoes.at r e).keep_alive_kept)
