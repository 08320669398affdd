-- ===== src/RequestHandler/Dispatch.antt =====
-- `handle_request` (src/core/request_handler.hpp).
use tinychat_server.Base.{Option, none, some, if◌then◌else◌}
use tinychat_server.Text.{Text, lit, is_empty, text_eq, starts_with}
use tinychat_server.Json.{Json}
use tinychat_server.Claims.{UserClaims}
use tinychat_server.Database.{M, finish, returned, ◌>>=◌, from_option}
use tinychat_server.Database.Env.{Env, claims_of_token}
use tinychat_server.Http.{Request, Response}
use tinychat_server.Http.Responses.{bad_request}
use tinychat_server.RequestHandler.Assets.{ReqContext, Files, handle_assets}
use tinychat_server.RequestHandler.Credentials.{Auth}
use tinychat_server.RequestHandler.Members.{handle_chat_room}
use tinychat_server.RequestHandler.Rooms.{create_g_room, create_p_room}
use tinychat_server.RequestHandler.Users.{handle_login, handle_register, query_rooms}

module _ (env : Env) (auth : Auth) (files : Files) (doc_root : Text) where
  -- The claims of the request's token, if it has the field.
  unfoldable pub context_claims : Option Text → M (Option UserClaims)
  context_claims none = finish (returned none)
  context_claims (some token) = do
    claims ← claims_of_token env token
    finish (returned (some claims))

  unfoldable pub context_body : Text → M (Option Json)
  context_body body =
      if is_empty body
      then finish (returned none)
      else (do jv ← from_option (env.parse body); finish (returned (some jv)))

  -- The branches on the target, in the order of the source.
  unfoldable pub route : Request → ReqContext → M Response
  route req ctx =
      if text_eq req.target (lit "/api/login")
      then handle_login env auth req
      else if text_eq req.target (lit "/api/register")
      then handle_register env auth req
      else if text_eq req.target (lit "/api/group_room")
      then create_g_room env req
      else if text_eq req.target (lit "/api/private_room")
      then create_p_room env req
      else if starts_with req.target (lit "/api/rooms/")
      then handle_chat_room env req
      else if text_eq req.target (lit "/users/me/rooms")
      then query_rooms env ctx
      else if starts_with req.target (lit "/assets")
      then handle_assets env.serialize files doc_root ctx
      else finish (returned (bad_request env.serialize req (lit " Not Found")))

  unfoldable pub handle_request : Request → M Response
  unfolding context_claims context_body route
  handle_request req = do
    claims ← context_claims req.authorization
    jv ← context_body req.body
    route req (record {
      version = req.version;
      keep_alive = req.keep_alive;
      method = req.method;
      target = req.target;
      jv_opt = jv;
      user_claims_opt = claims;
    })
