-- ===== src/RequestHandler/Permits/Dispatch.antt =====
-- The updates of the other handlers and of `handle_request` (src/core/request_handler.hpp).
use tinychat_server.Base.{ℕ, ◌≡◌, Option, none, some, List, [], ◌∷◌, All}
use tinychat_server.Text.{Text}
use tinychat_server.Json.{Json}
use tinychat_server.Claims.{UserClaims}
use tinychat_server.Models.Requests.{LoginRequest}
use tinychat_server.Database.{Row}
use tinychat_server.Database.Env.{Env}
use tinychat_server.Database.Only.{Only-bind}
use tinychat_server.Database.Updates.{OnUpdates, update_rules}
use tinychat_server.Http.{Request}
use tinychat_server.RequestHandler.Assets.{
  ReqContext, Files, handle_assets, asset_response, opened_response, OpenResult, opened,
  no_such_file, failed,
}
use tinychat_server.RequestHandler.Credentials.{Auth}
use tinychat_server.RequestHandler.Dispatch.{handle_request, route, context_claims, context_body}
use tinychat_server.RequestHandler.Users.{
  handle_login, login_parsed, login_with, answer, user_of_row, handle_register, register_parsed,
  registered, query_rooms, query_rooms_of,
}
use tinychat_server.RequestHandler.Permits.{Permits, Permitted}
use tinychat_server.RequestHandler.Permits.Handlers.{
  create_g_room-Permits, create_p_room-Permits, handle_chat_room-Permits,
}

module _ (env : Env) (auth : Auth) (req : Request) where
  login_with-Permits :
      (r : LoginRequest) (rows : List Row) → Permits env auth req (login_with env auth req r rows)
  unfolding login_with answer user_of_row
  login_with-Permits r [] = search update_rules depth 30
  login_with-Permits r (row ∷ rest) = search update_rules depth 30

  login_parsed-Permits :
      (jv_opt : Option Json) → Permits env auth req (login_parsed env auth req jv_opt)
  unfolding login_parsed
  login_parsed-Permits none = search update_rules depth 30
  login_parsed-Permits (some jv) = search (update_rules, login_with-Permits) depth 30

  handle_login-Permits : Permits env auth req (handle_login env auth req)
  unfolding handle_login
  handle_login-Permits = search (update_rules, login_parsed-Permits) depth 30

  registered-Permits : (updated_row : ℕ) → Permits env auth req (registered env req updated_row)
  unfolding registered answer
  registered-Permits updated_row = search update_rules depth 30

  register_parsed-Permits :
      (jv_opt : Option Json)
      → env.parse req.body ≡ jv_opt
      → Permits env auth req (register_parsed env auth req jv_opt)
  unfolding register_parsed
  register_parsed-Permits none e = search update_rules depth 30
  register_parsed-Permits (some jv) e = search (update_rules, registered-Permits) depth 30

  handle_register-Permits : Permits env auth req (handle_register env auth req)
  unfolding handle_register
  handle_register-Permits = search (update_rules, register_parsed-Permits) depth 30

  query_rooms_of-Permits :
      (claims : Option UserClaims) → Permits env auth req (query_rooms_of env claims)
  unfolding query_rooms_of
  query_rooms_of-Permits none = search update_rules depth 30
  query_rooms_of-Permits (some claims) = search update_rules depth 30

  query_rooms-Permits : (ctx : ReqContext) → Permits env auth req (query_rooms env ctx)
  unfolding query_rooms
  query_rooms-Permits ctx = search (update_rules, query_rooms_of-Permits) depth 30

module _ (env : Env) (auth : Auth) (files : Files) (doc_root : Text) (req : Request) where
  opened_response-Permits :
      (ctx : ReqContext) (asset_path : Text) (result : OpenResult)
      → Permits env auth req (opened_response env.serialize files doc_root ctx asset_path result)
  unfolding opened_response
  opened_response-Permits ctx asset_path no_such_file = search update_rules depth 30
  opened_response-Permits ctx asset_path failed = search update_rules depth 30
  opened_response-Permits ctx asset_path (opened size) = search update_rules depth 30

  asset_response-Permits :
      (ctx : ReqContext) (asset_path : Option Text)
      → Permits env auth req (asset_response env.serialize files doc_root ctx asset_path)
  unfolding asset_response
  asset_response-Permits ctx none = search update_rules depth 30
  asset_response-Permits ctx (some asset_path) =
      search (update_rules, opened_response-Permits) depth 30

  handle_assets-Permits :
      (ctx : ReqContext) → Permits env auth req (handle_assets env.serialize files doc_root ctx)
  unfolding handle_assets
  handle_assets-Permits ctx = search (update_rules, asset_response-Permits) depth 30

  context_claims-Permits :
      (header : Option Text) → Permits env auth req (context_claims env auth files doc_root header)
  unfolding context_claims
  context_claims-Permits none = search update_rules depth 30
  context_claims-Permits (some token) = search update_rules depth 30

  context_body-Permits :
      (body : Text) → Permits env auth req (context_body env auth files doc_root body)
  unfolding context_body
  context_body-Permits body = search update_rules depth 30

  route-Permits : (ctx : ReqContext) → Permits env auth req (route env auth files doc_root req ctx)
  unfolding route
  route-Permits ctx =
      search
        (
          update_rules, handle_login-Permits, handle_register-Permits, create_g_room-Permits,
          create_p_room-Permits, handle_chat_room-Permits, query_rooms-Permits,
          handle_assets-Permits,
        )
        depth 30

  every_update-Permits : Permits env auth req (handle_request env auth files doc_root req)
  unfolding handle_request
  every_update-Permits =
      search (Only-bind, context_claims-Permits, context_body-Permits, route-Permits) depth 30

  pub handle_request-Permitted :
      All (OnUpdates (Permitted env auth req)) (handle_request env auth files doc_root req).1
  handle_request-Permitted = every_update-Permits.calls
