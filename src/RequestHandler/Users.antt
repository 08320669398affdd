-- ===== src/RequestHandler/Users.antt =====
-- `handle_login`, `handle_register` and `query_rooms` (src/core/request_handler.hpp).
use tinychat_server.Base.{ℕ, Option, none, some, List, [], ◌∷◌, ◌==◌, if◌then◌else◌}
use tinychat_server.Text.{Text, lit}
use tinychat_server.Json.{Json, null}
use tinychat_server.Claims.{UserClaims}
use tinychat_server.Models.Answers.{User, StatusCode, api_response_json, login_resp_json}
use tinychat_server.Models.Requests.{LoginRequest, login_request, register_request}
use tinychat_server.Database.{
  M, Row, finish, returned, undefined, ◌>>=◌, try_catch, from_option, execute_update, execute_query,
  with_conn, id, password_hash, nickname, email, avatar_url, created_at,
}
use tinychat_server.Database.Env.{Env, draw_id}
use tinychat_server.Database.Statements.{select_user, insert_user, select_room_ids}
use tinychat_server.Http.{Request, Response, Status}
use tinychat_server.Http.Responses.{create_json_response, bad_request, context_error_resp}
use tinychat_server.RequestHandler.Assets.{ReqContext, is_get}
use tinychat_server.RequestHandler.Credentials.{
  Auth, hash_password, verify_password, generate_login_token,
}
use tinychat_server.RequestHandler.Rooms.{is_post}

module _ (env : Env) where
  -- The responses of both handlers.
  unfoldable pub answer : Request → Status → StatusCode → Text → Json → M Response
  answer req status code message payload = finish (
      returned (
        create_json_response env.serialize status req.version req.keep_alive
          (api_response_json code message payload)))

  -- The user of a row, read after the password was found right.
  unfoldable pub user_of_row : Text → Row → M User
  user_of_row username row = do
    i ← from_option (row.get_uint64 id)
    nick ← from_option (row.get_string nickname)
    mail ← from_option (row.get_string email)
    avatar ← from_option (row.get_string avatar_url)
    created ← from_option (row.get_string created_at)
    finish (
        returned (record {
          id = i;
          username = username;
          nickname = nick;
          email = mail;
          avatar_url = avatar;
          created_at = created;
        }))

  -- `result_set->next()` and what follows.
  unfoldable pub login_with : Auth → Request → LoginRequest → List Row → M Response
  unfolding answer user_of_row verify_password generate_login_token
  login_with auth req r [] =
      answer req Status.not_found StatusCode.user_not_found (lit "User not found") null
  login_with auth req r (row ∷ rest) = do
    hashed ← from_option (row.get_string password_hash)
    if verify_password auth.pwhash_str_verify r.password hashed
        then (do
          user ← user_of_row r.username row
          let token = generate_login_token auth.sign auth.jwt_secret auth.now r.username user.id
          answer req Status.ok StatusCode.success (lit "Login successful")
              (login_resp_json (record { token = token; user = user })))
        else (answer req Status.unauthorized StatusCode.incorrect_pwd (lit "Password incorrect")
            null)

  -- The body that is no JSON is answered; one that is no login throws out of the handler.
  unfoldable pub login_parsed : Auth → Request → Option Json → M Response
  unfolding login_with
  login_parsed auth req none =
      finish (returned (bad_request env.serialize req (lit "Invalid JSON format")))
  login_parsed auth req (some jv) = do
    r ← from_option (login_request jv)
    with_conn env.mysql
        (do rows ← execute_query env.mysql (select_user r.username); login_with auth req r rows)

  unfoldable pub handle_login : Auth → Request → M Response
  unfolding login_parsed
  handle_login auth req =
      if is_post req.method
      then login_parsed auth req (env.parse req.body)
      else finish (returned (bad_request env.serialize req (lit "Bad Request")))

  -- The answer by the number of rows that were inserted.
  unfoldable pub registered : Request → ℕ → M Response
  unfolding answer
  registered req updated_row =
      if updated_row == 1
      then answer req Status.ok StatusCode.success (lit "Registration successful") null
      else if updated_row == 0
      then answer req Status.bad_request StatusCode.reg_failed (lit "Register Failed") null
      else finish (returned (bad_request env.serialize req (lit "Server Error")))

  unfoldable pub register_parsed : Auth → Request → Option Json → M Response
  unfolding registered hash_password
  register_parsed auth req none =
      finish (returned (bad_request env.serialize req (lit "Invalid JSON format")))
  register_parsed auth req (some jv) = do
    r ← from_option (register_request jv)
    with_conn env.mysql (do
      hashed_pwd ← from_option (hash_password auth.pwhash_str r.password)
      i ← draw_id env
      updated_row ←
          execute_update env.mysql (insert_user i r.username hashed_pwd r.email r.nickname)
      registered req updated_row)

  unfoldable pub handle_register : Auth → Request → M Response
  unfolding register_parsed
  handle_register auth req =
      if is_post req.method
      then try_catch (register_parsed auth req (env.parse req.body))
          (finish (returned (bad_request env.serialize req (lit "Server Error"))))
      else finish (returned (bad_request env.serialize req []))

  -- `ctx.user_claims_opt->id` is undefined where there are no claims, and after its query the
  -- function reaches its end.
  unfoldable pub query_rooms_of : Option UserClaims → M Response
  query_rooms_of none = finish undefined
  query_rooms_of (some claims) = do
    room_ids ← execute_query env.mysql (select_room_ids claims.id)
    finish undefined

  unfoldable pub query_rooms : ReqContext → M Response
  unfolding query_rooms_of
  query_rooms ctx =
      try_catch
        (if is_get ctx.method
          then with_conn env.mysql (query_rooms_of ctx.user_claims_opt)
          else finish (
              returned (
                context_error_resp env.serialize ctx.version ctx.keep_alive StatusCode.bad_request
                  (lit " Method Not Allowed"))))
        (finish (
          returned (
            context_error_resp env.serialize ctx.version ctx.keep_alive
              StatusCode.internal_server_error (lit " Server Error"))))
