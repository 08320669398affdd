-- ===== src/RequestHandler/Rooms.antt =====
-- `create_g_room` and `create_p_room` (src/core/request_handler.hpp).
use tinychat_server.Base.{Bool, true, false, [], ◌==◌, if◌then◌else◌}
use tinychat_server.Text.{lit}
use tinychat_server.Models.Answers.{
  StatusCode, api_response_json, create_g_room_resp_json, create_p_room_resp_json, room_type,
  group_role, group, private, owner, private_member,
}
use tinychat_server.Models.Requests.{create_g_room_req, create_p_room_req}
use tinychat_server.Database.{
  M, finish, returned, ◌>>=◌, ◌>>◌, try_catch, from_option, check, begin_transaction, commit_all,
  roll_back, execute_update, with_conn,
}
use tinychat_server.Database.Env.{Env, draw_id, claims_of_token}
use tinychat_server.Database.Statements.{
  insert_group_room, insert_member, insert_private_room, insert_two_members,
}
use tinychat_server.Http.{Verb, post, Request, Response, Status, authorization_text}
use tinychat_server.Http.Responses.{create_json_response, bad_request}

abbrev pub is_post : Verb → Bool
is_post post = true
is_post _ = false

module _ (env : Env) where
  -- The `try` block of `create_g_room`. It ends without `commit()`.
  unfoldable pub try_create_g_room : Request → M Response
  try_create_g_room req = do
    jv ← from_option (env.parse req.body)
    create_req ← from_option (create_g_room_req jv)
    begin_transaction env.mysql
    room_id ← draw_id env
    user_claims ← claims_of_token env (authorization_text req)
    updated_row1 ←
        execute_update env.mysql
          (insert_group_room room_id create_req.name (room_type group) user_claims.id)
    check (updated_row1 == 1)
    updated_row2 ←
        execute_update env.mysql (insert_member room_id user_claims.id (group_role owner))
    check (updated_row2 == 1)
    finish (
        returned (
          create_json_response env.serialize Status.ok req.version req.keep_alive (
            api_response_json StatusCode.success
              (lit "Room created success, creator will be the owner.")
              (create_g_room_resp_json room_id))))

  -- What both handlers do after an exception.
  unfoldable pub creation_failed : Request → M Response
  creation_failed req = do
    roll_back env.mysql
    finish (returned (bad_request env.serialize req (lit " Server Error")))

  unfoldable pub create_g_room : Request → M Response
  unfolding try_create_g_room creation_failed
  create_g_room req =
      if is_post req.method
      then with_conn env.mysql (try_catch (try_create_g_room req) (creation_failed req))
      else finish (returned (bad_request env.serialize req []))

  unfoldable pub try_create_p_room : Request → M Response
  try_create_p_room req = do
    jv ← from_option (env.parse req.body)
    create_req ← from_option (create_p_room_req jv)
    begin_transaction env.mysql
    room_id ← draw_id env
    user_claims ← claims_of_token env (authorization_text req)
    updated_row1 ← execute_update env.mysql (insert_private_room room_id (room_type private))
    check (updated_row1 == 1)
    updated_row2 ← execute_update env.mysql (
        insert_two_members room_id user_claims.id (group_role private_member) room_id
          create_req.other_id (group_role private_member))
    check (updated_row2 == 2)
    commit_all env.mysql
    finish (
        returned (
          create_json_response env.serialize Status.ok req.version req.keep_alive (
            api_response_json StatusCode.success (lit "Private room created success.")
              (create_p_room_resp_json room_id))))

  unfoldable pub create_p_room : Request → M Response
  unfolding try_create_p_room creation_failed
  create_p_room req =
      if is_post req.method
      then with_conn env.mysql (try_catch (try_create_p_room req) (creation_failed req))
      else finish (returned (bad_request env.serialize req []))
