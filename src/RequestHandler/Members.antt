-- ===== src/RequestHandler/Members.antt =====
-- `handle_chat_room`, `delete_room` and `invite_member` (src/core/request_handler.hpp).
use tinychat_server.Base.{ℕ, Bool, true, false, not, List, [], ◌∷◌, ◌==◌, if◌then◌else◌}
use tinychat_server.Base.Int.{int_is}
use tinychat_server.Text.{Text, lit, is_empty, text_eq}
use tinychat_server.Text.Decimal.{stoull}
use tinychat_server.Json.{null}
use tinychat_server.Models.Answers.{
  StatusCode, api_response_json, room_type, group_role, group, owner, member,
}
use tinychat_server.Models.Requests.{GRoomInvtReq, g_room_invt_req}
use tinychat_server.Database.{
  M, Row, role, type, finish, returned, undefined, ◌>>=◌, ◌>>◌, try_catch, from_option, check,
  begin_transaction, commit_all, roll_back, execute_update, execute_query, with_conn,
}
use tinychat_server.Database.Env.{Env, claims_of_token}
use tinychat_server.Database.Statements.{
  select_role, delete_members, select_room_type, invite_member as invite_row,
  delete_room as delete_row,
}
use tinychat_server.Http.{Verb, delete, Request, Response, Status, authorization_text}
use tinychat_server.Http.Responses.{create_json_response, bad_request, error_resp}
use tinychat_server.RequestHandler.Rooms.{is_post}
use tinychat_server.RequestHandler.Target.{extract_target_param}

abbrev pub is_delete : Verb → Bool
is_delete delete = true
is_delete _ = false

module _ (env : Env) where
  -- Behind the check of the user's role.
  unfoldable pub delete_rows : Request → ℕ → M Response
  delete_rows req room_id = do
    deleted_member ← execute_update env.mysql (delete_members room_id)
    check (not (deleted_member == 0))
    deleted_room ← execute_update env.mysql (delete_row room_id)
    check (not (deleted_room == 0))
    commit_all env.mysql
    finish (
        returned (
          create_json_response env.serialize Status.ok req.version req.keep_alive
            (api_response_json StatusCode.success (lit "Room deleted successfully") null)))

  -- `role_set->next()` and what follows.
  unfoldable pub delete_by_role : Request → ℕ → List Row → M Response
  unfolding delete_rows
  delete_by_role req room_id [] = finish (
      returned (
        error_resp env.serialize req StatusCode.bad_request
          (lit " You are not a member in the group")))
  delete_by_role req room_id (row ∷ rest) = do
    r ← from_option (row.get_int role)
    if int_is r (group_role owner)
        then delete_rows req room_id
        else (finish (
            returned
              (error_resp env.serialize req StatusCode.forbidden (lit " Permission denied"))))

  unfoldable pub try_delete_room : Request → ℕ → M Response
  unfolding delete_by_role
  try_delete_room req room_id = do
    user_claims ← claims_of_token env (authorization_text req)
    rows ← execute_query env.mysql (select_role room_id user_claims.id)
    delete_by_role req room_id rows

  unfoldable pub deletion_failed : Request → M Response
  deletion_failed req = do
    roll_back env.mysql
    finish (returned (error_resp env.serialize req StatusCode.bad_request (lit " Server error")))

  unfoldable pub delete_room : Request → ℕ → M Response
  unfolding try_delete_room deletion_failed
  delete_room req room_id = with_conn env.mysql (do
    begin_transaction env.mysql
    try_catch (try_delete_room req room_id) (deletion_failed req))

  -- `result_set->next()` and what follows.
  unfoldable pub invite_to : Request → ℕ → GRoomInvtReq → List Row → M Response
  invite_to req room_id invt_req [] =
      finish
        (returned (error_resp env.serialize req StatusCode.bad_request (lit " Room not found")))
  invite_to req room_id invt_req (row ∷ rest) = do
    t ← from_option (row.get_int type)
    if int_is t (room_type group)
        then (do
          update_row ←
              execute_update env.mysql (invite_row room_id invt_req.invitee_id (group_role member))
          if update_row == 1
              then (finish (
                  returned (
                    create_json_response env.serialize Status.ok req.version req.keep_alive (
                      api_response_json StatusCode.success
                        (lit "Invitee successfully added to the group") null))))
              else (finish (returned (bad_request env.serialize req (lit " Invite failed")))))
        else (finish (
            returned
              (error_resp env.serialize req StatusCode.bad_request (lit " Illegal request"))))

  unfoldable pub invite_member : Request → ℕ → M Response
  unfolding invite_to
  invite_member req room_id =
      if is_post req.method
      then (do
        jv ← from_option (env.parse req.body)
        invt_req ← from_option (g_room_invt_req jv)
        with_conn env.mysql (do
          user_claims ← claims_of_token env (authorization_text req)
          rows ← execute_query env.mysql (select_room_type room_id)
          invite_to req room_id invt_req rows))
      else finish (returned (bad_request env.serialize req (lit " Method Not Allowed")))

  -- A room with no verb behind it and a method that is not `DELETE` reaches the end of the function.
  unfoldable pub room_operation : Request → ℕ → Text → M Response
  unfolding delete_room invite_member
  room_operation req room_id room_verb =
      if is_empty room_verb
      then (if is_delete req.method then delete_room req room_id else finish undefined)
      else if text_eq room_verb (lit "member")
      then invite_member req room_id
      else finish (returned (bad_request env.serialize req (lit " target not found")))

  unfoldable pub handle_chat_room : Request → M Response
  unfolding extract_target_param room_operation
  handle_chat_room req =
      try_catch
        (do
          room_id ← from_option (stoull (extract_target_param req.target 2))
          room_operation req room_id (extract_target_param req.target 3))
        (finish (returned (bad_request env.serialize req (lit " Server Error"))))
