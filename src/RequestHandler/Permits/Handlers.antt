-- ===== src/RequestHandler/Permits/Handlers.antt =====
-- The updates of the handlers of rooms (src/core/request_handler.hpp).
use tinychat_server.Base.{ℕ, ◌≡◌, ap, ◌∙◌, some, List, [], ◌∷◌}
use tinychat_server.Base.Int.{int_is, eq_of_int_is}
use tinychat_server.Text.{Text}
use tinychat_server.Claims.{UserClaims, extract_user_claims}
use tinychat_server.Models.Requests.{GRoomInvtReq}
use tinychat_server.Database.{Row, role, type, returned}
use tinychat_server.Database.Env.{Env}
use tinychat_server.Database.Only.{Only-finish}
use tinychat_server.Database.Updates.{bind_option, if_known, update_rules}
use tinychat_server.Database.Statements.{select_room_type, select_role}
use tinychat_server.Http.{Request, authorization_text}
use tinychat_server.RequestHandler.Access.{IsOwner}
use tinychat_server.RequestHandler.Credentials.{Auth}
use tinychat_server.RequestHandler.Members.{
  try_delete_room, delete_by_role, delete_rows, deletion_failed, delete_room, invite_to,
  invite_member, room_operation, handle_chat_room,
}
use tinychat_server.RequestHandler.Rooms.{
  try_create_g_room, try_create_p_room, creation_failed, create_g_room, create_p_room,
}
use tinychat_server.RequestHandler.Permits.{Permits, HasCaller, IsGroup}

module _ (env : Env) (auth : Auth) (req : Request) where
  try_create_g_room-Permits : Permits env auth req (try_create_g_room env req)
  unfolding try_create_g_room
  try_create_g_room-Permits = search update_rules depth 30

  try_create_p_room-Permits : Permits env auth req (try_create_p_room env req)
  unfolding try_create_p_room
  try_create_p_room-Permits = search update_rules depth 30

  creation_failed-Permits : Permits env auth req (creation_failed env req)
  unfolding creation_failed
  creation_failed-Permits = search update_rules depth 30

  pub create_g_room-Permits : Permits env auth req (create_g_room env req)
  unfolding create_g_room
  create_g_room-Permits =
      search (update_rules, try_create_g_room-Permits, creation_failed-Permits) depth 30

  pub create_p_room-Permits : Permits env auth req (create_p_room env req)
  unfolding create_p_room
  create_p_room-Permits =
      search (update_rules, try_create_p_room-Permits, creation_failed-Permits) depth 30

  delete_rows-Permits :
      (room_id : ℕ) → IsOwner env req room_id → Permits env auth req (delete_rows env req room_id)
  unfolding delete_rows
  delete_rows-Permits room_id owned = search (update_rules, owned) depth 30

  delete_by_role-Permits :
      (room_id : ℕ) (claims : UserClaims) (rows : List Row)
      → extract_user_claims env.decode (authorization_text req) ≡ some claims
      → env.mysql.rows (select_role room_id claims.id) ≡ some rows
      → Permits env auth req (delete_by_role env req room_id rows)
  unfolding delete_by_role
  delete_by_role-Permits room_id claims [] c q = search update_rules depth 30
  delete_by_role-Permits room_id claims (row ∷ rest) c q = bind_option (row.get_int role) _ λ r e.
      if_known (int_is r 3) _ _
        (λ k.
          delete_rows-Permits room_id (claims, row, rest, c, q, e ∙ ap some (eq_of_int_is r 3 k)))
        (λ k. Only-finish (returned _))

  try_delete_room-Permits : (room_id : ℕ) → Permits env auth req (try_delete_room env req room_id)
  unfolding try_delete_room
  try_delete_room-Permits room_id = search (update_rules, delete_by_role-Permits) depth 30

  deletion_failed-Permits : Permits env auth req (deletion_failed env req)
  unfolding deletion_failed
  deletion_failed-Permits = search update_rules depth 30

  delete_room-Permits : (room_id : ℕ) → Permits env auth req (delete_room env req room_id)
  unfolding delete_room
  delete_room-Permits room_id =
      search (update_rules, try_delete_room-Permits, deletion_failed-Permits) depth 30

  invite_to-Permits :
      (room_id : ℕ) (invt_req : GRoomInvtReq) (rows : List Row)
      → HasCaller env auth req
      → env.mysql.rows (select_room_type room_id) ≡ some rows
      → Permits env auth req (invite_to env req room_id invt_req rows)
  unfolding invite_to
  invite_to-Permits room_id invt_req [] called q = search update_rules depth 30
  invite_to-Permits room_id invt_req (row ∷ rest) called q = bind_option (row.get_int type) _ λ t e.
      if_known (int_is t 1) _ _
        (λ k.
          let grouped : IsGroup env auth req room_id =
            (row, rest, q, e ∙ ap some (eq_of_int_is t 1 k)) in
          search (update_rules, grouped) depth 30)
        (λ k. Only-finish (returned _))

  invite_member-Permits : (room_id : ℕ) → Permits env auth req (invite_member env req room_id)
  unfolding invite_member
  invite_member-Permits room_id = search (update_rules, invite_to-Permits) depth 30

  room_operation-Permits :
      (room_id : ℕ) (room_verb : Text)
      → Permits env auth req (room_operation env req room_id room_verb)
  unfolding room_operation
  room_operation-Permits room_id room_verb =
      search (update_rules, delete_room-Permits, invite_member-Permits) depth 30

  pub handle_chat_room-Permits : Permits env auth req (handle_chat_room env req)
  unfolding handle_chat_room
  handle_chat_room-Permits = search (update_rules, room_operation-Permits) depth 30
