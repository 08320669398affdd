-- ===== src/RequestHandler/Permits.antt =====
-- What a request may change in the database (src/core/request_handler.hpp).
pub mod Handlers
pub mod Dispatch
use tinychat_server.Base.{
  ℕ, ◌≡◌, ap, ◌∙◌, refl, Bool, true, false, Option, none, some, List, [], ◌∷◌, ◌==◌, if◌then◌else◌,
  not, arith, All,
}
use tinychat_server.Base.Int.{ℤ, pos, int_is, eq_of_int_is}
use tinychat_server.Text.{Text, lit, is_empty, text_eq}
use tinychat_server.Text.Decimal.{stoull}
use tinychat_server.Json.{Json}
use tinychat_server.Claims.{UserClaims, extract_user_claims}
use tinychat_server.Models.Requests.{
  RegisterRequest, GRoomInvtReq, LoginRequest, register_request, g_room_invt_req, create_g_room_req,
  create_p_room_req,
}
use tinychat_server.Database.{M, Row, role, type, finish, returned}
use tinychat_server.Database.Env.{Env}
use tinychat_server.Database.Only.{Only, Only-finish}
use tinychat_server.Database.Updates.{OnUpdates, bind_option, if_known, update_rules}
use tinychat_server.Database.Statements.{
  Statement, insert_user, insert_private_room, insert_group_room, insert_member, insert_two_members,
  delete_members, select_room_type, select_role, invite_member as invite_row,
  delete_room as delete_row,
}
use tinychat_server.Http.{Request, authorization_text}
use tinychat_server.RequestHandler.Access.{IsOwner}
use tinychat_server.RequestHandler.Assets.{
  ReqContext, Files, handle_assets, asset_response, opened_response, OpenResult, opened,
  no_such_file, failed,
}
use tinychat_server.RequestHandler.Credentials.{Auth, hash_password}
use tinychat_server.RequestHandler.Dispatch.{handle_request, route, context_claims, context_body}
use tinychat_server.RequestHandler.Members.{
  try_delete_room, delete_by_role, delete_rows, deletion_failed, delete_room, invite_to,
  invite_member, room_operation, handle_chat_room,
}
use tinychat_server.RequestHandler.Rooms.{
  try_create_g_room, try_create_p_room, creation_failed, create_g_room, create_p_room,
}
use tinychat_server.RequestHandler.Users.{
  handle_login, login_parsed, login_with, answer, user_of_row, handle_register, register_parsed,
  registered, query_rooms, query_rooms_of,
}

module _ (env : Env) (auth : Auth) (req : Request) where
  -- The token of the request has claims.
  abbrev pub HasCaller : Type 0
  HasCaller =
      (claims : UserClaims) × (extract_user_claims env.decode (authorization_text req)
        ≡ some claims)

  -- The token of the request has claims, with this id.
  abbrev pub IsCaller : ℕ → Type 0
  IsCaller user =
      (claims : UserClaims) × (extract_user_claims env.decode (authorization_text req)
        ≡ some claims)
      × (claims.id ≡ user)

  -- MySQL reports the room as a group.
  abbrev pub IsGroup : ℕ → Type 0
  IsGroup room =
      (row : Row) × (rest : List Row) × (env.mysql.rows (select_room_type room) ≡ some (row ∷ rest))
      × (row.get_int type ≡ some (pos 1))

  -- The body asks for the registration of this user, with a password of that hash.
  abbrev pub IsApplicant : Text → Text → Text → Text → Type 0
  IsApplicant username hashed mail nick =
      (jv : Json) × (asked : RegisterRequest) × (env.parse req.body ≡ some jv)
      × (register_request jv ≡ some asked)
      × (asked.username ≡ username)
      × (hash_password auth.pwhash_str asked.password ≡ some hashed)
      × (asked.email ≡ mail)
      × (asked.nickname ≡ nick)

  -- A user is inserted as the body asks; rooms are made in the caller's name; members and rooms are
  -- deleted by an owner; and a caller with a token adds members to groups only, with no rank.
  abbrev pub Permitted : Statement → Type 0
  Permitted (insert_user i username hashed mail nick) = IsApplicant username hashed mail nick
  Permitted (insert_group_room i name t user) = IsCaller user × (t ≡ 1)
  Permitted (insert_member room user r) = IsCaller user × (r ≡ 3)
  Permitted (insert_private_room i t) = HasCaller × (t ≡ 2)
  Permitted (insert_two_members room user r room' user' r') =
      IsCaller user × (room ≡ room') × (r ≡ 0) × (r' ≡ 0)
  Permitted (invite_row room user r) = HasCaller × IsGroup room × (r ≡ 1)
  Permitted (delete_members room) = IsOwner env req room
  Permitted (delete_row room) = IsOwner env req room
  Permitted _ = ⊥

  -- Every update of the block is permitted.
  abbrev pub Permits : {A : Type 0} → M A → Type 0
  Permits m = Only (OnUpdates Permitted) m
