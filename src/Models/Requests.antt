-- ===== src/Models/Requests.antt =====
-- The `value_to` conversions of src/model/auth_models.cpp, chat_models.hpp and ws_models.hpp.
use tinychat_server.Base.{ℕ, Option, some}
use tinychat_server.Base.Maybe.{◌>>=◌}
use tinychat_server.Text.{Text, lit}
use tinychat_server.Text.Decimal.{stoull}
use tinychat_server.Json.{Json, Entries, as_object, at, as_string}

-- `value_to<std::string>(obj.at(key))`, and `std::stoull` of it.
unfoldable pub string_at : Text → Entries → Option Text
string_at key obj = do jv ← at key obj; as_string jv

unfoldable pub u64_at : Text → Entries → Option ℕ
unfolding string_at
u64_at key obj = do digits ← string_at key obj; stoull digits

pub record LoginRequest : Type 0 where
  pub username : Text
  pub password : Text

unfoldable pub login_request : Json → Option LoginRequest
login_request jv = do
  obj ← as_object jv
  username ← string_at (lit "username") obj
  password ← string_at (lit "password") obj
  some (record { username = username; password = password })

pub record RegisterRequest : Type 0 where
  pub username : Text
  pub password : Text
  pub email : Text
  pub nickname : Text

unfoldable pub register_request : Json → Option RegisterRequest
register_request jv = do
  obj ← as_object jv
  username ← string_at (lit "username") obj
  password ← string_at (lit "password") obj
  email ← string_at (lit "email") obj
  nickname ← string_at (lit "nickname") obj
  some (record { username = username; password = password; email = email; nickname = nickname })

pub record CreateGRoomReq : Type 0 where
  pub name : Text

unfoldable pub create_g_room_req : Json → Option CreateGRoomReq
create_g_room_req jv = do
  obj ← as_object jv
  name ← string_at (lit "name") obj
  some (record { name = name })

pub record CreatePRoomReq : Type 0 where
  pub other_id : ℕ

unfoldable pub create_p_room_req : Json → Option CreatePRoomReq
create_p_room_req jv = do
  obj ← as_object jv
  other_id ← u64_at (lit "other_id") obj
  some (record { other_id = other_id })

pub record GRoomInvtReq : Type 0 where
  pub invitee_id : ℕ

unfoldable pub g_room_invt_req : Json → Option GRoomInvtReq
g_room_invt_req jv = do
  obj ← as_object jv
  invitee_id ← u64_at (lit "invitee_id") obj
  some (record { invitee_id = invitee_id })

pub record ClientPrivateMsg : Type 0 where
  pub room_id : ℕ
  pub other_user_id : ℕ
  pub content : Text

unfoldable pub client_private_msg : Json → Option ClientPrivateMsg
client_private_msg jv = do
  obj ← as_object jv
  room_id ← u64_at (lit "room_id") obj
  other_user_id ← u64_at (lit "other_user_id") obj
  content ← string_at (lit "content") obj
  some (record { room_id = room_id; other_user_id = other_user_id; content = content })

pub record ClientGroupMsg : Type 0 where
  pub room_id : ℕ
  pub content : Text

unfoldable pub client_group_msg : Json → Option ClientGroupMsg
client_group_msg jv = do
  obj ← as_object jv
  room_id ← u64_at (lit "room_id") obj
  content ← string_at (lit "content") obj
  some (record { room_id = room_id; content = content })
