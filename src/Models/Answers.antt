-- ===== src/Models/Answers.antt =====
-- The `value_from` conversions of src/model/user.hpp, room.hpp, auth_models.hpp, chat_models.hpp and
-- ws_models.hpp, and the enumerations of src/utils/enums.hpp.
use tinychat_server.Base.{ℕ, suc, ◌++◌}
use tinychat_server.Base.Int.{ℤ, pos, negsuc}
use tinychat_server.Text.{Text, lit}
use tinychat_server.Text.Decimal.{to_string}
use tinychat_server.Json.{Json, number, other_number, text, object, end, entry}

pub data StatusCode : Type 0 where
  success forbidden bad_request not_found internal_server_error : StatusCode
  login_failed reg_failed user_not_found incorrect_pwd create_room_failed : StatusCode

-- The values of the enumeration.
unfoldable pub status_code : StatusCode → ℕ
status_code success = 0
status_code forbidden = 403
status_code bad_request = 400
status_code not_found = 404
status_code internal_server_error = 500
status_code login_failed = 1001
status_code reg_failed = 1002
status_code user_not_found = 1003
status_code incorrect_pwd = 1004
status_code create_room_failed = 2001

pub data RoomType : Type 0 where
  group private : RoomType

abbrev pub room_type : RoomType → ℕ
room_type group = 1
room_type private = 2

pub data GroupRole : Type 0 where
  owner admin member private_member : GroupRole

abbrev pub group_role : GroupRole → ℕ
group_role owner = 3
group_role admin = 2
group_role member = 1
group_role private_member = 0

pub data ServerRespType : Type 0 where
  msg_sent_info p_msg_to_send g_msg_to_send permission_denied : ServerRespType

unfoldable pub server_resp_type : ServerRespType → ℕ
server_resp_type msg_sent_info = 1
server_resp_type p_msg_to_send = 2
server_resp_type g_msg_to_send = 3
server_resp_type permission_denied = 4

pub record User : Type 0 where
  pub id : ℕ
  pub username : Text
  pub nickname : Text
  pub email : Text
  pub avatar_url : Text
  pub created_at : Text

unfoldable pub user_json : User → Json
user_json u = object (
    entry (lit "id") (text (to_string u.id)) (
      entry (lit "username") (text u.username) (
        entry (lit "nickname") (text u.nickname) (
          entry (lit "email") (text u.email) (
            entry (lit "avatar_url") (text u.avatar_url)
              (entry (lit "created_at") (text u.created_at) end))))))

pub record LoginResp : Type 0 where
  pub token : Text
  pub user : User

unfoldable pub login_resp_json : LoginResp → Json
unfolding user_json
login_resp_json r =
    object (entry (lit "token") (text r.token) (entry (lit "user") (user_json r.user) end))

-- `i8` and `i32` as JSON numbers.
unfoldable pub int_json : ℤ → Json
int_json (pos n) = number n
int_json (negsuc n) = other_number (lit "-" ++ to_string (suc n))

pub record Room : Type 0 where
  pub id : ℕ
  pub type : ℤ
  pub name : Text
  pub description : Text
  pub avatar_url : Text
  pub last_message_id : ℕ
  pub member_count : ℤ
  pub created_at : Text

unfoldable pub room_json : Room → Json
unfolding int_json
room_json r = object (
    entry (lit "id") (text (to_string r.id)) (
      entry (lit "type") (int_json r.type) (
        entry (lit "name") (text r.name) (
          entry (lit "description") (text r.description) (
            entry (lit "avatar_url") (text r.avatar_url) (
              entry (lit "last_message_id") (text (to_string r.last_message_id)) (
                entry (lit "member_count") (int_json r.member_count)
                  (entry (lit "created_at") (text r.created_at) end))))))))

-- `CreateGRoomResp` and `CreatePRoomResp`, which are written alike.
unfoldable pub create_g_room_resp_json : ℕ → Json
create_g_room_resp_json room_id = object (entry (lit "room_id") (text (to_string room_id)) end)

unfoldable pub create_p_room_resp_json : ℕ → Json
create_p_room_resp_json room_id = object (entry (lit "room_id") (text (to_string room_id)) end)

-- `ApiResponse<T>`, with its data as JSON.
unfoldable pub api_response_json : StatusCode → Text → Json → Json
unfolding status_code
api_response_json code message payload = object (
    entry (lit "code") (number (status_code code))
      (entry (lit "message") (text message) (entry (lit "data") payload end)))

-- `ServerRespMsg<T>`, with its data as JSON.
unfoldable pub server_resp_msg_json : ServerRespType → Json → Json
unfolding server_resp_type
server_resp_msg_json type payload =
    object (entry (lit "type") (number (server_resp_type type)) (entry (lit "data") payload end))

pub record PrivateMsgToSend : Type 0 where
  pub private_room_id : ℕ
  pub content : Text

unfoldable pub private_msg_to_send_json : PrivateMsgToSend → Json
private_msg_to_send_json m = object (
    entry (lit "private_room_id") (text (to_string m.private_room_id))
      (entry (lit "content") (text m.content) end))

pub record GroupMsgToSend : Type 0 where
  pub room_id : ℕ
  pub sender_id : ℕ
  pub content : Text

unfoldable pub group_msg_to_send_json : GroupMsgToSend → Json
group_msg_to_send_json m = object (
    entry (lit "room_id") (text (to_string m.room_id)) (
      entry (lit "sender_id") (text (to_string m.sender_id))
        (entry (lit "content") (text m.content) end)))
