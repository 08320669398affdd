-- ===== src/Models/RoundTrip.antt =====
-- Numbers go through the protocol as texts: what the server writes is read back as it was
-- (src/model/chat_models.hpp and ws_models.hpp).
use tinychat_server.Base.{ℕ, ◌^◌, ◌<◌, ◌≡◌, refl, Option, some}
use tinychat_server.Base.Maybe.{◌>>=◌}
use tinychat_server.Text.{Text, lit, text_eq}
use tinychat_server.Text.Decimal.{stoull-to_string}
use tinychat_server.Json.{Json, as_object, at, as_string}
use tinychat_server.Models.Answers.{
  GroupMsgToSend, PrivateMsgToSend, create_g_room_resp_json, create_p_room_resp_json,
  group_msg_to_send_json, private_msg_to_send_json,
}
use tinychat_server.Models.Requests.{client_group_msg, u64_at}

-- The number that a field of an answer spells.
abbrev pub field_number : Text → Json → Option ℕ
field_number key jv = do obj ← as_object jv; u64_at key obj

-- A room's id is read back from both answers that carry it; a group message that is sent out is read
-- as the client's message it came from, with its sender; and a private one has its room.
pub client_group_msg-group_msg_to_send_json :
    (i : ℕ) (m : GroupMsgToSend) (p : PrivateMsgToSend)
    → i < 2 ^ 64
    → m.room_id < 2 ^ 64
    → m.sender_id < 2 ^ 64
    → p.private_room_id < 2 ^ 64
    → (field_number (lit "room_id") (create_g_room_resp_json i) ≡ some i)
      × (field_number (lit "room_id") (create_p_room_resp_json i) ≡ some i)
      × (client_group_msg (group_msg_to_send_json m)
          ≡ some (record { room_id = m.room_id; content = m.content }))
      × (field_number (lit "sender_id") (group_msg_to_send_json m) ≡ some m.sender_id)
      × (field_number (lit "private_room_id") (private_msg_to_send_json p) ≡ some p.private_room_id)
unfolding client_group_msg group_msg_to_send_json private_msg_to_send_json create_g_room_resp_json
    create_p_room_resp_json u64_at as_object at as_string lit text_eq
client_group_msg-group_msg_to_send_json i m p fits room sender private_room = (
  stoull-to_string i fits,
  stoull-to_string i fits,
  rw (stoull-to_string m.room_id room) refl,
  stoull-to_string m.sender_id sender,
  stoull-to_string p.private_room_id private_room,
)
