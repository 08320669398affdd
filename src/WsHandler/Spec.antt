-- ===== src/WsHandler/Spec.antt =====
-- What a message of a client may do: the calls of `handle_message` (src/core/ws_handler.cpp), told
-- by what they commit, store and send.
use tinychat_server.Base.{
  ℕ, ◌≡◌, ◌⊎◌, Bool, true, false, some, Option, none, List, [], ◌∷◌, arith, if◌then◌else◌,
}
use tinychat_server.Base.Maybe.{◌>>=◌}
use tinychat_server.Text.{Text, lit, text_eq, c_str}
use tinychat_server.Json.{Entries, as_object, at, as_string}
use tinychat_server.Claims.{UserClaims}
use tinychat_server.Models.Requests.{
  ClientPrivateMsg, ClientGroupMsg, client_private_msg, client_group_msg,
}
use tinychat_server.Database.{
  Call, commit, write_to, write_to_room, M, Row, Outcome, returned, throws, waits, undefined,
  try_catch, with_conn, ◌>>◌, begin_transaction, roll_back, Mysql, destroy,
}
use tinychat_server.Database.Durable.{durable}
use tinychat_server.Database.Env.{Env}
use tinychat_server.Database.Statements.{
  Statement, select_membership, insert_message, update_last_message,
}
use tinychat_server.WsHandler.{denied_text, sent_text, private_text, group_text}

abbrev pub committed : List Call → Bool
committed [] = false
committed (commit ∷ calls) = true
committed (_ ∷ calls) = committed calls

-- The calls that send to sessions.
abbrev pub messages : List Call → List Call
messages [] = []
messages (write_to user msg ∷ calls) = write_to user msg ∷ messages calls
messages (write_to_room room msg ∷ calls) = write_to_room room msg ∷ messages calls
messages (_ ∷ calls) = messages calls

pub committed-destroy : (s : Mysql) → committed (destroy s) ≡ false
unfolding destroy
committed-destroy s = ground arith

pub messages-destroy : (s : Mysql) → messages (destroy s) ≡ []
unfolding destroy
messages-destroy s = ground arith

-- What a client asks for: a private message or a message to a group.
pub data Asked : Type 0 where
  private_to : ClientPrivateMsg → Asked
  group_to : ClientGroupMsg → Asked

abbrev pub room_of : Asked → ℕ
room_of (private_to m) = m.room_id
room_of (group_to m) = m.room_id

abbrev pub content_of : Asked → Text
content_of (private_to m) = m.content
content_of (group_to m) = m.content

abbrev pub map_asked : {A : Type 0} → (A → Asked) → Option A → Option Asked
map_asked f none = none
map_asked f (some m) = some (f m)

-- What the text of a client asks for, read apart from the handler: an object with a string for its
-- type, the type one of the two, and the data of that type.
abbrev pub asked_as : Text → Entries → Option Asked
asked_as type obj =
    if text_eq type (lit "private_message")
    then map_asked private_to (at (lit "data") obj >>= client_private_msg)
    else if text_eq type (lit "group_message")
    then map_asked group_to (at (lit "data") obj >>= client_group_msg)
    else none

abbrev pub asked_in : Env → Text → Option Asked
asked_in env msg =
    env.parse msg
    >>= as_object
    >>= (λ obj. at (lit "type") obj >>= as_string >>= (λ type. asked_as (c_str type) obj))

-- How a room's message is sent on: by one call, if that returns.
abbrev pub room_calls : Outcome (Unit {0}) → ℕ → Text → List Call
room_calls (returned a) room msg = write_to_room room msg ∷ []
room_calls throws room msg = []
room_calls waits room msg = []
room_calls undefined room msg = []

module _ (env : Env) (room_written : ℕ → Outcome (Unit {0})) (user_claims : UserClaims) where
  abbrev pub wrapped : M (Unit {0}) → M (Unit {0})
  wrapped m =
      with_conn env.mysql (do begin_transaction env.mysql; try_catch m (roll_back env.mysql))

  abbrev pub rows_of : ℕ → ℕ → Text → List Statement
  rows_of i room content =
      insert_message i room user_claims.id content ∷ update_last_message i room ∷ []

  abbrev pub private_calls : ClientPrivateMsg → List Call
  private_calls m =
      write_to m.other_user_id (private_text env room_written user_claims m)
      ∷ write_to user_claims.id (sent_text env room_written user_claims)
      ∷ []

  abbrev pub group_calls : ClientGroupMsg → List Call
  group_calls m =
      room_calls (room_written m.room_id) m.room_id (group_text env room_written user_claims m)

  -- What a message asks to be sent on goes to the other user, with a receipt to the sender, or to the
  -- room.
  abbrev pub calls_of : Asked → List Call
  calls_of (private_to m) = private_calls m
  calls_of (group_to m) = group_calls m

  -- The calls of a message, by what it asks for. Either nothing is committed, stored or sent, but for
  -- one refusal to the sender; or the message asks for something, the sender is a member of the room
  -- it names, and its content is stored, with the room's last message, exactly if the transaction is
  -- committed, and sent on exactly then.
  pub data Handled (asked : Option Asked) (calls : List Call) : Type 0 where
    quiet :
        durable calls ≡ []
        → committed calls ≡ false
        → (messages calls ≡ [])
          ⊎ (messages calls
              ≡ write_to user_claims.id (denied_text env room_written user_claims) ∷ [])
        → Handled asked calls
    by_member :
        (a : Asked) (i : ℕ) (row : Row) (rest : List Row)
        → asked ≡ some a
        → env.mysql.rows (select_membership (room_of a) user_claims.id) ≡ some (row ∷ rest)
        → durable calls ≡ (if committed calls then rows_of i (room_of a) (content_of a) else [])
        → messages calls ≡ (if committed calls then calls_of a else [])
        → Handled asked calls
