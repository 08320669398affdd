-- ===== src/Chat/Witnesses.antt =====
-- A private message between two connections, a message for a room, and a connection with two
-- messages, at which the theorems are applied.
use tinychat_server.Base.{
  ℕ, ◌≡◌, ◌≢◌, refl, true, false, Option, none, some, List, [], ◌∷◌, ◌++◌, arith, inl, inr, All,
  length, Bool-cases, if◌then◌else◌,
}
use tinychat_server.Text.{Text, codes, lit, text_eq, c_str, eq_of_text_eq}
use tinychat_server.Claims.{UserClaims, DecodedToken, extract_user_claims}
use tinychat_server.Text.Decimal.{stoull}
use tinychat_server.Json.{Entries, entry, end, text, object, as_object, at, as_string}
use tinychat_server.Models.Requests.{
  ClientGroupMsg, client_private_msg, client_group_msg, string_at, u64_at,
}
use tinychat_server.Database.Env.{Env, draw_id}
use tinychat_server.Snowflake
use tinychat_server.SessionMgr.{find}
use tinychat_server.WsSession.{success, on_accept, on_read}
use tinychat_server.WsSession.World.{
  World, upgraded, performs, accept_done, read_done, Reach, here, next,
}
use tinychat_server.WsSession.Fifo.{IsFifo}
use tinychat_server.WsSession.Writes.{WillWrite}
use tinychat_server.WsSession.Drain.{Steps}
use tinychat_server.WsHandler.{handle_message, private_text, sent_text, group_text}
use tinychat_server.Database.{write_to_room}
use tinychat_server.WsHandler.Spec.{messages, private_calls}
use tinychat_server.WsHandler.Delivery.{private_message_delivered, group_message_delivered}
use tinychat_server.WsHandler.Witnesses.{
  env, nobody_waits, ann, greeting, message_entries, payload_entries,
}
use tinychat_server.Chat.{Chat, perform_calls}
use tinychat_server.Chat.Lost.{is_blank, IsLost, later_messages-IsLost}
use tinychat_server.Chat.Delivery.{private_message_reaches}
use tinychat_server.Chat.Rooms.{group_message_reaches}

greeting_sent :
    messages (handle_message env nobody_waits ann (codes "{}")).1
    ≡ private_calls env nobody_waits ann greeting
greeting_sent =
    (private_message_delivered env nobody_waits ann (codes "{}") (codes "private_message")
      (object message_entries) (text (codes "private_message")) (object payload_entries)
      message_entries greeting _ [] 33558528 refl (unfold as_object in refl)
      (unfold at lit text_eq in refl) (unfold as_string in refl) (unfold c_str lit text_eq in refl)
      (unfold at lit text_eq in refl)
      (unfold client_private_msg u64_at string_at at as_object as_string stoull lit text_eq in refl)
      refl refl (λ st. refl) refl (unfold draw_id Snowflake.next_id in refl) refl refl refl).2

-- A connection on which nothing is outstanding.
abbrev quiet : World
quiet = record {
  session = record { buffer = []; message_queue = []; user_claims = ann };
  accepts = 0;
  reads = 1;
  posted = [];
  writes = [];
  registered = [];
  tasks = [];
  frames = [];
  accepted = [];
  written = [];
  broken = false;
}

-- Ann's connection is 70 and Bob's is 80.
abbrev two : Chat
two = record { sessions = (7, 70) ∷ (8, 80) ∷ []; world = λ j. quiet }

quiet-IsFifo : IsFifo quiet
quiet-IsFifo = record { in_order = refl; writing = inl (refl, refl) }

private_message_reaches_example :
    (let c' =
        perform_calls
          (λ s. true)
          (λ r. [])
          (handle_message env nobody_waits ann (codes "{}")).1
          two in
      let text = private_text env nobody_waits ann greeting in
      let receipt = sent_text env nobody_waits ann in
      (c'.world 80 ≡ record quiet { posted = text ∷ [] })
      × (c'.world 70 ≡ record quiet { posted = receipt ∷ [] })
      × ((j : ℕ) → j ≢ 70 → j ≢ 80 → c'.world j ≡ quiet)
      × WillWrite (text ∷ []) (c'.world 80)
      × WillWrite (receipt ∷ []) (c'.world 70))
unfolding find
private_message_reaches_example =
    private_message_reaches env nobody_waits ann (codes "{}") greeting (λ s. true) (λ r. []) two 70
      80 greeting_sent (refl, (refl, tt)) refl refl (omega arith) quiet-IsFifo quiet-IsFifo refl
      refl

-- A parser that reads the empty object only.
abbrev reader : Env
reader = record env { parse = λ t. if text_eq t (codes "{}") then some (object end) else none }

longer_unread :
    (value more : Text)
    → text_eq value (codes "{}") ≡ true
    → is_blank more ≡ false
    → text_eq (value ++ more) (codes "{}") ≡ false
unfolding text_eq
longer_unread value [] e b = cc
longer_unread value (c ∷ more) e b = rw (eq_of_text_eq value (codes "{}") e) refl

reader_ends :
    (value more : Text) (v : Entries)
    → reader.parse value ≡ some (object v)
    → is_blank more ≡ false
    → reader.parse (value ++ more) ≡ none
reader_ends value more v e b = elim (Bool-cases (text_eq value (codes "{}"))) [
  | inl t ↦ rw (longer_unread value more t b) refl
  | inr f ↦ absurd (ground (arith, e, f))
]

-- Every token is one of Ann.
abbrev decode_ann : Text → Option DecodedToken
decode_ann token =
    some (record { has_username = true; username = some (codes "ann"); subject = some (codes "7") })

abbrev twice : World
twice = record quiet {
  session = record { buffer = codes "{}{}"; message_queue = []; user_claims = ann };
  registered = 7 ∷ [];
  tasks = (codes "{}", ann) ∷ (codes "{}{}", ann) ∷ [];
  frames = codes "{}" ∷ codes "{}" ∷ [];
}

reaches_twice : Reach (λ b f. b ++ f) decode_ann ann (some (codes "token")) twice
unfolding upgraded extract_user_claims stoull performs on_accept on_read
reaches_twice =
    next (next (next here (accept_done 0 success refl)) (read_done 0 (codes "{}") refl))
      (read_done 0 (codes "{}") refl)

later_messages-IsLost_example :
    (later : List (Text × UserClaims)) × (twice.tasks ≡ (codes "{}", ann) ∷ later)
    × (length later ≡ 1)
    × All (IsLost reader nobody_waits) later
later_messages-IsLost_example =
    later_messages-IsLost reader nobody_waits (λ b f. b ++ f) decode_ann ann (some (codes "token"))
      (codes "{}") (codes "{}") [] end reaches_twice (λ b f. refl) reader_ends refl
      (unfold text_eq in refl) refl

-- A message of Ann for room 5, whose members are Ann, Bob and a user who is offline.
abbrev room_payload : Entries
room_payload =
    entry (codes "room_id") (text (codes "5")) (entry (codes "content") (text (codes "hi")) end)

abbrev room_entries : Entries
room_entries =
    entry (codes "type") (text (codes "group_message"))
      (entry (codes "data") (object room_payload) end)

abbrev room_env : Env
room_env = record env { parse = λ s. some (object room_entries) }

abbrev room_greeting : ClientGroupMsg
room_greeting = record { room_id = 5; content = codes "hi" }

room_greeting_sent :
    messages (handle_message room_env nobody_waits ann (codes "{}")).1
    ≡ write_to_room 5 (group_text room_env nobody_waits ann room_greeting) ∷ []
room_greeting_sent =
    (group_message_delivered room_env nobody_waits ann (codes "{}") (codes "group_message")
      (object room_entries) (text (codes "group_message")) (object room_payload) room_entries
      room_greeting _ [] 33558528 refl (unfold as_object in refl) (unfold at lit text_eq in refl)
      (unfold as_string in refl) (unfold c_str lit text_eq in refl)
      (unfold c_str lit text_eq in refl) (unfold at lit text_eq in refl)
      (unfold client_group_msg u64_at string_at at as_object as_string stoull lit text_eq in refl)
      refl refl (λ st. refl) refl (unfold draw_id Snowflake.next_id in refl) refl refl refl refl).2

group_message_reaches_example :
    (let text = group_text room_env nobody_waits ann room_greeting in
      let c' =
        perform_calls
          (λ s. true)
          (λ r. 7 ∷ 8 ∷ 9 ∷ [])
          (handle_message room_env nobody_waits ann (codes "{}")).1
          two in
      (c'.world 80 ≡ record quiet { posted = text ∷ [] })
      × ((w : World) × Steps (λ b f. b ++ f) room_env.decode ann none (c'.world 80) w
          × (w.written ≡ text ∷ [])))
unfolding find
group_message_reaches_example =
    group_message_reaches room_env nobody_waits ann (codes "{}") room_greeting (λ s. true)
      (λ r. 7 ∷ 8 ∷ 9 ∷ []) two 80 (λ b f. b ++ f) room_env.decode ann none room_greeting_sent
      (refl, (refl, tt)) quiet-IsFifo refl
