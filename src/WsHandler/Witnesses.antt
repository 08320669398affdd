-- ===== src/WsHandler/Witnesses.antt =====
-- The theorems on messages of clients at a concrete input.
use tinychat_server.Base.{ℕ, ◌≡◌, ◌↔◌, ◌⊎◌, refl, true, false, none, some, [], ◌∷◌}
use tinychat_server.Text.{codes, lit, text_eq, c_str}
use tinychat_server.Text.Decimal.{stoull}
use tinychat_server.Json.{Entries, text, object, entry, end, as_object, at, as_string}
use tinychat_server.Claims.{UserClaims}
use tinychat_server.Models.Requests.{ClientPrivateMsg, client_private_msg, u64_at}
use tinychat_server.Database.{Mysql, Row, Outcome, returned, throws}
use tinychat_server.Database.Env.{Env}
use tinychat_server.WsHandler.{handle_message, try_message}
use tinychat_server.WsHandler.Escapes.{handle_message_throws}
use tinychat_server.WsHandler.Spec.{private_to, Handled}
use tinychat_server.WsHandler.Delivery.{handle_message-Handled}

abbrev pub row : Row
row = record { get_int = λ c. none; get_uint64 = λ c. none; get_string = λ c. none }

abbrev pub mysql : Mysql
mysql = record {
  connects = returned tt;
  begins = true;
  is_valid = λ st. true;
  reconnects = λ st. returned tt;
  updated = λ st. some 1;
  rows = λ st. some (row ∷ []);
  commits = true;
  rolls_back = true;
  is_valid_at_end = true;
  auto_commit_at_end = false;
  resets_at_end = true;
}

abbrev pub payload_entries : Entries
payload_entries = entry (codes "room_id") (text (codes "5")) (
    entry (codes "other_user_id") (text (codes "8"))
      (entry (codes "content") (text (codes "hi")) end))

abbrev pub message_entries : Entries
message_entries =
    entry (codes "type") (text (codes "private_message"))
      (entry (codes "data") (object payload_entries) end)

abbrev pub env : Env
env = record {
  parse = λ s. some (object message_entries);
  serialize = λ jv. [];
  decode = λ token. none;
  mysql = mysql;
  snowflake = record { service_id = 1; sequence_id = 0; last_timestamp = 5; custom_epoch = 1 };
  clock = 9 ∷ [];
}

abbrev pub nobody_waits : ℕ → Outcome (Unit {0})
nobody_waits room = returned tt

abbrev pub ann : UserClaims
ann = record { id = 7; username = codes "ann" }

abbrev pub greeting : ClientPrivateMsg
greeting = record { room_id = 5; other_user_id = 8; content = codes "hi" }

handle_message-Handled_example :
    Handled env nobody_waits ann
      (some (private_to greeting))
      (handle_message env nobody_waits ann (codes "{}")).1
unfolding as_object at text_eq lit as_string c_str client_private_msg u64_at stoull
handle_message-Handled_example =
    handle_message-Handled env nobody_waits ann (λ st. refl) refl (codes "{}")

-- The pool has no connection and cannot make one.
abbrev down : Env
down = record env { mysql = record mysql { connects = throws } }

handle_message_throws_example : ((handle_message down nobody_waits ann (codes "{}")).0 ≡ throws) ↔ (
    (down.mysql.connects ≡ throws)
    ⊎ ((down.mysql.connects ≡ returned tt)
        × ((down.mysql.begins ≡ false)
            ⊎ (((try_message down nobody_waits ann (codes "{}")).0 ≡ throws)
                × (down.mysql.rolls_back ≡ false)))))
handle_message_throws_example = handle_message_throws down nobody_waits ann (codes "{}")
