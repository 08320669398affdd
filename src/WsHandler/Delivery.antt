-- ===== src/WsHandler/Delivery.antt =====
-- What `handle_message` stores and to whom it sends (src/core/ws_handler.cpp).
use tinychat_server.Base.{
  ℕ, ◌≡◌, ap, inl, inr, true, false, none, some, List, [], ◌∷◌, arith, Option-cases, Bool-cases,
}
use tinychat_server.Text.{Text, lit, text_eq, c_str}
use tinychat_server.Json.{Json, Entries, as_object, at, as_string}
use tinychat_server.Claims.{UserClaims}
use tinychat_server.Models.Requests.{
  ClientPrivateMsg, ClientGroupMsg, client_private_msg, client_group_msg,
}
use tinychat_server.Database.{
  Outcome, Row, returned, throws, next_id, write_to_room, begin_transaction, commit_all,
  execute_update, execute_query,
}
use tinychat_server.Database.Durable.{durable, in_force-destroy}
use tinychat_server.Database.Env.{Env, draw_id}
use tinychat_server.Database.Statements.{
  Statement, select_membership, insert_message, update_last_message,
}
use tinychat_server.WsHandler.{dispatch, try_message, handle_message, group_text}
use tinychat_server.WsHandler.Spec.{
  map_asked, private_to, group_to, asked_as, asked_in, messages, messages-destroy, wrapped, rows_of,
  private_calls, Handled,
}
use tinychat_server.WsHandler.Stored.{idle-Handled, private_message-Handled, group_message-Handled}

module _ (env : Env) (room_written : ℕ → Outcome (Unit {0})) (user_claims : UserClaims)
    (valid : (st : Statement) → env.mysql.is_valid st ≡ true)
    (rolls : env.mysql.rolls_back ≡ true) where
  dispatch-Handled :
      (type : Text) (obj : Entries)
      → Handled env room_written user_claims
          (asked_as type obj)
          (wrapped env room_written user_claims (dispatch env room_written user_claims type obj)).1
  unfolding dispatch
  dispatch-Handled type obj = elim (Bool-cases (text_eq type (lit "private_message"))) [
    | inl k ↦ rw k (elim (Option-cases (at (lit "data") obj)) [
      | inl e ↦ rw e (idle-Handled env room_written user_claims valid rolls none throws)
      | inr (payload, e) ↦ rw e (
          private_message-Handled env room_written user_claims valid rolls
            (map_asked private_to (client_private_msg payload)) payload
            (λ m c. ap (map_asked private_to) c))
    ])
    | inr k ↦ rw k (elim (Bool-cases (text_eq type (lit "group_message"))) [
      | inr n ↦ rw n (idle-Handled env room_written user_claims valid rolls none (returned tt))
      | inl g ↦ rw g (elim (Option-cases (at (lit "data") obj)) [
        | inl e ↦ rw e (idle-Handled env room_written user_claims valid rolls none throws)
        | inr (payload, e) ↦ rw e (
            group_message-Handled env room_written user_claims valid rolls
              (map_asked group_to (client_group_msg payload)) payload
              (λ m c. ap (map_asked group_to) c))
      ])
    ])
  ]

  try_message-Handled :
      (msg : Text)
      → Handled env room_written user_claims
          (asked_in env msg)
          (wrapped env room_written user_claims (try_message env room_written user_claims msg)).1
  unfolding try_message
  try_message-Handled msg = elim (Option-cases (env.parse msg)) [
    | inl e ↦ rw e (idle-Handled env room_written user_claims valid rolls none throws)
    | inr (jv, e) ↦ rw e (elim (Option-cases (as_object jv)) [
      | inl o ↦ rw o (idle-Handled env room_written user_claims valid rolls none throws)
      | inr (obj, o) ↦ rw o (elim (Option-cases (at (lit "type") obj)) [
        | inl t ↦ rw t (idle-Handled env room_written user_claims valid rolls none throws)
        | inr (field, t) ↦ rw t (elim (Option-cases (as_string field)) [
          | inl f ↦ rw f (idle-Handled env room_written user_claims valid rolls none throws)
          | inr (type, f) ↦ rw f (dispatch-Handled (c_str type) obj)
        ])
      ])
    ])
  ]

  -- Whatever a client sends, and whatever the database answers while the connection stays valid and a
  -- rollback works: either nothing is committed, stored or sent, but for at most one refusal to the
  -- sender; or the text, read as an object, its type and its data, is a private message or a message
  -- to a group, the sender was found to be a member of the room it names, its content and the room's
  -- last message are in force exactly if they were committed, and otherwise nothing is stored or sent.
  -- If committed, a private message goes on to the user it names, with a receipt to the sender, and a
  -- message to a group by one call of `write_to_room`, unless that call throws or waits for ever.
  pub handle_message-Handled :
      (msg : Text)
      → Handled env room_written user_claims
          (asked_in env msg)
          (handle_message env room_written user_claims msg).1
  unfolding handle_message
  handle_message-Handled msg = try_message-Handled msg

-- A well-formed private message of a member reaches the other user: if the database answers every
-- call as it should, the handler returns with the message committed, in force and sent on.
pub private_message_delivered :
    (env : Env) (room_written : ℕ → Outcome (Unit {0})) (user_claims : UserClaims) (msg type : Text)
    (jv field payload : Json) (obj : Entries) (m : ClientPrivateMsg) (row : Row) (rest : List Row)
    (i : ℕ)
    → env.parse msg ≡ some jv
    → as_object jv ≡ some obj
    → at (lit "type") obj ≡ some field
    → as_string field ≡ some type
    → text_eq (c_str type) (lit "private_message") ≡ true
    → at (lit "data") obj ≡ some payload
    → client_private_msg payload ≡ some m
    → env.mysql.connects ≡ returned tt
    → env.mysql.begins ≡ true
    → ((st : Statement) → env.mysql.is_valid st ≡ true)
    → env.mysql.rows (select_membership m.room_id user_claims.id) ≡ some (row ∷ rest)
    → draw_id env ≡ (returned i, next_id ∷ [])
    → env.mysql.updated (insert_message i m.room_id user_claims.id m.content) ≡ some 1
    → env.mysql.updated (update_last_message i m.room_id) ≡ some 1
    → env.mysql.commits ≡ true
    → (let run = handle_message env room_written user_claims msg in
        (run.0 ≡ returned tt)
        × (durable run.1 ≡ rows_of env room_written user_claims i m.room_id m.content)
        × (messages run.1 ≡ private_calls env room_written user_claims m))
unfolding handle_message begin_transaction commit_all execute_update execute_query
private_message_delivered env room_written user_claims msg type jv field payload obj m row rest i p
      o t f k a c connects begins valid q d one two commits =
    let asked = valid (select_membership m.room_id user_claims.id) in
    let stored = valid (insert_message i m.room_id user_claims.id m.content) in
    let moved = valid (update_last_message i m.room_id) in
    (
      ground (arith, asked, stored, moved),
      ground (arith, asked, stored, moved, in_force-destroy env.mysql false []),
      ground (arith, asked, stored, moved, messages-destroy env.mysql),
    )

-- And a well-formed message of a member for a room is sent on to the room, if `write_to_room`
-- returns.
pub group_message_delivered :
    (env : Env) (room_written : ℕ → Outcome (Unit {0})) (user_claims : UserClaims) (msg type : Text)
    (jv field payload : Json) (obj : Entries) (m : ClientGroupMsg) (row : Row) (rest : List Row)
    (i : ℕ)
    → env.parse msg ≡ some jv
    → as_object jv ≡ some obj
    → at (lit "type") obj ≡ some field
    → as_string field ≡ some type
    → text_eq (c_str type) (lit "private_message") ≡ false
    → text_eq (c_str type) (lit "group_message") ≡ true
    → at (lit "data") obj ≡ some payload
    → client_group_msg payload ≡ some m
    → env.mysql.connects ≡ returned tt
    → env.mysql.begins ≡ true
    → ((st : Statement) → env.mysql.is_valid st ≡ true)
    → env.mysql.rows (select_membership m.room_id user_claims.id) ≡ some (row ∷ rest)
    → draw_id env ≡ (returned i, next_id ∷ [])
    → env.mysql.updated (insert_message i m.room_id user_claims.id m.content) ≡ some 1
    → env.mysql.updated (update_last_message i m.room_id) ≡ some 1
    → env.mysql.commits ≡ true
    → room_written m.room_id ≡ returned tt
    → (let run = handle_message env room_written user_claims msg in
        (run.0 ≡ returned tt)
        × (durable run.1 ≡ rows_of env room_written user_claims i m.room_id m.content)
        × (messages run.1
            ≡ write_to_room m.room_id (group_text env room_written user_claims m) ∷ []))
unfolding handle_message begin_transaction commit_all execute_update execute_query
group_message_delivered env room_written user_claims msg type jv field payload obj m row rest i p o
      t f k g a c connects begins valid q d one two commits written =
    let asked = valid (select_membership m.room_id user_claims.id) in
    let stored = valid (insert_message i m.room_id user_claims.id m.content) in
    let moved = valid (update_last_message i m.room_id) in
    (
      ground (arith, asked, stored, moved),
      ground (arith, asked, stored, moved, in_force-destroy env.mysql false []),
      ground (arith, asked, stored, moved, messages-destroy env.mysql),
    )
