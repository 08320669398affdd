-- ===== src/WsHandler/Stored.antt =====
-- The two kinds of messages, from the query for the membership on (src/core/ws_handler.cpp).
use tinychat_server.Base.{
  ℕ, ◌≡◌, ◌⊎◌, inl, inr, refl, true, false, Option, none, some, List, [], ◌∷◌, arith, if◌then◌else◌,
  Option-cases,
}
use tinychat_server.Json.{Json}
use tinychat_server.Claims.{UserClaims}
use tinychat_server.Models.Requests.{
  ClientPrivateMsg, ClientGroupMsg, client_private_msg, client_group_msg,
}
use tinychat_server.Database.{
  next_id, Row, Outcome, returned, throws, waits, finish, begin_transaction, commit_all, roll_back,
  execute_update, execute_query,
}
use tinychat_server.Database.Durable.{durable, in_force-destroy}
use tinychat_server.Database.Env.{Env, draw_id, draw_id-cases}
use tinychat_server.Database.Statements.{
  Statement, select_membership, insert_message, update_last_message,
}
use tinychat_server.WsHandler.{private_message, group_message}
use tinychat_server.WsHandler.Spec.{
  committed, messages, committed-destroy, messages-destroy, wrapped, rows_of, private_calls,
  group_calls, Asked, private_to, group_to, Handled, quiet, by_member,
}

module _ (env : Env) (room_written : ℕ → Outcome (Unit {0})) (user_claims : UserClaims)
    (valid : (st : Statement) → env.mysql.is_valid st ≡ true)
    (rolls : env.mysql.rolls_back ≡ true) where
  private_stored :
      (payload : Json) (m : ClientPrivateMsg) (row : Row) (rest : List Row) (i : ℕ)
      → client_private_msg payload ≡ some m
      → env.mysql.rows (select_membership m.room_id user_claims.id) ≡ some (row ∷ rest)
      → draw_id env ≡ (returned i, next_id ∷ [])
      → (let calls =
            (wrapped env room_written user_claims
              (private_message env room_written user_claims payload)).1 in
          (durable calls ≡ (
            if committed calls
            then rows_of env room_written user_claims i m.room_id m.content
            else []))
          × (messages calls
              ≡ (if committed calls then private_calls env room_written user_claims m else [])))
  unfolding private_message begin_transaction commit_all roll_back execute_update execute_query
  private_stored payload m row rest i e q d = ground (
    arith,
    valid (select_membership m.room_id user_claims.id),
    valid (insert_message i m.room_id user_claims.id m.content),
    valid (update_last_message i m.room_id),
    in_force-destroy env.mysql true [],
    in_force-destroy env.mysql false [],
    committed-destroy env.mysql,
    messages-destroy env.mysql,
  )

  group_stored :
      (payload : Json) (m : ClientGroupMsg) (row : Row) (rest : List Row) (i : ℕ)
      → client_group_msg payload ≡ some m
      → env.mysql.rows (select_membership m.room_id user_claims.id) ≡ some (row ∷ rest)
      → draw_id env ≡ (returned i, next_id ∷ [])
      → (let calls =
            (wrapped env room_written user_claims
              (group_message env room_written user_claims payload)).1 in
          (durable calls ≡ (
            if committed calls
            then rows_of env room_written user_claims i m.room_id m.content
            else []))
          × (messages calls
              ≡ (if committed calls then group_calls env room_written user_claims m else [])))
  unfolding group_message begin_transaction commit_all roll_back execute_update execute_query
  group_stored payload m row rest i e q d = ground (
    arith,
    valid (select_membership m.room_id user_claims.id),
    valid (insert_message i m.room_id user_claims.id m.content),
    valid (update_last_message i m.room_id),
    in_force-destroy env.mysql true [],
    in_force-destroy env.mysql false [],
    committed-destroy env.mysql,
    messages-destroy env.mysql,
  )

  -- A block that only throws, waits or does nothing.
  pub idle-Handled :
      (asked : Option Asked) (o : Outcome (Unit {0}))
      → Handled env room_written user_claims asked
          (wrapped env room_written user_claims (finish o)).1
  unfolding begin_transaction roll_back
  idle-Handled asked o =
      let at_end = in_force-destroy env.mysql true [] in
      let in_transaction = in_force-destroy env.mysql false [] in
      quiet (ground (arith, at_end, in_transaction)) (ground (arith, committed-destroy env.mysql))
        (inl (ground (arith, messages-destroy env.mysql)))

  -- The query for the membership throws, or finds nothing.
  private_refused :
      (asked : Option Asked) (payload : Json) (m : ClientPrivateMsg) (found : Option (List Row))
      → client_private_msg payload ≡ some m
      → env.mysql.rows (select_membership m.room_id user_claims.id) ≡ found
      → (found ≡ none) ⊎ (found ≡ some [])
      → Handled env room_written user_claims asked
          (wrapped env room_written user_claims
            (private_message env room_written user_claims payload)).1
  unfolding private_message begin_transaction roll_back execute_query
  private_refused asked payload m found e q h =
      let at_end = in_force-destroy env.mysql true [] in
      let in_transaction = in_force-destroy env.mysql false [] in
      let checked = valid (select_membership m.room_id user_claims.id) in
      quiet (ground (arith, checked, at_end, in_transaction))
        (ground (arith, checked, committed-destroy env.mysql))
        (ground (arith, checked, messages-destroy env.mysql))

  private_undrawn :
      (asked : Option Asked) (payload : Json) (m : ClientPrivateMsg) (row : Row) (rest : List Row)
      → client_private_msg payload ≡ some m
      → env.mysql.rows (select_membership m.room_id user_claims.id) ≡ some (row ∷ rest)
      → (draw_id env ≡ finish throws) ⊎ (draw_id env ≡ finish waits)
      → Handled env room_written user_claims asked
          (wrapped env room_written user_claims
            (private_message env room_written user_claims payload)).1
  unfolding private_message begin_transaction roll_back execute_query
  private_undrawn asked payload m row rest e q d =
      let at_end = in_force-destroy env.mysql true [] in
      let in_transaction = in_force-destroy env.mysql false [] in
      let checked = valid (select_membership m.room_id user_claims.id) in
      quiet (ground (arith, checked, at_end, in_transaction))
        (ground (arith, checked, committed-destroy env.mysql))
        (inl (ground (arith, checked, messages-destroy env.mysql)))

  private_by_rows :
      (asked : Option Asked) (payload : Json) (m : ClientPrivateMsg)
      → client_private_msg payload ≡ some m
      → asked ≡ some (private_to m)
      → (rows : List Row) → env.mysql.rows (select_membership m.room_id user_claims.id) ≡ some rows
      → Handled env room_written user_claims asked
          (wrapped env room_written user_claims
            (private_message env room_written user_claims payload)).1
  private_by_rows asked payload m e a [] q =
      private_refused asked payload m (some []) e q (inr refl)
  private_by_rows asked payload m e a (row ∷ rest) q = elim (draw_id-cases env) [
    | inr d ↦ private_undrawn asked payload m row rest e q d
    | inl (i, d) ↦
        let (stored, sent) = private_stored payload m row rest i e q d in
        by_member (private_to m) i row rest a q stored sent
  ]

  pub private_message-Handled :
      (asked : Option Asked) (payload : Json)
      → ((m : ClientPrivateMsg) → client_private_msg payload ≡ some m → asked ≡ some (private_to m))
      → Handled env room_written user_claims asked
          (wrapped env room_written user_claims
            (private_message env room_written user_claims payload)).1
  private_message-Handled asked payload h = elim (Option-cases (client_private_msg payload)) [
    | inl e ↦ unfold private_message in rw e (idle-Handled asked throws)
    | inr (m, e) ↦
        elim (Option-cases (env.mysql.rows (select_membership m.room_id user_claims.id))) [
          | inl q ↦ private_refused asked payload m none e q (inl refl)
          | inr (rows, q) ↦ private_by_rows asked payload m e (h m e) rows q
        ]
  ]

  -- The query for the membership throws, or finds nothing.
  group_refused :
      (asked : Option Asked) (payload : Json) (m : ClientGroupMsg) (found : Option (List Row))
      → client_group_msg payload ≡ some m
      → env.mysql.rows (select_membership m.room_id user_claims.id) ≡ found
      → (found ≡ none) ⊎ (found ≡ some [])
      → Handled env room_written user_claims asked
          (wrapped env room_written user_claims
            (group_message env room_written user_claims payload)).1
  unfolding group_message begin_transaction roll_back execute_query
  group_refused asked payload m found e q h =
      let at_end = in_force-destroy env.mysql true [] in
      let in_transaction = in_force-destroy env.mysql false [] in
      let checked = valid (select_membership m.room_id user_claims.id) in
      quiet (ground (arith, checked, at_end, in_transaction))
        (ground (arith, checked, committed-destroy env.mysql))
        (ground (arith, checked, messages-destroy env.mysql))

  group_undrawn :
      (asked : Option Asked) (payload : Json) (m : ClientGroupMsg) (row : Row) (rest : List Row)
      → client_group_msg payload ≡ some m
      → env.mysql.rows (select_membership m.room_id user_claims.id) ≡ some (row ∷ rest)
      → (draw_id env ≡ finish throws) ⊎ (draw_id env ≡ finish waits)
      → Handled env room_written user_claims asked
          (wrapped env room_written user_claims
            (group_message env room_written user_claims payload)).1
  unfolding group_message begin_transaction roll_back execute_query
  group_undrawn asked payload m row rest e q d =
      let at_end = in_force-destroy env.mysql true [] in
      let in_transaction = in_force-destroy env.mysql false [] in
      let checked = valid (select_membership m.room_id user_claims.id) in
      quiet (ground (arith, checked, at_end, in_transaction))
        (ground (arith, checked, committed-destroy env.mysql))
        (inl (ground (arith, checked, messages-destroy env.mysql)))

  group_by_rows :
      (asked : Option Asked) (payload : Json) (m : ClientGroupMsg)
      → client_group_msg payload ≡ some m
      → asked ≡ some (group_to m)
      → (rows : List Row) → env.mysql.rows (select_membership m.room_id user_claims.id) ≡ some rows
      → Handled env room_written user_claims asked
          (wrapped env room_written user_claims
            (group_message env room_written user_claims payload)).1
  group_by_rows asked payload m e a [] q = group_refused asked payload m (some []) e q (inr refl)
  group_by_rows asked payload m e a (row ∷ rest) q = elim (draw_id-cases env) [
    | inr d ↦ group_undrawn asked payload m row rest e q d
    | inl (i, d) ↦
        let (stored, sent) = group_stored payload m row rest i e q d in
        by_member (group_to m) i row rest a q stored sent
  ]

  pub group_message-Handled :
      (asked : Option Asked) (payload : Json)
      → ((m : ClientGroupMsg) → client_group_msg payload ≡ some m → asked ≡ some (group_to m))
      → Handled env room_written user_claims asked
          (wrapped env room_written user_claims
            (group_message env room_written user_claims payload)).1
  group_message-Handled asked payload h = elim (Option-cases (client_group_msg payload)) [
    | inl e ↦ unfold group_message in rw e (idle-Handled asked throws)
    | inr (m, e) ↦
        elim (Option-cases (env.mysql.rows (select_membership m.room_id user_claims.id))) [
          | inl q ↦ group_refused asked payload m none e q (inl refl)
          | inr (rows, q) ↦ group_by_rows asked payload m e (h m e) rows q
        ]
  ]
