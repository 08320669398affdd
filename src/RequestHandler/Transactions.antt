-- ===== src/RequestHandler/Transactions.antt =====
-- What the handlers that create rooms leave in the database (src/core/request_handler.hpp).
use tinychat_server.Base.{
  ℕ, ◌≡◌, Bool, true, false, ◌&&◌, not, Option, none, some, List, [], ◌∷◌, arith, if◌then◌else◌,
  Option-cases, inl, inr, length,
}
use tinychat_server.Base.Maybe.{◌>>=◌}
use tinychat_server.Json.{Json}
use tinychat_server.Claims.{UserClaims, extract_user_claims}
use tinychat_server.Models.Requests.{
  CreatePRoomReq, CreateGRoomReq, create_g_room_req, create_p_room_req,
}
use tinychat_server.Database.{
  M, next_id, Outcome, returned, throws, waits, undefined, begin_transaction, commit_all, roll_back,
  execute_update,
}
use tinychat_server.Database.Durable.{durable, in_force-destroy}
use tinychat_server.Database.Env.{Env, draw_id, draw_id-cases, claims_of_token}
use tinychat_server.Database.Statements.{
  Statement, insert_group_room, insert_member, insert_private_room, insert_two_members,
}
use tinychat_server.Http.{Request, Response, Status, authorization_text}
use tinychat_server.Http.Responses.{create_json_response, bad_request}
use tinychat_server.RequestHandler.Rooms.{create_g_room, create_p_room}

abbrev pub is_ok : Status → Bool
is_ok Status.ok = true
is_ok _ = false

abbrev pub succeeded : Outcome Response → Bool
succeeded (returned r) = is_ok r.status
succeeded throws = false
succeeded waits = false
succeeded undefined = false

abbrev pub drawn : Outcome ℕ → Option ℕ
drawn (returned i) = some i
drawn throws = none
drawn waits = none
drawn undefined = none

abbrev pub listed : Option (List Statement) → List Statement
listed none = []
listed (some l) = l

-- What creating a private room is to leave: the room, and the caller and the other user as its
-- members.
abbrev pub private_room_rows : Env → Request → List Statement
private_room_rows env req = listed (do
  jv ← env.parse req.body
  r ← create_p_room_req jv
  i ← drawn (draw_id env).0
  claims ← extract_user_claims env.decode (authorization_text req)
  some (insert_private_room i 2 ∷ insert_two_members i claims.id 0 i r.other_id 0 ∷ []))

-- What creating a group is to leave: the room, and the caller as its owner.
abbrev pub group_room_rows : Env → Request → List Statement
group_room_rows env req = listed (do
  jv ← env.parse req.body
  r ← create_g_room_req jv
  i ← drawn (draw_id env).0
  claims ← extract_user_claims env.decode (authorization_text req)
  some (insert_group_room i r.name 1 claims.id ∷ insert_member i claims.id 3 ∷ []))

-- The rows are in force if the answer is a success and they are kept, and nothing is otherwise; and
-- with a success there are two of them.
abbrev pub Leaves : Bool → List Statement → M Response → Type 0
Leaves kept rows run =
    (durable run.1 ≡ (if kept then (if succeeded run.0 then rows else []) else []))
    × (succeeded run.0 ≡ true → length rows ≡ 2)

module _ (env : Env) (req : Request) (valid : (st : Statement) → env.mysql.is_valid st ≡ true)
    (rolls : env.mysql.rolls_back ≡ true) where
  -- A creation that gets as far as its statements.
  p_room_drawn :
      (jv : Json) (r : CreatePRoomReq) (claims : UserClaims) (i : ℕ)
      → env.parse req.body ≡ some jv
      → create_p_room_req jv ≡ some r
      → extract_user_claims env.decode (authorization_text req) ≡ some claims
      → draw_id env ≡ (returned i, next_id ∷ [])
      → Leaves true (private_room_rows env req) (create_p_room env req)
  unfolding create_p_room begin_transaction commit_all roll_back execute_update claims_of_token
      create_json_response bad_request
  p_room_drawn jv r claims i e k c d = ground (
    arith,
    in_force-destroy env.mysql true [],
    in_force-destroy env.mysql false [],
    valid (insert_private_room i 2),
    valid (insert_two_members i claims.id 0 i r.other_id 0),
  )

  -- Creating a private room is all or nothing, whatever the database answers while the connection
  -- stays valid and a rollback works: if the answer is a success, the room and its two members are in
  -- force, and if it is anything else, nothing is.
  pub create_p_room-Leaves : Leaves true (private_room_rows env req) (create_p_room env req)
  unfolding create_p_room begin_transaction roll_back claims_of_token bad_request
  create_p_room-Leaves =
      let at_end = in_force-destroy env.mysql true [] in
      let in_transaction = in_force-destroy env.mysql false [] in
      elim (Option-cases (env.parse req.body)) [
        | inl e ↦ ground (arith, e, at_end)
        | inr (jv, e) ↦ elim (Option-cases (create_p_room_req jv)) [
          | inl k ↦ ground (arith, e, k, at_end)
          | inr (r, k) ↦ elim (draw_id-cases env) [
            | inr d ↦ ground (arith, e, k, d, at_end, in_transaction)
            | inl (i, d) ↦
                elim (Option-cases (extract_user_claims env.decode (authorization_text req))) [
                  | inl c ↦ ground (arith, e, k, c, d, at_end, in_transaction)
                  | inr (claims, c) ↦ p_room_drawn jv r claims i e k c d
                ]
          ]
        ]
      ]

  g_room_drawn :
      (jv : Json) (r : CreateGRoomReq) (claims : UserClaims) (i : ℕ)
      → env.parse req.body ≡ some jv
      → create_g_room_req jv ≡ some r
      → extract_user_claims env.decode (authorization_text req) ≡ some claims
      → draw_id env ≡ (returned i, next_id ∷ [])
      → Leaves
          (env.mysql.is_valid_at_end && env.mysql.resets_at_end && not env.mysql.auto_commit_at_end)
          (group_room_rows env req)
          (create_g_room env req)
  unfolding create_g_room begin_transaction roll_back execute_update claims_of_token
      create_json_response bad_request
  g_room_drawn jv r claims i e k c d = ground (
    arith,
    in_force-destroy env.mysql true [],
    in_force-destroy env.mysql false [],
    in_force-destroy env.mysql false
        (insert_group_room i r.name 1 claims.id ∷ insert_member i claims.id 3 ∷ []),
    in_force-destroy env.mysql false (insert_group_room i r.name 1 claims.id ∷ []),
    valid (insert_group_room i r.name 1 claims.id),
    valid (insert_member i claims.id 3),
  )

  -- Creating a group is not committed by its handler. While the connection stays valid for its
  -- statements and a rollback works: after a success the room and its owner are in force exactly if
  -- the destructor of the connection finds it valid and out of `autocommit`, and succeeds in
  -- switching that on; after anything else nothing is in force.
  pub create_g_room-Leaves :
      Leaves
        (env.mysql.is_valid_at_end && env.mysql.resets_at_end && not env.mysql.auto_commit_at_end)
        (group_room_rows env req)
        (create_g_room env req)
  unfolding create_g_room begin_transaction roll_back claims_of_token bad_request
  create_g_room-Leaves =
      let at_end = in_force-destroy env.mysql true [] in
      let in_transaction = in_force-destroy env.mysql false [] in
      elim (Option-cases (env.parse req.body)) [
        | inl e ↦ ground (arith, e, at_end)
        | inr (jv, e) ↦ elim (Option-cases (create_g_room_req jv)) [
          | inl k ↦ ground (arith, e, k, at_end)
          | inr (r, k) ↦ elim (draw_id-cases env) [
            | inr d ↦ ground (arith, e, k, d, at_end, in_transaction)
            | inl (i, d) ↦
                elim (Option-cases (extract_user_claims env.decode (authorization_text req))) [
                  | inl c ↦ ground (arith, e, k, c, d, at_end, in_transaction)
                  | inr (claims, c) ↦ g_room_drawn jv r claims i e k c d
                ]
          ]
        ]
      ]
