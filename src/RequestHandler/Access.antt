-- ===== src/RequestHandler/Access.antt =====
-- Who may delete a room and invite to it (src/core/request_handler.hpp).
use tinychat_server.Base.{
  ℕ, ◌≡◌, ◌⊎◌, true, false, Option, none, some, List, [], ◌∷◌, arith, Option-cases, inl, inr, refl,
  List-cases,
}
use tinychat_server.Base.Int.{pos}
use tinychat_server.Text.{Text}
use tinychat_server.Claims.{UserClaims, extract_user_claims}
use tinychat_server.Database.{
  Row, role, begin_transaction, commit_all, roll_back, execute_update, execute_query,
}
use tinychat_server.Database.Durable.{durable, in_force-destroy}
use tinychat_server.Database.Env.{Env, claims_of_token}
use tinychat_server.Database.Statements.{
  Statement, select_role, delete_members, delete_room as delete_row,
}
use tinychat_server.Http.{Request, authorization_text}
use tinychat_server.Http.Responses.{create_json_response, bad_request, error_resp}
use tinychat_server.RequestHandler.Members.{delete_room, invite_member}
use tinychat_server.RequestHandler.Transactions.{succeeded, Leaves}

-- The caller, as the token names it, is an owner of the room by the first row that MySQL returns.
abbrev pub IsOwner : Env → Request → ℕ → Type 0
IsOwner env req room_id =
    (claims : UserClaims) × (row : Row) × (rest : List Row) × (extract_user_claims env.decode
        (authorization_text req)
      ≡ some claims)
    × (env.mysql.rows (select_role room_id claims.id) ≡ some (row ∷ rest))
    × (row.get_int role ≡ some (pos 3))

module _ (env : Env) (req : Request) (room_id : ℕ)
    (valid : (st : Statement) → env.mysql.is_valid st ≡ true)
    (rolls : env.mysql.rolls_back ≡ true) where
  deleted_by :
      (claims : UserClaims) (row : Row) (rest : List Row)
      → extract_user_claims env.decode (authorization_text req) ≡ some claims
      → env.mysql.rows (select_role room_id claims.id) ≡ some (row ∷ rest)
      → Leaves true (delete_members room_id ∷ delete_row room_id ∷ []) (delete_room env req room_id)
        × (succeeded (delete_room env req room_id).0 ≡ true → row.get_int role ≡ some (pos 3))
  unfolding delete_room begin_transaction commit_all roll_back execute_update execute_query
      claims_of_token create_json_response error_resp
  deleted_by claims row rest c q = ground (
    arith,
    in_force-destroy env.mysql true [],
    in_force-destroy env.mysql false [],
    valid (select_role room_id claims.id),
    valid (delete_members room_id),
    valid (delete_row room_id),
  )

  refused :
      (claims : UserClaims) (found : Option (List Row))
      → extract_user_claims env.decode (authorization_text req) ≡ some claims
      → env.mysql.rows (select_role room_id claims.id) ≡ found
      → (found ≡ none) ⊎ (found ≡ some [])
      → (durable (delete_room env req room_id).1 ≡ [])
        × (succeeded (delete_room env req room_id).0 ≡ false)
  unfolding delete_room begin_transaction roll_back execute_query claims_of_token error_resp
  refused claims found c q h = ground (
    arith,
    in_force-destroy env.mysql true [],
    in_force-destroy env.mysql false [],
    valid (select_role room_id claims.id),
  )

  unnamed :
      extract_user_claims env.decode (authorization_text req) ≡ none
      → (durable (delete_room env req room_id).1 ≡ [])
        × (succeeded (delete_room env req room_id).0 ≡ false)
  unfolding delete_room begin_transaction roll_back claims_of_token error_resp
  unnamed c =
      ground (arith, in_force-destroy env.mysql true [], in_force-destroy env.mysql false [])

  abbrev Deletion : Type 0
  Deletion =
      Leaves true (delete_members room_id ∷ delete_row room_id ∷ []) (delete_room env req room_id)
      × (succeeded (delete_room env req room_id).0 ≡ true → IsOwner env req room_id)

  nothing-Deletion :
      (durable (delete_room env req room_id).1 ≡ [])
        × (succeeded (delete_room env req room_id).0 ≡ false)
      → Deletion
  nothing-Deletion (d, s) = ((rw s d, λ k. refl), λ k. absurd (ground (arith, s)))

  -- Deleting a room is all or nothing, while the connection stays valid and a rollback works: after a
  -- success the members and the room are deleted, and after anything else nothing is; and it is a
  -- success only for a caller whom MySQL reports as the owner.
  pub delete_room_lem :
      Leaves true (delete_members room_id ∷ delete_row room_id ∷ []) (delete_room env req room_id)
      × (succeeded (delete_room env req room_id).0 ≡ true → IsOwner env req room_id)
  delete_room_lem = elim (Option-cases (extract_user_claims env.decode (authorization_text req))) [
    | inl c ↦ nothing-Deletion (unnamed c)
    | inr (claims, c) ↦ elim (Option-cases (env.mysql.rows (select_role room_id claims.id))) [
      | inl q ↦ nothing-Deletion (refused claims none c q (inl refl))
      | inr (rows, q) ↦ elim (List-cases rows) [
        | inl n ↦ nothing-Deletion (refused claims (some rows) c q (inr (rw n refl)))
        | inr (row, rest, n) ↦
            let found : env.mysql.rows (select_role room_id claims.id) ≡ some (row ∷ rest) =
              rw (q, n) refl in
            let (leaves, owner) = deleted_by claims row rest c found in
            (leaves, λ k. (claims, row, rest, c, found, owner k))
      ]
    ]
  ]

-- Nothing about the caller counts for an invitation but that the token has claims: two requests that
-- differ only in their tokens, and whose tokens have claims, run alike, call by call.
pub invite_member_anyone :
    (env : Env) (req : Request) (room_id : ℕ) (token : Option Text) (mine yours : UserClaims)
    → extract_user_claims env.decode (authorization_text req) ≡ some mine
    → extract_user_claims env.decode (authorization_text (record req { authorization = token }))
      ≡ some yours
    → invite_member env (record req { authorization = token }) room_id
      ≡ invite_member env req room_id
unfolding invite_member claims_of_token create_json_response bad_request error_resp
invite_member_anyone env req room_id token mine yours h k = rw (h, k) refl
