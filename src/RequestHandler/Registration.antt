-- ===== src/RequestHandler/Registration.antt =====
-- What a registration leaves in the database (src/core/request_handler.hpp, `handle_register`).
use tinychat_server.Base.{
  ◌≡◌, ◌⊎◌, true, false, none, some, [], ◌∷◌, arith, Option-cases, inl, inr, ℕ,
}
use tinychat_server.Text.{Text}
use tinychat_server.Json.{Json}
use tinychat_server.Models.Requests.{RegisterRequest, register_request}
use tinychat_server.Database.{execute_update, returned, throws, waits, next_id, finish}
use tinychat_server.Database.Durable.{durable, in_force-destroy}
use tinychat_server.Database.Env.{Env, draw_id, draw_id-cases}
use tinychat_server.Database.Statements.{insert_user}
use tinychat_server.Http.{Request}
use tinychat_server.Http.Responses.{create_json_response, bad_request}
use tinychat_server.RequestHandler.Credentials.{Auth, hash_password}
use tinychat_server.RequestHandler.Transactions.{succeeded}
use tinychat_server.RequestHandler.Users.{handle_register}

-- The user of the request is in force in the database, with an id that was drawn for it and a hash
-- of its password, and nothing else.
pub record Registered (env : Env) (auth : Auth) (req : Request) : Type 0 where
  pub jv : Json
  pub asked : RegisterRequest
  pub hashed : Text
  pub user_id : ℕ
  pub parsed : env.parse req.body ≡ some jv
  pub understood : register_request jv ≡ some asked
  pub hashes : hash_password auth.pwhash_str asked.password ≡ some hashed
  pub drawn : draw_id env ≡ (returned user_id, next_id ∷ [])
  pub stored :
      durable (handle_register env auth req).1
      ≡ insert_user user_id asked.username hashed asked.email asked.nickname ∷ []

module _ (env : Env) (auth : Auth) (req : Request) where
  unread :
      (env.parse req.body ≡ none)
        ⊎ ((jv : Json) × (env.parse req.body ≡ some jv) × (register_request jv ≡ none))
      → succeeded (handle_register env auth req).0 ≡ false
  unfolding handle_register bad_request create_json_response
  unread h = ground arith

  unstored :
      (jv : Json) (asked : RegisterRequest)
      → env.parse req.body ≡ some jv
      → register_request jv ≡ some asked
      → (hash_password auth.pwhash_str asked.password ≡ none)
        ⊎ ((draw_id env ≡ finish throws) ⊎ (draw_id env ≡ finish waits))
      → succeeded (handle_register env auth req).0 ≡ false
  unfolding handle_register bad_request create_json_response
  unstored jv asked e k h = ground arith

  inserted :
      (jv : Json) (asked : RegisterRequest) (hashed : Text) (i : ℕ)
      → env.parse req.body ≡ some jv
      → register_request jv ≡ some asked
      → hash_password auth.pwhash_str asked.password ≡ some hashed
      → draw_id env ≡ (returned i, next_id ∷ [])
      → succeeded (handle_register env auth req).0 ≡ true
      → durable (handle_register env auth req).1
        ≡ insert_user i asked.username hashed asked.email asked.nickname ∷ []
  unfolding handle_register execute_update bad_request create_json_response
  inserted jv asked hashed i e k s d h = ground (arith, in_force-destroy env.mysql true [])

  -- A registration succeeds only if the user of the request is left in force, with an id drawn for
  -- it and a hash that was made of its password, and nothing else is.
  pub handle_register-Registered :
      succeeded (handle_register env auth req).0 ≡ true → Registered env auth req
  handle_register-Registered h = elim (Option-cases (env.parse req.body)) [
    | inl e ↦ absurd (ground (arith, unread (inl e)))
    | inr (jv, e) ↦ elim (Option-cases (register_request jv)) [
      | inl k ↦ absurd (ground (arith, unread (inr (jv, e, k))))
      | inr (asked, k) ↦ elim (Option-cases (hash_password auth.pwhash_str asked.password)) [
        | inl s ↦ absurd (ground (arith, unstored jv asked e k (inl s)))
        | inr (hashed, s) ↦ elim (draw_id-cases env) [
          | inr d ↦ absurd (ground (arith, unstored jv asked e k (inr d)))
          | inl (i, d) ↦ record {
            jv = jv;
            asked = asked;
            hashed = hashed;
            user_id = i;
            parsed = e;
            understood = k;
            hashes = s;
            drawn = d;
            stored = inserted jv asked hashed i e k s d h;
          }
        ]
      ]
    ]
  ]
