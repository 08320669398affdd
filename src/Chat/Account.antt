-- ===== src/Chat/Account.antt =====
-- From a registration to the token of a login: `handle_register` and `handle_login`
-- (src/core/request_handler.hpp), `hash_password`, `verify_password`, `generate_login_token` and
-- `extract_user_claims` (src/core/request_handler.cpp).
mod Witnesses
use mathlib.Core.Path.{subst}
use tinychat_server.Snowflake
use tinychat_server.Snowflake.Order.{Ready}
use tinychat_server.Snowflake.Services.{next_id-fits}
use tinychat_server.Base.{
  ℕ, ◌+◌, ◌-◌, ◌^◌, ◌≤◌, ◌<◌, ◌≡◌, refl, ap, Bool, true, Option, some, List, [], ◌∷◌, arith,
}
use tinychat_server.Text.{Text}
use tinychat_server.Json.{Json}
use tinychat_server.Claims.{DecodedToken, extract_user_claims}
use tinychat_server.Models.Answers.{User}
use tinychat_server.Models.Requests.{LoginRequest, RegisterRequest, login_request, register_request}
use tinychat_server.Database.{
  Mysql, Row, returned, next_id, execute_query, id, password_hash, nickname, email, avatar_url,
  created_at,
}
use tinychat_server.Database.Durable.{durable}
use tinychat_server.Database.Env.{Env, draw_id, draw_id-returned}
use tinychat_server.Database.Statements.{Statement, insert_user, select_user}
use tinychat_server.Http.{Request, post}
use tinychat_server.Http.Responses.{create_json_response}
use tinychat_server.RequestHandler.Credentials.{
  Auth, TokenClaims, hash_password, verify_password, generate_login_token,
  extract_user_claims-generate_login_token,
}
use tinychat_server.RequestHandler.Login.{welcome}
use tinychat_server.RequestHandler.Registration.{Registered, handle_register-Registered}
use tinychat_server.RequestHandler.Transactions.{succeeded}
use tinychat_server.RequestHandler.Users.{handle_login, handle_register}

-- A row of the table of users that was inserted with these columns; the others have their defaults.
pub record IsUserRow (i : ℕ) (hashed mail nick : Text) (row : Row) : Type 0 where
  pub avatar : Text
  pub created : Text
  pub has_id : row.get_uint64 id ≡ some i
  pub has_hash : row.get_string password_hash ≡ some hashed
  pub has_email : row.get_string email ≡ some mail
  pub has_nickname : row.get_string nickname ≡ some nick
  pub has_avatar : row.get_string avatar_url ≡ some avatar
  pub has_created : row.get_string created_at ≡ some created

-- The database shows the users whose insertion is in force, each under its name.
abbrev pub Shows : Mysql → List Statement → Type 0
Shows s [] = Unit
Shows s (insert_user i username hashed mail nick ∷ rest) =
    ((row : Row) × (s.rows (select_user username) ≡ some (row ∷ []))
      × IsUserRow i hashed mail nick row)
    × Shows s rest
Shows s (_ ∷ rest) = Shows s rest

login_succeeds :
    (env : Env) (auth : Auth) (req : Request) (jv : Json) (asked : LoginRequest) (i : ℕ)
    (hashed mail nick : Text) (row : Row) (shown : IsUserRow i hashed mail nick row)
    → req.method ≡ post
    → env.parse req.body ≡ some jv
    → login_request jv ≡ some asked
    → env.mysql.connects ≡ returned tt
    → env.mysql.is_valid (select_user asked.username) ≡ true
    → env.mysql.rows (select_user asked.username) ≡ some (row ∷ [])
    → auth.pwhash_str_verify hashed asked.password ≡ 0
    → (handle_login env auth req).0
      ≡ welcome env auth req (record {
        id = i;
        username = asked.username;
        nickname = nick;
        email = mail;
        avatar_url = shown.avatar;
        created_at = shown.created;
      })
unfolding handle_login execute_query create_json_response verify_password
login_succeeds env auth req jv asked i hashed mail nick row shown m e k c v q p = ground arith

drawn-fits :
    (env : Env) (i : ℕ)
    → Ready env.snowflake env.clock
    → draw_id env ≡ (returned i, next_id ∷ [])
    → i < 2 ^ 64
drawn-fits env i ready d =
    let run = Snowflake.next_id env.snowflake env.clock in
    next_id-fits env.snowflake env.clock i run.1 run.2 ready
      (ap (λ o. (o, run.1, run.2)) (draw_id-returned env i d))

-- Who registers can log in, and is then known: after a registration that succeeds, on a database
-- that shows the users in force, a login by that name and password gives a token that is read back
-- as the id that was drawn at the registration and the name, and shows the registered e-mail and
-- nickname. What libsodium hashes verifies, decoding gives the claims that were signed, the
-- generator is ready and its clock steady, and the login finds a valid connection.
pub registered_logs_in :
    (env later : Env) (auth : Auth) (now : ℕ) (first second : Request) (jv jv' : Json)
    (asked : RegisterRequest)
    → succeeded (handle_register env auth first).0 ≡ true
    → env.parse first.body ≡ some jv
    → register_request jv ≡ some asked
    → second.method ≡ post
    → later.parse second.body ≡ some jv'
    → login_request jv' ≡ some (record { username = asked.username; password = asked.password })
    → ((plain hashed : Text)
        → hash_password auth.pwhash_str plain ≡ some hashed
        → auth.pwhash_str_verify hashed plain ≡ 0)
    → ((secret : Text) (c : TokenClaims)
        → later.decode (auth.sign secret c)
          ≡ some (record {
            has_username = true;
            username = some c.username;
            subject = some c.subject;
          }))
    → Ready env.snowflake env.clock
    → later.mysql.connects ≡ returned tt
    → later.mysql.is_valid (select_user asked.username) ≡ true
    → Shows later.mysql (durable (handle_register env auth first).1)
    → (user : User) × ((handle_login later (record auth { now = now }) second).0
        ≡ welcome later (record auth { now = now }) second user)
      × (draw_id env ≡ (returned user.id, next_id ∷ []))
      × (user.email ≡ asked.email)
      × (user.nickname ≡ asked.nickname)
      × (extract_user_claims later.decode
            (generate_login_token auth.sign auth.jwt_secret now user.username user.id)
          ≡ some (record { id = user.id; username = asked.username }))
registered_logs_in env later auth now first second jv jv' asked ok p k m p' k' verifies reads ready
      c v shows =
    let r : Registered env auth first = handle_register-Registered env auth first ok in
    let same : r.asked ≡ asked = ground (arith, p, k, r.parsed, r.understood) in
    let hashes : hash_password auth.pwhash_str asked.password ≡ some r.hashed =
      subst (λ a. hash_password auth.pwhash_str a.password ≡ some r.hashed) same r.hashes in
    let stored : durable (handle_register env auth first).1
        ≡ insert_user r.user_id asked.username r.hashed asked.email asked.nickname ∷ [] =
      subst
        (λ a.
          durable (handle_register env auth first).1
          ≡ insert_user r.user_id a.username r.hashed a.email a.nickname ∷ [])
        same r.stored in
    let (row, found, shown) = (subst (Shows later.mysql) stored shows).0 in
    (
      record {
        id = r.user_id;
        username = asked.username;
        nickname = asked.nickname;
        email = asked.email;
        avatar_url = shown.avatar;
        created_at = shown.created;
      },
      login_succeeds later (record auth { now = now }) second jv'
          (record { username = asked.username; password = asked.password }) r.user_id r.hashed
          asked.email asked.nickname row shown m p' k' c v found
          (verifies asked.password r.hashed hashes),
      r.drawn,
      refl,
      refl,
      extract_user_claims-generate_login_token auth.sign later.decode auth.jwt_secret asked.username
          now r.user_id reads (drawn-fits env r.user_id ready r.drawn),
    )
