-- ===== src/RequestHandler/Login.antt =====
-- Who is logged in, and what the token says (src/core/request_handler.hpp, `handle_login`).
use tinychat_server.Base.{
  ◌≡◌, ◌⊎◌, refl, true, false, Option, none, some, List, [], ◌∷◌, arith, Option-cases, inl, inr,
}
use tinychat_server.Text.{Text, lit}
use tinychat_server.Json.{Json}
use tinychat_server.Models.Requests.{LoginRequest, login_request}
use tinychat_server.Database.{
  Row, password_hash, execute_query, Outcome, returned, throws, id, nickname, email, avatar_url,
  created_at,
}
use tinychat_server.Database.Env.{Env}
use tinychat_server.Database.Statements.{select_user}
use tinychat_server.Http.{Request, Response, Status}
use tinychat_server.Http.Responses.{create_json_response, bad_request}
use tinychat_server.RequestHandler.Credentials.{Auth, generate_login_token}
use tinychat_server.RequestHandler.Transactions.{succeeded}
use tinychat_server.RequestHandler.Users.{handle_login, user_of_row}
use tinychat_server.Models.Answers.{User, StatusCode, api_response_json, login_resp_json}

-- The answer to a login of that user.
abbrev pub welcome : Env → Auth → Request → User → Outcome Response
welcome env auth req user = returned (
    create_json_response env.serialize Status.ok req.version req.keep_alive (
      api_response_json StatusCode.success (lit "Login successful") (
        login_resp_json (record {
          token = generate_login_token auth.sign auth.jwt_secret auth.now user.username user.id;
          user = user;
        }))))

-- Reading the user of a row throws, or gives the id of the row and the name.
user_of_row-cases :
    (env : Env) (username : Text) (row : Row)
    → ((user_of_row env username row).0 ≡ throws)
      ⊎ ((user : User) × (user_of_row env username row ≡ (returned user, []))
          × (user.username ≡ username)
          × (row.get_uint64 id ≡ some user.id))
unfolding user_of_row
user_of_row-cases env username row = elim (Option-cases (row.get_uint64 id)) [
  | inl e ↦ inl (rw e refl)
  | inr (i, e) ↦ elim (Option-cases (row.get_string nickname)) [
    | inl f ↦ inl (rw (e, f) refl)
    | inr (n, f) ↦ elim (Option-cases (row.get_string email)) [
      | inl g ↦ inl (rw (e, f, g) refl)
      | inr (m, g) ↦ elim (Option-cases (row.get_string avatar_url)) [
        | inl h ↦ inl (rw (e, f, g, h) refl)
        | inr (a, h) ↦ elim (Option-cases (row.get_string created_at)) [
          | inl k ↦ inl (rw (e, f, g, h, k) refl)
          | inr (c, k) ↦ inr (
            record {
              id = i;
              username = username;
              nickname = n;
              email = m;
              avatar_url = a;
              created_at = c;
            },
            rw (e, f, g, h, k) refl,
            refl,
            e,
          )
        ]
      ]
    ]
  ]
]

-- The row of the user who asked has a hash that fits the password, and the answer carries a token
-- for the id of that row and the name that was asked for.
pub record LoggedIn (env : Env) (auth : Auth) (req : Request) : Type 0 where
  pub jv : Json
  pub asked : LoginRequest
  pub row : Row
  pub rest : List Row
  pub hashed : Text
  pub parsed : env.parse req.body ≡ some jv
  pub understood : login_request jv ≡ some asked
  pub found : env.mysql.rows (select_user asked.username) ≡ some (row ∷ rest)
  pub stored : row.get_string password_hash ≡ some hashed
  pub verified : auth.pwhash_str_verify hashed asked.password ≡ 0
  pub user : User
  pub named : user.username ≡ asked.username
  pub numbered : row.get_uint64 id ≡ some user.id
  pub answered : (handle_login env auth req).0 ≡ welcome env auth req user

module _ (env : Env) (auth : Auth) (req : Request) where
  refused_by :
      (jv : Json) (asked : LoginRequest) (row : Row) (rest : List Row) (hashed : Text)
      → env.parse req.body ≡ some jv
      → login_request jv ≡ some asked
      → env.mysql.rows (select_user asked.username) ≡ some (row ∷ rest)
      → row.get_string password_hash ≡ some hashed
      → succeeded (handle_login env auth req).0 ≡ true
      → auth.pwhash_str_verify hashed asked.password ≡ 0
  unfolding handle_login execute_query create_json_response bad_request
  refused_by jv asked row rest hashed e k q s h = ground arith

  unanswered :
      (jv : Json) (asked : LoginRequest) (found : Option (List Row))
      → env.parse req.body ≡ some jv
      → login_request jv ≡ some asked
      → env.mysql.rows (select_user asked.username) ≡ found
      → (found ≡ none) ⊎ (found ≡ some [])
      → succeeded (handle_login env auth req).0 ≡ false
  unfolding handle_login execute_query create_json_response bad_request
  unanswered jv asked found e k q h = ground arith

  unhashed :
      (jv : Json) (asked : LoginRequest) (row : Row) (rest : List Row)
      → env.parse req.body ≡ some jv
      → login_request jv ≡ some asked
      → env.mysql.rows (select_user asked.username) ≡ some (row ∷ rest)
      → row.get_string password_hash ≡ none
      → succeeded (handle_login env auth req).0 ≡ false
  unfolding handle_login execute_query create_json_response bad_request
  unhashed jv asked row rest e k q s = ground arith

  -- A success after the row was found comes with the user of that row.
  welcomed :
      (jv : Json) (asked : LoginRequest) (row : Row) (rest : List Row) (hashed : Text)
      → env.parse req.body ≡ some jv
      → login_request jv ≡ some asked
      → env.mysql.rows (select_user asked.username) ≡ some (row ∷ rest)
      → row.get_string password_hash ≡ some hashed
      → succeeded (handle_login env auth req).0 ≡ true
      → (user : User) × (user.username ≡ asked.username)
        × (row.get_uint64 id ≡ some user.id)
        × ((handle_login env auth req).0 ≡ welcome env auth req user)
  unfolding handle_login execute_query create_json_response bad_request
  welcomed jv asked row rest hashed e k q s h = elim (user_of_row-cases env asked.username row) [
    | inl x ↦ absurd (ground arith)
    | inr (user, x, n, i) ↦ (user, n, i, ground arith)
  ]

  unread :
      (env.parse req.body ≡ none)
        ⊎ ((jv : Json) × (env.parse req.body ≡ some jv) × (login_request jv ≡ none))
      → succeeded (handle_login env auth req).0 ≡ false
  unfolding handle_login create_json_response bad_request
  unread h = ground arith

  by_rows :
      (jv : Json) (asked : LoginRequest)
      → succeeded (handle_login env auth req).0 ≡ true
      → env.parse req.body ≡ some jv
      → login_request jv ≡ some asked
      → (rows : List Row) → env.mysql.rows (select_user asked.username) ≡ some rows
      → LoggedIn env auth req
  by_rows jv asked h e k [] q =
      absurd (ground (arith, unanswered jv asked (some []) e k q (inr refl)))
  by_rows jv asked h e k (row ∷ rest) q = elim (Option-cases (row.get_string password_hash)) [
    | inl s ↦ absurd (ground (arith, unhashed jv asked row rest e k q s))
    | inr (hashed, s) ↦ record {
      jv = jv;
      asked = asked;
      row = row;
      rest = rest;
      hashed = hashed;
      parsed = e;
      understood = k;
      found = q;
      stored = s;
      verified = refused_by jv asked row rest hashed e k q s h;
      user = (welcomed jv asked row rest hashed e k q s h).0;
      named = (welcomed jv asked row rest hashed e k q s h).1;
      numbered = (welcomed jv asked row rest hashed e k q s h).2;
      answered = (welcomed jv asked row rest hashed e k q s h).3;
    }
  ]

  -- A login succeeds only if MySQL has a row for the user name of the request, and the password of the
  -- request verifies against the hash of the first such row; then the answer carries a token made
  -- for that user name and for the id of that row.
  pub handle_login-LoggedIn : succeeded (handle_login env auth req).0 ≡ true → LoggedIn env auth req
  handle_login-LoggedIn h = elim (Option-cases (env.parse req.body)) [
    | inl e ↦ absurd (ground (arith, unread (inl e)))
    | inr (jv, e) ↦ elim (Option-cases (login_request jv)) [
      | inl k ↦ absurd (ground (arith, unread (inr (jv, e, k))))
      | inr (asked, k) ↦ elim (Option-cases (env.mysql.rows (select_user asked.username))) [
        | inl q ↦ absurd (ground (arith, unanswered jv asked none e k q (inl refl)))
        | inr (rows, q) ↦ by_rows jv asked h e k rows q
      ]
    ]
  ]
