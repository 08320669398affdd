-- ===== src/Chat/Login.antt =====
-- From a login to the first message: the answer of `handle_login` (src/core/request_handler.hpp), the
-- connection that is opened with its token (src/core/websocket_session.hpp), and the registry
-- (src/core/ws_session_mgr.cpp).
use tinychat_server.Base.{ℕ, ◌^◌, ◌<◌, ◌≡◌, Bool, true, Option, some, List, [], ◌∷◌, arith, All}
use tinychat_server.Text.{Text}
use tinychat_server.Json.{Json}
use tinychat_server.Claims.{DecodedToken, extract_user_claims}
use tinychat_server.Database.{Row, id}
use tinychat_server.Database.Env.{Env}
use tinychat_server.Database.Statements.{select_user}
use tinychat_server.Http.{Request}
use tinychat_server.Models.Requests.{LoginRequest, login_request}
use tinychat_server.Models.Answers.{User}
use tinychat_server.RequestHandler.Credentials.{
  Auth, TokenClaims, generate_login_token, extract_user_claims-generate_login_token,
}
use tinychat_server.RequestHandler.Transactions.{succeeded}
use tinychat_server.RequestHandler.Users.{handle_login}
use tinychat_server.RequestHandler.Login.{welcome, LoggedIn, handle_login-LoggedIn}
use tinychat_server.SessionMgr.Map.{Distinct}
use tinychat_server.SessionMgr.Refine.{Op, run}
use tinychat_server.SessionMgr.Interface.{Spares}
use tinychat_server.SessionMgr.Implementation.{session_still_gets}
use tinychat_server.SessionMgr.{Sessions, add_session, write_to}
use tinychat_server.WsSession.{WebsocketSession, register, async_accept, auth_user, do_accept}

accepted_with :
    (decode : Text → Option DecodedToken) (s : WebsocketSession) (token : Text) (user : User)
    → (first : ℕ) × (rest : Text) × (token ≡ first ∷ rest)
    → extract_user_claims decode token ≡ some (record { id = user.id; username = user.username })
    → do_accept decode s (some token) ≡ (
      record s { user_claims = record { id = user.id; username = user.username } },
      register user.id ∷ async_accept ∷ [],
    )
unfolding do_accept auth_user
accepted_with decode s [] user (first, rest, k) e = cc
accepted_with decode s (c ∷ token) user text e = ground (arith, e)

-- A token is text, and decoding gives the claims that were signed.
token_accepted :
    (env : Env) (auth : Auth) (s : WebsocketSession) (user : User)
    → ((secret : Text) (c : TokenClaims)
        → env.decode (auth.sign secret c)
          ≡ some (record {
            has_username = true;
            username = some c.username;
            subject = some c.subject;
          }))
    → ((secret : Text) (c : TokenClaims)
        → (first : ℕ) × (rest : Text) × (auth.sign secret c ≡ first ∷ rest))
    → user.id < 2 ^ 64
    → do_accept env.decode s
        (some (generate_login_token auth.sign auth.jwt_secret auth.now user.username user.id))
      ≡ (
        record s { user_claims = record { id = user.id; username = user.username } },
        register user.id ∷ async_accept ∷ [],
      )
unfolding generate_login_token
token_accepted env auth s user reads text fits =
    accepted_with env.decode s
      (generate_login_token auth.sign auth.jwt_secret auth.now user.username user.id) user
      (text auth.jwt_secret _)
      (extract_user_claims-generate_login_token auth.sign env.decode auth.jwt_secret user.username
        auth.now user.id reads fits)

-- The user of a login is the one in the row of its name.
found_id :
    (env : Env) (auth : Auth) (req : Request) (l : LoggedIn env auth req) (jv : Json)
    (asked : LoginRequest) (row : Row) (rest : List Row) (i : ℕ)
    → env.parse req.body ≡ some jv
    → login_request jv ≡ some asked
    → env.mysql.rows (select_user asked.username) ≡ some (row ∷ rest)
    → row.get_uint64 id ≡ some i
    → l.user.id ≡ i
found_id env auth req l jv asked row rest i p k q r =
    let e : l.jv ≡ jv = (let a = l.parsed in cc) in
    let f : l.asked ≡ asked = (let a = l.understood in cc) in
    let g : l.row ≡ row = (let a = l.found in cc) in let n = l.numbered in cc

-- After a login that succeeds, the token of the answer opens a WebSocket connection. With `i` the id in
-- the row that the database finds for the name of the request: the answer is for the user with that
-- id; the connection carries this id and the user's name, and is registered under the id before it is
-- accepted; and what is written to the id goes to this connection, at once and after any calls on the
-- registry that add no other session for `i`, remove none of it, and find this one alive. Decoding
-- gives the claims that were signed, a token is not empty, `i` has 64 bits, and the registry has one
-- entry for a user at most.
pub login_opens_connection :
    (env : Env) (auth : Auth) (req : Request) (s : WebsocketSession) (session : ℕ) (ops : List Op)
    (alive : ℕ → Bool) (m : Sessions) (msg : Text) (jv : Json) (asked : LoginRequest) (row : Row)
    (rest : List Row) (i : ℕ)
    → succeeded (handle_login env auth req).0 ≡ true
    → env.parse req.body ≡ some jv
    → login_request jv ≡ some asked
    → env.mysql.rows (select_user asked.username) ≡ some (row ∷ rest)
    → row.get_uint64 id ≡ some i
    → i < 2 ^ 64
    → ((secret : Text) (c : TokenClaims)
        → env.decode (auth.sign secret c)
          ≡ some (record {
            has_username = true;
            username = some c.username;
            subject = some c.subject;
          }))
    → ((secret : Text) (c : TokenClaims)
        → (first : ℕ) × (rest : Text) × (auth.sign secret c ≡ first ∷ rest))
    → All (Spares i session) ops
    → Distinct m
    → alive session ≡ true
    → (user : User) × (user.id ≡ i)
      × ((handle_login env auth req).0 ≡ welcome env auth req user)
      × (do_accept env.decode s
            (some (generate_login_token auth.sign auth.jwt_secret auth.now user.username user.id))
          ≡ (
            record s { user_claims = record { id = user.id; username = user.username } },
            register user.id ∷ async_accept ∷ [],
          ))
      × ((write_to alive i msg (run ops (add_session user.id session m)).1).0 ≡ (session, msg) ∷ [])
login_opens_connection env auth req s session ops alive m msg jv asked row rest i h p k q r small
      reads text spared d lives =
    let l : LoggedIn env auth req = handle_login-LoggedIn env auth req h in
    let same : l.user.id ≡ i = found_id env auth req l jv asked row rest i p k q r in
    let fits : l.user.id < 2 ^ 64 = rw same small in
    (
      l.user,
      same,
      l.answered,
      token_accepted env auth s l.user reads text fits,
      rw same (session_still_gets i session ops m alive msg d spared lives),
    )
