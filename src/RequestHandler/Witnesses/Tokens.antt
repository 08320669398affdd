-- ===== src/RequestHandler/Witnesses/Tokens.antt =====
-- Logins at a signature that spells its claims.
use tinychat_server.Base.{ℕ, zero, suc, ◌≡◌, refl, ap, true, Option, some, List, [], ◌∷◌, arith}
use tinychat_server.Json.{as_object, at, as_string}
use tinychat_server.Database.{execute_query}
use tinychat_server.Database.Env.{Env}
use tinychat_server.Http.{Request, post}
use tinychat_server.Http.Responses.{create_json_response}
use tinychat_server.Models.Answers.{User}
use tinychat_server.Models.Requests.{login_request, string_at}
use tinychat_server.RequestHandler.Users.{handle_login}
use tinychat_server.RequestHandler.Login.{welcome}
use tinychat_server.SessionMgr.Refine.{Op, add, write, remove, run}
use tinychat_server.SessionMgr.{add_session, write_to}
use tinychat_server.WsSession.{WebsocketSession, register, async_accept, do_accept}
use tinychat_server.Chat.Login.{login_opens_connection}
use tinychat_server.RequestHandler.Witnesses.{env, auth, request, owner_row, any_json}
use tinychat_server.Text.{Text, codes, lit, text_eq}
use tinychat_server.Claims.{DecodedToken}
use tinychat_server.RequestHandler.Credentials.{Auth, TokenClaims, generate_login_token}

-- Tokens that spell their claims: the subject, counted by ones, and the name behind it.
abbrev spelled : Text → Text → Text
spelled [] name = 0 ∷ name
spelled (d ∷ s) name = 1 ∷ d ∷ spelled s name

abbrev pub pair_sign : Text → TokenClaims → Text
pair_sign secret c = spelled c.subject c.username

abbrev front : Text → Text
front [] = []
front (zero ∷ s) = []
front (suc n ∷ []) = []
front (suc n ∷ d ∷ s) = d ∷ front s

abbrev behind : Text → Text
behind [] = []
behind (zero ∷ s) = s
behind (suc n ∷ []) = []
behind (suc n ∷ d ∷ s) = behind s

abbrev pub pair_decode : Text → Option DecodedToken
pair_decode token =
    some
      (record { has_username = true; username = some (behind token); subject = some (front token) })

front-spelled : (s name : Text) → front (spelled s name) ≡ s
front-spelled [] name = refl
front-spelled (d ∷ s) name = ap (λ t. d ∷ t) (front-spelled s name)

behind-spelled : (s name : Text) → behind (spelled s name) ≡ name
behind-spelled [] name = refl
behind-spelled (d ∷ s) name = behind-spelled s name

pub pair_decode-pair_sign :
    (secret : Text) (c : TokenClaims)
    → pair_decode (pair_sign secret c)
      ≡ some (record { has_username = true; username = some c.username; subject = some c.subject })
pair_decode-pair_sign secret c =
    rw (front-spelled c.subject c.username, behind-spelled c.subject c.username) refl

spelled_text : (s name : Text) → (first : ℕ) × (rest : Text) × (spelled s name ≡ first ∷ rest)
spelled_text [] name = (0, name, refl)
spelled_text (d ∷ s) name = (1, d ∷ spelled s name, refl)

abbrev pair_env : Env
pair_env = record env { decode = pair_decode }

abbrev pair_auth : Auth
pair_auth = record auth { sign = pair_sign }

abbrev login : Request
login = request post [] (codes "{}")

abbrev idle : WebsocketSession
idle = record { buffer = []; message_queue = []; user_claims = record { id = 0; username = [] } }

-- Another user comes and goes, and both are written to.
abbrev between : List Op
between = add 8 71 ∷ write (λ s. true) 7 (codes "first") ∷ remove 8 ∷ []

login_opens_connection_example :
    (user : User) × (user.id ≡ 7)
    × ((handle_login pair_env pair_auth login).0 ≡ welcome pair_env pair_auth login user)
    × (do_accept pair_decode idle
          (some (generate_login_token pair_sign (codes "secret") 0 user.username user.id))
        ≡ (
          record idle { user_claims = record { id = user.id; username = user.username } },
          register user.id ∷ async_accept ∷ [],
        ))
    × ((write_to (λ s. true) 7 (codes "hi") (run between (add_session user.id 70 [])).1).0
        ≡ (70, codes "hi") ∷ [])
login_opens_connection_example =
    login_opens_connection pair_env pair_auth login idle 70 between (λ s. true) [] (codes "hi")
      any_json (record { username = codes "ann"; password = codes "pw" }) owner_row [] 7
      (unfold handle_login execute_query login_request lit string_at at as_object as_string
          create_json_response text_eq in
        refl)
      (unfold text_eq in refl)
      (unfold login_request lit string_at at as_object as_string text_eq in refl) refl refl
      (ground arith) pair_decode-pair_sign (λ secret c. spelled_text c.subject c.username)
      (ground arith) tt refl
