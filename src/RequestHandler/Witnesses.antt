-- ===== src/RequestHandler/Witnesses.antt =====
-- The theorems on the handlers of requests at concrete inputs.
pub mod Tokens
use tinychat_server.Base.{
  zero, suc, ◌≡◌, refl, ap, true, false, Option, none, some, [], ◌∷◌, ◌++◌, arith, inr,
  if◌then◌else◌, All,
}
use tinychat_server.Base.Int.{pos}
use tinychat_server.Text.{Text, codes, lit, text_eq}
use tinychat_server.Text.Decimal.{to_string}
use tinychat_server.Json.{Json, text, object, entry, end, as_object, at, as_string}
use tinychat_server.Claims.{DecodedToken, extract_user_claims}
use tinychat_server.Database.{Mysql, Row, returned, throws, finish}
use tinychat_server.Database.Env.{Env, claims_of_token}
use tinychat_server.Database.Statements.{delete_members, delete_room as delete_row}
use tinychat_server.Http.Responses.{create_json_response, bad_request}
use tinychat_server.Models.Requests.{login_request, string_at}
use tinychat_server.Text.Decimal.{stoull}
use tinychat_server.Database.{execute_query}
use tinychat_server.RequestHandler.Assets.{contains_dots}
use tinychat_server.Text.{starts_with}
use tinychat_server.Http.{Request, Verb, get, post, delete}
use tinychat_server.RequestHandler.Access.{IsOwner, delete_room_lem, invite_member_anyone}
use tinychat_server.RequestHandler.Assets.{ReqContext, Files, opened, handle_assets}
use tinychat_server.RequestHandler.Confinement.{
  Serves, served, handle_assets-Serves, absolute_path_served,
}
use tinychat_server.RequestHandler.Credentials.{
  Auth, TokenClaims, generate_login_token, extract_user_claims-generate_login_token,
}
use tinychat_server.RequestHandler.Dispatch.{handle_request}
use tinychat_server.RequestHandler.Echo.{handle_request-Echoes}
use tinychat_server.RequestHandler.Permits.{Permitted}
use tinychat_server.RequestHandler.Permits.Dispatch.{handle_request-Permitted}
use tinychat_server.Database.Updates.{OnUpdates}
use tinychat_server.RequestHandler.Login.{LoggedIn, handle_login-LoggedIn}
use tinychat_server.RequestHandler.Members.{delete_room, invite_member, handle_chat_room}
use tinychat_server.RequestHandler.Rooms.{create_g_room, create_p_room}
use tinychat_server.RequestHandler.Routing.{malformed_throws, handle_chat_room_lem, caught}
use tinychat_server.RequestHandler.Target.{
  extract_target_param, joined, extract_target_param-joined,
}
use tinychat_server.RequestHandler.Transactions.{
  succeeded, Leaves, private_room_rows, group_room_rows, create_p_room-Leaves, create_g_room-Leaves,
}
use tinychat_server.RequestHandler.Users.{handle_login}

-- One row, of an owner with an empty hash.
abbrev pub owner_row : Row
owner_row = record {
  get_int = λ c. some (pos 3);
  get_uint64 = λ c. some 7;
  get_string = λ c. some [];
}

-- A database that answers everything, each update with one row.
abbrev mysql : Mysql
mysql = record {
  connects = returned tt;
  begins = true;
  is_valid = λ st. true;
  reconnects = λ st. returned tt;
  updated = λ st. some 1;
  rows = λ st. some (owner_row ∷ []);
  commits = true;
  rolls_back = true;
  is_valid_at_end = true;
  auto_commit_at_end = false;
  resets_at_end = true;
}

abbrev claims_in : Text → DecodedToken
claims_in name = record { has_username = true; username = some name; subject = some (codes "7") }

-- A body with the fields of every request.
abbrev pub any_json : Json
any_json = object (
    entry (codes "username") (text (codes "ann")) (
      entry (codes "password") (text (codes "pw")) (
        entry (codes "name") (text (codes "team")) (
          entry (codes "other_id") (text (codes "8"))
            (entry (codes "invitee_id") (text (codes "9")) end)))))

abbrev parse : Text → Option Json
parse [] = none
parse (c ∷ s) = if text_eq (c ∷ s) (codes "!") then none else some any_json

abbrev pub env : Env
env = record {
  parse = parse;
  serialize = λ jv. codes "json";
  decode = λ token. if text_eq token (codes "bad") then none else some (claims_in token);
  mysql = mysql;
  snowflake = record { service_id = 1; sequence_id = 0; last_timestamp = 5; custom_epoch = 1 };
  clock = 9 ∷ [];
}

abbrev pub request : Verb → Text → Text → Request
request method target body = record {
  version = 11;
  keep_alive = true;
  method = method;
  target = target;
  authorization = some (codes "ann");
  body = body;
}

abbrev pub auth : Auth
auth = record {
  pwhash_str = λ s. (0, s);
  pwhash_str_verify = λ hashed plain. 0;
  sign = λ secret c. c.subject;
  jwt_secret = codes "secret";
  now = 0;
}

abbrev pub files : Files
files = record {
  join = λ root p. elim p [
    | [] ↦ root
    | c ∷ s ↦ if text_eq (c ∷ []) (codes "/") then c ∷ s else root ++ c ∷ s
  ];
  open_file = λ p. opened 12;
}

abbrev pub home : Request
home = request get (codes "/") (codes "{}")

create_p_room-Leaves_example :
    Leaves true
      (private_room_rows env (request post [] (codes "{}")))
      (create_p_room env (request post [] (codes "{}")))
create_p_room-Leaves_example =
    create_p_room-Leaves env (request post [] (codes "{}")) (λ st. refl) refl

create_g_room-Leaves_example :
    Leaves true
      (group_room_rows env (request post [] (codes "{}")))
      (create_g_room env (request post [] (codes "{}")))
create_g_room-Leaves_example =
    create_g_room-Leaves env (request post [] (codes "{}")) (λ st. refl) refl

delete_room_lem_example :
    Leaves true (delete_members 5 ∷ delete_row 5 ∷ []) (delete_room env (request delete [] []) 5)
    × (succeeded (delete_room env (request delete [] []) 5).0 ≡ true
        → IsOwner env (request delete [] []) 5)
delete_room_lem_example = delete_room_lem env (request delete [] []) 5 (λ st. refl) refl

invite_member_anyone_example :
    invite_member env
      (record (request post [] (codes "{}")) { authorization = some (codes "bob") })
      5
    ≡ invite_member env (request post [] (codes "{}")) 5
invite_member_anyone_example =
    invite_member_anyone env (request post [] (codes "{}")) 5 (some (codes "bob"))
      (record { id = 7; username = codes "ann" }) (record { id = 7; username = codes "bob" })
      (unfold extract_user_claims stoull text_eq in refl)
      (unfold extract_user_claims stoull text_eq in refl)

handle_login-LoggedIn_example : LoggedIn env auth (request post [] (codes "{}"))
handle_login-LoggedIn_example = handle_login-LoggedIn env auth (request post [] (codes "{}")) (
    unfold handle_login execute_query login_request lit string_at at as_object as_string
      create_json_response text_eq in
    refl)

malformed_throws_example :
    handle_request env auth files [] (request get (codes "/") (codes "!")) ≡ (throws, [])
malformed_throws_example =
    malformed_throws env auth files [] (request get (codes "/") (codes "!"))
      (inr (refl, (unfold text_eq in refl)))

-- `/api/rooms/42/member`.
handle_chat_room_lem_example :
    handle_chat_room env (
      request post
        (joined (codes "api" ∷ codes "rooms" ∷ to_string 42 ∷ codes "member" ∷ []))
        (codes "{}"))
    ≡ caught env
        (request post
          (joined (codes "api" ∷ codes "rooms" ∷ to_string 42 ∷ codes "member" ∷ []))
          (codes "{}"))
        (if text_eq (codes "member") (lit "member")
          then invite_member env
              (request post
                (joined (codes "api" ∷ codes "rooms" ∷ to_string 42 ∷ codes "member" ∷ []))
                (codes "{}"))
              42
          else finish (
              returned (
                bad_request env.serialize
                  (request post
                    (joined (codes "api" ∷ codes "rooms" ∷ to_string 42 ∷ codes "member" ∷ []))
                    (codes "{}"))
                  (lit " target not found"))))
handle_chat_room_lem_example =
    handle_chat_room_lem env
      (request post (joined (codes "api" ∷ codes "rooms" ∷ to_string 42 ∷ codes "member" ∷ []))
        (codes "{}"))
      (codes "api") (codes "rooms") 42 (codes "member" ∷ []) (refl, (refl, (refl, tt)))
      (refl, (refl, (refl, (refl, (refl, tt)))))
      ((refl, (refl, (refl, (refl, (refl, (refl, tt)))))), tt) (omega arith) refl

abbrev context : Text → ReqContext
context target = record {
  version = 11;
  keep_alive = true;
  method = get;
  target = target;
  jv_opt = none;
  user_claims_opt = none;
}

handle_assets-Serves_example :
    (get ≡ get) × Serves files.join (codes "/srv") (codes "/assets/a.js") (codes "/srva.js")
handle_assets-Serves_example =
    handle_assets-Serves env.serialize files (codes "/srv") (context (codes "/assets/a.js"))
      (codes "/srva.js") (unfold handle_assets contains_dots starts_with text_eq in refl)
