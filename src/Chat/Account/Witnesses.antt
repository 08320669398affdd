-- ===== src/Chat/Account/Witnesses.antt =====
-- The theorem on a registration and a login at a concrete user.
use tinychat_server.Base.{◌≡◌, refl, none, some, [], ◌∷◌, arith, if◌then◌else◌}
use tinychat_server.Text.{Text, codes, lit, text_eq, text_eq_refl}
use tinychat_server.Json.{Json, text, object, entry, end, as_object, at, as_string}
use tinychat_server.Claims.{extract_user_claims}
use tinychat_server.Models.Answers.{User}
use tinychat_server.Models.Requests.{RegisterRequest, login_request, register_request, string_at}
use tinychat_server.Database.{
  Row, returned, next_id, execute_update, password_hash, nickname, email, destroy,
}
use tinychat_server.Database.Env.{Env, draw_id}
use tinychat_server.Http.{Request, post}
use tinychat_server.Http.Responses.{create_json_response}
use tinychat_server.RequestHandler.Credentials.{Auth, hash_password, generate_login_token}
use tinychat_server.RequestHandler.Login.{welcome}
use tinychat_server.RequestHandler.Users.{handle_login, handle_register}
use tinychat_server.RequestHandler.Witnesses.{env, auth, request}
use tinychat_server.RequestHandler.Witnesses.Tokens.{pair_sign, pair_decode, pair_decode-pair_sign}
use tinychat_server.Snowflake
use tinychat_server.Chat.Account.{registered_logs_in}

abbrev asked : RegisterRequest
asked = record {
  username = codes "ann";
  password = codes "pw";
  email = codes "a@b";
  nickname = codes "Ann";
}

abbrev account_json : Json
account_json = object (
    entry (codes "username") (text (codes "ann")) (
      entry (codes "password") (text (codes "pw")) (
        entry (codes "email") (text (codes "a@b"))
          (entry (codes "nickname") (text (codes "Ann")) end))))

-- A hash is the password behind a mark, and verifies only with it.
abbrev hashing : Auth
hashing = record auth {
  pwhash_str = λ s. (0, 36 ∷ s);
  pwhash_str_verify = λ hashed plain. if text_eq hashed (36 ∷ plain) then 0 else 1;
  sign = pair_sign;
}

abbrev ann_row : Row
ann_row = record {
  get_int = λ c. none;
  get_uint64 = λ c. some 33558528;
  get_string = λ c. elim c [
    | password_hash ↦ some (codes "$pw")
    | nickname ↦ some (codes "Ann")
    | email ↦ some (codes "a@b")
    | _ ↦ some []
  ];
}

abbrev users : Env
users = record env {
  parse = λ s. some account_json;
  decode = pair_decode;
  mysql = record env.mysql { rows = λ st. some (ann_row ∷ []) };
}

abbrev body : Request
body = request post [] (codes "{}")

verifies :
    (plain hashed : Text)
    → hash_password hashing.pwhash_str plain ≡ some hashed
    → hashing.pwhash_str_verify hashed plain ≡ 0
unfolding hash_password
verifies plain hashed e = ground (arith, text_eq_refl (36 ∷ plain))

registered_logs_in_example :
    (user : User) × ((handle_login users (record hashing { now = 7 }) body).0
      ≡ welcome users (record hashing { now = 7 }) body user)
    × (draw_id users ≡ (returned user.id, next_id ∷ []))
    × (user.email ≡ codes "a@b")
    × (user.nickname ≡ codes "Ann")
    × (extract_user_claims pair_decode
          (generate_login_token pair_sign (codes "secret") 7 user.username user.id)
        ≡ some (record { id = user.id; username = codes "ann" }))
unfolding handle_register execute_update register_request login_request string_at as_object at
    as_string create_json_response lit text_eq draw_id Snowflake.next_id destroy hash_password
registered_logs_in_example =
    registered_logs_in users users hashing 7 body body account_json account_json asked refl refl
      refl refl refl refl verifies pair_decode-pair_sign (omega arith) refl refl
      (
        (
          ann_row,
          refl,
          record {
            avatar = [];
            created = [];
            has_id = refl;
            has_hash = refl;
            has_email = refl;
            has_nickname = refl;
            has_avatar = refl;
            has_created = refl;
          },
        ),
        tt,
      )
