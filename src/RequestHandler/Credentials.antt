-- ===== src/RequestHandler/Credentials.antt =====
-- Passwords, tokens and private-room names of src/core/request_handler.cpp. The functions of
-- libsodium and jwt-cpp that the code calls are parameters.
use tinychat_server.Base.{
  ℕ, ◌+◌, ◌-◌, ◌*◌, ◌/◌, ◌%◌, ◌^◌, ◌<◌, ◌≡◌, refl, sym, ◌∙◌, ap, Bool, true, false, Option, none,
  some, List, [], ◌∷◌, ◌++◌, arith, ltb, ◌==◌, if◌then◌else◌, length, All, inl, inr, Bool-cases,
}
use tinychat_server.Text.{Text, lit}
use tinychat_server.Text.Decimal.{to_string, stoull-to_string}
use tinychat_server.Claims.{DecodedToken, extract_user_claims}

-- What `crypto_pwhash_str` leaves in its buffer, with its result.
unfoldable pub hash_password : (Text → ℕ × Text) → Text → Option Text
hash_password crypto_pwhash_str plain_password =
    let (result, hashed) = crypto_pwhash_str plain_password in
    if result == 0 then some hashed else none

unfoldable pub verify_password : (Text → Text → ℕ) → Text → Text → Bool
verify_password crypto_pwhash_str_verify plain_password stored_hash =
    if crypto_pwhash_str_verify stored_hash plain_password == 0 then true else false

-- `a > b` on strings: the first byte that differs decides.
unfoldable pub text_gt : Text → Text → Bool
text_gt [] t = false
text_gt (c ∷ s) [] = true
text_gt (c ∷ s) (d ∷ t) = let rest = text_gt s t in if c == d then rest else ltb d c

-- A byte in hexadecimal, as the stream writes it with two digits.
unfoldable pub hex_digit : ℕ → ℕ
hex_digit n = if ltb n 10 then b'0' + n else b'a' + (n - 10)

unfoldable pub bytes_to_hex : List ℕ → Text
unfolding hex_digit
bytes_to_hex [] = []
bytes_to_hex (b ∷ bytes) = hex_digit (b / 16) ∷ hex_digit (b % 16) ∷ bytes_to_hex bytes

-- The key that is hashed: the two names in order, with "::" between them.
unfoldable pub combined_key : Text → Text → Text
unfolding text_gt
combined_key u1 u2 = if text_gt u1 u2 then u2 ++ (lit "::" ++ u1) else u1 ++ (lit "::" ++ u2)

-- `hash` is `crypto_generichash` with twenty bytes.
unfoldable pub generate_private_room_uuid : (Text → List ℕ) → Text → Text → Text
unfolding combined_key bytes_to_hex
generate_private_room_uuid hash u1 u2 = lit "pr-" ++ bytes_to_hex (hash (combined_key u1 u2))

-- The claims of a token that `jwt::create` builds.
pub record TokenClaims : Type 0 where
  pub type : Text
  pub issuer : Text
  pub subject : Text
  pub expires_at : ℕ
  pub username : Text

-- Thirty days, in seconds.
abbrev pub lifetime : ℕ
lifetime = 24 * 3600 * 30

-- `sign` is `hs256` with a secret, and `now` the system clock in seconds.
unfoldable pub generate_login_token : (Text → TokenClaims → Text) → Text → ℕ → Text → ℕ → Text
generate_login_token sign jwt_secret now username id = sign jwt_secret (record {
  type = lit "JWS";
  issuer = lit "tinychat_server";
  subject = to_string id;
  expires_at = now + lifetime;
  username = username;
})

-- What libsodium, jwt-cpp, the clock and the configuration give a handler.
pub record Auth : Type 0 where
  pub pwhash_str : Text → ℕ × Text
  pub pwhash_str_verify : Text → Text → ℕ
  pub sign : Text → TokenClaims → Text
  pub jwt_secret : Text
  pub now : ℕ

-- A token of a login is read back as the user's id and name, if decoding gives the claims that were
-- signed and the id fits 64 bits; the secret is not needed for that.
pub extract_user_claims-generate_login_token :
    (sign : Text → TokenClaims → Text) (decode : Text → Option DecodedToken)
    (jwt_secret username : Text) (now id : ℕ)
    → ((secret : Text) (c : TokenClaims)
        → decode (sign secret c)
          ≡ some (record {
            has_username = true;
            username = some c.username;
            subject = some c.subject;
          }))
    → id < 2 ^ 64
    → extract_user_claims decode (generate_login_token sign jwt_secret now username id)
      ≡ some (record { id = id; username = username })
unfolding extract_user_claims generate_login_token
extract_user_claims-generate_login_token sign decode jwt_secret username now id reads fits =
    rw
      (reads jwt_secret (record {
        type = lit "JWS";
        issuer = lit "tinychat_server";
        subject = to_string id;
        expires_at = now + lifetime;
        username = username;
      }))
      (rw (stoull-to_string id fits) refl)

text_gt_asymm : (s t : Text) → text_gt s t ≡ true → text_gt t s ≡ false
unfolding text_gt
text_gt_asymm [] t h = cc
text_gt_asymm (c ∷ s) [] h = refl
text_gt_asymm (c ∷ s) (d ∷ t) h = ground (arith, text_gt_asymm s t)

eq_of_not_text_gt : (s t : Text) → text_gt s t ≡ false → text_gt t s ≡ false → s ≡ t
unfolding text_gt
eq_of_not_text_gt [] [] h k = refl
eq_of_not_text_gt [] (d ∷ t) h k = cc
eq_of_not_text_gt (c ∷ s) [] h k = cc
eq_of_not_text_gt (c ∷ s) (d ∷ t) h k = ground (arith, eq_of_not_text_gt s t)

combined_key_comm : (u1 u2 : Text) → combined_key u1 u2 ≡ combined_key u2 u1
unfolding combined_key
combined_key_comm u1 u2 = elim (Bool-cases (text_gt u1 u2)) [
  | inl h ↦ rw (h, text_gt_asymm u1 u2 h) refl
  | inr h ↦ elim (Bool-cases (text_gt u2 u1)) [
    | inl k ↦ rw (h, k) refl
    | inr k ↦ rw (eq_of_not_text_gt u1 u2 h k) refl
  ]
]

length-bytes_to_hex : (bytes : List ℕ) → length (bytes_to_hex bytes) ≡ 2 * length bytes
unfolding bytes_to_hex
length-bytes_to_hex [] = refl
length-bytes_to_hex (b ∷ bytes) = omega (arith, length-bytes_to_hex bytes)

abbrev pub hex_value : ℕ → ℕ
hex_value c = if ltb c b'a' then c - b'0' else c - b'a' + 10

-- The bytes that a text of hexadecimal digits spells.
abbrev pub hex_to_bytes : Text → List ℕ
hex_to_bytes [] = []
hex_to_bytes (c ∷ []) = []
hex_to_bytes (c ∷ d ∷ s) = (hex_value c * 16 + hex_value d) ∷ hex_to_bytes s

hex_value-hex_digit : (n : ℕ) → n < 16 → hex_value (hex_digit n) ≡ n
unfolding hex_digit
hex_value-hex_digit n h = ground arith

-- Bytes in hexadecimal are two digits each, and are read back from them.
pub hex_to_bytes-bytes_to_hex :
    (bytes : List ℕ)
    → All (λ b. b < 256) bytes
    → (hex_to_bytes (bytes_to_hex bytes) ≡ bytes) × (length (bytes_to_hex bytes) ≡ 2 * length bytes)
unfolding bytes_to_hex
hex_to_bytes-bytes_to_hex [] h = (refl, refl)
hex_to_bytes-bytes_to_hex (b ∷ bytes) h =
    let (rest, size) = hex_to_bytes-bytes_to_hex bytes h.1 in
    (
      ground (
        arith,
        hex_value-hex_digit (b / 16) (omega (arith, h.0)),
        hex_value-hex_digit (b % 16) (omega arith),
        rest,
      ),
      omega (arith, size),
    )

abbrev behind_prefix : Text → Text
behind_prefix (p ∷ r ∷ dash ∷ s) = s
behind_prefix s = s

-- The name of a private room does not depend on the order of its two users; and two pairs of users
-- whose rooms have one name have keys with one hash.
pub generate_private_room_uuid_lem :
    (hash : Text → List ℕ) (u1 u2 v1 v2 : Text)
    → ((key : Text) → All (λ b. b < 256) (hash key))
    → (generate_private_room_uuid hash u1 u2 ≡ generate_private_room_uuid hash u2 u1)
      × (generate_private_room_uuid hash u1 u2 ≡ generate_private_room_uuid hash v1 v2
          → hash (combined_key u1 u2) ≡ hash (combined_key v1 v2))
unfolding generate_private_room_uuid lit
generate_private_room_uuid_lem hash u1 u2 v1 v2 bytes = (
  ap (λ k. lit "pr-" ++ bytes_to_hex (hash k)) (combined_key_comm u1 u2),
  λ e.
      sym (hex_to_bytes-bytes_to_hex (hash (combined_key u1 u2)) (bytes (combined_key u1 u2))).0
      ∙ ap (λ t. hex_to_bytes (behind_prefix t)) e
      ∙ (hex_to_bytes-bytes_to_hex (hash (combined_key v1 v2)) (bytes (combined_key v1 v2))).0,
)
