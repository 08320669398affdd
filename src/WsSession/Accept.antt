-- ===== src/WsSession/Accept.antt =====
-- Who gets a WebSocket connection (src/core/websocket_session.hpp, `do_accept`).
use tinychat_server.Base.{
  ◌≡◌, ◌⊎◌, refl, Option, none, some, [], ◌∷◌, arith, inl, inr, Option-cases,
}
use tinychat_server.Text.{Text}
use tinychat_server.Claims.{UserClaims, DecodedToken, extract_user_claims}
use tinychat_server.WsSession.{WebsocketSession, register, async_accept, do_accept}

-- The claims that a header gives: none for a missing or an empty field, or if the token is refused.
abbrev pub claims_of : (Text → Option DecodedToken) → Option Text → Option UserClaims
claims_of decode none = none
claims_of decode (some []) = none
claims_of decode (some (c ∷ token)) = extract_user_claims decode (c ∷ token)

-- The connection is accepted exactly for a header whose token has claims: then it carries these
-- claims and is registered under their id before it is accepted. Otherwise nothing is started and
-- the session is as it was.
pub do_accept_lem :
    (decode : Text → Option DecodedToken) (s : WebsocketSession) (header : Option Text)
    → ((claims_of decode header ≡ none) × (do_accept decode s header ≡ (s, [])))
      ⊎ ((claims : UserClaims) × (claims_of decode header ≡ some claims)
          × (do_accept decode s header
              ≡ (record s { user_claims = claims }, register claims.id ∷ async_accept ∷ [])))
unfolding do_accept
do_accept_lem decode s none = inl (refl, refl)
do_accept_lem decode s (some []) = inl (refl, refl)
do_accept_lem decode s (some (c ∷ token)) =
    elim (Option-cases (extract_user_claims decode (c ∷ token))) [
      | inl e ↦ inl (e, ground (arith, e))
      | inr (claims, e) ↦ inr (claims, e, ground (arith, e))
    ]
