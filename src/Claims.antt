-- ===== src/Claims.antt =====
-- src/core/request_handler.cpp, `extract_user_claims`, and `UserClaims` of
-- src/model/auth_models.hpp. The token library (jwt-cpp) is a parameter: `decode` returns what the
-- code asks of a decoded token, and `none` where it throws.
use tinychat_server.Base.{ℕ, Bool, Option, none, some, if◌then◌else◌}
use tinychat_server.Base.Maybe.{◌>>=◌}
use tinychat_server.Text.{Text}
use tinychat_server.Text.Decimal.{stoull}

pub record UserClaims : Type 0 where
  pub id : ℕ
  pub username : Text

-- A decoded token: whether the payload has the claim "username", its text (`none` where
-- `as_string` throws), and the subject (`none` where `get_subject` throws).
pub record DecodedToken : Type 0 where
  pub has_username : Bool
  pub username : Option Text
  pub subject : Option Text

-- `none` is an exception.
unfoldable pub extract_user_claims : (Text → Option DecodedToken) → Text → Option UserClaims
extract_user_claims decode token = do
  decoded ← decode token
  if decoded.has_username
      then (do
        subject ← decoded.subject
        id ← stoull subject
        username ← decoded.username
        some (record { id = id; username = username }))
      else none
