-- ===== src/Database/Env.antt =====
-- What a handler is given by the libraries, the configuration and the other components.
use tinychat_server.Base.{ℕ, ◌≡◌, ◌⊎◌, inl, inr, refl, Option, List, [], ◌∷◌}
use tinychat_server.Text.{Text}
use tinychat_server.Json.{Json}
use tinychat_server.Claims.{UserClaims, DecodedToken, extract_user_claims}
use tinychat_server.Snowflake.{SnowFlake, next_id}
use tinychat_server.Snowflake
use tinychat_server.Database.{Mysql, M, returned, throws, waits, finish, Call, from_option}

pub record Env : Type 0 where
  pub parse : Text → Option Json  -- `json::parse`
  pub serialize : Json → Text  -- `json::serialize`
  pub decode : Text → Option DecodedToken  -- jwt-cpp
  pub mysql : Mysql
  pub snowflake : SnowFlake  -- the id generator, and the readings of the clock to come
  pub clock : List ℕ

abbrev pub id_drawn : Snowflake.Outcome → M ℕ
id_drawn (Snowflake.Outcome.returned i) = (returned i, Call.next_id ∷ [])
id_drawn (Snowflake.Outcome.threw e) = finish throws
id_drawn Snowflake.Outcome.initialized = finish throws
id_drawn Snowflake.Outcome.spinning = finish waits

-- `SnowFlake::next_id()`.
unfoldable pub draw_id : Env → M ℕ
draw_id env = id_drawn (next_id env.snowflake env.clock).0

-- `RequestHandler::extract_user_claims`.
unfoldable pub claims_of_token : Env → Text → M UserClaims
claims_of_token env token = from_option (extract_user_claims env.decode token)

id_drawn-cases :
    (o : Snowflake.Outcome)
    → ((i : ℕ) × (id_drawn o ≡ (returned i, Call.next_id ∷ [])))
      ⊎ ((id_drawn o ≡ finish throws) ⊎ (id_drawn o ≡ finish waits))
id_drawn-cases (Snowflake.Outcome.returned i) = inl (i, refl)
id_drawn-cases (Snowflake.Outcome.threw e) = inr (inl refl)
id_drawn-cases Snowflake.Outcome.initialized = inr (inl refl)
id_drawn-cases Snowflake.Outcome.spinning = inr (inr refl)

pub draw_id-cases :
    (env : Env)
    → ((i : ℕ) × (draw_id env ≡ (returned i, Call.next_id ∷ [])))
      ⊎ ((draw_id env ≡ finish throws) ⊎ (draw_id env ≡ finish waits))
unfolding draw_id
draw_id-cases env = id_drawn-cases (next_id env.snowflake env.clock).0

id_drawn-returned :
    (o : Snowflake.Outcome) (i : ℕ)
    → id_drawn o ≡ (returned i, Call.next_id ∷ [])
    → o ≡ Snowflake.Outcome.returned i
id_drawn-returned (Snowflake.Outcome.returned j) i e = cc
id_drawn-returned (Snowflake.Outcome.threw x) i e = cc
id_drawn-returned Snowflake.Outcome.initialized i e = cc
id_drawn-returned Snowflake.Outcome.spinning i e = cc

-- The id that a handler draws is one that the generator returns.
pub draw_id-returned :
    (env : Env) (i : ℕ)
    → draw_id env ≡ (returned i, Call.next_id ∷ [])
    → (next_id env.snowflake env.clock).0 ≡ Snowflake.Outcome.returned i
unfolding draw_id
draw_id-returned env i e = id_drawn-returned (next_id env.snowflake env.clock).0 i e
