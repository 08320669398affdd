-- ===== src/Chat/Lost.antt =====
-- What becomes of the messages of a client after its first: the buffer of the connection
-- (src/core/websocket_session.cpp, `on_read`) with the handler that parses it
-- (src/core/ws_handler.cpp).
use tinychat_server.Base.{
  ℕ, suc, ◌≡◌, refl, ap, ◌∙◌, Bool, true, false, ◌||◌, ◌&&◌, Option, none, some, List, [], ◌∷◌,
  ◌++◌, append_assoc, arith, All, length, ◌==◌,
}
use tinychat_server.Text.{Text}
use tinychat_server.Json.{Json, Entries, object}
use tinychat_server.Claims.{UserClaims, DecodedToken}
use tinychat_server.Database.{Outcome, begin_transaction, roll_back}
use tinychat_server.Database.Durable.{durable, in_force-destroy}
use tinychat_server.Database.Env.{Env}
use tinychat_server.WsHandler.{handle_message, try_message}
use tinychat_server.WsHandler.Spec.{messages, messages-destroy}
use tinychat_server.WsSession.World.{World, Reach}
use tinychat_server.WsSession.Buffer.{growing, tagged, Reach-IsGrowing}

-- The white space of JSON.
abbrev pub is_blank : Text → Bool
is_blank [] = true
is_blank (c ∷ s) = (c == 32 || c == 9 || c == 10 || c == 13) && is_blank s

-- A value ends where its closing brace is: nothing but white space may follow.
abbrev EndsObjects : (Text → Option Json) → Type 0
EndsObjects parse =
    (value more : Text) (obj : Entries)
    → parse value ≡ some (object obj)
    → is_blank more ≡ false
    → parse (value ++ more) ≡ none

-- The handler of a task changes nothing in the database and sends nothing.
abbrev pub IsLost : Env → (ℕ → Outcome (Unit {0})) → Text × UserClaims → Type 0
IsLost env room_written (payload, claims) =
    (durable (handle_message env room_written claims payload).1 ≡ [])
    × (messages (handle_message env room_written claims payload).1 ≡ [])

is_blank-append : (s t : Text) → is_blank s ≡ false → is_blank (s ++ t) ≡ false
is_blank-append [] t h = cc
is_blank-append (c ∷ s) t h = ground (arith, is_blank-append s t)

length-tagged :
    (claims : UserClaims) (start : Text) (fs : List Text)
    → length (tagged claims (growing start fs)) ≡ length fs
length-tagged claims start [] = refl
length-tagged claims start (f ∷ fs) = omega (arith, length-tagged claims (start ++ f) fs)

module _ (env : Env) (room_written : ℕ → Outcome (Unit {0})) where
  unparsed-IsLost :
      (claims : UserClaims) (payload : Text)
      → env.parse payload ≡ none
      → IsLost env room_written (payload, claims)
  unfolding handle_message try_message begin_transaction roll_back
  unparsed-IsLost claims payload e = ground (
    arith,
    in_force-destroy env.mysql true [],
    in_force-destroy env.mysql false [],
    messages-destroy env.mysql,
  )

  growing-IsLost :
      (claims : UserClaims) (first start more : Text) (obj : Entries) (fs : List Text)
      → EndsObjects env.parse
      → env.parse first ≡ some (object obj)
      → start ≡ first ++ more
      → is_blank more ≡ false
      → All (IsLost env room_written) (tagged claims (growing start fs))
  growing-IsLost claims first start more obj [] ends p e b = tt
  growing-IsLost claims first start more obj (f ∷ fs) ends p e b =
      let longer : start ++ f ≡ first ++ (more ++ f) =
        ap (λ s. s ++ f) e ∙ append_assoc first more f in
      let still : is_blank (more ++ f) ≡ false = is_blank-append more f b in
      (
        unparsed-IsLost claims (start ++ f)
            (ap (λ s. env.parse s) longer ∙ ends first (more ++ f) obj p still),
        growing-IsLost claims first (start ++ f) (more ++ f) obj fs ends p longer still,
      )

-- Once the first message of a connection was an object and the second is not empty or just white
-- space, the second and every later one is lost: each gets a task, whose handler stores nothing and
-- sends nothing, not even a refusal. `read_into` appends to the buffer as Beast's reads do, and the
-- parser takes nothing but white space behind an object.
pub later_messages-IsLost :
    (env : Env) (room_written : ℕ → Outcome (Unit {0})) (read_into : Text → Text → Text)
    (decode : Text → Option DecodedToken) (nobody : UserClaims) (header : Option Text) {w : World}
    (first second : Text) (rest : List Text) (obj : Entries)
    → Reach read_into decode nobody header w
    → ((buffer frame : Text) → read_into buffer frame ≡ buffer ++ frame)
    → ((value more : Text) (v : Entries)
        → env.parse value ≡ some (object v)
        → is_blank more ≡ false
        → env.parse (value ++ more) ≡ none)
    → w.frames ≡ first ∷ second ∷ rest
    → env.parse first ≡ some (object obj)
    → is_blank second ≡ false
    → (later : List (Text × UserClaims)) × (w.tasks ≡ (first, w.session.user_claims) ∷ later)
      × (length later ≡ suc (length rest))
      × All (IsLost env room_written) later
later_messages-IsLost env room_written read_into decode nobody header {w} first second rest obj r
      appends ends e p b =
    let claims : UserClaims = w.session.user_claims in
    let handed = (Reach-IsGrowing read_into decode nobody header r appends).handed in
    (
      tagged claims (growing first (second ∷ rest)),
      handed ∙ ap (λ fs. tagged claims (growing [] fs)) e,
      length-tagged claims first (second ∷ rest),
      (
        unparsed-IsLost env room_written claims (first ++ second) (ends first second obj p b),
        growing-IsLost env room_written claims first (first ++ second) second obj rest ends p refl
            b,
      ),
    )
