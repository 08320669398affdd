-- ===== src/RequestHandler/Routing.antt =====
-- Where requests end (src/core/request_handler.hpp, `handle_request`).
use tinychat_server.Base.{
  ℕ, ◌<◌, ◌^◌, ◌≡◌, ◌⊎◌, refl, inl, inr, false, none, some, List, [], ◌∷◌, arith, All, get_or,
  if◌then◌else◌,
}
use tinychat_server.Text.{Text, lit, is_empty, text_eq}
use tinychat_server.Text.Decimal.{to_string, stoull-to_string, IsDigits, to_string-IsDigits}
use tinychat_server.Claims.{extract_user_claims}
use tinychat_server.Database.{returned, throws, undefined, M, finish, try_catch, execute_query}
use tinychat_server.Database.Env.{Env, claims_of_token}
use tinychat_server.Http.{Request, Response}
use tinychat_server.Http.Responses.{bad_request, context_error_resp}
use tinychat_server.RequestHandler.Assets.{ReqContext, Files}
use tinychat_server.RequestHandler.Credentials.{Auth}
use tinychat_server.RequestHandler.Dispatch.{handle_request}
use tinychat_server.RequestHandler.Members.{
  handle_chat_room, room_operation, delete_room, invite_member, is_delete,
}
use tinychat_server.RequestHandler.Target.{extract_target_param-joined, joined, NoSlash}
use tinychat_server.RequestHandler.Transactions.{succeeded}
use tinychat_server.RequestHandler.Users.{query_rooms}

-- A request with a token that is refused, or with a body that is no JSON, throws out of
-- `handle_request` whatever its target and method, before any call is made; nothing catches that on
-- the worker.
pub malformed_throws :
    (env : Env) (auth : Auth) (files : Files) (doc_root : Text) (req : Request)
    → ((token : Text) × (req.authorization ≡ some token)
        × (extract_user_claims env.decode token ≡ none))
      ⊎ ((is_empty req.body ≡ false) × (env.parse req.body ≡ none))
    → handle_request env auth files doc_root req ≡ (throws, [])
unfolding handle_request claims_of_token
malformed_throws env auth files doc_root req (inl (token, a, e)) = rw (a, e) refl
malformed_throws env auth files doc_root req (inr (b, e)) = ground (arith, b, e)

-- Listing the rooms of a user never succeeds: it ends in an error answer, waits for a connection, or
-- reaches the end of a function that must return.
pub query_rooms_fails : (env : Env) (ctx : ReqContext) → succeeded (query_rooms env ctx).0 ≡ false
unfolding query_rooms execute_query context_error_resp
query_rooms_fails env ctx = ground arith

digits-NoSlash : (s : Text) → IsDigits s → NoSlash s
digits-NoSlash [] h = tt
digits-NoSlash (c ∷ s) h = (ground (arith, h.0), digits-NoSlash s h.1)

module _ (env : Env) (req : Request) where
  -- The handler around the operations.
  abbrev pub caught : M Response → M Response
  caught m = try_catch m (finish (returned (bad_request env.serialize req (lit " Server Error"))))

  at_target :
      (segments : List Text) (room_id : ℕ)
      → req.target ≡ joined segments
      → All NoSlash segments
      → get_or segments 2 [] ≡ to_string room_id
      → room_id < 2 ^ 64
      → handle_chat_room env req ≡ caught (room_operation env req room_id (get_or segments 3 []))
  unfolding handle_chat_room
  at_target segments room_id t n i fits =
      rw
        (
          t,
          extract_target_param-joined segments 2 n,
          extract_target_param-joined segments 3 n,
          i,
          stoull-to_string room_id fits,
        )
        refl

  -- A target `/api/rooms/ID/VERB...` runs the operation of its verb on the room with that number:
  -- `DELETE` and no verb deletes it, and any other method reaches the end of the function; `member`
  -- invites to it; any other verb is refused. What is thrown on the way is answered.
  pub handle_chat_room_lem :
      (api rooms : Text) (room_id : ℕ) (rest : List Text)
      → NoSlash api
      → NoSlash rooms
      → All NoSlash rest
      → room_id < 2 ^ 64
      → req.target ≡ joined (api ∷ rooms ∷ to_string room_id ∷ rest)
      → handle_chat_room env req
        ≡ caught (
            if is_empty (get_or rest 0 [])
            then (if is_delete req.method then delete_room env req room_id else finish undefined)
            else if text_eq (get_or rest 0 []) (lit "member")
            then invite_member env req room_id
            else finish (returned (bad_request env.serialize req (lit " target not found"))))
  unfolding room_operation
  handle_chat_room_lem api rooms room_id rest a r h fits t =
      at_target (api ∷ rooms ∷ to_string room_id ∷ rest) room_id t
        (a, (r, (digits-NoSlash (to_string room_id) (to_string-IsDigits room_id), h))) refl fits
