-- ===== src/WsSession.antt =====
-- src/core/websocket_session.hpp and websocket_session.cpp: one WebSocket connection.
-- A handler returns the new session and, in order, the operations that it starts. Messages are
-- texts; the connection's number is what its `weak_ptr` in the registry names.
pub mod World
pub mod Fifo
pub mod Buffer
pub mod Drain
pub mod Writes
pub mod Accept
mod Witnesses
use tinychat_server.Base.{
  ℕ, Bool, true, false, Option, none, some, List, [], ◌∷◌, ◌++◌, length, ◌==◌, if◌then◌else◌,
}
use tinychat_server.Text.{Text}
use tinychat_server.Claims.{UserClaims, DecodedToken, extract_user_claims}

pub record WebsocketSession : Type 0 where
  pub buffer : Text
  pub message_queue : List Text
  pub user_claims : UserClaims

pub data Action : Type 0 where
  register : ℕ → Action  -- `WSSessionMgr::add_session` of this connection under a user's id
  unregister : ℕ → Action  -- `WSSessionMgr::remove_session`
  async_accept : Action
  async_read : Action
  async_write : Text → Action
  add_task : Text → UserClaims → Action  -- `WSHandler::handle_message` on the worker pool
  post_on_send : Text → Action  -- `net::post` to the connection's strand

abbrev pub Effect : Type 0
Effect = WebsocketSession × List Action

-- What a read or an accept ends with.
pub data Ended : Type 0 where
  success closed failed : Ended

-- `none` is an exception of `extract_user_claims`.
unfoldable pub auth_user : (Text → Option DecodedToken) → WebsocketSession → Text → Option Effect
auth_user decode s token = elim (extract_user_claims decode token) [
  | none ↦ none
  | some claims ↦ some (record s { user_claims = claims }, register claims.id ∷ [])
]

authenticated : WebsocketSession → Option Effect → Effect
authenticated s none = (s, [])
authenticated s (some (s', actions)) = (s', actions ++ async_accept ∷ [])

-- The argument is the value of the field `Authorization`, if the request has it.
unfoldable pub do_accept : (Text → Option DecodedToken) → WebsocketSession → Option Text → Effect
unfolding authenticated auth_user
do_accept decode s none = (s, [])
do_accept decode s (some []) = (s, [])
do_accept decode s (some (c ∷ token)) = authenticated s (auth_user decode s (c ∷ token))

unfoldable pub do_read : List Action
do_read = async_read ∷ []

unfoldable pub on_accept : WebsocketSession → Ended → Effect
unfolding do_read
on_accept s success = (s, do_read)
on_accept s closed = (s, [])
on_accept s failed = (s, [])

-- The whole buffer goes to the handler, and the next read is into the same buffer.
unfoldable pub on_read : WebsocketSession → Ended → Effect
unfolding do_read
on_read s success = (s, add_task s.buffer s.user_claims ∷ do_read)
on_read s closed = (s, [])
on_read s failed = (s, [])

unfoldable pub send : Text → List Action
send msg = post_on_send msg ∷ []

abbrev pub write_front : List Text → List Action
write_front [] = []
write_front (msg ∷ rest) = async_write msg ∷ []

unfoldable pub on_send : WebsocketSession → Text → Effect
on_send s msg =
    let queue = s.message_queue ++ msg ∷ [] in
    (record s { message_queue = queue }, if length queue == 1 then write_front queue else [])

abbrev pub pop : List Text → List Text
pop [] = []
pop (msg ∷ rest) = rest

unfoldable pub on_write : WebsocketSession → Bool → Effect
on_write s error =
    if error
    then (s, [])
    else (record s { message_queue = pop s.message_queue }, write_front (pop s.message_queue))

-- The destructor.
unfoldable pub destroy : WebsocketSession → List Action
destroy s = unregister s.user_claims.id ∷ []
