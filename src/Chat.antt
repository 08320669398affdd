-- ===== src/Chat.antt =====
-- A message on its way from the connection of its sender to those of its receivers: what
-- `WSHandler::handle_message` (src/core/ws_handler.cpp) calls, done by the registry
-- (src/core/ws_session_mgr.cpp) on the connections (src/core/websocket_session.cpp).
pub mod Delivery
pub mod Login
pub mod Account
pub mod Lost
pub mod Rooms
mod Witnesses
use tinychat_server.Base.{ℕ, Bool, List, [], ◌∷◌, ◌==◌, if◌then◌else◌}
use tinychat_server.Text.{Text}
use tinychat_server.Database.{
  Call, connect, reconnect, commit, rollback, free_conn, next_id, set_auto_commit, update, query,
  write_to, write_to_room,
}
use tinychat_server.SessionMgr.{Sessions}
use tinychat_server.SessionMgr
use tinychat_server.WsSession.{send}
use tinychat_server.WsSession.World.{World, performs}

-- The registry, and the connections by their numbers.
pub record Chat : Type 0 where
  pub sessions : Sessions
  pub world : ℕ → World

-- `session_ptr->send(...)` for each message, in order.
unfoldable pub send_each : List (ℕ × Text) → (ℕ → World) → ℕ → World
unfolding performs send
send_each [] f = f
send_each ((session, msg) ∷ rest) f =
    send_each rest (λ j. if session == j then performs (f j) (send msg) else f j)

abbrev handed : List (ℕ × Text) × Sessions → Chat → Chat
handed (sent, m) c = record { sessions = m; world = send_each sent c.world }

-- `alive` says which connections can be locked, and `members` what the query for the members of a
-- room returns. The other calls of a handler are on the database and the id generator.
unfoldable pub perform_call : (ℕ → Bool) → (ℕ → List ℕ) → Call → Chat → Chat
unfolding send_each
perform_call alive members (write_to user msg) c =
    handed (SessionMgr.write_to alive user msg c.sessions) c
perform_call alive members (write_to_room room msg) c =
    handed (SessionMgr.write_to_room alive (members room) msg c.sessions) c
perform_call alive members connect c = c
perform_call alive members reconnect c = c
perform_call alive members commit c = c
perform_call alive members rollback c = c
perform_call alive members free_conn c = c
perform_call alive members next_id c = c
perform_call alive members (set_auto_commit b) c = c
perform_call alive members (update st) c = c
perform_call alive members (query st) c = c

unfoldable pub perform_calls : (ℕ → Bool) → (ℕ → List ℕ) → List Call → Chat → Chat
unfolding perform_call
perform_calls alive members [] c = c
perform_calls alive members (call ∷ calls) c =
    perform_calls alive members calls (perform_call alive members call c)
