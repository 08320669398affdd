-- ===== src/WsSession/World.antt =====
-- A WebSocket connection with the operations that it has started and that are not done, and the
-- steps that Asio and the other threads may take, in any order (src/core/websocket_session.cpp).
use tinychat_server.Base.{ℕ, suc, ◌+◌, ◌≡◌, ◌≢◌, Bool, true, false, Option, List, [], ◌∷◌, ◌++◌}
use tinychat_server.Text.{Text}
use tinychat_server.Claims.{UserClaims, DecodedToken}
use tinychat_server.WsSession.{
  WebsocketSession, Action, register, unregister, async_accept, async_read, async_write, add_task,
  post_on_send, Effect, Ended, success, do_accept, on_accept, on_read, send, on_send, on_write,
}

pub record World : Type 0 where
  pub session : WebsocketSession
  pub accepts : ℕ  -- outstanding
  pub reads : ℕ  -- outstanding
  pub posted : List Text  -- waiting on the strand
  pub writes : List Text  -- outstanding
  pub registered : List ℕ
  pub tasks : List (Text × UserClaims)  -- handed to the worker pool, oldest first
  pub frames : List Text  -- the messages that the client has sent, oldest first
  pub accepted : List Text  -- all messages given to `on_send`, oldest first
  pub written : List Text  -- oldest first
  pub broken : Bool  -- a write has failed

unfoldable pub perform : World → Action → World
perform w (register user) = record w { registered = user ∷ w.registered }
perform w (unregister user) = w
perform w async_accept = record w { accepts = w.accepts + 1 }
perform w async_read = record w { reads = w.reads + 1 }
perform w (async_write msg) = record w { writes = w.writes ++ msg ∷ [] }
perform w (add_task payload claims) = record w { tasks = w.tasks ++ (payload, claims) ∷ [] }
perform w (post_on_send msg) = record w { posted = w.posted ++ msg ∷ [] }

unfoldable pub performs : World → List Action → World
unfolding perform
performs w [] = w
performs w (a ∷ rest) = performs (perform w a) rest

abbrev pub take_effect : World → Effect → World
take_effect w (s, actions) = performs (record w { session = s }) actions

-- A fresh connection after `do_accept` of a request with this header.
unfoldable pub upgraded : (Text → Option DecodedToken) → UserClaims → Option Text → World
unfolding performs do_accept
upgraded decode nobody header =
    let session : WebsocketSession = record {
      buffer = [];
      message_queue = [];
      user_claims = nobody;
    } in
    take_effect
      (record {
        session = session;
        accepts = 0;
        reads = 0;
        posted = [];
        writes = [];
        registered = [];
        tasks = [];
        frames = [];
        accepted = [];
        written = [];
        broken = false;
      })
      (do_accept decode session header)

-- `read_into` is what Beast's `async_read` does to the buffer with a message that has come in.
-- `nobody` stands for the claims that the constructor leaves unset.
module _ (read_into : Text → Text → Text) (decode : Text → Option DecodedToken)
    (nobody : UserClaims) (header : Option Text) where
  pub data Step (w : World) : World → Type 0 where
    accept_done :
        (n : ℕ) (e : Ended)
        → w.accepts ≡ suc n
        → Step w (take_effect (record w { accepts = n }) (on_accept w.session e))
    read_done :
        (n : ℕ) (frame : Text)
        → w.reads ≡ suc n
        → Step w (
            take_effect
              (record w { reads = n; frames = w.frames ++ frame ∷ [] })
              (on_read (record w.session { buffer = read_into w.session.buffer frame }) success))
    read_ended :
        (n : ℕ) (e : Ended)
        → w.reads ≡ suc n
        → e ≢ success
        → Step w (take_effect (record w { reads = n }) (on_read w.session e))
    sent : (msg : Text) → Step w (performs w (send msg))
    post_run :
        (msg : Text) (rest : List Text)
        → w.posted ≡ msg ∷ rest
        → Step w (
            take_effect
              (record w { posted = rest; accepted = w.accepted ++ msg ∷ [] })
              (on_send w.session msg))
    write_done :
        (msg : Text) (rest : List Text)
        → w.writes ≡ msg ∷ rest
        → Step w (
            take_effect
              (record w { writes = rest; written = w.written ++ msg ∷ [] })
              (on_write w.session false))
    write_failed :
        (msg : Text) (rest : List Text)
        → w.writes ≡ msg ∷ rest
        → Step w (take_effect (record w { writes = rest; broken = true }) (on_write w.session true))

  pub data Reach : World → Type 0 where
    here : Reach (upgraded decode nobody header)
    next : {w w' : World} → Reach w → Step w w' → Reach w'
