-- ===== src/Listener.antt =====
-- src/core/listener.hpp and listener.cpp: the acceptor of connections.
-- Asio's error codes are Booleans, `true` for success, and a socket is a value of any type. The
-- acceptor keeps how far the constructor got with it.
pub mod World
mod Witnesses
use tinychat_server.Text.{Text}
use tinychat_server.Base.{Bool, Option, none, some, List, [], ◌∷◌, if◌then◌else◌}

pub data Acceptor : Type 0 where
  closed opened bound listening : Acceptor

pub record Listener : Type 0 where
  pub acceptor : Acceptor
  pub doc_root : Text

-- What the four calls of the constructor answer.
pub record Answers : Type 0 where
  pub open_ok : Bool
  pub set_option_ok : Bool
  pub bind_ok : Bool
  pub listen_ok : Bool

-- The constructor: each early return leaves the acceptor as it is, and none of them is an exception.
unfoldable pub create : Answers → Text → Listener
create a doc_root =
    if a.open_ok
    then (if a.set_option_ok
        then (if a.bind_ok
            then (if a.listen_ok
                then record { acceptor = listening; doc_root = doc_root }
                else record { acceptor = bound; doc_root = doc_root })
            else record { acceptor = opened; doc_root = doc_root })
        else record { acceptor = opened; doc_root = doc_root })
    else record { acceptor = closed; doc_root = doc_root }

-- `async_accept`, and `run()` of a new `HttpSession` with that document root.
pub data Action (Socket : Type 0) : Type 0 where
  async_accept : Action Socket
  run_session : Socket → Text → Action Socket

module _ {Socket : Type 0} where
  unfoldable pub do_accept : List (Action Socket)
  do_accept = async_accept ∷ []

  unfoldable pub run : List (Action Socket)
  unfolding do_accept
  run = do_accept

  -- No socket is an error code. `has_peer` says whether the new socket still has a remote endpoint: the
  -- constructor of `HttpSession` asks for it, and throws otherwise, out of this handler, which is the
  -- result `none`.
  unfoldable pub on_accept : Listener → Option Socket → Bool → Option (List (Action Socket))
  unfolding do_accept
  on_accept l none has_peer = some []
  on_accept l (some socket) has_peer =
      if has_peer then some (run_session socket l.doc_root ∷ do_accept) else none
