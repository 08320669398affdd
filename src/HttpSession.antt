-- ===== src/HttpSession.antt =====
-- src/core/http_session.hpp and http_session.cpp: one HTTP connection.
-- A handler returns the new session and, in order, the operations that it starts: reads, writes,
-- tasks for the worker pool and posts to the connection's strand. Requests and responses are types
-- of Beast, so they are parameters, with what the code asks of them.
pub mod World
pub mod Lockstep
pub mod Stall
pub mod Alone
pub mod Pairing
pub mod Closing
mod Witnesses
use tinychat_server.Base.{
  ℕ, ◌+◌, ◌-◌, ◌%◌, ◌^◌, Bool, true, false, List, [], ◌∷◌, ◌++◌, leb, ◌==◌, if◌then◌else◌, length,
}

pub data Action (Request Response : Type 0) : Type 0 where
  reset_parser : ℕ → Action Request Response  -- `parser_.emplace()` and its body limit
  expires_after : ℕ → Action Request Response  -- the stream's timeout, in seconds
  async_read : Action Request Response
  async_write : Response → Action Request Response
  add_task : Request → Action Request Response  -- `ThreadPool::addTask`
  post_queue_write : Response → Action Request Response  -- `net::post` to the strand
  accept_websocket : Request → Action Request Response  -- a `WebsocketSession` takes over
  shutdown_send : Action Request Response

-- What a read ends with.
pub data ReadResult (Request : Type 0) : Type 0 where
  end_of_stream failed : ReadResult Request
  received : Request → ReadResult Request

pub record HttpSession (Response : Type 0) : Type 0 where
  pub response_queue : List Response
  pub inflight_requests : ℕ

abbrev pub created : {Response : Type 0} → HttpSession Response
created = record { response_queue = []; inflight_requests = 0 }

abbrev pub Effect : Type 0 → Type 0 → Type 0
Effect Request Response = HttpSession Response × List (Action Request Response)

abbrev pub pop : {Response : Type 0} → List Response → List Response
pop [] = []
pop (r ∷ rest) = rest

module _ {Request Response : Type 0} where
  unfoldable pub do_read : ℕ → HttpSession Response → List (Action Request Response)
  do_read queue_limit s =
      reset_parser 10000
      ∷ expires_after 30
      ∷ (if leb queue_limit s.inflight_requests then [] else async_read ∷ [])

  unfoldable pub run : ℕ → HttpSession Response → List (Action Request Response)
  unfolding do_read
  run queue_limit s = do_read queue_limit s

  unfoldable pub do_close : List (Action Request Response)
  do_close = shutdown_send ∷ []

  unfoldable pub do_write : HttpSession Response → List (Action Request Response)
  do_write s = elim s.response_queue [ [] ↦ [] | r ∷ rest ↦ async_write r ∷ [] ]

  -- Nothing calls it: a response that is written past the queue.
  unfoldable pub send_response : Response → List (Action Request Response)
  send_response r = async_write r ∷ []

  unfoldable pub on_read :
      (Request → Bool) → HttpSession Response → ReadResult Request → Effect Request Response
  unfolding do_close
  on_read is_upgrade s end_of_stream = (s, do_close)
  on_read is_upgrade s failed = (s, [])
  on_read is_upgrade s (received q) =
      if is_upgrade q
      then (s, accept_websocket q ∷ [])
      else (record s { inflight_requests = (s.inflight_requests + 1) % 2 ^ 64 }, add_task q ∷ [])

  unfoldable pub queue_response_from_worker : Response → List (Action Request Response)
  queue_response_from_worker r = post_queue_write r ∷ []

  unfoldable pub queue_write : HttpSession Response → Response → Effect Request Response
  unfolding do_write
  queue_write s r =
      let s' = record s { response_queue = s.response_queue ++ r ∷ [] } in
      (s', if length s'.response_queue == 1 then do_write s' else [])

  unfoldable pub on_write : ℕ → HttpSession Response → Bool → Bool → Effect Request Response
  unfolding do_close do_read do_write
  on_write queue_limit s keep_alive error =
      if error
      then (s, [])
      else if keep_alive
      then (let s' = record s { inflight_requests = (s.inflight_requests + 2 ^ 64 - 1) % 2 ^ 64 } in
          let s'' = record s' { response_queue = pop s'.response_queue } in
          (
            s'',
            (if length s'.response_queue == queue_limit then do_read queue_limit s' else [])
                ++ do_write s'',
          ))
      else (s, do_close)
