-- ===== src/HttpSession/World.antt =====
-- A connection with the operations that it has started and that are not done yet, and the steps
-- that Asio and the worker pool may take, in any order (src/core/http_session.cpp).
use tinychat_server.Base.{ℕ, suc, ◌+◌, ◌≡◌, Bool, true, false, ◌||◌, List, [], ◌∷◌, ◌++◌}
use tinychat_server.HttpSession.{
  HttpSession, Action, ReadResult, failed, Effect, reset_parser, expires_after, async_read,
  async_write, add_task, post_queue_write, accept_websocket, shutdown_send, created, run, on_read,
  queue_response_from_worker, queue_write, on_write,
}

pub record World (Request Response : Type 0) : Type 0 where
  pub session : HttpSession Response
  pub reads : ℕ  -- outstanding reads
  pub tasks : List Request  -- handed to the pool and not answered
  pub posted : List Response  -- waiting on the strand
  pub writes : List Response  -- outstanding writes
  pub reads_started : ℕ  -- since the start
  pub written : List Response  -- since the start, newest first
  pub upgraded : List Request
  pub ended : Bool  -- a read or a write failed, or the connection was closed or handed over

module _ {Request Response : Type 0} where
  unfoldable pub perform : World Request Response → Action Request Response → World Request Response
  perform w (reset_parser limit) = w
  perform w (expires_after seconds) = w
  perform w async_read = record w { reads = w.reads + 1; reads_started = w.reads_started + 1 }
  perform w (async_write r) = record w { writes = w.writes ++ r ∷ [] }
  perform w (add_task q) = record w { tasks = w.tasks ++ q ∷ [] }
  perform w (post_queue_write r) = record w { posted = w.posted ++ r ∷ [] }
  perform w (accept_websocket q) = record w { upgraded = q ∷ w.upgraded; ended = true }
  perform w shutdown_send = record w { ended = true }

  unfoldable pub performs :
      World Request Response → List (Action Request Response) → World Request Response
  unfolding perform
  performs w [] = w
  performs w (a ∷ rest) = performs (perform w a) rest

  -- A handler's effect on the connection and on what is outstanding.
  abbrev pub take_effect : World Request Response → Effect Request Response → World Request Response
  take_effect w (s, actions) = performs (record w { session = s }) actions

  unfoldable pub opened : ℕ → World Request Response
  unfolding performs run
  opened queue_limit =
      performs
        (record {
          session = created;
          reads = 0;
          tasks = [];
          posted = [];
          writes = [];
          reads_started = 0;
          written = [];
          upgraded = [];
          ended = false;
        })
        (run queue_limit created)

abbrev pub is_failure : {Request : Type 0} → ReadResult Request → Bool
is_failure failed = true
is_failure _ = false

module _ {Request Response : Type 0} (queue_limit : ℕ) (is_upgrade : Request → Bool)
    (keep_alive : Response → Bool) where
  -- The worker pool runs tasks in any order, and whatever a task answers goes through
  -- `queue_response_from_worker`; the strand runs posted calls in order.
  pub data Step (w : World Request Response) : World Request Response → Type 0 where
    read_done :
        (n : ℕ) (e : ReadResult Request)
        → w.reads ≡ suc n
        → Step w (
            take_effect
              (record w { reads = n; ended = w.ended || is_failure e })
              (on_read is_upgrade w.session e))
    task_done :
        (before after : List Request) (q : Request) (r : Response)
        → w.tasks ≡ before ++ q ∷ after
        → Step w (performs (record w { tasks = before ++ after }) (queue_response_from_worker r))
    post_run :
        (r : Response) (rest : List Response)
        → w.posted ≡ r ∷ rest
        → Step w (take_effect (record w { posted = rest }) (queue_write w.session r))
    write_done :
        (r : Response) (rest : List Response)
        → w.writes ≡ r ∷ rest
        → Step w (
            take_effect
              (record w { writes = rest; written = r ∷ w.written })
              (on_write queue_limit w.session (keep_alive r) false))
    write_failed :
        (r : Response) (rest : List Response)
        → w.writes ≡ r ∷ rest
        → Step w (
            take_effect
              (record w { writes = rest; ended = true })
              (on_write queue_limit w.session (keep_alive r) true))

  pub data Reach : World Request Response → Type 0 where
    here : Reach (opened queue_limit)
    next : {w w' : World Request Response} → Reach w → Step w w' → Reach w'
