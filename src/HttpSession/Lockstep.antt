-- ===== src/HttpSession/Lockstep.antt =====
-- A connection serves one request at a time (src/core/http_session.cpp).
use tinychat_server.Base.{
  ℕ, ◌+◌, ◌≤◌, ◌<◌, ◌≡◌, ◌⊎◌, ap, Bool, true, [], ◌∷◌, ◌++◌, length, length-append,
  eq-nil_of_length, arith,
}
use tinychat_server.HttpSession.{
  end_of_stream, failed, received, on_read, queue_response_from_worker, queue_write, on_write,
}
use tinychat_server.HttpSession.World.{
  World, performs, opened, Step, read_done, task_done, post_run, write_done, write_failed, Reach,
  here, next,
}

-- What the connection still has to do: reads, tasks, posted calls and queued responses.
abbrev pub outstanding : {Request Response : Type 0} → World Request Response → ℕ
outstanding w = w.reads + length w.tasks + length w.posted + length w.session.response_queue

pub record IsLockstep {Request Response : Type 0} (w : World Request Response) : Type 0 where
  pub one : outstanding w ≤ 1
  pub counted :
      w.session.inflight_requests
      ≡ length w.tasks + length w.posted + length w.session.response_queue
  pub writing : (w.writes ≡ w.session.response_queue) ⊎ ((w.writes ≡ []) × (w.ended ≡ true))

module _ {Request Response : Type 0} (queue_limit : ℕ) (is_upgrade : Request → Bool)
    (keep_alive : Response → Bool) where
  opened-IsLockstep :
      0 < queue_limit → IsLockstep (opened {Request = Request} {Response = Response} queue_limit)
  unfolding opened
  opened-IsLockstep h = ground arith

  pub Step-IsLockstep :
      {w w' : World Request Response}
      → Step queue_limit is_upgrade keep_alive w w'
      → IsLockstep w
      → IsLockstep w'
  unfolding performs on_read queue_response_from_worker queue_write on_write
  Step-IsLockstep {w} (read_done n end_of_stream e) h = ground arith
  Step-IsLockstep {w} (read_done n failed e) h = ground arith
  Step-IsLockstep {w} (read_done n (received q) e) h =
      ground (arith, length-append w.tasks (q ∷ []))
  Step-IsLockstep {w} (task_done before after q r e) h = ground (
    arith,
    ap length e,
    length-append before (q ∷ after),
    length-append before after,
    length-append w.posted (r ∷ []),
  )
  Step-IsLockstep {w} (post_run r rest e) h =
      let empty : w.session.response_queue ≡ [] =
        eq-nil_of_length w.session.response_queue (omega (arith, ap length e)) in
      let idle : w.writes ≡ [] = ground arith in
      ground (arith, empty, idle, ap (λ l. l ++ r ∷ []) empty, ap (λ l. l ++ r ∷ []) idle)
  Step-IsLockstep {w} (write_done r rest e) h = ground arith
  Step-IsLockstep {w} (write_failed r rest e) h = ground arith

  -- With a positive limit, at every moment of a connection at most one request, response or read is
  -- outstanding, so responses leave in the order of the requests; the counter of requests in flight
  -- is exact and does not wrap; and the queue holds just the response that is being written,
  -- unless the connection has ended.
  pub Reach-IsLockstep :
      {w : World Request Response}
      → Reach queue_limit is_upgrade keep_alive w
      → 0 < queue_limit
      → IsLockstep w
  Reach-IsLockstep here h = opened-IsLockstep h
  Reach-IsLockstep (next r s) h = Step-IsLockstep s (Reach-IsLockstep r h)
