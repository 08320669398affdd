-- ===== src/HttpSession/Closing.antt =====
-- What a connection does after a response that closes it (src/core/http_session.cpp, `on_write`).
use tinychat_server.Base.{ℕ, ◌<◌, ◌≡◌, ◌⊎◌, Bool, true, List, [], ◌∷◌, arith, All}
use tinychat_server.HttpSession.{
  end_of_stream, failed, received, on_read, queue_response_from_worker, queue_write, on_write,
}
use tinychat_server.HttpSession.World.{
  World, performs, opened, Step, read_done, task_done, post_run, write_done, write_failed, Reach,
  here, next,
}
use tinychat_server.HttpSession.Alone.{only_working, only_posted, only_writing}
use tinychat_server.HttpSession.Lockstep.{IsLockstep, Reach-IsLockstep}

module _ {Response : Type 0} where
  -- The responses before the newest one.
  abbrev pub earlier : List Response → List Response
  earlier [] = []
  earlier (r ∷ older) = older

  abbrev newest_keeps : (Response → Bool) → List Response → Bool
  newest_keeps keep_alive [] = true
  newest_keeps keep_alive (r ∷ older) = keep_alive r

  newest_joins :
      (keep_alive : Response → Bool) (written : List Response)
      → All (λ r. keep_alive r ≡ true) (earlier written)
      → newest_keeps keep_alive written ≡ true
      → All (λ r. keep_alive r ≡ true) written
  newest_joins keep_alive [] h k = tt
  newest_joins keep_alive (r ∷ older) h k = (k, h)

-- All responses but the newest keep the connection, and so does that, or nothing is left to do.
record IsOpen {Request Response : Type 0} (keep_alive : Response → Bool)
    (w : World Request Response) : Type 0 where
  kept_open : All (λ r. keep_alive r ≡ true) (earlier w.written)
  newest :
      (newest_keeps keep_alive w.written ≡ true)
      ⊎ ((w.reads ≡ 0) × (w.tasks ≡ []) × (w.posted ≡ []) × (w.writes ≡ []))

module _ {Request Response : Type 0} (queue_limit : ℕ) (is_upgrade : Request → Bool)
    (keep_alive : Response → Bool) where
  Step-IsOpen :
      {w w' : World Request Response}
      → Step queue_limit is_upgrade keep_alive w w'
      → IsLockstep w
      → IsOpen keep_alive w
      → IsOpen keep_alive w'
  unfolding performs on_read queue_response_from_worker queue_write on_write
  Step-IsOpen {w} (read_done n end_of_stream e) l h = record {
    kept_open = h.kept_open;
    newest = ground arith;
  }
  Step-IsOpen {w} (read_done n failed e) l h = record {
    kept_open = h.kept_open;
    newest = ground arith;
  }
  Step-IsOpen {w} (read_done n (received q) e) l h = record {
    kept_open = ground (arith, h.kept_open);
    newest = ground arith;
  }
  Step-IsOpen {w} (task_done before after q r e) l h =
      let alone = only_working l before after q e in
      record { kept_open = h.kept_open; newest = ground arith }
  Step-IsOpen {w} (post_run r rest e) l h =
      let alone = only_posted l r rest e in
      record { kept_open = ground (arith, h.kept_open); newest = ground arith }
  Step-IsOpen {w} (write_done r rest e) l h =
      let alone = only_writing l r rest e in
      let all_kept = newest_joins keep_alive w.written h.kept_open (ground arith) in
      record { kept_open = ground (arith, all_kept); newest = ground arith }
  Step-IsOpen {w} (write_failed r rest e) l h = record {
    kept_open = h.kept_open;
    newest = ground arith;
  }

  Reach-IsOpen :
      {w : World Request Response}
      → Reach queue_limit is_upgrade keep_alive w
      → 0 < queue_limit
      → IsOpen keep_alive w
  unfolding opened
  Reach-IsOpen here h = record { kept_open = ground arith; newest = ground arith }
  Reach-IsOpen (next r s) h =
      Step-IsOpen s (Reach-IsLockstep queue_limit is_upgrade keep_alive r h) (Reach-IsOpen r h)

  -- With a positive limit, no response is written after one that does not keep the connection.
  pub kept_open_before :
      {w : World Request Response}
      → Reach queue_limit is_upgrade keep_alive w
      → 0 < queue_limit
      → All (λ r. keep_alive r ≡ true) (earlier w.written)
  kept_open_before r h = (Reach-IsOpen r h).kept_open
