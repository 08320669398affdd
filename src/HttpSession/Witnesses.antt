-- ===== src/HttpSession/Witnesses.antt =====
-- The theorems on a connection at a run of one request, with the queue limits 35 (doc/config.ini)
-- and 1. Requests and responses are numbers; none asks for an upgrade, all keep the connection.
use tinychat_server.Base.{ℕ, ◌+◌, ◌≡◌, ◌≢◌, refl, Bool, true, false, [], ◌∷◌, arith}
use tinychat_server.HttpSession.{
  received, on_read, queue_write, queue_response_from_worker, on_write,
}
use tinychat_server.HttpSession.World.{
  World, opened, performs, Step, read_done, task_done, post_run, write_done, Reach, here, next,
}
use tinychat_server.HttpSession.Lockstep.{IsLockstep, Reach-IsLockstep}
use tinychat_server.HttpSession.Stall.{serves_one}

abbrev plain : ℕ → Bool
plain q = false

abbrev keeps : ℕ → Bool
keeps r = true

abbrev answered : ℕ → World ℕ ℕ
answered reads = record {
  session = record { response_queue = []; inflight_requests = 0 };
  reads = reads;
  tasks = [];
  posted = [];
  writes = [];
  reads_started = reads + 1;
  written = 7 ∷ [];
  upgraded = [];
  ended = false;
}

-- With the limit of the shipped configuration the read loop is over after one response.
reaches_end : Reach 35 plain keeps (answered 0)
unfolding opened performs on_read queue_write queue_response_from_worker on_write
reaches_end =
    next
      (next (next (next here (read_done 0 (received 3) refl)) (task_done [] [] 3 7 refl))
        (post_run 7 [] refl))
      (write_done 7 [] refl)

reaches_next_read : Reach 1 plain keeps (answered 1)
unfolding opened performs on_read queue_write queue_response_from_worker on_write
reaches_next_read =
    next
      (next (next (next here (read_done 0 (received 3) refl)) (task_done [] [] 3 7 refl))
        (post_run 7 [] refl))
      (write_done 7 [] refl)

Reach-IsLockstep_example : IsLockstep (answered 0)
Reach-IsLockstep_example = Reach-IsLockstep 35 plain keeps reaches_end (omega arith)

serves_one_example :
    ((answered 0).reads_started ≡ 1)
    × ((answered 0).written ≢ [] → (w' : World ℕ ℕ) → ¬ Step 35 plain keeps (answered 0) w')
serves_one_example = serves_one 35 plain keeps reaches_end (omega arith)
