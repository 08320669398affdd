-- ===== src/ThreadPool/Witnesses.antt =====
-- The theorems on the thread pool at runs of a pool with one worker. Tasks are numbers.
use mathlib.Core.List.{Perm, cons-ne-nil}
use tinychat_server.Base.{ℕ, ◌≡◌, ◌⊎◌, ◌<◌, refl, true, false, [], ◌∷◌, All}
use tinychat_server.ThreadPool.{
  exited, running, create, add_task, worker_turn, begin_shutdown, notify_all,
}
use tinychat_server.ThreadPool.World.{
  World, Step, Move, due, notify, notify_nobody, notify_everybody, sleep, add, take, leave, finish,
  shut_down, Reach, here, next,
}
use tinychat_server.ThreadPool.Drain.{joined-finished, Exited}
use tinychat_server.ThreadPool.Stop.{shuts_down, remaining}

-- Tasks 7 and 8 have been added, then the pool was stopped; 7 has run and 8 is running.
abbrev stopping : World ℕ
stopping = record {
  pool = record { tasks = []; workers = running 8 ∷ []; stop = true };
  added = 7 ∷ 8 ∷ [];
  started = 7 ∷ 8 ∷ [];
  finished = 7 ∷ [];
  due = 0;
  notified = true;
  terminated = false;
}

abbrev joined : World ℕ
joined = record stopping {
  pool = record { tasks = []; workers = exited ∷ []; stop = true };
  finished = 7 ∷ 8 ∷ [];
}

reaches_stopping : Reach 1 stopping
unfolding create add_task worker_turn begin_shutdown notify_all
reaches_stopping =
    let r1 = next (next here (due (sleep [] [] refl refl refl))) (due (add 7 _ refl refl)) in
    let r2 = next (next r1 (due (notify 0 [] [] refl refl refl))) (due (add 8 _ refl refl)) in
    let r3 =
      next (next r2 (due (notify_nobody 0 refl refl (tt, tt)))) (due (shut_down refl refl)) in
    let r4 =
      next (next r3 (due (notify_everybody refl refl refl)))
        (due (take [] [] 7 (8 ∷ []) refl refl refl)) in
    next (next r4 (due (finish [] [] 7 refl refl))) (due (take [] [] 8 [] refl refl refl))

reaches_joined : Reach 1 joined
unfolding worker_turn
reaches_joined =
    next (next reaches_stopping (due (finish [] [] 8 refl refl))) (due (leave [] [] refl refl refl))

joined-finished_example : (joined.pool.tasks ≡ []) × Perm joined.added joined.finished
joined-finished_example = joined-finished reaches_joined (cons-ne-nil exited []) (tt, tt)

shuts_down_example :
    (All Exited stopping.pool.workers ⊎ ((w' : World ℕ) × Step stopping w'))
    × ((w' : World ℕ)
        → Move stopping w'
        → ((w'.pool.stop ≡ true) × (remaining w' < remaining stopping)) ⊎ (w'.terminated ≡ true))
shuts_down_example = shuts_down reaches_stopping refl refl
