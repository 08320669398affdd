-- ===== src/ThreadPool/World.antt =====
-- The pool with its threads, in any interleaving (src/pool/thread_pool.cpp).
use tinychat_server.Base.{ℕ, suc, ◌+◌, All, ◌≡◌, Bool, true, false, List, [], ◌∷◌, ◌++◌}
use tinychat_server.ThreadPool.{
  ThreadPool, Worker, waiting, checking, exited, running, ok, create, add_task, sleeps, leaves,
  takes, worker_turn, begin_shutdown, notify_all,
}

pub record World (Task : Type 0) : Type 0 where
  pub pool : ThreadPool Task
  pub added : List Task  -- in the order of the calls that succeeded
  pub started : List Task  -- in the order in which workers took them
  pub finished : List Task
  pub due : ℕ  -- calls of `addTask` that have not come to their `notify_one` yet
  pub notified : Bool  -- the destructor has done its `notify_all`
  pub terminated : Bool  -- a task has thrown: nothing catches it, so the process ends

module _ {Task : Type 0} where
  abbrev pub built : ℕ → World Task
  built thread_count = record {
    pool = create thread_count;
    added = [];
    started = [];
    finished = [];
    due = 0;
    notified = false;
    terminated = false;
  }

  -- The pool after one of its workers has moved and the queue is `tasks`.
  abbrev pub moved : World Task → List Task → List (Worker Task) → ThreadPool Task
  moved w tasks workers = record w.pool { tasks = tasks; workers = workers }

  abbrev pub NotWaiting : Worker Task → Type 0
  NotWaiting waiting = ⊥
  NotWaiting _ = Unit {0}

  pub data Step (w : World Task) : World Task → Type 0 where
    add :
        (task : Task) (pool : ThreadPool Task)
        → w.terminated ≡ false
        → add_task task w.pool ≡ ok pool
        → Step w (record w { pool = pool; added = w.added ++ task ∷ []; due = w.due + 1 })
    notify :
        (n : ℕ) (before after : List (Worker Task))
        → w.terminated ≡ false
        → w.due ≡ suc n
        → w.pool.workers ≡ before ++ waiting ∷ after
        → Step w (record w { pool = moved w w.pool.tasks (before ++ checking ∷ after); due = n })
    notify_nobody :
        (n : ℕ)
        → w.terminated ≡ false
        → w.due ≡ suc n
        → All NotWaiting w.pool.workers
        → Step w (record w { due = n })
    sleep :
        (before after : List (Worker Task))
        → w.terminated ≡ false
        → w.pool.workers ≡ before ++ checking ∷ after
        → worker_turn w.pool ≡ sleeps
        → Step w (record w { pool = moved w w.pool.tasks (before ++ waiting ∷ after) })
    take :
        (before after : List (Worker Task)) (task : Task) (rest : List Task)
        → w.terminated ≡ false
        → w.pool.workers ≡ before ++ checking ∷ after
        → worker_turn w.pool ≡ takes task rest
        → Step w (record w {
          pool = moved w rest (before ++ running task ∷ after);
          started = w.started ++ task ∷ [];
        })
    leave :
        (before after : List (Worker Task))
        → w.terminated ≡ false
        → w.pool.workers ≡ before ++ checking ∷ after
        → worker_turn w.pool ≡ leaves
        → Step w (record w { pool = moved w w.pool.tasks (before ++ exited ∷ after) })
    finish :
        (before after : List (Worker Task)) (task : Task)
        → w.terminated ≡ false
        → w.pool.workers ≡ before ++ running task ∷ after
        → Step w (record w {
          pool = moved w w.pool.tasks (before ++ checking ∷ after);
          finished = w.finished ++ task ∷ [];
        })
    throw :
        (before after : List (Worker Task)) (task : Task)
        → w.terminated ≡ false
        → w.pool.workers ≡ before ++ running task ∷ after
        → Step w (record w { terminated = true })
    shut_down :
        w.terminated ≡ false
        → w.pool.stop ≡ false
        → Step w (record w { pool = begin_shutdown w.pool })
    notify_everybody :
        w.terminated ≡ false
        → w.pool.stop ≡ true
        → w.notified ≡ false
        → Step w
            (record w { pool = moved w w.pool.tasks (notify_all w.pool.workers); notified = true })

  -- What may happen besides: a wait that ends without a notification, as C++ allows but does not
  -- promise.
  pub data Move (w : World Task) : World Task → Type 0 where
    due : {w' : World Task} → Step w w' → Move w w'
    spurious :
        (before after : List (Worker Task))
        → w.terminated ≡ false
        → w.pool.workers ≡ before ++ waiting ∷ after
        → Move w (record w { pool = moved w w.pool.tasks (before ++ checking ∷ after) })

  pub data Reach (thread_count : ℕ) : World Task → Type 0 where
    here : Reach thread_count (built thread_count)
    next : {w w' : World Task} → Reach thread_count w → Move w w' → Reach thread_count w'
