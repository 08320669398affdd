-- ===== src/ThreadPool.antt =====
-- src/pool/thread_pool.hpp and thread_pool.cpp: the pool of worker threads.
-- A task is a value of any type. Each method holds the mutex while it uses the queue, and a worker
-- holds it from waking to taking a task, so each is one step; a notification, `notify_one` of
-- `addTask` or `notify_all` of the destructor, is a step of its own, in ThreadPool.World. What
-- `addTask` returns besides (a future for the result) and `addTaskCallback`'s wrapper are part of the
-- task that is queued.
pub mod World
pub mod Drain
pub mod Stop
mod Witnesses
use tinychat_server.Base.{
  ℕ, zero, suc, Bool, true, false, ◌||◌, ◌&&◌, not, Option, none, some, List, [], ◌∷◌, ◌++◌,
  if◌then◌else◌,
}

pub data Error : Type 0 where
  not_initialized already_initialized stopped : Error

pub data Worker (Task : Type 0) : Type 0 where
  waiting exited : Worker Task  -- blocked in `condition.wait`, and ended
  checking : Worker Task  -- about to evaluate the predicate of the wait
  running : Task → Worker Task

pub record ThreadPool (Task : Type 0) : Type 0 where
  pub tasks : List Task
  pub workers : List (Worker Task)
  pub stop : Bool

pub data Result {ℓ} (A : Type ℓ) : Type ℓ where
  ok : A → Result A
  err : Error → Result A

module _ {Task : Type 0} where
  abbrev pub start_workers : ℕ → List (Worker Task)
  start_workers zero = []
  start_workers (suc n) = checking ∷ start_workers n

  -- The constructor.
  unfoldable pub create : ℕ → ThreadPool Task
  create thread_count = record { tasks = []; workers = start_workers thread_count; stop = false }

  -- `instance_ptr_` is the argument.
  unfoldable pub get : Option (ThreadPool Task) → Result (ThreadPool Task)
  get none = err not_initialized
  get (some pool) = ok pool

  unfoldable pub init : ℕ → Option (ThreadPool Task) → Result (Option (ThreadPool Task))
  unfolding create
  init thread_count none = ok (some (create thread_count))
  init thread_count (some pool) = err already_initialized

  -- `addTask` and `addTaskCallback` do the same with the queue, and then call `notify_one`.
  unfoldable pub add_task : Task → ThreadPool Task → Result (ThreadPool Task)
  add_task task pool =
      if pool.stop then err stopped else ok (record pool { tasks = pool.tasks ++ task ∷ [] })

  abbrev pub is_empty : List Task → Bool
  is_empty [] = true
  is_empty (t ∷ ts) = false

-- What a worker does when it looks at the queue.
pub data Turn (Task : Type 0) : Type 0 where
  sleeps leaves : Turn Task
  takes : Task → List Task → Turn Task

module _ {Task : Type 0} where
  take_front : List Task → Turn Task
  take_front [] = leaves
  take_front (t ∷ ts) = takes t ts

  -- The predicate of the condition variable, the test for the end, and the front of the queue. The
  -- queue is not empty where its front is taken.
  unfoldable pub worker_turn : ThreadPool Task → Turn Task
  unfolding take_front
  worker_turn pool =
      if pool.stop || not (is_empty pool.tasks)
      then (if pool.stop && is_empty pool.tasks then leaves else take_front pool.tasks)
      else sleeps

  -- The first part of the destructor, under the mutex.
  unfoldable pub begin_shutdown : ThreadPool Task → ThreadPool Task
  begin_shutdown pool = record pool { stop = true }

  -- `condition.notify_all()`, behind it: every worker that is blocked evaluates the predicate again.
  unfoldable pub notify_all : List (Worker Task) → List (Worker Task)
  notify_all [] = []
  notify_all (waiting ∷ ws) = checking ∷ notify_all ws
  notify_all (checking ∷ ws) = checking ∷ notify_all ws
  notify_all (exited ∷ ws) = exited ∷ notify_all ws
  notify_all (running t ∷ ws) = running t ∷ notify_all ws
