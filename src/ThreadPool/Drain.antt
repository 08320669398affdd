-- ===== src/ThreadPool/Drain.antt =====
-- No task is lost: what `~ThreadPool` waits for (src/pool/thread_pool.cpp).
use mathlib.Core.List.{
  Perm, perm_middle, perm_append_singleton, append_assoc, append-nil, cons-ne-nil,
}
use mathlib.Core.List.Perm
use tinychat_server.Base.{
  ℕ, zero, suc, ◌≡◌, ◌≢◌, ◌⊎◌, refl, sym, ap, ◌∙◌, inl, inr, true, false, List, [], ◌∷◌, ◌++◌,
  arith, All, List-cases,
}
use tinychat_server.ThreadPool.{
  ThreadPool, Worker, waiting, checking, exited, running, ok, create, start_workers, add_task,
  leaves, takes, worker_turn, begin_shutdown, notify_all,
}
use tinychat_server.ThreadPool.World.{
  World, Step, add, notify, notify_nobody, sleep, take, leave, finish, throw, shut_down,
  notify_everybody, Move, due, spurious, Reach, here, next,
}

module _ {Task : Type 0} where
  abbrev pub in_progress : List (Worker Task) → List Task
  in_progress [] = []
  in_progress (waiting ∷ ws) = in_progress ws
  in_progress (exited ∷ ws) = in_progress ws
  in_progress (checking ∷ ws) = in_progress ws
  in_progress (running t ∷ ws) = t ∷ in_progress ws

  in_progress-append :
      (xs ys : List (Worker Task)) → in_progress (xs ++ ys) ≡ in_progress xs ++ in_progress ys
  in_progress-append [] ys = refl
  in_progress-append (waiting ∷ xs) ys = in_progress-append xs ys
  in_progress-append (exited ∷ xs) ys = in_progress-append xs ys
  in_progress-append (checking ∷ xs) ys = in_progress-append xs ys
  in_progress-append (running t ∷ xs) ys = ap (λ l. t ∷ l) (in_progress-append xs ys)

  in_progress-create : (n : ℕ) → in_progress (start_workers n) ≡ []
  in_progress-create zero = refl
  in_progress-create (suc n) = in_progress-create n

  abbrev pub NotExited : Worker Task → Type 0
  NotExited waiting = Unit {0}
  NotExited checking = Unit {0}
  NotExited exited = ⊥
  NotExited (running t) = Unit {0}

  -- Tasks are taken in the order in which they were added, each by one worker, and a worker that has
  -- taken one finishes it; a worker leaves only a pool that is stopped and empty.
  pub record IsSound (w : World Task) : Type 0 where
    pub fifo : w.added ≡ w.started ++ w.pool.tasks
    pub accounted : Perm w.started (w.finished ++ in_progress w.pool.workers)
    pub exits : All NotExited w.pool.workers ⊎ ((w.pool.stop ≡ true) × (w.pool.tasks ≡ []))

  takes_perm :
      (started finished before after : List Task) (t : Task)
      → Perm started (finished ++ (before ++ after))
      → Perm (started ++ t ∷ []) (finished ++ (before ++ t ∷ after))
  takes_perm started finished before after t p = Perm.trans (perm_append_singleton t started) (
      Perm.trans (Perm.cons t p) (
        Perm.symm (
          Perm.trans (Perm.append_left finished (perm_middle before after))
            (perm_middle finished (before ++ after)))))

  finish_perm :
      (started finished before after : List Task) (t : Task)
      → Perm started (finished ++ (before ++ t ∷ after))
      → Perm started ((finished ++ t ∷ []) ++ (before ++ after))
  finish_perm started finished before after t p =
      rw append_assoc (Perm.trans p (Perm.append_left finished (perm_middle before after)))

  All-NotExited-middle :
      (before after : List (Worker Task)) (x y : Worker Task)
      → NotExited y
      → All NotExited (before ++ x ∷ after)
      → All NotExited (before ++ y ∷ after)
  All-NotExited-middle [] after x y n h = (n, h.1)
  All-NotExited-middle (z ∷ before) after x y n h =
      (h.0, All-NotExited-middle before after x y n h.1)

  add_task_ok :
      (task : Task) (p q : ThreadPool Task)
      → add_task task p ≡ ok q
      → (p.stop ≡ false) × (q ≡ record p { tasks = p.tasks ++ task ∷ [] })
  unfolding add_task
  add_task_ok task p q h = ground arith

  pub worker_turn_takes :
      (p : ThreadPool Task) (t : Task) (rest : List Task)
      → worker_turn p ≡ takes t rest
      → p.tasks ≡ t ∷ rest
  unfolding worker_turn
  worker_turn_takes p t rest h = elim (List-cases p.tasks) [
    | inl e ↦ ground (arith, e)
    | inr (x, r, e) ↦ ground (arith, e)
  ]

  pub worker_turn_leaves :
      (p : ThreadPool Task) → worker_turn p ≡ leaves → (p.stop ≡ true) × (p.tasks ≡ [])
  unfolding worker_turn
  worker_turn_leaves p h = elim (List-cases p.tasks) [
    | inl e ↦ ground (arith, e)
    | inr (x, r, e) ↦ ground (arith, e)
  ]

start_workers-NotExited : (Task : Type 0) (n : ℕ) → All NotExited (start_workers {Task = Task} n)
start_workers-NotExited Task zero = tt
start_workers-NotExited Task (suc n) = (tt, start_workers-NotExited Task n)

module _ {Task : Type 0} where
  in_progress-notify_all : (ws : List (Worker Task)) → in_progress (notify_all ws) ≡ in_progress ws
  unfolding notify_all
  in_progress-notify_all [] = refl
  in_progress-notify_all (waiting ∷ ws) = in_progress-notify_all ws
  in_progress-notify_all (checking ∷ ws) = in_progress-notify_all ws
  in_progress-notify_all (exited ∷ ws) = in_progress-notify_all ws
  in_progress-notify_all (running t ∷ ws) = ap (λ l. t ∷ l) (in_progress-notify_all ws)

  NotExited-notify_all :
      (ws : List (Worker Task)) → All NotExited ws → All NotExited (notify_all ws)
  unfolding notify_all
  NotExited-notify_all [] h = tt
  NotExited-notify_all (waiting ∷ ws) h = (tt, NotExited-notify_all ws h.1)
  NotExited-notify_all (checking ∷ ws) h = (tt, NotExited-notify_all ws h.1)
  NotExited-notify_all (exited ∷ ws) h = absurd h.0
  NotExited-notify_all (running t ∷ ws) h = (tt, NotExited-notify_all ws h.1)

  -- A worker that wakes or falls asleep.
  turned :
      (w : World Task) (before after : List (Worker Task)) (x y : Worker Task)
      → w.pool.workers ≡ before ++ x ∷ after
      → in_progress (x ∷ []) ≡ []
      → in_progress (y ∷ []) ≡ []
      → NotExited x
      → NotExited y
      → IsSound w
      → Perm w.started (w.finished ++ in_progress (before ++ y ∷ after))
        × (All NotExited (before ++ y ∷ after) ⊎ ((w.pool.stop ≡ true) × (w.pool.tasks ≡ [])))
  turned w before after x y e px py nx ny h = (
    rw (in_progress-append before (y ∷ after), in_progress-append (y ∷ []) after, py)
        (rw (e, in_progress-append before (x ∷ after), in_progress-append (x ∷ []) after, px) at
          h.accounted),
    elim h.exits [
      | inl k ↦ inl (All-NotExited-middle before after x y ny (rw e at k))
      | inr k ↦ inr k
    ],
  )

  Step-IsSound : {w w' : World Task} → Step w w' → IsSound w → IsSound w'
  Step-IsSound {w} (add task pool live e) h =
      let (open_still, q) = add_task_ok task w.pool pool e in
      rw q (record {
        fifo = ap (λ l. l ++ task ∷ []) h.fifo ∙ append_assoc w.started w.pool.tasks (task ∷ []);
        accounted = h.accounted;
        exits = inl (ground (arith, h.exits));
      })
  Step-IsSound {w} (notify n before after live d e) h =
      let t = turned w before after waiting checking e refl refl tt tt h in
      record { fifo = h.fifo; accounted = t.0; exits = t.1 }
  Step-IsSound {w} (notify_nobody n live d a) h = record {
    fifo = h.fifo;
    accounted = h.accounted;
    exits = h.exits;
  }
  Step-IsSound {w} (sleep before after live e t) h =
      let t = turned w before after checking waiting e refl refl tt tt h in
      record { fifo = h.fifo; accounted = t.0; exits = t.1 }
  Step-IsSound {w} (take before after task rest live e t) h =
      let front = worker_turn_takes w.pool task rest t in
      record {
        fifo =
            h.fifo ∙ ap (λ l. w.started ++ l) front ∙ sym (append_assoc w.started (task ∷ []) rest);
        accounted = rw (in_progress-append before (running task ∷ after)) (
            takes_perm w.started w.finished (in_progress before) (in_progress after) task
              (rw (e, in_progress-append before (checking ∷ after)) at h.accounted));
        exits = elim h.exits [
          | inl k ↦ inl (All-NotExited-middle before after checking (running task) tt (rw e at k))
          | inr k ↦ absurd (ground (arith, k.1, front))
        ];
      }
  Step-IsSound {w} (leave before after live e t) h = record {
    fifo = h.fifo;
    accounted =
        rw (in_progress-append before (exited ∷ after))
          (rw (e, in_progress-append before (checking ∷ after)) at h.accounted);
    exits = inr (worker_turn_leaves w.pool t);
  }
  Step-IsSound {w} (finish before after task live e) h = record {
    fifo = h.fifo;
    accounted = rw (in_progress-append before (checking ∷ after)) (
        finish_perm w.started w.finished (in_progress before) (in_progress after) task
          (rw (e, in_progress-append before (running task ∷ after)) at h.accounted));
    exits = elim h.exits [
      | inl k ↦ inl (All-NotExited-middle before after (running task) checking tt (rw e at k))
      | inr k ↦ inr k
    ];
  }
  Step-IsSound {w} (throw before after task live e) h = record {
    fifo = h.fifo;
    accounted = h.accounted;
    exits = h.exits;
  }
  Step-IsSound {w} (shut_down live e) h =
      unfold begin_shutdown in
      record {
        fifo = h.fifo;
        accounted = h.accounted;
        exits = elim h.exits [ inl k ↦ inl k | inr k ↦ inr (refl, k.1) ];
      }
  Step-IsSound {w} (notify_everybody live st n) h = record {
    fifo = h.fifo;
    accounted = rw (in_progress-notify_all w.pool.workers) h.accounted;
    exits = elim h.exits [ inl k ↦ inl (NotExited-notify_all w.pool.workers k) | inr k ↦ inr k ];
  }

  Move-IsSound : {w w' : World Task} → Move w w' → IsSound w → IsSound w'
  Move-IsSound (due step) h = Step-IsSound step h
  Move-IsSound {w} (spurious before after live e) h =
      let t = turned w before after waiting checking e refl refl tt tt h in
      record { fifo = h.fifo; accounted = t.0; exits = t.1 }

  -- In every interleaving of callers and workers, workers take the tasks in the order in which they
  -- were added; each task taken is finished or in progress, once; and no worker leaves unless the
  -- pool is stopped and its queue is empty.
  pub Reach-IsSound : {n : ℕ} {w : World Task} → Reach n w → IsSound w
  unfolding create
  Reach-IsSound {n} here = record {
    fifo = refl;
    accounted = rw (in_progress-create n) (Perm.refl []);
    exits = inl (start_workers-NotExited Task n);
  }
  Reach-IsSound (next r s) = Move-IsSound s (Reach-IsSound r)

  abbrev pub Exited : Worker Task → Type 0
  Exited waiting = ⊥
  Exited checking = ⊥
  Exited exited = Unit {0}
  Exited (running t) = ⊥

  All-Exited :
      (ws : List (Worker Task))
      → ws ≢ []
      → All Exited ws
      → (in_progress ws ≡ []) × ¬ All NotExited ws
  All-Exited [] ne h = absurd (ne refl)
  All-Exited (waiting ∷ ws) ne h = absurd h.0
  All-Exited (checking ∷ ws) ne h = absurd h.0
  All-Exited (running t ∷ ws) ne h = absurd h.0
  All-Exited (exited ∷ []) ne h = (refl, λ k. k.0)
  All-Exited (exited ∷ w ∷ ws) ne h = ((All-Exited (w ∷ ws) (cons-ne-nil w ws) h.1).0, λ k. k.0)

  -- When the destructor has joined all workers, and there is at least one, every task that was ever
  -- added has been finished, exactly once, and none is left in the queue.
  pub joined-finished :
      {n : ℕ} {w : World Task}
      → Reach n w
      → w.pool.workers ≢ []
      → All Exited w.pool.workers
      → (w.pool.tasks ≡ []) × Perm w.added w.finished
  joined-finished {n} {w} r ne h =
      let s = Reach-IsSound r in
      let (idle, left) = All-Exited w.pool.workers ne h in
      let empty : w.pool.tasks ≡ [] = elim s.exits [ inl k ↦ absurd (left k) | inr k ↦ k.1 ] in
      (empty, rw (s.fifo, empty, append-nil) (rw (idle, append-nil) at s.accounted))
