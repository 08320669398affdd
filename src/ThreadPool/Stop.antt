-- ===== src/ThreadPool/Stop.antt =====
-- The destructor's wait ends: after `stop` every step of a worker brings the pool nearer to its end,
-- and the notification wakes the workers that sleep (src/pool/thread_pool.cpp).
use tinychat_server.Base.{
  ℕ, ◌+◌, ◌*◌, ◌<◌, ◌≤◌, ◌≡◌, ◌⊎◌, refl, ap, inl, inr, true, false, List, [], ◌∷◌, ◌++◌, arith,
  length, All, List-cases, Bool-cases, if◌then◌else◌,
}
use tinychat_server.ThreadPool.{
  ThreadPool, Worker, waiting, checking, exited, running, add_task, sleeps, leaves, takes,
  worker_turn, begin_shutdown, notify_all,
}
use tinychat_server.ThreadPool.World.{
  World, Step, NotWaiting, add, notify, notify_nobody, sleep, take, leave, finish, throw, shut_down,
  notify_everybody, Move, due, spurious, Reach, here, next,
}
use tinychat_server.ThreadPool.Drain.{worker_turn_takes, Exited}

module _ {Task : Type 0} where
  abbrev weight : Worker Task → ℕ
  weight waiting = 2
  weight checking = 1
  weight exited = 0
  weight (running t) = 2

  abbrev pub weights : List (Worker Task) → ℕ
  weights [] = 0
  weights (w ∷ ws) = weight w + weights ws

  weights-append : (xs ys : List (Worker Task)) → weights (xs ++ ys) ≡ weights xs + weights ys
  weights-append [] ys = omega arith
  weights-append (x ∷ xs) ys = omega (arith, weights-append xs ys)

  weights-notify_all : (ws : List (Worker Task)) → weights (notify_all ws) ≤ weights ws
  unfolding notify_all
  weights-notify_all [] = omega arith
  weights-notify_all (waiting ∷ ws) = omega (arith, weights-notify_all ws)
  weights-notify_all (checking ∷ ws) = omega (arith, weights-notify_all ws)
  weights-notify_all (exited ∷ ws) = omega (arith, weights-notify_all ws)
  weights-notify_all (running t ∷ ws) = omega (arith, weights-notify_all ws)

  -- What is left to do: two steps for a queued task, the steps of the workers, and notifications.
  abbrev pub remaining : World Task → ℕ
  remaining w =
      2 * length w.pool.tasks + weights w.pool.workers + w.due + (if w.notified then 0 else 1)

  -- One worker changes.
  changed :
      (w : World Task) (before after : List (Worker Task)) (x y : Worker Task)
      → w.pool.workers ≡ before ++ x ∷ after
      → weights (before ++ y ∷ after) + weight x ≡ weights w.pool.workers + weight y
  changed w before after x y e =
      omega
        (arith, ap weights e, weights-append before (x ∷ after), weights-append before (y ∷ after))

  turn_after_stop :
      (p : ThreadPool Task)
      → p.stop ≡ true
      → (worker_turn p ≡ leaves) ⊎ ((t : Task) × (r : List Task) × (worker_turn p ≡ takes t r))
  unfolding worker_turn
  turn_after_stop p h = elim (List-cases p.tasks) [
    | inl e ↦ inl (ground (arith, e))
    | inr (x, r, e) ↦ inr (x, r, ground (arith, e))
  ]

  no_sleep : (p : ThreadPool Task) → p.stop ≡ true → ¬ (worker_turn p ≡ sleeps)
  no_sleep p h e = ground (arith, turn_after_stop p h)

  abbrev Decreases : World Task → World Task → Type 0
  Decreases w w' = ((w'.pool.stop ≡ true) × (remaining w' < remaining w)) ⊎ (w'.terminated ≡ true)

  Step-Decreases : {w w' : World Task} → Step w w' → w.pool.stop ≡ true → Decreases w w'
  Step-Decreases {w} (add task pool live e) h = absurd (unfold add_task in ground arith)
  Step-Decreases {w} (notify n before after live d e) h =
      inl (h, omega (arith, changed w before after waiting checking e))
  Step-Decreases {w} (notify_nobody n live d a) h = inl (h, omega arith)
  Step-Decreases {w} (sleep before after live e t) h = absurd (no_sleep w.pool h t)
  Step-Decreases {w} (take before after task rest live e t) h = inl (
    h,
    omega (
      arith,
      ap length (worker_turn_takes w.pool task rest t),
      changed w before after checking (running task) e,
    ),
  )
  Step-Decreases {w} (leave before after live e t) h =
      inl (h, omega (arith, changed w before after checking exited e))
  Step-Decreases {w} (finish before after task live e) h =
      inl (h, omega (arith, changed w before after (running task) checking e))
  Step-Decreases {w} (throw before after task live e) h = inr refl
  Step-Decreases {w} (shut_down live e) h = absurd (ground arith)
  Step-Decreases {w} (notify_everybody live st n) h =
      inl (h, ground (arith, weights-notify_all w.pool.workers))

  Move-Decreases : {w w' : World Task} → Move w w' → w.pool.stop ≡ true → Decreases w w'
  Move-Decreases (due step) h = Step-Decreases step h
  Move-Decreases {w} (spurious before after live e) h =
      inl (h, omega (arith, changed w before after waiting checking e))

  -- Behind the destructor's notification no worker sleeps.
  record IsNotified (w : World Task) : Type 0 where
    stopped : w.notified ≡ true → w.pool.stop ≡ true
    awake : w.notified ≡ true → All NotWaiting w.pool.workers

  notify_all-NotWaiting : (ws : List (Worker Task)) → All NotWaiting (notify_all ws)
  unfolding notify_all
  notify_all-NotWaiting [] = tt
  notify_all-NotWaiting (waiting ∷ ws) = (tt, notify_all-NotWaiting ws)
  notify_all-NotWaiting (checking ∷ ws) = (tt, notify_all-NotWaiting ws)
  notify_all-NotWaiting (exited ∷ ws) = (tt, notify_all-NotWaiting ws)
  notify_all-NotWaiting (running t ∷ ws) = (tt, notify_all-NotWaiting ws)

  NotWaiting-middle :
      (before after : List (Worker Task)) (x y : Worker Task)
      → NotWaiting y
      → All NotWaiting (before ++ x ∷ after)
      → All NotWaiting (before ++ y ∷ after)
  NotWaiting-middle [] after x y n h = (n, h.1)
  NotWaiting-middle (z ∷ before) after x y n h = (h.0, NotWaiting-middle before after x y n h.1)

  still_awake :
      (w : World Task) (before after : List (Worker Task)) (x y : Worker Task)
      → w.pool.workers ≡ before ++ x ∷ after
      → NotWaiting y
      → IsNotified w
      → w.notified ≡ true
      → All NotWaiting (before ++ y ∷ after)
  still_awake w before after x y e n h k =
      NotWaiting-middle before after x y n (rw e at (h.awake k))

  Step-IsNotified : {w w' : World Task} → Step w w' → IsNotified w → IsNotified w'
  Step-IsNotified {w} (add task pool live e) h = record {
    stopped = λ k. absurd (unfold add_task in ground (arith, h.stopped k));
    awake = λ k. absurd (unfold add_task in ground (arith, h.stopped k));
  }
  Step-IsNotified {w} (notify n before after live d e) h = record {
    stopped = h.stopped;
    awake = still_awake w before after waiting checking e tt h;
  }
  Step-IsNotified {w} (notify_nobody n live d a) h = record { stopped = h.stopped; awake = h.awake }
  Step-IsNotified {w} (sleep before after live e t) h = record {
    stopped = h.stopped;
    awake = λ k. absurd (no_sleep w.pool (h.stopped k) t);
  }
  Step-IsNotified {w} (take before after task rest live e t) h = record {
    stopped = h.stopped;
    awake = still_awake w before after checking (running task) e tt h;
  }
  Step-IsNotified {w} (leave before after live e t) h = record {
    stopped = h.stopped;
    awake = still_awake w before after checking exited e tt h;
  }
  Step-IsNotified {w} (finish before after task live e) h = record {
    stopped = h.stopped;
    awake = still_awake w before after (running task) checking e tt h;
  }
  Step-IsNotified {w} (throw before after task live e) h = record {
    stopped = h.stopped;
    awake = h.awake;
  }
  Step-IsNotified {w} (shut_down live e) h =
      unfold begin_shutdown in record { stopped = λ k. refl; awake = h.awake }
  Step-IsNotified {w} (notify_everybody live st n) h = record {
    stopped = λ k. st;
    awake = λ k. notify_all-NotWaiting w.pool.workers;
  }

  Reach-IsNotified : {n : ℕ} {w : World Task} → Reach n w → IsNotified w
  Reach-IsNotified here = record { stopped = λ k. cc; awake = λ k. cc }
  Reach-IsNotified (next r (due step)) = Step-IsNotified step (Reach-IsNotified r)
  Reach-IsNotified (next {w = w} r (spurious before after live e)) =
      let h = Reach-IsNotified r in
      record { stopped = h.stopped; awake = still_awake w before after waiting checking e tt h }

  -- A worker that can go on by itself, with those before and after it.
  data Active (ws : List (Worker Task)) : Type 0 where
    idle : (before after : List (Worker Task)) → ws ≡ before ++ checking ∷ after → Active ws
    busy :
        (before after : List (Worker Task)) (t : Task)
        → ws ≡ before ++ running t ∷ after
        → Active ws

  behind : (ws : List (Worker Task)) → Active ws → Active (exited ∷ ws)
  behind ws (idle before after e) = idle (exited ∷ before) after (ap (λ l. exited ∷ l) e)
  behind ws (busy before after t e) = busy (exited ∷ before) after t (ap (λ l. exited ∷ l) e)

  find_active : (ws : List (Worker Task)) → All NotWaiting ws → All Exited ws ⊎ Active ws
  find_active [] h = inl tt
  find_active (waiting ∷ ws) h = absurd h.0
  find_active (checking ∷ ws) h = inr (idle [] ws refl)
  find_active (running t ∷ ws) h = inr (busy [] ws t refl)
  find_active (exited ∷ ws) h = elim (find_active ws h.1) [
    | inl all ↦ inl (tt, all)
    | inr a ↦ inr (behind ws a)
  ]

  stopped_progress :
      (w : World Task)
      → IsNotified w
      → w.terminated ≡ false
      → w.pool.stop ≡ true
      → All Exited w.pool.workers ⊎ ((w' : World Task) × Step w w')
  stopped_progress w n live h = elim (Bool-cases w.notified) [
    | inr k ↦ inr (_, notify_everybody live h k)
    | inl k ↦ elim (find_active w.pool.workers (n.awake k)) [
      | inl all ↦ inl all
      | inr (idle before after e) ↦ elim (turn_after_stop w.pool h) [
        | inl t ↦ inr (_, leave before after live e t)
        | inr (x, r, t) ↦ inr (_, take before after x r live e t)
      ]
      | inr (busy before after t e) ↦ inr (_, finish before after t live e)
    ]
  ]

  -- Once the destructor has set `stop`, whatever happens brings the workers nearer to their end, or a
  -- task throws, which ends the program; and until all workers have exited some step is left that
  -- does not wait for a spurious wake-up: the destructor does not wait for ever. A worker that
  -- sleeps goes on only when it is notified.
  pub shuts_down :
      {n : ℕ} {w : World Task}
      → Reach n w
      → w.terminated ≡ false
      → w.pool.stop ≡ true
      → (All Exited w.pool.workers ⊎ ((w' : World Task) × Step w w'))
        × ((w' : World Task)
            → Move w w'
            → ((w'.pool.stop ≡ true) × (remaining w' < remaining w)) ⊎ (w'.terminated ≡ true))
  shuts_down {n} {w} r live h =
      (stopped_progress w (Reach-IsNotified r) live h, λ w' move. Move-Decreases move h)
