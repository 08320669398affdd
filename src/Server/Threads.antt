-- ===== src/Server/Threads.antt =====
-- The threads of the server and its end by a signal (src/tinychat_server.cpp,
-- `TinychatServer::run`).
-- An exception that a handler of Asio throws ends the program: out of a thread's function at once,
-- and out of the main thread's `ioc_.run()` when the vector with the running threads is destroyed.
use tinychat_server.Base.{
  ℕ, zero, suc, ◌+◌, ◌≤◌, ◌<◌, ◌≡◌, ◌≢◌, ◌⊎◌, inl, inr, refl, ap, Bool, true, false, List, [], ◌∷◌,
  ◌++◌, length, length-append, List-cases, arith,
}

-- Where the main thread is.
pub data Phase : Type 0 where
  serving joining returned terminated : Phase

pub record Run : Type 0 where
  pub stopped : Bool  -- the context
  pub waiting : Bool  -- for a signal
  pub threads : List Bool  -- not yet joined; whether they are still in `ioc_.run()`
  pub phase : Phase

-- The loop that starts the threads.
unfoldable pub start_threads : ℕ → List Bool
start_threads zero = []
start_threads (suc i) = true ∷ start_threads i

-- Up to the main thread's own `ioc_.run()`.
unfoldable pub run : ℕ → Run
unfolding start_threads
run io_threads = record {
  stopped = false;
  waiting = true;
  threads = start_threads io_threads;
  phase = serving;
}

-- The callback of the wait: it does not look at the error.
unfoldable pub on_signal : Run → Run
on_signal r = record r { stopped = true; waiting = false }

-- The loop that joins the threads, one round of it, where the first of them has returned.
unfoldable pub join_next : Run → Run
join_next r = elim r.threads [
  | [] ↦ record r { phase = returned }
  | t ∷ rest ↦ record r { threads = rest }
]

pub data Step (r : Run) : Run → Type 0 where
  signal : r.waiting ≡ true → r.phase ≡ serving → Step r (on_signal r)
  thread_leaves :
      (before after : List Bool)
      → r.stopped ≡ true
      → r.phase ≢ terminated
      → r.threads ≡ before ++ true ∷ after
      → Step r (record r { threads = before ++ false ∷ after })
  main_leaves : r.stopped ≡ true → r.phase ≡ serving → Step r (record r { phase = joining })
  joins : (rest : List Bool) → r.phase ≡ joining → r.threads ≡ false ∷ rest → Step r (join_next r)
  all_joined : r.phase ≡ joining → r.threads ≡ [] → Step r (join_next r)
  main_throws : r.phase ≡ serving → Step r (record r { phase = terminated })
  thread_throws :
      (before after : List Bool)
      → r.phase ≢ terminated
      → r.threads ≡ before ++ true ∷ after
      → Step r (record r { phase = terminated })

pub data Reach (io_threads : ℕ) : Run → Type 0 where
  here : Reach io_threads (run io_threads)
  next : {r r' : Run} → Reach io_threads r → Step r r' → Reach io_threads r'

abbrev pub in_run : List Bool → ℕ
in_run [] = 0
in_run (true ∷ rest) = suc (in_run rest)
in_run (false ∷ rest) = in_run rest

in_run-append : (xs ys : List Bool) → in_run (xs ++ ys) ≡ in_run xs + in_run ys
in_run-append [] ys = omega arith
in_run-append (true ∷ xs) ys = omega (arith, in_run-append xs ys)
in_run-append (false ∷ xs) ys = in_run-append xs ys

abbrev pub left_in : Phase → ℕ → ℕ
left_in serving n = n + 3
left_in joining n = n + 2
left_in returned n = n + 1
left_in terminated n = 0

-- What is left to do, once the context has been stopped.
abbrev pub left : Run → ℕ
left r = left_in r.phase (length r.threads + in_run r.threads)

left_in-lt : (p : Phase) (m n : ℕ) → p ≢ terminated → m < n → left_in p m < left_in p n
left_in-lt serving m n ne h = omega arith
left_in-lt joining m n ne h = omega arith
left_in-lt returned m n ne h = omega arith
left_in-lt terminated m n ne h = absurd (ne refl)

left_in-pos : (p : Phase) (n : ℕ) → p ≢ terminated → 0 < left_in p n
left_in-pos serving n ne = omega arith
left_in-pos joining n ne = omega arith
left_in-pos returned n ne = omega arith
left_in-pos terminated n ne = absurd (ne refl)

start_threads_lem : (n : ℕ) → (in_run (start_threads n) ≡ n) × (length (start_threads n) ≡ n)
unfolding start_threads
start_threads_lem zero = (refl, refl)
start_threads_lem (suc n) = omega (arith, start_threads_lem n)

-- Until a signal comes everybody is in `ioc_.run()`; afterwards only threads that are not yet
-- joined are left, and none when `run` returns.
pub record IsOrderly (io_threads : ℕ) (r : Run) : Type 0 where
  pub waits :
      ((r.waiting ≡ true) × (r.stopped ≡ false)) ⊎ ((r.waiting ≡ false) × (r.stopped ≡ true))
  pub early : r.stopped ≡ false → (in_run r.threads ≡ io_threads) × (length r.threads ≡ io_threads)
  pub bounded : length r.threads ≤ io_threads
  pub after_signal : r.phase ≡ joining → r.stopped ≡ true
  pub at_end : r.phase ≡ returned → (r.stopped ≡ true) × (r.threads ≡ [])

Step-IsOrderly : {n : ℕ} {r r' : Run} → Step r r' → IsOrderly n r → IsOrderly n r'
unfolding on_signal join_next
Step-IsOrderly (signal w p) h = ground arith
Step-IsOrderly (thread_leaves before after s p e) h = ground (
  arith,
  ap length e,
  length-append before (true ∷ after),
  length-append before (false ∷ after),
  List-cases before,
)
Step-IsOrderly (main_leaves s p) h = ground arith
Step-IsOrderly (joins rest p e) h = ground (arith, ap length e)
Step-IsOrderly (all_joined p e) h = ground arith
Step-IsOrderly (main_throws p) h = ground arith
Step-IsOrderly (thread_throws before after p e) h = ground arith

run-IsOrderly : (n : ℕ) → IsOrderly n (run n)
unfolding run
run-IsOrderly n = ground (arith, start_threads_lem n)

Reach-IsOrderly : {n : ℕ} {r : Run} → Reach n r → IsOrderly n r
Reach-IsOrderly {n} here = run-IsOrderly n
Reach-IsOrderly (next r s) = Step-IsOrderly s (Reach-IsOrderly r)

Step-left : {r r' : Run} → Step r r' → r.stopped ≡ true → r.waiting ≡ false → left r' < left r
unfolding on_signal join_next
Step-left (signal w p) s f = cc
Step-left {r} (thread_leaves before after s' p e) s f = left_in-lt r.phase _ _ p (
    omega (
      arith,
      ap length e,
      ap in_run e,
      length-append before (true ∷ after),
      length-append before (false ∷ after),
      in_run-append before (true ∷ after),
      in_run-append before (false ∷ after),
    ))
Step-left (main_leaves s' p) s f = ground arith
Step-left (joins rest p e) s f = ground (arith, ap length e, ap in_run e)
Step-left (all_joined p e) s f = ground (arith, e)
Step-left (main_throws p) s f = ground arith
Step-left {r} (thread_throws before after p e) s f = left_in-pos r.phase _ p

some_step :
    (r : Run) (threads : List Bool) (phase : Phase)
    → r.threads ≡ threads
    → r.phase ≡ phase
    → r.stopped ≡ true
    → (phase ≡ returned) ⊎ (phase ≡ terminated) ⊎ ((r' : Run) × Step r r')
some_step r threads serving e p s = inr (inr (_, main_leaves s p))
some_step r [] joining e p s = inr (inr (_, all_joined p e))
some_step r (true ∷ rest) joining e p s =
    inr (inr (_, thread_leaves [] rest s (λ k. ground arith) e))
some_step r (false ∷ rest) joining e p s = inr (inr (_, joins rest p e))
some_step r threads returned e p s = inl refl
some_step r threads terminated e p s = inr (inl refl)

-- Once a signal has stopped the context, every step brings the server nearer to its end, and until
-- `run` has returned or an exception has ended the program some step is left; `run` returns only
-- after a signal, and with every thread joined. Before a signal all threads are in `ioc_.run()`.
pub run_ends :
    {io_threads : ℕ} {r : Run}
    → Reach io_threads r
    → (r.stopped ≡ false → (in_run r.threads ≡ io_threads) × (length r.threads ≡ io_threads))
      × (r.phase ≡ returned → (r.stopped ≡ true) × (r.threads ≡ []))
      × (r.stopped ≡ true
          → ((r.phase ≡ returned) ⊎ (r.phase ≡ terminated) ⊎ ((r' : Run) × Step r r'))
            × ((r' : Run) → Step r r' → left r' < left r))
run_ends {r = r} reach =
    let h = Reach-IsOrderly reach in
    (
      h.early,
      h.at_end,
      λ s. (some_step r r.threads r.phase refl refl s, λ r' step. Step-left step s (ground arith)),
    )
