-- ===== src/SqlPool/Nested.antt =====
-- Handlers that hold a connection while they take a second one: a message for a group keeps the
-- connection of `handle_message` (src/core/ws_handler.cpp) while `write_to_room`
-- (src/core/ws_session_mgr.cpp) takes another from the same pool.
use tinychat_server.Base.{
  ℕ, zero, suc, ◌+◌, ◌-◌, ◌*◌, ◌≤◌, ◌<◌, ◌≡◌, ◌↔◌, inl, inr, refl, ap, true, none, some, [], ◌∷◌,
  length, length-append, List-cases, arith,
}
use native.Mathlib.Decide.{dec_lt}
use tinychat_server.SqlPool.{SqlConnPool, ok, unset, init, get_conn, free_conn}
use tinychat_server.SqlPool.Conserve.{length-connect_all}

-- The workers of the pool of threads, while every connection stays valid.
pub record Workers : Type 0 where
  pub pool : SqlConnPool
  pub idle : ℕ
  pub outer : ℕ  -- hold one connection and are about to take the second
  pub inner : ℕ  -- hold two
  pub sending : ℕ  -- hold the first one only, after the members of the room were read

pub data Step (w : Workers) : Workers → Type 0 where
  begins :
      (n sql : ℕ) (pool : SqlConnPool)
      → w.idle ≡ suc n
      → get_conn true none w.pool ≡ some (ok sql, pool)
      → Step w (record w { pool = pool; idle = n; outer = w.outer + 1 })
  nests :
      (n sql : ℕ) (pool : SqlConnPool)
      → w.outer ≡ suc n
      → get_conn true none w.pool ≡ some (ok sql, pool)
      → Step w (record w { pool = pool; outer = n; inner = w.inner + 1 })
  reads :
      (n sql : ℕ)
      → w.inner ≡ suc n
      → Step w (record w { pool = free_conn (some sql) w.pool; inner = n; sending = w.sending + 1 })
  ends :
      (n sql : ℕ)
      → w.sending ≡ suc n
      → Step w (record w { pool = free_conn (some sql) w.pool; sending = n; idle = w.idle + 1 })

-- After `init` with every connection made.
unfoldable pub started : ℕ → ℕ → Workers
unfolding init
started max_size worker_threads = record {
  pool = (init true (λ n. true) max_size unset).1;
  idle = worker_threads;
  outer = 0;
  inner = 0;
  sending = 0;
}

pub data Reach (max_size worker_threads : ℕ) : Workers → Type 0 where
  here : Reach max_size worker_threads (started max_size worker_threads)
  next :
      {w w' : Workers}
      → Reach max_size worker_threads w
      → Step w w'
      → Reach max_size worker_threads w'

record IsCounted (max_size worker_threads : ℕ) (w : Workers) : Type 0 where
  queued : length w.pool.conn_queue ≡ w.pool.permits
  lent : w.pool.permits + w.outer + 2 * w.inner + w.sending ≡ max_size
  busy : w.idle + w.outer + w.inner + w.sending ≡ worker_threads

-- What `getConn` does to the pool where it returns a connection.
get_conn-some :
    (p q : SqlConnPool) (sql : ℕ)
    → get_conn true none p ≡ some (ok sql, q)
    → length p.conn_queue ≡ p.permits
    → (q.permits + 1 ≡ p.permits) × (length q.conn_queue ≡ q.permits)
unfolding get_conn
get_conn-some p q sql e h = elim (List-cases p.conn_queue) [
  | inl k ↦ ground (arith, ap length k, k)
  | inr (c, rest, k) ↦ ground (arith, ap length k, k)
]

get_conn-ready :
    (p : SqlConnPool)
    → length p.conn_queue ≡ p.permits
    → 0 < p.permits
    → (sql : ℕ) × (q : SqlConnPool) × (get_conn true none p ≡ some (ok sql, q))
unfolding get_conn
get_conn-ready p h k = elim (List-cases p.conn_queue) [
  | inl e ↦ absurd (omega (arith, ap length e))
  | inr (c, rest, e) ↦
      (c, record p { permits = p.permits - 1; conn_queue = rest }, ground (arith, e))
]

get_conn-none : (p : SqlConnPool) → p.permits ≡ 0 → get_conn true none p ≡ none
unfolding get_conn
get_conn-none p h = ground arith

Step-IsCounted :
    {max_size worker_threads : ℕ} {w w' : Workers}
    → Step w w'
    → IsCounted max_size worker_threads w
    → IsCounted max_size worker_threads w'
unfolding free_conn
Step-IsCounted {w = w} (begins n sql pool e k) h =
    let got = get_conn-some w.pool pool sql k h.queued in omega (arith, got, h.lent, h.busy)
Step-IsCounted {w = w} (nests n sql pool e k) h =
    let got = get_conn-some w.pool pool sql k h.queued in omega (arith, got, h.lent, h.busy)
Step-IsCounted {w = w} (reads n sql e) h =
    omega (arith, h.queued, h.lent, h.busy, length-append w.pool.conn_queue (sql ∷ []))
Step-IsCounted {w = w} (ends n sql e) h =
    omega (arith, h.queued, h.lent, h.busy, length-append w.pool.conn_queue (sql ∷ []))

Reach-IsCounted :
    {max_size worker_threads : ℕ} {w : Workers}
    → Reach max_size worker_threads w
    → IsCounted max_size worker_threads w
unfolding started
Reach-IsCounted {max_size} here = omega (arith, length-connect_all max_size 0 [])
Reach-IsCounted (next r s) = Step-IsCounted s (Reach-IsCounted r)

-- Some handler is at work, and no thread can take a step any more.
pub record IsDeadlocked (w : Workers) : Type 0 where
  pub at_work : 0 < w.outer + w.inner + w.sending
  pub stuck : ¬ ((w' : Workers) × Step w w')

-- With fewer workers than connections somebody can go on.
goes_on :
    {max_size worker_threads : ℕ} (w : Workers)
    → worker_threads < max_size
    → IsCounted max_size worker_threads w
    → 0 < w.outer + w.inner + w.sending
    → (w' : Workers) × Step w w'
goes_on w few h k = elim (dec_lt 0 w.inner) [
  | yes i ↦ (_, reads (w.inner - 1) 0 (omega arith))
  | no i ↦ elim (dec_lt 0 w.sending) [
    | yes l ↦ (_, ends (w.sending - 1) 0 (omega arith))
    | no l ↦
        let (sql, pool, e) = get_conn-ready w.pool h.queued (omega (arith, h.lent, h.busy)) in
        (_, nests (w.outer - 1) sql pool (omega arith) e)
  ]
]

-- Handlers that begin one after the other.
begun :
    (n : ℕ) {max_size worker_threads : ℕ}
    → n ≤ max_size
    → n ≤ worker_threads
    → (w : Workers) × Reach max_size worker_threads w
      × (w.outer ≡ n)
      × (w.inner ≡ 0)
      × (w.sending ≡ 0)
unfolding started
begun zero {max_size} {worker_threads} a b =
    (started max_size worker_threads, here, refl, refl, refl)
begun (suc n) {max_size} {worker_threads} a b =
    let (w, r, o, i, l) =
      begun n {max_size = max_size} {worker_threads = worker_threads} (omega arith) (omega arith) in
    let h = Reach-IsCounted r in
    let (sql, pool, e) = get_conn-ready w.pool h.queued (omega (arith, h.lent)) in
    (_, next r (begins (w.idle - 1) sql pool (omega (arith, h.busy)) e), omega arith, i, l)

nobody_goes_on :
    (w : Workers)
    → w.pool.permits ≡ 0
    → w.inner ≡ 0
    → w.sending ≡ 0
    → ¬ ((w' : Workers) × Step w w')
nobody_goes_on w p i l (w', begins n sql pool e k) = ground (arith, get_conn-none w.pool p)
nobody_goes_on w p i l (w', nests n sql pool e k) = ground (arith, get_conn-none w.pool p)
nobody_goes_on w p i l (w', reads n sql e) = absurd (omega arith)
nobody_goes_on w p i l (w', ends n sql e) = absurd (omega arith)

-- While every connection stays valid and none is lost, handlers of group messages can come to a state
-- in which each of them holds a connection and waits for a second one for ever, exactly if there are
-- at least as many worker threads as connections.
pub deadlocks_iff :
    (max_size worker_threads : ℕ)
    → 0 < max_size
    → ((w : Workers) × Reach max_size worker_threads w × IsDeadlocked w)
      ↔ (max_size ≤ worker_threads)
deadlocks_iff max_size worker_threads pos = (
  λ (w, r, d). elim (dec_lt worker_threads max_size) [
    | yes few ↦ absurd (d.stuck (goes_on w few (Reach-IsCounted r) d.at_work))
    | no many ↦ omega arith
  ],
  λ many.
      let (w, r, o, i, l) =
        begun max_size {max_size = max_size} {worker_threads = worker_threads} (omega arith) many in
      let h = Reach-IsCounted r in
      (
        w,
        r,
        record { at_work = omega arith; stuck = nobody_goes_on w (omega (arith, h.lent)) i l },
      ),
)
