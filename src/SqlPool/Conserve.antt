-- ===== src/SqlPool/Conserve.antt =====
-- The semaphore and the queue agree (src/db/sql_conn_pool.cpp).
use tinychat_server.Base.{
  ℕ, zero, suc, ◌+◌, ◌-◌, ◌≡◌, ◌≢◌, sym, ◌∙◌, ap, inl, inr, Bool, true, false, some, List, [], ◌∷◌,
  ◌++◌, arith, length, length-append, List-cases,
}
use tinychat_server.SqlPool.{
  SqlConnPool, Driver, Outcome, ok, err, synchronization_error, connect_all, acquire, get_sql,
  push_conn, release,
}
use tinychat_server.SqlPool.World.{
  raii_destroy-invalid, opened, World, Step, takes_permit, takes_valid, takes_new, fails,
  gives_back, releases, abandons, Reach, here, next,
}

-- There is a connection in the queue for every permit that can be taken, was taken, or is about to
-- be released; and all permits are accounted for.
pub record IsBalanced (max_size : ℕ) (w : World) : Type 0 where
  pub queued : length w.pool.conn_queue ≡ w.pool.permits + w.acquired + w.releasing
  pub total : w.pool.permits + w.acquired + w.releasing + length w.held + w.lost ≡ max_size

pub length-connect_all :
    (n first : ℕ) (queue : List ℕ)
    → length (connect_all (λ k. true) n first queue).1 ≡ length queue + n
unfolding connect_all
length-connect_all zero first queue = omega arith
length-connect_all (suc n) first queue = omega (
  arith,
  length-connect_all n (suc first) (queue ++ first ∷ []),
  length-append queue (first ∷ []),
)

-- What `getSql` does to the queue: it takes the front, whether it returns or throws later, and
-- leaves an empty queue alone.
pub get_sql_pool :
    (valid : Bool) (driver : Driver) (p : SqlConnPool) (c : ℕ) (rest : List ℕ)
    → p.conn_queue ≡ c ∷ rest
    → (get_sql valid driver p).1 ≡ record p { conn_queue = rest }
unfolding get_sql
get_sql_pool valid driver p c rest e = ground (arith, e)

pub acquire-some :
    (p q : SqlConnPool)
    → acquire p ≡ some q
    → (n : ℕ) × (p.permits ≡ suc n) × (q ≡ record p { permits = n })
unfolding acquire
acquire-some p q h = (p.permits - 1, ground arith, ground arith)

-- A thread that holds a permit finds a connection in the queue.
pub taken :
    (max_size n : ℕ) (w : World)
    → IsBalanced max_size w
    → w.acquired ≡ suc n
    → (c : ℕ) × (rest : List ℕ) × (w.pool.conn_queue ≡ c ∷ rest)
taken max_size n w h e = elim (List-cases w.pool.conn_queue) [
  | inl k ↦ absurd (omega (arith, h.queued, ap length k))
  | inr found ↦ found
]

-- After `getSql` for a thread with a permit, whatever it returned.
took-IsBalanced :
    (max_size n : ℕ) (w : World) (valid : Bool) (driver : Driver) (r : Outcome ℕ) (q : SqlConnPool)
    → IsBalanced max_size w
    → w.acquired ≡ suc n
    → get_sql valid driver w.pool ≡ (r, q)
    → (q.permits ≡ w.pool.permits) × (suc (length q.conn_queue) ≡ length w.pool.conn_queue)
took-IsBalanced max_size n w valid driver r q h a e =
    let (c, rest, k) = taken max_size n w h a in
    let pool : q ≡ record w.pool { conn_queue = rest } =
      sym (ap (λ o. o.1) e) ∙ get_sql_pool valid driver w.pool c rest k in
    (ap (λ o. o.permits) pool, omega (arith, ap (λ o. length o.conn_queue) pool, ap length k))

Step-IsBalanced :
    {max_size : ℕ} {w w' : World} → Step w w' → IsBalanced max_size w → IsBalanced max_size w'
Step-IsBalanced {max_size} {w} (takes_permit pool e) h =
    let (n, k, q) = acquire-some w.pool pool e in rw q (omega (arith, k, h.queued, h.total))
Step-IsBalanced {max_size} {w} (takes_valid n sql driver pool a e) h =
    let (p, q) = took-IsBalanced max_size n w true driver (ok sql) pool h a e in
    omega (arith, p, q, h.queued, h.total)
Step-IsBalanced {max_size} {w} (takes_new n sql pool a e) h =
    let (p, q) = took-IsBalanced max_size n w false (some (some w.fresh)) (ok sql) pool h a e in
    omega (arith, p, q, h.queued, h.total)
Step-IsBalanced {max_size} {w} (fails n valid driver x pool a e) h =
    let (p, q) = took-IsBalanced max_size n w valid driver (err x) pool h a e in
    omega (arith, p, q, h.queued, h.total)
Step-IsBalanced {max_size} {w} (gives_back before after sql e) h =
    unfold push_conn in
    omega (
      arith,
      ap length e,
      length-append w.pool.conn_queue (sql ∷ []),
      length-append before after,
      length-append before (sql ∷ after),
      h.queued,
      h.total,
    )
Step-IsBalanced {max_size} {w} (releases n e) h = unfold release in omega (arith, h.queued, h.total)
Step-IsBalanced {max_size} {w} (abandons auto_commit resets before after sql calls pool e q) h =
    rw (raii_destroy-invalid auto_commit resets sql w.pool pool calls q) (
      omega (
        arith,
        ap length e,
        length-append before after,
        length-append before (sql ∷ after),
        h.queued,
        h.total,
      ))

-- In every interleaving the queue holds a connection for each permit, and idle, lent and lost
-- permits add up to the size of the pool; so no more connections are lent than that.
pub Reach-IsBalanced : {max_size : ℕ} {w : World} → Reach max_size w → IsBalanced max_size w
unfolding opened
Reach-IsBalanced {max_size} here = omega (arith, length-connect_all max_size 0 [])
Reach-IsBalanced (next r s) = Step-IsBalanced s (Reach-IsBalanced r)

-- The check for an empty queue in `getSql` never fires for a thread that holds a permit, whatever
-- the state of the connections and the driver.
pub never_out_of_step :
    {max_size n : ℕ} {w : World}
    → Reach max_size w
    → w.acquired ≡ suc n
    → (valid : Bool) (driver : Driver) → (get_sql valid driver w.pool).0 ≢ err synchronization_error
unfolding get_sql
never_out_of_step {max_size} {n} {w} r a valid driver =
    let (c, rest, k) = taken max_size n w (Reach-IsBalanced r) a in ground (arith, k)
