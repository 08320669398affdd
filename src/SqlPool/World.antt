-- ===== src/SqlPool/World.antt =====
-- The pool with the threads that use it, in any interleaving (src/db/sql_conn_pool.cpp and
-- sql_conn_RAII.cpp). The semaphore is not under the mutex, so taking a permit and taking a
-- connection are two steps, and so are giving a connection back and releasing its permit.
use tinychat_server.Base.{ℕ, suc, ◌+◌, ◌≡◌, Bool, true, false, some, List, [], ◌∷◌, ◌++◌}
use tinychat_server.SqlPool.{
  SqlConnPool, Call, Driver, Error, ok, err, unset, init, acquire, get_sql, push_conn, release,
  raii_destroy,
}

pub record World : Type 0 where
  pub pool : SqlConnPool
  pub acquired : ℕ  -- threads that hold a permit and have not been to the queue
  pub held : List ℕ  -- connections that a `SqlConnRAII` owns
  pub releasing : ℕ  -- threads that have given a connection back and not released its permit
  pub lost : ℕ  -- permits that no thread will release any more
  pub fresh : ℕ  -- the driver has numbered its connections below this

-- After `init`, with every connection made.
unfoldable pub opened : ℕ → World
unfolding init
opened max_size = record {
  pool = (init true (λ n. true) max_size unset).1;
  acquired = 0;
  held = [];
  releasing = 0;
  lost = 0;
  fresh = max_size;
}

-- Every connection that the driver makes is a new one.
pub data Step (w : World) : World → Type 0 where
  takes_permit :
      (pool : SqlConnPool)
      → acquire w.pool ≡ some pool
      → Step w (record w { pool = pool; acquired = w.acquired + 1 })
  takes_valid :
      (n sql : ℕ) (driver : Driver) (pool : SqlConnPool)
      → w.acquired ≡ suc n
      → get_sql true driver w.pool ≡ (ok sql, pool)
      → Step w (record w { pool = pool; acquired = n; held = sql ∷ w.held })
  takes_new :
      (n sql : ℕ) (pool : SqlConnPool)
      → w.acquired ≡ suc n
      → get_sql false (some (some w.fresh)) w.pool ≡ (ok sql, pool)
      → Step w (record w { pool = pool; acquired = n; held = sql ∷ w.held; fresh = w.fresh + 1 })
  fails :
      (n : ℕ) (valid : Bool) (driver : Driver) (e : Error) (pool : SqlConnPool)
      → w.acquired ≡ suc n
      → get_sql valid driver w.pool ≡ (err e, pool)
      → Step w (record w { pool = pool; acquired = n; lost = w.lost + 1 })
  gives_back :
      (before after : List ℕ) (sql : ℕ)
      → w.held ≡ before ++ sql ∷ after
      → Step w (record w {
        pool = push_conn sql w.pool;
        held = before ++ after;
        releasing = w.releasing + 1;
      })
  releases :
      (n : ℕ) → w.releasing ≡ suc n → Step w (record w { pool = release w.pool; releasing = n })
  -- The owner's connection has become invalid: its destructor leaves it, or `getSql` takes another.
  abandons :
      (auto_commit resets : Bool) (before after : List ℕ) (sql : ℕ) (calls : List Call)
      (pool : SqlConnPool)
      → w.held ≡ before ++ sql ∷ after
      → raii_destroy false auto_commit resets sql w.pool ≡ some (calls, pool)
      → Step w (record w { pool = pool; held = before ++ after; lost = w.lost + 1 })

-- An invalid connection leaves the pool as it is.
pub raii_destroy-invalid :
    (auto_commit resets : Bool) (sql : ℕ) (p p' : SqlConnPool) (calls : List Call)
    → raii_destroy false auto_commit resets sql p ≡ some (calls, p')
    → p' ≡ p
unfolding raii_destroy
raii_destroy-invalid auto_commit resets sql p p' calls e = cc

pub data Reach (max_size : ℕ) : World → Type 0 where
  here : Reach max_size (opened max_size)
  next : {w w' : World} → Reach max_size w → Step w w' → Reach max_size w'
