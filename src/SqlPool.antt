-- ===== src/SqlPool.antt =====
-- src/db/sql_conn_pool.hpp and sql_conn_pool.cpp, and the connection's owner of
-- src/db/sql_conn_RAII.hpp and sql_conn_RAII.cpp.
-- A connection is a number. What the driver answers is an argument: `valid` is what `isValid()`
-- returns, and the driver is `none` where its instance is null, and otherwise what `connect`
-- returns, `none` where that throws.
pub mod World
pub mod Conserve
pub mod Share
pub mod Leak
pub mod Nested
mod Witnesses
use tinychat_server.Base.{
  ℕ, zero, suc, ◌+◌, Bool, true, false, Option, none, some, List, [], ◌∷◌, ◌++◌, if◌then◌else◌,
}

pub data Error : Type 0 where
  driver_is_null connect_failed synchronization_error : Error

pub data Outcome {ℓ} (A : Type ℓ) : Type ℓ where
  ok : A → Outcome A
  err : Error → Outcome A

abbrev pub Driver : Type 0
Driver = Option (Option ℕ)

pub record SqlConnPool : Type 0 where
  pub permits : ℕ  -- the semaphore's counter
  pub max_conn : ℕ
  pub conn_queue : List ℕ

-- What the static object holds before `init`: its semaphore is a null pointer, so that nobody holds
-- a permit of it.
abbrev pub unset : SqlConnPool
unset = record { permits = 0; max_conn = 0; conn_queue = [] }

-- The loop of `init`: `i` connections are still to be made, and the driver numbers them from `next`.
-- `connects` is whether the `connect` of that number returns; an exception of it leaves the loop.
unfoldable pub connect_all : (ℕ → Bool) → ℕ → ℕ → List ℕ → Bool × List ℕ
connect_all connects zero next queue = (true, queue)
connect_all connects (suc i) next queue =
    let rest = connect_all connects i (suc next) (queue ++ next ∷ []) in
    if connects next then rest else (false, queue)

-- The state after `init` is the state after an exception, too.
unfoldable pub init : Bool → (ℕ → Bool) → ℕ → SqlConnPool → Option Error × SqlConnPool
unfolding connect_all
init has_driver connects max_size pool =
    let sized = record pool { permits = max_size; max_conn = max_size } in
    let (made, queue) = connect_all connects max_size 0 pool.conn_queue in
    if has_driver
    then (if made then none else some connect_failed, record sized { conn_queue = queue })
    else (some driver_is_null, sized)

-- `try_acquire`, and what `acquire` waits for: `none` is a wait.
unfoldable pub acquire : SqlConnPool → Option SqlConnPool
acquire pool = elim pool.permits [ zero ↦ none | suc n ↦ some (record pool { permits = n }) ]

new_connection : Driver → Outcome ℕ
new_connection none = err driver_is_null
new_connection (some none) = err connect_failed
new_connection (some (some sql)) = ok sql

checked : Bool → Driver → ℕ → Outcome ℕ
unfolding new_connection
checked valid driver sql = if valid then ok sql else new_connection driver

from_queue : Bool → Driver → SqlConnPool → List ℕ → Outcome ℕ × SqlConnPool
unfolding checked
from_queue valid driver pool [] = (err synchronization_error, pool)
from_queue valid driver pool (sql ∷ rest) =
    (checked valid driver sql, record pool { conn_queue = rest })

-- The private `getSql`.
unfoldable pub get_sql : Bool → Driver → SqlConnPool → Outcome ℕ × SqlConnPool
unfolding from_queue
get_sql valid driver pool = from_queue valid driver pool pool.conn_queue

-- `getConn`: `none` is a wait for the semaphore.
unfoldable pub get_conn : Bool → Driver → SqlConnPool → Option (Outcome ℕ × SqlConnPool)
unfolding acquire get_sql
get_conn valid driver pool = elim (acquire pool) [
  | none ↦ none
  | some pool' ↦ some (get_sql valid driver pool')
]

-- `freeConn` pushes under the mutex and then releases the semaphore. The argument may be null.
unfoldable pub push_conn : ℕ → SqlConnPool → SqlConnPool
push_conn sql pool = record pool { conn_queue = pool.conn_queue ++ sql ∷ [] }

unfoldable pub release : SqlConnPool → SqlConnPool
release pool = record pool { permits = pool.permits + 1 }

unfoldable pub free_conn : Option ℕ → SqlConnPool → SqlConnPool
unfolding push_conn release
free_conn none pool = pool
free_conn (some sql) pool = release (push_conn sql pool)

-- What a connection is asked for.
pub data Call : Type 0 where
  set_auto_commit : ℕ → Bool → Call
  close : ℕ → Call

-- The loop of `closePool`: it closes the front and pops it, until the queue is empty.
close_all : List ℕ → List Call
close_all [] = []
close_all (sql ∷ rest) = close sql ∷ close_all rest

unfoldable pub close_pool : SqlConnPool → List Call × SqlConnPool
unfolding close_all
close_pool pool = (close_all pool.conn_queue, record pool { conn_queue = [] })

-- `SqlConnRAII::getSql`: an owner whose connection is not valid takes another from the pool, and
-- keeps that one only. `valid'` and `driver` are for the connection from the pool.
unfoldable pub raii_get_sql :
    Bool → Bool → Driver → ℕ → SqlConnPool → Option (Outcome ℕ × SqlConnPool)
unfolding get_conn
raii_get_sql valid valid' driver sql pool =
    if valid then some (ok sql, pool) else get_conn valid' driver pool

-- `~SqlConnRAII`: a connection that is not valid is not given back, and one that is given back
-- commits by itself again. `auto_commit` is what `getAutoCommit()` returns. `resets` says whether
-- that and `setAutoCommit(true)` return; otherwise the destructor ends the process: `none`.
unfoldable pub raii_destroy :
    Bool → Bool → Bool → ℕ → SqlConnPool → Option (List Call × SqlConnPool)
unfolding free_conn
raii_destroy valid auto_commit resets sql pool =
    if valid
    then (if resets
        then some
            (if auto_commit then [] else set_auto_commit sql true ∷ [], free_conn (some sql) pool)
        else none)
    else some ([], pool)
