-- ===== src/SqlPool/Leak.antt =====
-- What a connection that has become invalid costs (src/db/sql_conn_RAII.cpp).
use tinychat_server.Base.{some, ℕ, ◌+◌, ◌≤◌, ◌≡◌, refl, Bool, false, none, [], arith, length}
use tinychat_server.SqlPool.{SqlConnPool, Driver, acquire, get_conn, raii_get_sql, raii_destroy}
use tinychat_server.SqlPool.World.{
  World, Step, takes_permit, takes_valid, takes_new, fails, gives_back, releases, abandons, Reach,
  next,
}
use tinychat_server.SqlPool.Conserve.{Reach-IsBalanced}

-- Later worlds of the same run.
pub data Later (w : World) : World → Type 0 where
  now : Later w w
  after : {w' w'' : World} → Later w w' → Step w' w'' → Later w w''

Step-lost-le : {w w' : World} → Step w w' → w.lost ≤ w'.lost
Step-lost-le (takes_permit pool e) = omega arith
Step-lost-le (takes_valid n sql driver pool a e) = omega arith
Step-lost-le (takes_new n sql pool a e) = omega arith
Step-lost-le (fails n valid driver x pool a e) = omega arith
Step-lost-le (gives_back before rest sql e) = omega arith
Step-lost-le (releases n e) = omega arith
Step-lost-le (abandons auto_commit resets before rest sql calls pool e q) = omega arith

pub Later-lost-le : {w w' : World} → Later w w' → w.lost ≤ w'.lost
Later-lost-le now = omega arith
Later-lost-le (after l s) = omega (arith, Later-lost-le l, Step-lost-le s)

Later-Reach : {max_size : ℕ} {w w' : World} → Reach max_size w → Later w w' → Reach max_size w'
Later-Reach r now = r
Later-Reach r (after l s) = next (Later-Reach r l) s

get_conn-zero :
    (p : SqlConnPool) (valid : Bool) (driver : Driver)
    → p.permits ≡ 0
    → get_conn valid driver p ≡ none
unfolding get_conn acquire
get_conn-zero p valid driver e = ground (arith, e)

-- A permit that is lost, to a failed connect or to a connection that became invalid with its owner,
-- never comes back: the connections that are lent later, and those that can be, are at most the
-- size of the pool less the permits lost before.
pub lost_for_good :
    {max_size : ℕ} {w w' : World}
    → Reach max_size w
    → Later w w'
    → length w'.held + w'.pool.permits + w.lost ≤ max_size
lost_for_good {max_size} {w} {w'} r l =
    let h = Reach-IsBalanced (Later-Reach r l) in omega (arith, h.total, Later-lost-le l)

-- Once as many permits are lost as the pool has, every later `getConn` waits forever.
pub exhausted_waits :
    {max_size : ℕ} {w w' : World}
    → Reach max_size w
    → Later w w'
    → w.lost ≡ max_size
    → (valid : Bool) (driver : Driver) → get_conn valid driver w'.pool ≡ none
exhausted_waits {max_size} {w} {w'} r l all valid driver =
    let h = lost_for_good r l in get_conn-zero w'.pool valid driver (omega arith)

-- An owner whose connection is invalid asks the pool for a second permit: with none left it waits
-- in the middle of its statement, while the permit that it has is of no use to anybody.
pub invalid_owner_waits :
    (sql : ℕ) (p : SqlConnPool) (valid' auto_commit resets : Bool) (driver : Driver)
    → p.permits ≡ 0
    → (raii_get_sql false valid' driver sql p ≡ none)
      × (raii_destroy false auto_commit resets sql p ≡ some ([], p))
unfolding raii_get_sql raii_destroy
invalid_owner_waits sql p valid' auto_commit resets driver e =
    (get_conn-zero p valid' driver e, refl)
