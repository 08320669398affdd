-- ===== src/SqlPool/Witnesses.antt =====
-- Runs of src/db/sql_conn_pool.cpp at which the theorems are applied.
use tinychat_server.SqlPool.Nested
use tinychat_server.SqlPool.Nested.{Workers, IsDeadlocked, deadlocks_iff}
use tinychat_server.Base.{◌↔◌, arith, ℕ, ◌+◌, ◌≤◌, refl, false, none, some, List, [], ◌∷◌, length}
use tinychat_server.SqlPool.{SqlConnPool, connect_failed, acquire, get_sql}
use tinychat_server.SqlPool.World.{opened, World, Reach, here, next, takes_permit, takes_new, fails}
use tinychat_server.SqlPool.Conserve.{IsBalanced, Reach-IsBalanced}
use tinychat_server.SqlPool.Share.{Unshared, Reach-Unshared}
use tinychat_server.SqlPool.Leak.{now, lost_for_good}

-- A pool of one connection.
abbrev pool_of : ℕ → List ℕ → SqlConnPool
pool_of n queue = record { permits = n; max_conn = 1; conn_queue = queue }

-- A thread has the permit.
abbrev asked : World
asked = record {
  pool = pool_of 0 (0 ∷ []);
  acquired = 1;
  held = [];
  releasing = 0;
  lost = 0;
  fresh = 1;
}

Reach-asked : Reach 1 asked
unfolding opened acquire
Reach-asked = next here (takes_permit (pool_of 0 (0 ∷ [])) refl)

-- It found the connection invalid and has another.
abbrev renewed : World
renewed = record asked { pool = pool_of 0 []; acquired = 0; held = 1 ∷ []; fresh = 2 }

Reach-renewed : Reach 1 renewed
unfolding get_sql
Reach-renewed = next Reach-asked (takes_new 0 1 (pool_of 0 []) refl refl)

-- It could not connect.
abbrev failed : World
failed = record asked { pool = pool_of 0 []; acquired = 0; lost = 1 }

Reach-failed : Reach 1 failed
unfolding get_sql
Reach-failed = next Reach-asked (fails 0 false (some none) connect_failed (pool_of 0 []) refl refl)

Reach-IsBalanced_example : IsBalanced 1 renewed
Reach-IsBalanced_example = Reach-IsBalanced Reach-renewed

Reach-Unshared_example : Unshared 2 (1 ∷ [])
Reach-Unshared_example = Reach-Unshared Reach-renewed

lost_for_good_example : length {A = ℕ} [] + 0 + 1 ≤ 1
lost_for_good_example = lost_for_good Reach-failed now

-- The numbers of doc/config.ini.
deadlocks_iff_example : ((w : Workers) × Nested.Reach 20 20 w × IsDeadlocked w) ↔ (20 ≤ 20)
deadlocks_iff_example = deadlocks_iff 20 20 (omega arith)
