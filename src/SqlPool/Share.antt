-- ===== src/SqlPool/Share.antt =====
-- No connection is shared (src/db/sql_conn_pool.cpp).
use mathlib.Core.List.{
  Perm, Nodup, perm_middle, perm_append_singleton, append_assoc, append-nil, Nodup-cons, Nodup-nil,
  Mem, mem-cons, mem-cons_of_mem, not-mem-nil,
}
use mathlib.Core.List.Perm
use mathlib.Core.Logic.Or
use native.Mathlib.Bridge.{le_prop}
use tinychat_server.Base.{
  ℕ, zero, suc, ◌+◌, ◌<◌, ◌≡◌, sym, ◌∙◌, ap, Bool, true, false, some, List, [], ◌∷◌, ◌++◌, arith,
}
use tinychat_server.SqlPool.{
  SqlConnPool, Driver, Outcome, ok, err, connect_all, get_sql, push_conn, release,
}
use tinychat_server.SqlPool.World.{
  raii_destroy-invalid, opened, World, Step, takes_permit, takes_valid, takes_new, fails,
  gives_back, releases, abandons, Reach, here, next,
}
use tinychat_server.SqlPool.Conserve.{
  taken, Reach-IsBalanced, IsBalanced, get_sql_pool, acquire-some,
}

-- Different connections, all of them made by the driver before `fresh`.
abbrev pub Unshared : ℕ → List ℕ → Type 0
Unshared fresh cs = Nodup cs × ((c : ℕ) → Mem c cs → c < fresh)

Unshared-perm : (fresh : ℕ) {cs ds : List ℕ} → Perm cs ds → Unshared fresh cs → Unshared fresh ds
Unshared-perm fresh p u = (Perm.nodup p u.0, λ c m. u.1 c ((Perm.mem_iff p).1 m))

Unshared-tail : (fresh c : ℕ) (cs : List ℕ) → Unshared fresh (c ∷ cs) → Unshared fresh cs
Unshared-tail fresh c cs u = ((Nodup-cons.0 u.0).1, λ d m. u.1 d (mem-cons_of_mem c m))

Unshared-new : (fresh : ℕ) (cs : List ℕ) → Unshared fresh cs → Unshared (suc fresh) (fresh ∷ cs)
Unshared-new fresh cs u = (
  Nodup-cons.1 (λ m. absurd (let h = u.1 fresh m in omega arith), u.0),
  λ c m. Or.elim le_prop (mem-cons.0 m) (λ e. omega arith) (λ k. let h = u.1 c k in omega arith),
)

connect_all-Unshared :
    (n first : ℕ) (queue : List ℕ)
    → Unshared first queue
    → Unshared (first + n) (connect_all (λ k. true) n first queue).1
unfolding connect_all
connect_all-Unshared zero first queue u = (u.0, λ c m. let h = u.1 c m in omega arith)
connect_all-Unshared (suc n) first queue u =
    let new : Unshared (suc first) (queue ++ first ∷ []) =
      Unshared-perm (suc first) (Perm.symm (perm_append_singleton first queue))
        (Unshared-new first queue u) in
    let v = connect_all-Unshared n (suc first) (queue ++ first ∷ []) new in
    (v.0, λ c m. let h = v.1 c m in omega arith)

-- Every connection of the pool: those in the queue, and those with an owner.
abbrev pub connections : World → List ℕ
connections w = w.pool.conn_queue ++ w.held

-- The front of the queue gets an owner.
Unshared-lent :
    (fresh : ℕ) (queue q rest held : List ℕ) (c : ℕ)
    → queue ≡ c ∷ rest
    → q ≡ rest
    → Unshared fresh (queue ++ held)
    → Unshared fresh (q ++ c ∷ held)
Unshared-lent fresh queue q rest held c k e u =
    let v : Unshared fresh (c ∷ rest ++ held) = rw k at u in
    rw e (Unshared-perm fresh (Perm.symm (perm_middle rest held)) v)

-- The front of the queue is left to nobody.
Unshared-left :
    (fresh : ℕ) (queue q rest held : List ℕ) (c : ℕ)
    → queue ≡ c ∷ rest
    → q ≡ rest
    → Unshared fresh (queue ++ held)
    → Unshared fresh (q ++ held)
Unshared-left fresh queue q rest held c k e u =
    let v : Unshared fresh (c ∷ rest ++ held) = rw k at u in
    rw e (Unshared-tail fresh c (rest ++ held) v)

-- `getSql` with the connection `c` at the front of the queue.
front_goes :
    (valid : Bool) (driver : Driver) (p q : SqlConnPool) (c : ℕ) (rest : List ℕ) (r : Outcome ℕ)
    → p.conn_queue ≡ c ∷ rest
    → get_sql valid driver p ≡ (r, q)
    → q.conn_queue ≡ rest
front_goes valid driver p q c rest r k e =
    ap (λ o. o.conn_queue) (sym (ap (λ o. o.1) e) ∙ get_sql_pool valid driver p c rest k)

get_sql_valid :
    (driver : Driver) (p q : SqlConnPool) (c sql : ℕ) (rest : List ℕ)
    → p.conn_queue ≡ c ∷ rest
    → get_sql true driver p ≡ (ok sql, q)
    → c ≡ sql
unfolding get_sql
get_sql_valid driver p q c sql rest k e = ground arith

get_sql_new :
    (fresh : ℕ) (p q : SqlConnPool) (c sql : ℕ) (rest : List ℕ)
    → p.conn_queue ≡ c ∷ rest
    → get_sql false (some (some fresh)) p ≡ (ok sql, q)
    → fresh ≡ sql
unfolding get_sql
get_sql_new fresh p q c sql rest k e = ground arith

Step-Unshared :
    {max_size : ℕ} {w w' : World}
    → Step w w'
    → IsBalanced max_size w
    → Unshared w.fresh (connections w)
    → Unshared w'.fresh (connections w')
Step-Unshared {max_size} {w} (takes_permit pool e) h u =
    let (n, k, q) = acquire-some w.pool pool e in rw q u
Step-Unshared {max_size} {w} (takes_valid n sql driver pool a e) h u =
    let (c, rest, k) = taken max_size n w h a in
    let q = front_goes true driver w.pool pool c rest (ok sql) k e in
    rw (← get_sql_valid driver w.pool pool c sql rest k e)
      (Unshared-lent w.fresh w.pool.conn_queue pool.conn_queue rest w.held c k q u)
Step-Unshared {max_size} {w} (takes_new n sql pool a e) h u =
    let (c, rest, k) = taken max_size n w h a in
    let q = front_goes false (some (some w.fresh)) w.pool pool c rest (ok sql) k e in
    let v = Unshared-left w.fresh w.pool.conn_queue pool.conn_queue rest w.held c k q u in
    let new =
      Unshared-perm (suc w.fresh) (Perm.symm (perm_middle pool.conn_queue w.held))
        (Unshared-new w.fresh (pool.conn_queue ++ w.held) v) in
    rw (← get_sql_new w.fresh w.pool pool c sql rest k e)
      (new.0, λ d m. let h = new.1 d m in omega arith)
Step-Unshared {max_size} {w} (fails n valid driver x pool a e) h u =
    let (c, rest, k) = taken max_size n w h a in
    let q = front_goes valid driver w.pool pool c rest (err x) k e in
    Unshared-left w.fresh w.pool.conn_queue pool.conn_queue rest w.held c k q u
Step-Unshared {max_size} {w} (gives_back before after sql e) h u =
    unfold push_conn in
    let v : Unshared w.fresh (w.pool.conn_queue ++ (before ++ sql ∷ after)) = rw e at u in
    rw (append_assoc w.pool.conn_queue (sql ∷ []) (before ++ after))
      (Unshared-perm w.fresh (Perm.append_left w.pool.conn_queue (perm_middle before after)) v)
Step-Unshared {max_size} {w} (releases n e) h u = unfold release in u
Step-Unshared {max_size} {w} (abandons auto_commit resets before after sql calls pool e q) h u =
    let v : Unshared w.fresh (w.pool.conn_queue ++ (before ++ sql ∷ after)) = rw e at u in
    let front =
      Unshared-perm w.fresh (Perm.append_left w.pool.conn_queue (perm_middle before after)) v in
    rw (raii_destroy-invalid auto_commit resets sql w.pool pool calls q) (
      Unshared-tail w.fresh sql (w.pool.conn_queue ++ (before ++ after))
        (Unshared-perm w.fresh (perm_middle w.pool.conn_queue (before ++ after)) front))

-- In every interleaving no two owners have one connection, and no connection that has an owner is
-- also in the queue.
pub Reach-Unshared :
    {max_size : ℕ} {w : World} → Reach max_size w → Unshared w.fresh (connections w)
unfolding opened
Reach-Unshared {max_size} here =
    let u = connect_all-Unshared max_size 0 [] (Nodup-nil, λ c m. absurd (not-mem-nil m)) in
    rw (append-nil (connect_all (λ k. true) max_size 0 []).1)
      (u.0, λ c m. let h = u.1 c m in omega arith)
Reach-Unshared (next r s) = Step-Unshared s (Reach-IsBalanced r) (Reach-Unshared r)
