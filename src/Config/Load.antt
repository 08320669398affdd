-- ===== src/Config/Load.antt =====
-- What `AppConfig::init` makes of a file that it accepts (src/utils/config.cpp).
use tinychat_server.Base.{
  ℕ, ◌≡◌, refl, sym, ◌∙◌, ap, Bool, false, Option, none, some, List, [], ◌∷◌, arith, leb, ◌==◌,
  if◌then◌else◌, Option-cases, inl, inr,
}
use tinychat_server.Text.{Text, is_empty}
use tinychat_server.Base.Int.{ℤ, pos, negsuc}
use tinychat_server.Config.Database.{Database}
use tinychat_server.Config.Database
use tinychat_server.Config.Server.{Server}
use tinychat_server.Config.Server
use tinychat_server.Config.Init.{
  Key, Tree, Statement, stored, read, run_all, database_statements, server_statements,
  database_sqlconnpool_max_size, database_server, database_user, database_passwd, database_db,
  server_host, server_port, server_doc_root, server_io_threads, server_worker_threads,
  server_jwt_secret, server_log_file, server_queue_limit, server_custom_epoch, server_service_id,
}

-- The file gives the value, and its setter takes it.
abbrev pub GivesText : Option Text → Text → Type 0
GivesText v x = (v ≡ some x) × (is_empty x ≡ false)

abbrev pub GivesNumber : Option ℕ → ℕ → Type 0
GivesNumber v x = (v ≡ some x) × (x == 0 ≡ false)

abbrev pub GivesId : Option ℕ → ℕ → Type 0
GivesId v x = (v ≡ some x) × (leb 1024 x ≡ false)

abbrev pub GivesSize : Option ℤ → ℕ → Type 0
GivesSize v x = (v ≡ some (pos x)) × (x == 0 ≡ false)

pub record DatabaseLoaded (t : Tree) (s : Database) : Type 0 where
  pub sqlconnpool_max_size_given :
      GivesSize (t.get_int database_sqlconnpool_max_size) s.sqlconnpool_max_size_
  pub server_given : GivesText (t.get_string database_server) s.server_
  pub user_given : GivesText (t.get_string database_user) s.user_
  pub passwd_given : GivesText (t.get_string database_passwd) s.passwd_
  pub db_given : GivesText (t.get_string database_db) s.db_

pub record ServerLoaded (t : Tree) (s : Server) : Type 0 where
  pub host_given : GivesText (t.get_string server_host) s.host_
  pub port_given : GivesNumber (t.get_unsigned_short server_port) s.port_
  pub doc_root_given : GivesText (t.get_string server_doc_root) s.doc_root_
  pub io_threads_given : GivesNumber (t.get_unsigned server_io_threads) s.io_threads_
  pub worker_threads_given : GivesNumber (t.get_unsigned server_worker_threads) s.worker_threads_
  pub jwt_secret_given : GivesText (t.get_string server_jwt_secret) s.jwt_secret_
  pub log_file_given : GivesText (t.get_string server_log_file) s.log_file_
  pub queue_limit_given : GivesNumber (t.get_unsigned server_queue_limit) s.queue_limit_
  pub custom_epoch_given : GivesNumber (t.get_u64 server_custom_epoch) s.custom_epoch_
  pub service_id_given : GivesId (t.get_u64 server_service_id) s.service_id_

run_all-cons :
    {S : Type 0} (statement : Statement S) (rest : List (Statement S)) (s s' : S)
    → statement s ≡ (none, s')
    → run_all (statement ∷ rest) s ≡ run_all rest s'
unfolding run_all
run_all-cons statement rest s s' e = rw (ap (λ o. o.0) e, ap (λ o. o.1) e) refl

run_all-nil : {S : Type 0} (s r : S) → run_all [] s ≡ (none, r) → s ≡ r
unfolding run_all
run_all-nil s r h = ap (λ o. o.1) h

-- A statement that is passed.
passed :
    {A S : Type 0} (v : Option A) (k : Key) (setter : A → S → Option S) (rest : List (Statement S))
    (s r : S)
    → run_all (read v k setter ∷ rest) s ≡ (none, r)
    → (x : A) × (s' : S) × (v ≡ some x) × (setter x s ≡ some s') × (run_all rest s' ≡ (none, r))
unfolding run_all read stored
passed none k setter rest s r h = ground arith
passed (some x) k setter rest s r h = elim (Option-cases (setter x s)) [
  | inl e ↦ ground (arith, e)
  | inr (s', e) ↦
      (x, s', refl, e, sym (run_all-cons (read (some x) k setter) rest s s' (rw e refl)) ∙ h)
]

-- A statement whose setter wants a test to fail.
tested :
    {A S : Type 0} (bad : A → Bool) (set : A → S → S) (v : Option A) (k : Key)
    (rest : List (Statement S)) (s r : S)
    → run_all (read v k (λ x s. if bad x then none else some (set x s)) ∷ rest) s ≡ (none, r)
    → (x : A) × (v ≡ some x) × (bad x ≡ false) × (run_all rest (set x s) ≡ (none, r))
tested bad set v k rest s r h =
    let (x, s', given, took, after) =
      passed v k (λ x s. if bad x then none else some (set x s)) rest s r h in
    let good : bad x ≡ false = ground arith in
    let e : some (set x s) ≡ some s' = rw good at took in
    let same : set x s ≡ s' = ground arith in
    (x, given, good, ap (λ o. run_all rest o) same ∙ after)

sqlconnpool_max_size_taken :
    (x : ℤ) (d d' : Database)
    → Database.sqlconnpool_max_size x d ≡ some d'
    → (n : ℕ) × (x ≡ pos n) × (n == 0 ≡ false) × (d' ≡ record d { sqlconnpool_max_size_ = n })
unfolding Database.sqlconnpool_max_size
sqlconnpool_max_size_taken (negsuc n) d d' e = ground arith
sqlconnpool_max_size_taken (pos n) d d' e = (n, refl, ground arith, ground arith)

size_tested :
    (v : Option ℤ) (k : Key) (rest : List (Statement Database)) (d r : Database)
    → run_all (read v k Database.sqlconnpool_max_size ∷ rest) d ≡ (none, r)
    → (n : ℕ) × (v ≡ some (pos n))
      × (n == 0 ≡ false)
      × (run_all rest (record d { sqlconnpool_max_size_ = n }) ≡ (none, r))
size_tested v k rest d r h =
    let (x, d', given, took, after) = passed v k Database.sqlconnpool_max_size rest d r h in
    let (n, p, good, e) = sqlconnpool_max_size_taken x d d' took in
    (n, given ∙ ap some p, good, ap (λ o. run_all rest o) (sym e) ∙ after)

pub database_statements-DatabaseLoaded :
    (t : Tree) (s r : Database) → run_all (database_statements t) s ≡ (none, r) → DatabaseLoaded t r
unfolding database_statements Database.server Database.user Database.passwd Database.db
database_statements-DatabaseLoaded t s r h0 =
    let (n, g0, b0, h1) = size_tested _ _ _ s r h0 in
    let (x1, g1, b1, h2) = tested is_empty (λ x s. record s { server_ = x }) _ _ _ _ r h1 in
    let (x2, g2, b2, h3) = tested is_empty (λ x s. record s { user_ = x }) _ _ _ _ r h2 in
    let (x3, g3, b3, h4) = tested is_empty (λ x s. record s { passwd_ = x }) _ _ _ _ r h3 in
    let (x4, g4, b4, h5) = tested is_empty (λ x s. record s { db_ = x }) _ _ _ _ r h4 in
    rw (← run_all-nil _ r h5) (record {
      sqlconnpool_max_size_given = (g0, b0);
      server_given = (g1, b1);
      user_given = (g2, b2);
      passwd_given = (g3, b3);
      db_given = (g4, b4);
    })

pub server_statements-ServerLoaded :
    (t : Tree) (s r : Server) → run_all (server_statements t) s ≡ (none, r) → ServerLoaded t r
unfolding server_statements Server.host Server.port Server.doc_root Server.io_threads
    Server.worker_threads Server.jwt_secret Server.log_file Server.queue_limit Server.custom_epoch
    Server.service_id
server_statements-ServerLoaded t s r h0 =
    let (x1, g1, b1, h2) = tested is_empty (λ x s. record s { host_ = x }) _ _ _ _ r h0 in
    let (x2, g2, b2, h3) = tested (λ n. n == 0) (λ x s. record s { port_ = x }) _ _ _ _ r h2 in
    let (x3, g3, b3, h4) = tested is_empty (λ x s. record s { doc_root_ = x }) _ _ _ _ r h3 in
    let (x4, g4, b4, h5) =
      tested (λ n. n == 0) (λ x s. record s { io_threads_ = x }) _ _ _ _ r h4 in
    let (x5, g5, b5, h6) =
      tested (λ n. n == 0) (λ x s. record s { worker_threads_ = x }) _ _ _ _ r h5 in
    let (x6, g6, b6, h7) = tested is_empty (λ x s. record s { jwt_secret_ = x }) _ _ _ _ r h6 in
    let (x7, g7, b7, h8) = tested is_empty (λ x s. record s { log_file_ = x }) _ _ _ _ r h7 in
    let (x8, g8, b8, h9) =
      tested (λ n. n == 0) (λ x s. record s { queue_limit_ = x }) _ _ _ _ r h8 in
    let (x9, g9, b9, h10) =
      tested (λ n. n == 0) (λ x s. record s { custom_epoch_ = x }) _ _ _ _ r h9 in
    let (x10, g10, b10, h11) =
      tested (λ n. leb 1024 n) (λ x s. record s { service_id_ = x }) _ _ _ _ r h10 in
    rw (← run_all-nil _ r h11) (record {
      host_given = (g1, b1);
      port_given = (g2, b2);
      doc_root_given = (g3, b3);
      io_threads_given = (g4, b4);
      worker_threads_given = (g5, b5);
      jwt_secret_given = (g6, b6);
      log_file_given = (g7, b7);
      queue_limit_given = (g8, b8);
      custom_epoch_given = (g9, b9);
      service_id_given = (g10, b10);
    })

-- A statement that meets its test.
test_met :
    {A S : Type 0} (bad : A → Bool) (set : A → S → S) (v : Option A) (k : Key)
    (rest : List (Statement S)) (s : S) (x : A)
    → v ≡ some x
    → bad x ≡ false
    → run_all (read v k (λ x s. if bad x then none else some (set x s)) ∷ rest) s
      ≡ run_all rest (set x s)
unfolding read stored
test_met bad set v k rest s x e good = run_all-cons _ rest s (set x s) (rw (e, good) refl)

size_met :
    (v : Option ℤ) (k : Key) (rest : List (Statement Database)) (d : Database) (n : ℕ)
    → v ≡ some (pos n)
    → n == 0 ≡ false
    → run_all (read v k Database.sqlconnpool_max_size ∷ rest) d
      ≡ run_all rest (record d { sqlconnpool_max_size_ = n })
unfolding read stored Database.sqlconnpool_max_size
size_met v k rest d n e good = run_all-cons _ rest d _ (rw (e, good) refl)

end_met : {S : Type 0} (s : S) → run_all [] s ≡ (none, s)
unfolding run_all
end_met s = refl

pub DatabaseLoaded-database_statements :
    (t : Tree) (s r : Database) → DatabaseLoaded t r → run_all (database_statements t) s ≡ (none, r)
unfolding database_statements Database.server Database.user Database.passwd Database.db
DatabaseLoaded-database_statements t s r h =
    size_met _ _ _ s r.sqlconnpool_max_size_ h.sqlconnpool_max_size_given.0
      h.sqlconnpool_max_size_given.1
    ∙ test_met is_empty (λ x s. record s { server_ = x }) _ _ _ _ r.server_ h.server_given.0
        h.server_given.1
    ∙ test_met is_empty (λ x s. record s { user_ = x }) _ _ _ _ r.user_ h.user_given.0
        h.user_given.1
    ∙ test_met is_empty (λ x s. record s { passwd_ = x }) _ _ _ _ r.passwd_ h.passwd_given.0
        h.passwd_given.1
    ∙ test_met is_empty (λ x s. record s { db_ = x }) _ _ _ _ r.db_ h.db_given.0 h.db_given.1
    ∙ end_met r

pub ServerLoaded-server_statements :
    (t : Tree) (s r : Server) → ServerLoaded t r → run_all (server_statements t) s ≡ (none, r)
unfolding server_statements Server.host Server.port Server.doc_root Server.io_threads
    Server.worker_threads Server.jwt_secret Server.log_file Server.queue_limit Server.custom_epoch
    Server.service_id
ServerLoaded-server_statements t s r h =
    test_met is_empty (λ x s. record s { host_ = x }) _ _ _ _ r.host_ h.host_given.0 h.host_given.1
    ∙ test_met (λ n. n == 0) (λ x s. record s { port_ = x }) _ _ _ _ r.port_ h.port_given.0
        h.port_given.1
    ∙ test_met is_empty (λ x s. record s { doc_root_ = x }) _ _ _ _ r.doc_root_ h.doc_root_given.0
        h.doc_root_given.1
    ∙ test_met (λ n. n == 0) (λ x s. record s { io_threads_ = x }) _ _ _ _ r.io_threads_
        h.io_threads_given.0 h.io_threads_given.1
    ∙ test_met (λ n. n == 0) (λ x s. record s { worker_threads_ = x }) _ _ _ _ r.worker_threads_
        h.worker_threads_given.0 h.worker_threads_given.1
    ∙ test_met is_empty (λ x s. record s { jwt_secret_ = x }) _ _ _ _ r.jwt_secret_
        h.jwt_secret_given.0 h.jwt_secret_given.1
    ∙ test_met is_empty (λ x s. record s { log_file_ = x }) _ _ _ _ r.log_file_ h.log_file_given.0
        h.log_file_given.1
    ∙ test_met (λ n. n == 0) (λ x s. record s { queue_limit_ = x }) _ _ _ _ r.queue_limit_
        h.queue_limit_given.0 h.queue_limit_given.1
    ∙ test_met (λ n. n == 0) (λ x s. record s { custom_epoch_ = x }) _ _ _ _ r.custom_epoch_
        h.custom_epoch_given.0 h.custom_epoch_given.1
    ∙ test_met (λ n. leb 1024 n) (λ x s. record s { service_id_ = x }) _ _ _ _ r.service_id_
        h.service_id_given.0 h.service_id_given.1
    ∙ end_met r
