-- ===== src/Server/Startup.antt =====
-- When the server starts, and with what (src/tinychat_server.cpp and src/main.cpp).
use tinychat_server.Base.{
  ℕ, zero, suc, ◌+◌, ◌≤◌, ◌<◌, ◌≡◌, ◌↔◌, refl, sym, ap, ◌∙◌, Bool, true, false, Option, none, some,
  List, [], ◌∷◌, ◌++◌, inl, inr, ◌⊎◌, arith, Bool-cases, leb,
}
use tinychat_server.Text.{Text}
use tinychat_server.Config.Init.{Tree, AppConfig, Exception}
use tinychat_server.Config.Init
use tinychat_server.Config.Load.{DatabaseLoaded, ServerLoaded}
use tinychat_server.Config.Accepts.{init_accepts}
use tinychat_server.SqlPool.{connect_all}
use tinychat_server.SqlPool.World.{opened}
use tinychat_server.ThreadPool
use tinychat_server.Listener.{Listener}
use tinychat_server.Listener
use tinychat_server.Server.{
  all_return, init_log, Host, Failure, Statics, at_load, create, start, after_config, serves, main,
  caught,
}

connect_all-made :
    (connects : ℕ → Bool) (i first : ℕ) (queue : List ℕ)
    → (connect_all connects i first queue).0 ≡ true
    → (connect_all connects i first queue ≡ connect_all (λ n. true) i first queue)
      × ((n : ℕ) → first ≤ n → n < first + i → connects n ≡ true)
unfolding connect_all
connect_all-made connects zero first queue e = (refl, λ n a b. absurd (omega arith))
connect_all-made connects (suc i) first queue e = elim (Bool-cases (connects first)) [
  | inl t ↦
      let h = connect_all-made connects i (suc first) (queue ++ first ∷ []) (rw t at e) in
      (
        rw t h.0,
        λ n a b. elim (Bool-cases (leb (suc first) n)) [
          | inl k ↦ h.1 n (ground arith) (omega arith)
          | inr k ↦ let same : n ≡ first = ground arith in rw same t
        ],
      )
  | inr f ↦ absurd (ground arith)
]

made-connect_all :
    (connects : ℕ → Bool) (i first : ℕ) (queue : List ℕ)
    → ((n : ℕ) → first ≤ n → n < first + i → connects n ≡ true)
    → connect_all connects i first queue ≡ connect_all (λ n. true) i first queue
unfolding connect_all
made-connect_all connects zero first queue e = refl
made-connect_all connects (suc i) first queue e = rw (e first (omega arith) (omega arith)) (
    made-connect_all connects i (suc first) (queue ++ first ∷ [])
      (λ n a b. e n (omega arith) (omega arith)))

-- The file gives the settings `c`, and everything that the start asks for is there.
pub record CanStart (h : Host) (name : Text) (c : AppConfig) : Type 0 where
  pub t : Tree
  pub exists : h.exists name ≡ true
  pub parsed : h.read_ini name ≡ some t
  pub database : DatabaseLoaded t c.database_
  pub server : ServerLoaded t c.server_
  pub logs : all_return h.log_returns (init_log c.server_.log_file_) ≡ true
  pub driver : h.has_driver ≡ true
  pub connected : (n : ℕ) → n < c.database_.sqlconnpool_max_size_ → h.connects n ≡ true
  pub address : h.is_address c.server_.host_ ≡ true

all-made : (i first : ℕ) (queue : List ℕ) → (connect_all (λ n. true) i first queue).0 ≡ true
unfolding connect_all
all-made zero first queue = refl
all-made (suc i) first queue = all-made i (suc first) (queue ++ first ∷ [])

module _ {Task : Type 0} where
  -- The static objects after a start with the settings `c`, where the pool's queue is `queue`.
  abbrev with_queue : Host → AppConfig → List ℕ → Statics Task
  with_queue h c queue = record {
    config = some c;
    sql_pool = record {
      permits = c.database_.sqlconnpool_max_size_;
      max_conn = c.database_.sqlconnpool_max_size_;
      conn_queue = queue;
    };
    thread_pool = some (ThreadPool.create c.server_.worker_threads_);
    snowflake = record {
      service_id = c.server_.service_id_;
      sequence_id = 0;
      last_timestamp = h.now;
      custom_epoch = c.server_.custom_epoch_;
    };
  }

  -- The static objects of a server that was started with the settings `c`.
  abbrev pub configured : Host → AppConfig → Statics Task
  configured h c = record {
    config = some c;
    sql_pool = (opened c.database_.sqlconnpool_max_size_).pool;
    thread_pool = some (ThreadPool.create c.server_.worker_threads_);
    snowflake = record {
      service_id = c.server_.service_id_;
      sequence_id = 0;
      last_timestamp = h.now;
      custom_epoch = c.server_.custom_epoch_;
    };
  }

  abbrev before : Option AppConfig → Statics Task
  before config = record at_load { config = config }

  created :
      (h : Host) (c : AppConfig) (l : Listener) (s : Statics Task)
      → create h (before (some c)) ≡ (inr l, s)
      → (all_return h.log_returns (init_log c.server_.log_file_) ≡ true)
        × (h.has_driver ≡ true)
        × ((connect_all h.connects c.database_.sqlconnpool_max_size_ 0 []).0 ≡ true)
        × (h.is_address c.server_.host_ ≡ true)
        × (l ≡ Listener.create h.acceptor c.server_.doc_root_)
        × (s ≡ with_queue h c (connect_all h.connects c.database_.sqlconnpool_max_size_ 0 []).1)
  unfolding create
  created h c l s e = ground arith

  creates :
      (h : Host) (c : AppConfig)
      → all_return h.log_returns (init_log c.server_.log_file_) ≡ true
      → h.has_driver ≡ true
      → (connect_all h.connects c.database_.sqlconnpool_max_size_ 0 []).0 ≡ true
      → leb 1024 c.server_.service_id_ ≡ false
      → h.is_address c.server_.host_ ≡ true
      → create h (before (some c)) ≡ (
        inr (Listener.create h.acceptor c.server_.doc_root_),
        with_queue h c (connect_all h.connects c.database_.sqlconnpool_max_size_ 0 []).1,
      )
  unfolding create
  creates h c g d m i a = ground arith

  with_queue-configured :
      (h : Host) (c : AppConfig)
      → connect_all h.connects c.database_.sqlconnpool_max_size_ 0 []
        ≡ connect_all (λ n. true) c.database_.sqlconnpool_max_size_ 0 []
      → with_queue h c (connect_all h.connects c.database_.sqlconnpool_max_size_ 0 []).1
        ≡ configured h c
  unfolding opened
  with_queue-configured h c e = ap (λ r. with_queue h c r.1) e

  served :
      (o : (Failure ⊎ Listener) × Statics Task) (l : Listener) (s : Statics Task)
      → caught o ≡ serves l s
      → o ≡ (inr l, s)
  served (inl x, s') l s e = absurd (ground arith)
  served (inr l', s') l s e = ground arith

  after :
      (h : Host) (r : Option Exception × Option AppConfig) (l : Listener) (s : Statics Task)
      → after_config h r at_load ≡ (inr l, s)
      → (c : AppConfig) × (r ≡ (none, some c)) × (create h (before (some c)) ≡ (inr l, s))
  unfolding after_config
  after h (none, some c) l s k = (c, refl, k)
  after h (none, none) l s k = absurd (ground arith)
  after h (some x, config) l s k = absurd (ground arith)

  begun :
      (h : Host) (name : Text) (r : Option Exception × Option AppConfig) (l : Listener)
      (s : Statics Task)
      → Init.init h.indeterminate (h.exists name) (h.read_ini name) none ≡ r
      → start h name at_load ≡ (inr l, s)
      → (c : AppConfig) × (r ≡ (none, some c)) × (create h (before (some c)) ≡ (inr l, s))
  unfolding start
  begun h name r l s e k = after h r l s (ap (λ r'. after_config h r' at_load) (sym e) ∙ k)

  -- The program comes to serve exactly if the file gives settings with which it can start, and then
  -- it serves with a pool of that many connections, that many waiting workers, a generator that is
  -- initialised with an id below 1024, and the acceptor as the constructor of the listener left it.
  -- A listener that could not bind its address or listen keeps nothing from being started.
  pub main_lem :
      (h : Host) (name : Text) (rest : List Text) (l : Listener) (s : Statics Task)
      → (main h (name ∷ rest) ≡ serves l s) ↔ (
          (c : AppConfig) × CanStart h name c
          × (s ≡ configured h c)
          × (l ≡ Listener.create h.acceptor c.server_.doc_root_))
  unfolding main start
  main_lem h name rest l s = (
    λ e.
        let (c, i, k) = begun h name _ l s refl (served (start h name at_load) l s e) in
        let (t, x, p, d, v) =
          (init_accepts h.indeterminate (h.exists name) (h.read_ini name) none c).0 i in
        let (g, r, m, a, e', q) = created h c l s k in
        let (same, each) = connect_all-made h.connects c.database_.sqlconnpool_max_size_ 0 [] m in
        (
          c,
          record {
            t = t;
            exists = x;
            parsed = p;
            database = d;
            server = v;
            logs = g;
            driver = r;
            connected = λ n b. each n (omega arith) (omega arith);
            address = a;
          },
          q ∙ with_queue-configured h c same,
          e',
        ),
    λ (c, k, e, e').
        let i =
          (init_accepts h.indeterminate (h.exists name) (h.read_ini name) none c).1
            (k.t, k.exists, k.parsed, k.database, k.server) in
        let same =
          made-connect_all h.connects c.database_.sqlconnpool_max_size_ 0 []
            (λ n a b. k.connected n (omega arith)) in
        let made = ap (λ r. r.0) same ∙ all-made c.database_.sqlconnpool_max_size_ 0 [] in
        ap caught (
          ap (λ r. after_config h r at_load) i
          ∙ creates h c k.logs k.driver made k.server.service_id_given.1 k.address
          ∙ (λ j. (inr (sym e' j), (with_queue-configured h c same ∙ sym e) j))),
  )
