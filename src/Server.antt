-- ===== src/Server.antt =====
-- The constructor of src/tinychat_server.cpp, and src/main.cpp up to `server.run()`: how the program
-- starts, as it is built for release. The objects with static storage are a record that every
-- statement passes on, and an exception leaves it as it is then.
pub mod Startup
pub mod Threads
mod Witnesses
use tinychat_server.Base.{
  ℕ, zero, suc, Bool, true, false, Option, none, some, List, [], ◌∷◌, ◌⊎◌, inl, inr, if◌then◌else◌,
}
use tinychat_server.Text.{Text}
use tinychat_server.Config.Init.{Tree, AppConfig}
use tinychat_server.Config.Init
use tinychat_server.SqlPool.{SqlConnPool}
use tinychat_server.SqlPool
use tinychat_server.ThreadPool.{ThreadPool}
use tinychat_server.ThreadPool
use tinychat_server.Snowflake.{SnowFlake}
use tinychat_server.Snowflake
use tinychat_server.Listener.{Listener, Answers}
use tinychat_server.Listener

-- The levels of the log.
pub data Level : Type 0 where
  debug info err : Level

-- What the log's library is asked for. Times are in seconds.
pub data LogCall : Type 0 where
  init_thread_pool : ℕ → ℕ → LogCall
  daily_sink : Text → LogCall  -- at midnight, and truncated
  set_sink_level set_level flush_on : Level → LogCall
  create_async : Text → LogCall
  set_default_logger set_pattern log_line flush_log shutdown : LogCall
  flush_every : ℕ → LogCall

-- `init_log`, for the name of the file.
unfoldable pub init_log : Text → List LogCall
init_log log_file =
    init_thread_pool 8192 1
    ∷ daily_sink log_file
    ∷ set_sink_level info
    ∷ create_async log_file
    ∷ set_level info
    ∷ set_default_logger
    ∷ set_pattern
    ∷ flush_every 5
    ∷ flush_on err
    ∷ log_line
    ∷ []

-- The destructor of `TinychatServer`.
unfoldable pub destroy : List LogCall
destroy = log_line ∷ flush_log ∷ shutdown ∷ []

-- Calls one after the other, up to the first that throws.
unfoldable pub all_return : (LogCall → Bool) → List LogCall → Bool
all_return returns [] = true
all_return returns (call ∷ calls) = if returns call then all_return returns calls else false

-- What the libraries, the file system and the clock answer while the program starts.
pub record Host : Type 0 where
  pub indeterminate : ℕ  -- the member of the settings that nothing initialises
  pub exists : Text → Bool
  pub read_ini : Text → Option Tree
  pub log_returns : LogCall → Bool  -- whether a call of the log's library returns
  pub has_driver : Bool
  pub connects : ℕ → Bool  -- whether the `connect` of that number returns
  pub now : ℕ  -- the clock when the generator is initialised
  pub later : List ℕ
  pub is_address : Text → Bool  -- whether `make_address` returns
  pub acceptor : Answers

-- Why the program ends before it serves.
pub data Failure : Type 0 where
  configuration : Init.Exception → Failure
  log_failed address_failed clock_stands : Failure
  database : SqlPool.Error → Failure
  workers : ThreadPool.Error → Failure
  ids : Snowflake.Error → Failure

module _ (Task : Type 0) where
  pub record Statics : Type 0 where
    pub config : Option AppConfig
    pub sql_pool : SqlConnPool
    pub thread_pool : Option (ThreadPool Task)
    pub snowflake : SnowFlake

  -- A statement: it throws or returns, and passes on the static objects.
  abbrev pub Run : Type 0 → Type 0
  Run A = Statics → (Failure ⊎ A) × Statics

module _ {Task : Type 0} where
  infixl 5 ◌>>=◌ ◌>>◌
  abbrev ◌>>=◌ : {A B : Type 0} → Run Task A → (A → Run Task B) → Run Task B
  (m >>= f) s = let (r, s') = m s in elim r [ inl e ↦ (inl e, s') | inr a ↦ f a s' ]

  abbrev ◌>>◌ : {B : Type 0} → Run Task (Unit {0}) → Run Task B → Run Task B
  m >> k = m >>= λ _. k

  abbrev pub demand : Bool → Failure → Run Task (Unit {0})
  demand true e s = (inr tt, s)
  demand false e s = (inl e, s)

  -- What a program starts with.
  abbrev pub at_load : Statics Task
  at_load = record {
    config = none;
    sql_pool = SqlPool.unset;
    thread_pool = none;
    snowflake = Snowflake.unset;
  }

  abbrev pub thrown :
      {X : Type 0} → (X → Failure) → Option X → Statics Task → (Failure ⊎ Unit {0}) × Statics Task
  thrown why none s = (inr tt, s)
  thrown why (some e) s = (inl (why e), s)

  -- `AppConfig::get`.
  unfoldable pub get_config : Run Task AppConfig
  unfolding Init.get
  get_config s = elim (Init.get s.config) [
    | inl e ↦ (inl (configuration e), s)
    | inr c ↦ (inr c, s)
  ]

  unfoldable pub init_sql_pool : Host → AppConfig → Run Task (Unit {0})
  unfolding SqlPool.init
  init_sql_pool h c s =
      let (e, pool) =
        SqlPool.init h.has_driver h.connects c.database_.sqlconnpool_max_size_ s.sql_pool in
      thrown database e (record s { sql_pool = pool })

  unfoldable pub init_workers : AppConfig → Run Task (Unit {0})
  unfolding ThreadPool.init
  init_workers c s = elim (ThreadPool.init c.server_.worker_threads_ s.thread_pool) [
    | ThreadPool.Result.ok pool ↦ (inr tt, record s { thread_pool = pool })
    | ThreadPool.Result.err e ↦ (inl (workers e), s)
  ]

  -- `spinning` is a clock that gives no reading.
  abbrev pub id_outcome : Snowflake.Outcome → Statics Task → (Failure ⊎ Unit {0}) × Statics Task
  id_outcome (Snowflake.Outcome.threw e) s = (inl (ids e), s)
  id_outcome Snowflake.Outcome.initialized s = (inr tt, s)
  id_outcome (Snowflake.Outcome.returned i) s = (inr tt, s)
  id_outcome Snowflake.Outcome.spinning s = (inl clock_stands, s)

  unfoldable pub init_ids : Host → AppConfig → Run Task (Unit {0})
  unfolding Snowflake.init
  init_ids h c s =
      let (o, snowflake, ts) =
        Snowflake.init c.server_.service_id_ c.server_.custom_epoch_ s.snowflake
          (h.now ∷ h.later) in
      id_outcome o (record s { snowflake = snowflake })

  -- The constructor of `TinychatServer`. `sodium_init` is called and its answer is not used; the
  -- registry of sessions is empty when it is made.
  unfoldable pub create : Host → Run Task Listener
  unfolding init_sql_pool init_workers init_ids get_config Listener.create
  create h = do
    c ← get_config
    demand (all_return h.log_returns (init_log c.server_.log_file_)) log_failed
    init_sql_pool h c
    init_workers c
    init_ids h c
    demand (h.is_address c.server_.host_) address_failed
    λ s. (inr (Listener.create h.acceptor c.server_.doc_root_), s)

  -- What follows `AppConfig::init`: what that threw, if anything, and the instance after it.
  unfoldable pub after_config : Host → Option Init.Exception × Option AppConfig → Run Task Listener
  unfolding create
  after_config h (some e, config) s = (inl (configuration e), record s { config = config })
  after_config h (none, config) s = create h (record s { config = config })

  -- `main` up to `server.run()`, for the file with that name.
  unfoldable pub start : Host → Text → Run Task Listener
  unfolding after_config
  start h name s =
      after_config h (Init.init h.indeterminate (h.exists name) (h.read_ini name) s.config) s

-- How `main` ends before it serves, or with what it calls `run`. Every exception before that is
-- caught, and the program returns 1.
pub data Main (Task : Type 0) : Type 0 where
  returns : ℕ → Main Task
  serves : Listener → Statics Task → Main Task

module _ {Task : Type 0} where
  abbrev pub caught : (Failure ⊎ Listener) × Statics Task → Main Task
  caught (inl e, s) = returns 1
  caught (inr l, s) = serves l s

  -- The arguments after the name of the program.
  unfoldable pub main : Host → List Text → Main Task
  unfolding start
  main h [] = returns 1
  main h (name ∷ rest) = caught (start h name at_load)
