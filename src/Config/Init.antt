-- ===== src/Config/Init.antt =====
-- src/utils/config.cpp: `AppConfig::init`, and `AppConfig::get` of src/utils/config.hpp.
use tinychat_server.Base.{ℕ, Bool, true, false, ◌⊎◌, inl, inr, Option, none, some, List, [], ◌∷◌}
use tinychat_server.Text.{Text}
use tinychat_server.Base.Int.{ℤ}
use tinychat_server.Config.Database.{Database}
use tinychat_server.Config.Database
use tinychat_server.Config.Server.{Server}
use tinychat_server.Config.Server

-- The paths that `init` reads, `database_server` for `Database.server`.
pub data Key : Type 0 where
  database_sqlconnpool_max_size database_server database_user database_passwd database_db : Key
  server_host server_port server_doc_root server_io_threads server_worker_threads server_jwt_secret
        server_log_file server_queue_limit server_custom_epoch server_service_id :
      Key

-- The first three and `invalid_configuration` are `std::runtime_error`s with their message; a setter
-- throws `invalid_argument`, and a getter `ptree_error`.
pub data Exception : Type 0 where
  not_initialized file_not_found parse_failed : Exception
  invalid_configuration ptree_error invalid_argument : Key → Exception

-- `get<T>` of the property tree that `read_ini` made.
pub record Tree : Type 0 where
  pub get_int : Key → Option ℤ
  pub get_string : Key → Option Text
  pub get_unsigned_short : Key → Option ℕ
  pub get_unsigned : Key → Option ℕ
  pub get_u64 : Key → Option ℕ

pub record AppConfig : Type 0 where
  pub database_ : Database
  pub server_ : Server

-- `new AppConfig`. Nothing initialises the member `service_id_`: the argument is its value.
abbrev pub fresh : ℕ → AppConfig
fresh indeterminate = record {
  database_ = record {
    sqlconnpool_max_size_ = 0;
    server_ = [];
    user_ = [];
    passwd_ = [];
    db_ = [];
  };
  server_ = record {
    host_ = [];
    port_ = 0;
    doc_root_ = [];
    io_threads_ = 0;
    worker_threads_ = 0;
    jwt_secret_ = [];
    log_file_ = [];
    queue_limit_ = 0;
    custom_epoch_ = 0;
    service_id_ = indeterminate;
  };
}

-- A statement of `init`: what it throws, and the state after it.
abbrev pub Statement : Type 0 → Type 0
Statement S = S → Option Exception × S

unfoldable pub stored : {S : Type 0} → Key → S → Option S → Option Exception × S
stored k s none = (some (invalid_argument k), s)
stored k s (some s') = (none, s')

-- A getter's value goes to a setter.
unfoldable pub read : {A S : Type 0} → Option A → Key → (A → S → Option S) → Statement S
unfolding stored
read none k setter s = (some (ptree_error k), s)
read (some x) k setter s = stored k s (setter x s)

-- The statements one after the other, up to the first that throws.
unfoldable pub run_all : {S : Type 0} → List (Statement S) → Statement S
run_all [] s = (none, s)
run_all (statement ∷ rest) s =
    let (thrown, s') = statement s in elim thrown [ none ↦ run_all rest s' | some e ↦ (some e, s') ]

unfoldable pub database_statements : Tree → List (Statement Database)
unfolding read
database_statements t =
    read (t.get_int database_sqlconnpool_max_size) database_sqlconnpool_max_size
      Database.sqlconnpool_max_size
    ∷ read (t.get_string database_server) database_server Database.server
    ∷ read (t.get_string database_user) database_user Database.user
    ∷ read (t.get_string database_passwd) database_passwd Database.passwd
    ∷ read (t.get_string database_db) database_db Database.db
    ∷ []

unfoldable pub server_statements : Tree → List (Statement Server)
unfolding read
server_statements t =
    read (t.get_string server_host) server_host Server.host
    ∷ read (t.get_unsigned_short server_port) server_port Server.port
    ∷ read (t.get_string server_doc_root) server_doc_root Server.doc_root
    ∷ read (t.get_unsigned server_io_threads) server_io_threads Server.io_threads
    ∷ read (t.get_unsigned server_worker_threads) server_worker_threads Server.worker_threads
    ∷ read (t.get_string server_jwt_secret) server_jwt_secret Server.jwt_secret
    ∷ read (t.get_string server_log_file) server_log_file Server.log_file
    ∷ read (t.get_unsigned server_queue_limit) server_queue_limit Server.queue_limit
    ∷ read (t.get_u64 server_custom_epoch) server_custom_epoch Server.custom_epoch
    ∷ read (t.get_u64 server_service_id) server_service_id Server.service_id
    ∷ []

-- The statements for `server_`, after those for `database_`.
unfoldable pub load_server :
    Tree → AppConfig → Option Exception × Database → Option Exception × AppConfig
unfolding run_all server_statements
load_server t c (some e, d) = (some e, record c { database_ = d })
load_server t c (none, d) =
    let (thrown, s) = run_all (server_statements t) c.server_ in
    (thrown, record c { database_ = d; server_ = s })

unfoldable pub load : Tree → Statement AppConfig
unfolding run_all database_statements load_server
load t c = load_server t c (run_all (database_statements t) c.database_)

-- The handler around the statements: it catches a `ptree_error` and nothing else.
unfoldable pub rethrown : Option Exception → Option Exception
rethrown none = none
rethrown (some (ptree_error k)) = some (invalid_configuration k)
rethrown (some (invalid_argument k)) = some (invalid_argument k)
rethrown (some (invalid_configuration k)) = some (invalid_configuration k)
rethrown (some not_initialized) = some not_initialized
rethrown (some file_not_found) = some file_not_found
rethrown (some parse_failed) = some parse_failed

-- Whether the file exists, the tree if it can be parsed, and `instance_ptr_`.
unfoldable pub init :
    ℕ → Bool → Option Tree → Option AppConfig → Option Exception × Option AppConfig
unfolding load rethrown
init indeterminate false tree instance_ptr = (some file_not_found, instance_ptr)
init indeterminate true none instance_ptr = (some parse_failed, instance_ptr)
init indeterminate true (some t) instance_ptr =
    let (thrown, c) = load t (fresh indeterminate) in (rethrown thrown, some c)

unfoldable pub get : Option AppConfig → Exception ⊎ AppConfig
get none = inl not_initialized
get (some c) = inr c
