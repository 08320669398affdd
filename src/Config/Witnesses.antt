-- ===== src/Config/Witnesses.antt =====
-- Configuration files at which the theorems are applied.
use tinychat_server.Base.{◌≡◌, refl, true, none, some}
use tinychat_server.Text.{codes}
use tinychat_server.Base.Int.{ℤ, pos}
use tinychat_server.Config.Database
use tinychat_server.Config.Server
use tinychat_server.Config.Init
use tinychat_server.Config.Init.{Tree, AppConfig}

-- A file with one text and one number everywhere.
abbrev pub file : ℤ → Tree
file size = record {
  get_int = λ k. some size;
  get_string = λ k. some (codes "localhost");
  get_unsigned_short = λ k. some 8;
  get_unsigned = λ k. some 8;
  get_u64 = λ k. some 8;
}

abbrev pub loaded : AppConfig
loaded = record {
  database_ = record {
    sqlconnpool_max_size_ = 8;
    server_ = codes "localhost";
    user_ = codes "localhost";
    passwd_ = codes "localhost";
    db_ = codes "localhost";
  };
  server_ = record {
    host_ = codes "localhost";
    port_ = 8;
    doc_root_ = codes "localhost";
    io_threads_ = 8;
    worker_threads_ = 8;
    jwt_secret_ = codes "localhost";
    log_file_ = codes "localhost";
    queue_limit_ = 8;
    custom_epoch_ = 8;
    service_id_ = 8;
  };
}

pub file-loaded : Init.init 0 true (some (file (pos 8))) none ≡ (none, some loaded)
unfolding Init.init Init.load Init.load_server Init.run_all Init.stored Init.read
    Init.database_statements Init.server_statements Init.rethrown Database.sqlconnpool_max_size
    Database.server Database.user Database.passwd Database.db Server.host Server.port
    Server.doc_root Server.io_threads Server.worker_threads Server.jwt_secret Server.log_file
    Server.queue_limit Server.custom_epoch Server.service_id
file-loaded = refl
