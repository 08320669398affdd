-- ===== src/Config/Server.antt =====
-- src/utils/config.hpp: the class `Server` of the settings. A setter that throws
-- `std::invalid_argument` returns `none`.
use tinychat_server.Base.{ℕ, Option, none, some, leb, ◌==◌, if◌then◌else◌}
use tinychat_server.Text.{Text, is_empty}

pub record Server : Type 0 where
  pub host_ : Text
  pub port_ : ℕ
  pub doc_root_ : Text
  pub io_threads_ : ℕ
  pub worker_threads_ : ℕ
  pub jwt_secret_ : Text
  pub log_file_ : Text
  pub queue_limit_ : ℕ
  pub custom_epoch_ : ℕ
  pub service_id_ : ℕ

unfoldable pub host : Text → Server → Option Server
host value s = if is_empty value then none else some (record s { host_ = value })

unfoldable pub port : ℕ → Server → Option Server
port value s = if value == 0 then none else some (record s { port_ = value })

unfoldable pub doc_root : Text → Server → Option Server
doc_root value s = if is_empty value then none else some (record s { doc_root_ = value })

unfoldable pub io_threads : ℕ → Server → Option Server
io_threads value s = if value == 0 then none else some (record s { io_threads_ = value })

unfoldable pub worker_threads : ℕ → Server → Option Server
worker_threads value s = if value == 0 then none else some (record s { worker_threads_ = value })

unfoldable pub jwt_secret : Text → Server → Option Server
jwt_secret value s = if is_empty value then none else some (record s { jwt_secret_ = value })

unfoldable pub log_file : Text → Server → Option Server
log_file value s = if is_empty value then none else some (record s { log_file_ = value })

unfoldable pub queue_limit : ℕ → Server → Option Server
queue_limit value s = if value == 0 then none else some (record s { queue_limit_ = value })

unfoldable pub custom_epoch : ℕ → Server → Option Server
custom_epoch value s = if value == 0 then none else some (record s { custom_epoch_ = value })

unfoldable pub service_id : ℕ → Server → Option Server
service_id value s = if leb 1024 value then none else some (record s { service_id_ = value })
