-- ===== src/Config/Database.antt =====
-- src/utils/config.hpp: the class `Database` of the settings. A setter that throws
-- `std::invalid_argument` returns `none`.
use tinychat_server.Base.{ℕ, Option, none, some, ◌==◌, if◌then◌else◌}
use tinychat_server.Base.Int.{ℤ, pos, negsuc}
use tinychat_server.Text.{Text, is_empty}

pub record Database : Type 0 where
  pub sqlconnpool_max_size_ : ℕ
  pub server_ : Text
  pub user_ : Text
  pub passwd_ : Text
  pub db_ : Text

unfoldable pub sqlconnpool_max_size : ℤ → Database → Option Database
sqlconnpool_max_size (negsuc n) s = none
sqlconnpool_max_size (pos n) s =
    if n == 0 then none else some (record s { sqlconnpool_max_size_ = n })

unfoldable pub server : Text → Database → Option Database
server value s = if is_empty value then none else some (record s { server_ = value })

unfoldable pub user : Text → Database → Option Database
user value s = if is_empty value then none else some (record s { user_ = value })

unfoldable pub passwd : Text → Database → Option Database
passwd value s = if is_empty value then none else some (record s { passwd_ = value })

unfoldable pub db : Text → Database → Option Database
db value s = if is_empty value then none else some (record s { db_ = value })
