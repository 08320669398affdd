-- ===== src/SnowflakeTest/Main.antt =====
-- src/test_main.cpp: `init` and `main`, up to the start of the threads.
use tinychat_server.Base.{ℕ, Bool, inl, inr, Option, none, some, List}
use tinychat_server.Snowflake.{SnowFlake}
use tinychat_server.Snowflake
use tinychat_server.Config.Init.{Tree, AppConfig, Exception, get}
use tinychat_server.Config.Init

-- How the program goes on: it returns, a clock without readings holds it up, or it runs the test
-- with this epoch on this generator and the readings that are left.
pub data Main : Type 0 where
  returns : ℕ → Main
  waits : Main
  tests : ℕ → SnowFlake → List ℕ → Main

-- Every exception is caught, and the program returns 1.
abbrev pub with_ids : AppConfig → Snowflake.Outcome × SnowFlake × List ℕ → Main
with_ids c (Snowflake.Outcome.initialized, s, ts) = tests c.server_.custom_epoch_ s ts
with_ids c (Snowflake.Outcome.returned i, s, ts) = tests c.server_.custom_epoch_ s ts
with_ids c (Snowflake.Outcome.threw e, s, ts) = returns 1
with_ids c (Snowflake.Outcome.spinning, s, ts) = waits

unfoldable pub init : AppConfig → List ℕ → Main
unfolding Snowflake.init
init c ts =
    with_ids c (Snowflake.init c.server_.service_id_ c.server_.custom_epoch_ Snowflake.unset ts)

-- `AppConfig::get()` after `AppConfig::init`, whose result is the argument.
unfoldable pub configured : Option Exception × Option AppConfig → List ℕ → Main
unfolding init get
configured (some e, config) ts = returns 1
configured (none, config) ts = elim (get config) [ inl e ↦ returns 1 | inr c ↦ init c ts ]

-- What `AppConfig::init` meets of the file `../../doc/config.ini`, as in `Config.Init.init`, and the
-- readings of the clock.
unfoldable pub main : ℕ → Bool → Option Tree → List ℕ → Main
unfolding configured
main indeterminate exists tree ts = configured (Init.init indeterminate exists tree none) ts
