-- ===== src/Config/Throws.antt =====
-- What `AppConfig::init` throws, and what it leaves behind (src/utils/config.cpp).
use tinychat_server.Base.{ℕ, ◌≡◌, inr, refl, ap, true, false, List, ◌∷◌, Option, none, some}
use tinychat_server.Config.Database.{Database}
use tinychat_server.Config.Init.{
  Exception, invalid_argument, file_not_found, parse_failed, database_sqlconnpool_max_size,
  database_statements, Tree, Statement, AppConfig, fresh, load, load_server, rethrown, init, get,
  run_all, read, stored,
}
use tinychat_server.Base.Int.{ℤ}
use tinychat_server.Config.Database

-- `init` throws before it touches the instance for a file that is missing or cannot be parsed.
-- After `init` of any other file there is an instance, whatever was thrown, and nothing of it comes
-- from the earlier one: that is lost.
pub init_replaces :
    (indeterminate : ℕ) (t : Tree) (before other : Option AppConfig)
    → (init indeterminate false (some t) before ≡ (some file_not_found, before))
      × (init indeterminate true none before ≡ (some parse_failed, before))
      × ((c : AppConfig) × (get (init indeterminate true (some t) before).1 ≡ inr c))
      × (init indeterminate true (some t) before ≡ init indeterminate true (some t) other)
unfolding init get
init_replaces indeterminate t before other = (refl, refl, (_, refl), refl)

run_all-throws :
    {S : Type 0} (statement : Statement S) (rest : List (Statement S)) (s s' : S) (e : Exception)
    → statement s ≡ (some e, s')
    → run_all (statement ∷ rest) s ≡ (some e, s')
unfolding run_all
run_all-throws statement rest s s' e h = rw (ap (λ o. o.0) h, ap (λ o. o.1) h) refl

-- A file whose `Database.sqlconnpool_max_size` is a number that its setter refuses makes `init` throw
-- the setter's `invalid_argument`, not the `runtime_error` of an invalid configuration, and leaves
-- an instance of which nothing is set.
pub refused_leaves_defaults :
    (indeterminate : ℕ) (t : Tree) (before : Option AppConfig) (size : ℤ)
    → t.get_int database_sqlconnpool_max_size ≡ some size
    → Database.sqlconnpool_max_size size (fresh indeterminate).database_ ≡ none
    → ((init indeterminate true (some t) before).0
        ≡ some (invalid_argument database_sqlconnpool_max_size))
      × (get (init indeterminate true (some t) before).1 ≡ inr (fresh indeterminate))
unfolding init load load_server database_statements read stored rethrown get
refused_leaves_defaults indeterminate t before size e h =
    rw
      (run_all-throws
        (read (t.get_int database_sqlconnpool_max_size) database_sqlconnpool_max_size
          Database.sqlconnpool_max_size)
        _ (fresh indeterminate).database_ (fresh indeterminate).database_
        (invalid_argument database_sqlconnpool_max_size) (rw (e, h) refl))
      (refl, refl)
