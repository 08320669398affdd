-- ===== src/Config/Accepts.antt =====
-- Which files `AppConfig::init` accepts (src/utils/config.cpp).
use tinychat_server.Base.{ℕ, ◌≡◌, ◌↔◌, refl, sym, ap, Bool, true, false, Option, none, some, arith}
use mathlib.Core.Option.{some-injective}
use tinychat_server.Config.Init.{
  Exception, invalid_configuration, ptree_error, invalid_argument, not_initialized, file_not_found,
  parse_failed, database_statements, server_statements, Tree, AppConfig, fresh, load, load_server,
  rethrown, init, run_all,
}
use tinychat_server.Config.Database.{Database}
use tinychat_server.Config.Load.{
  DatabaseLoaded, ServerLoaded, database_statements-DatabaseLoaded, server_statements-ServerLoaded,
  DatabaseLoaded-database_statements, ServerLoaded-server_statements,
}

both : {A B : Type 0} {p : A × B} {a : A} {b : B} → p.0 ≡ a → p.1 ≡ b → p ≡ (a, b)
both e f = λ i. (e i, f i)

load_server-none :
    (t : Tree) (c r : AppConfig) (p : Option Exception × Database)
    → load_server t c p ≡ (none, r)
    → (p ≡ (none, r.database_)) × (run_all (server_statements t) c.server_ ≡ (none, r.server_))
unfolding load_server
load_server-none t c r (some e, d) h = ground arith
load_server-none t c r (none, d) h =
    (ap (λ o. (none, o.1.database_)) h, ap (λ o. (o.0, o.1.server_)) h)

load-Loaded :
    (t : Tree) (c r : AppConfig)
    → load t c ≡ (none, r)
    → DatabaseLoaded t r.database_ × ServerLoaded t r.server_
unfolding load
load-Loaded t c r h =
    let (d, s) = load_server-none t c r (run_all (database_statements t) c.database_) h in
    (
      database_statements-DatabaseLoaded t c.database_ r.database_ d,
      server_statements-ServerLoaded t c.server_ r.server_ s,
    )

Loaded-load :
    (t : Tree) (c r : AppConfig)
    → DatabaseLoaded t r.database_
    → ServerLoaded t r.server_
    → load t c ≡ (none, r)
unfolding load load_server
Loaded-load t c r d s =
    rw
      (
        DatabaseLoaded-database_statements t c.database_ r.database_ d,
        ServerLoaded-server_statements t c.server_ r.server_ s,
      )
      refl

rethrown-none : (x : Option Exception) → rethrown x ≡ none → x ≡ none
unfolding rethrown
rethrown-none none h = refl
rethrown-none (some (ptree_error k)) h = ground arith
rethrown-none (some (invalid_argument k)) h = ground arith
rethrown-none (some (invalid_configuration k)) h = ground arith
rethrown-none (some not_initialized) h = ground arith
rethrown-none (some file_not_found) h = ground arith
rethrown-none (some parse_failed) h = ground arith

-- `init` returns with the configuration `c` exactly for a file that exists, can be parsed and gives
-- every setting of `c`, each with a value that its setter takes. Nothing of `c` depends on the
-- earlier instance or on the member that nothing initialises.
pub init_accepts :
    (indeterminate : ℕ) (exists : Bool) (tree : Option Tree) (instance_ptr : Option AppConfig)
    (c : AppConfig)
    → (init indeterminate exists tree instance_ptr ≡ (none, some c)) ↔ (
        (t : Tree) × (exists ≡ true)
        × (tree ≡ some t)
        × DatabaseLoaded t c.database_
        × ServerLoaded t c.server_)
unfolding init rethrown
init_accepts indeterminate false tree instance_ptr c =
    (λ h. absurd (ground arith), λ k. absurd (ground (arith, k.1)))
init_accepts indeterminate true none instance_ptr c =
    (λ h. absurd (ground arith), λ k. absurd (ground (arith, k.2)))
init_accepts indeterminate true (some t) instance_ptr c = (
  λ h.
      let l =
        load-Loaded t (fresh indeterminate) c
          (both (rethrown-none _ (ap (λ o. o.0) h)) (some-injective _ _ (ap (λ o. o.1) h))) in
      (t, refl, refl, l.0, l.1),
  λ k.
      let same : k.0 ≡ t = sym (some-injective _ _ k.2) in
      rw (Loaded-load t (fresh indeterminate) c (rw same at k.3) (rw same at k.4)) refl,
)
