-- ===== src/Database/Updates.antt =====
-- The updates of a block and what the code has seen when it makes them, one rule for each way in which
-- the handlers build one (src/db/sql_conn_RAII.hpp and .cpp as src/core uses them).
use tinychat_server.Base.{
  ◌≡◌, refl, Bool, [], ◌∷◌, ◌++◌, All-append, Bool-cases, true, false, Option, none, some, List,
  if◌then◌else◌, inl, inr,
}
use tinychat_server.Text.{Text}
use tinychat_server.Claims.{UserClaims, extract_user_claims}
use tinychat_server.Database.{
  M, Row, Call, connect, reconnect, commit, rollback, set_auto_commit, update, query, returned,
  throws, waits, undefined, Mysql, finish, ◌>>=◌, ◌>>◌, from_option, attempt, wait_for,
  begin_transaction, commit_all, roll_back, get_sql, destroy, execute_update, execute_query,
  answered, with_conn, closed,
}
use tinychat_server.Database.Env.{Env, draw_id, draw_id-cases, claims_of_token}
use tinychat_server.Database.Only.{
  Only, Only-finish, Only-from_option, Only-try_catch, Only-bind, Only-check, Only-wait_for,
}
use tinychat_server.Database.Statements.{Statement}

-- An update satisfies `P`; other calls need not.
abbrev pub OnUpdates : (Statement → Type 0) → Call → Type 0
OnUpdates P (update st) = P st
OnUpdates P _ = Unit

module _ {P : Statement → Type 0} where
  module _ {A B : Type 0} where
    pub bind_option :
        (o : Option A) (f : A → M B)
        → ((a : A) → o ≡ some a → Only (OnUpdates P) (f a))
        → Only (OnUpdates P) (from_option o >>= f)
    bind_option none f k = record { calls = tt }
    bind_option (some a) f k = record { calls = (k a refl).calls }

  module _ {A : Type 0} where
    pub if_known :
        (b : Bool) (m n : M A)
        → (b ≡ true → Only (OnUpdates P) m)
        → (b ≡ false → Only (OnUpdates P) n)
        → Only (OnUpdates P) (if b then m else n)
    if_known true m n h k = h refl
    if_known false m n h k = k refl

    pub bind_claims :
        (env : Env) (token : Text) (f : UserClaims → M A)
        → ((claims : UserClaims)
            → extract_user_claims env.decode token ≡ some claims
            → Only (OnUpdates P) (f claims))
        → Only (OnUpdates P) (claims_of_token env token >>= f)
    unfolding claims_of_token
    bind_claims env token f k = bind_option (extract_user_claims env.decode token) f k

  after_answer :
      {A B : Type 0} (m : M (Unit {0})) (o : Option A) (st : Statement) (f : A → M B)
      → Only (OnUpdates P) m
      → ((a : A) → o ≡ some a → Only (OnUpdates P) (f a))
      → Only (OnUpdates P) ((m >> answered o (query st)) >>= f)
  after_answer (returned u, calls) none st f h k = record {
    calls = All-append (OnUpdates P) calls [] h.calls tt;
  }
  after_answer (returned u, calls) (some a) st f h k = record {
    calls =
        All-append (OnUpdates P) (calls ++ query st ∷ []) (f a).1
          (All-append (OnUpdates P) calls (query st ∷ []) h.calls (tt, tt)) (k a refl).calls;
  }
  after_answer (throws, calls) o st f h k = record { calls = h.calls }
  after_answer (waits, calls) o st f h k = record { calls = h.calls }
  after_answer (undefined, calls) o st f h k = record { calls = h.calls }

  answered-known :
      {A : Type 0} (o : Option A) (c : Call) → OnUpdates P c → Only (OnUpdates P) (answered o c)
  answered-known none c p = record { calls = tt }
  answered-known (some a) c p = record { calls = (p, tt) }

  attempt-known : (b : Bool) (c : Call) → OnUpdates P c → Only (OnUpdates P) (attempt b c)
  attempt-known true c p = record { calls = (p, tt) }
  attempt-known false c p = record { calls = tt }

  pub draw_id-known : (env : Env) → Only (OnUpdates P) (draw_id env)
  draw_id-known env = elim (draw_id-cases env) [
    | inl (i, e) ↦ rw e (record { calls = (tt, tt) })
    | inr (inl e) ↦ rw e (record { calls = tt })
    | inr (inr e) ↦ rw e (record { calls = tt })
  ]

  module _ (s : Mysql) where
    get_sql-known : (st : Statement) → Only (OnUpdates P) (get_sql s st)
    unfolding get_sql
    get_sql-known st =
        if_known (s.is_valid st) (finish (returned tt)) (wait_for (s.reconnects st) reconnect)
          (λ e. Only-finish (returned tt)) (λ e. Only-wait_for (s.reconnects st) reconnect tt)

    pub bind_query :
        {A : Type 0} (st : Statement) (f : List Row → M A)
        → ((rows : List Row) → s.rows st ≡ some rows → Only (OnUpdates P) (f rows))
        → Only (OnUpdates P) (execute_query s st >>= f)
    unfolding execute_query
    bind_query st f k = after_answer (get_sql s st) (s.rows st) st f (get_sql-known st) k

    pub execute_update-known : (st : Statement) → P st → Only (OnUpdates P) (execute_update s st)
    unfolding execute_update
    execute_update-known st p =
        Only-bind (get_sql s st) (λ x. answered (s.updated st) (update st)) (get_sql-known st)
          (λ x. answered-known (s.updated st) (update st) p)

    pub begin_transaction-known : Only (OnUpdates P) (begin_transaction s)
    unfolding begin_transaction
    begin_transaction-known = attempt-known s.begins (set_auto_commit false) tt

    pub commit_all-known : Only (OnUpdates P) (commit_all s)
    unfolding commit_all
    commit_all-known = attempt-known s.commits commit tt

    pub roll_back-known : Only (OnUpdates P) (roll_back s)
    unfolding roll_back
    roll_back-known = attempt-known s.rolls_back rollback tt

    destroy-known : Only (OnUpdates P) (returned tt, destroy s)
    unfolding destroy
    destroy-known = elim (Bool-cases s.is_valid_at_end) [
      | inr e ↦ rw e (record { calls = tt })
      | inl e ↦ elim (Bool-cases s.resets_at_end) [
        | inr r ↦ rw (e, r) (record { calls = tt })
        | inl r ↦ elim (Bool-cases s.auto_commit_at_end) [
          | inl k ↦ rw (e, r, k) (record { calls = (tt, tt) })
          | inr k ↦ rw (e, r, k) (record { calls = (tt, (tt, tt)) })
        ]
      ]
    ]

    module _ {A : Type 0} where
      closed-known : (block : M A) → Only (OnUpdates P) block → Only (OnUpdates P) (closed s block)
      closed-known (returned a, calls) h = record {
        calls = All-append (OnUpdates P) calls (destroy s) h.calls destroy-known.calls;
      }
      closed-known (throws, calls) h = record {
        calls = All-append (OnUpdates P) calls (destroy s) h.calls destroy-known.calls;
      }
      closed-known (waits, calls) h = record { calls = h.calls }
      closed-known (undefined, calls) h = record {
        calls = All-append (OnUpdates P) calls (destroy s) h.calls destroy-known.calls;
      }

      pub with_conn-known :
          (block : M A) → Only (OnUpdates P) block → Only (OnUpdates P) (with_conn s block)
      with_conn-known block h =
          Only-bind (wait_for s.connects connect) (λ x. closed s block)
            (Only-wait_for s.connects connect tt) (λ x. closed-known block h)

pub ruleset update_rules = (
  bind_option, if_known, bind_claims, bind_query, Only-finish, Only-from_option, Only-try_catch,
  Only-bind, Only-check, Only-wait_for, draw_id-known, execute_update-known,
  begin_transaction-known, commit_all-known, roll_back-known, with_conn-known,
)
