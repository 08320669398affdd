-- ===== src/Database/Only.antt =====
-- The calls of a block, one rule for each way in which the handlers build one (src/db/sql_conn_RAII.hpp
-- and .cpp as src/core uses them).
use tinychat_server.Base.{
  Bool, true, false, Option, none, some, All, All-append, if◌then◌else◌, inl, inr,
}
use tinychat_server.Database.{
  M, Call, connect, reconnect, commit, rollback, free_conn, set_auto_commit, update, query, Outcome,
  returned, throws, waits, undefined, Mysql, finish, perform, ◌>>=◌, try_catch, from_option, check,
  attempt, wait_for, begin_transaction, commit_all, roll_back, get_sql, execute_update,
  execute_query, answered,
}
use tinychat_server.Database.Env.{Env, draw_id, draw_id-cases, claims_of_token}
use tinychat_server.Database.Statements.{Statement}
use tinychat_server.Claims.{extract_user_claims}
use tinychat_server.Text.{Text}

-- Every call of the block satisfies `P`, however the block ends.
pub record Only {A : Type 0} (P : Call → Type 0) (m : M A) : Type 0 where
  pub calls : All P m.1

module _ {P : Call → Type 0} {A : Type 0} where
  pub Only-finish : (o : Outcome A) → Only P (finish o)
  Only-finish o = record { calls = tt }

  pub Only-from_option : (o : Option A) → Only P (from_option o)
  Only-from_option none = record { calls = tt }
  Only-from_option (some a) = record { calls = tt }

  pub Only-try_catch : (m handler : M A) → Only P m → Only P handler → Only P (try_catch m handler)
  Only-try_catch (returned a, calls) handler h k = record { calls = h.calls }
  Only-try_catch (throws, calls) handler h k = record {
    calls = All-append P calls handler.1 h.calls k.calls;
  }
  Only-try_catch (waits, calls) handler h k = record { calls = h.calls }
  Only-try_catch (undefined, calls) handler h k = record { calls = h.calls }

  pub Only-if : (b : Bool) (m n : M A) → Only P m → Only P n → Only P (if b then m else n)
  Only-if true m n h k = h
  Only-if false m n h k = k

module _ {P : Call → Type 0} {A B : Type 0} where
  pub Only-bind : (m : M A) (f : A → M B) → Only P m → ((a : A) → Only P (f a)) → Only P (m >>= f)
  Only-bind (returned a, calls) f h k = record {
    calls = All-append P calls (f a).1 h.calls (k a).calls;
  }
  Only-bind (throws, calls) f h k = record { calls = h.calls }
  Only-bind (waits, calls) f h k = record { calls = h.calls }
  Only-bind (undefined, calls) f h k = record { calls = h.calls }

module _ {P : Call → Type 0} where
  pub Only-perform : (c : Call) → P c → Only P (perform c)
  Only-perform c p = record { calls = (p, tt) }

  pub Only-check : (b : Bool) → Only P (check b)
  Only-check true = record { calls = tt }
  Only-check false = record { calls = tt }

  pub Only-wait_for : (o : Outcome (Unit {0})) (c : Call) → P c → Only P (wait_for o c)
  Only-wait_for (returned a) c p = record { calls = (p, tt) }
  Only-wait_for throws c p = record { calls = tt }
  Only-wait_for waits c p = record { calls = tt }
  Only-wait_for undefined c p = record { calls = tt }

-- What a handler may call while it holds a connection.
abbrev pub Within : Call → Type 0
Within connect = ⊥
Within free_conn = ⊥
Within _ = Unit

module _ (s : Mysql) where
  Within-get_sql : (st : Statement) → Only Within (get_sql s st)
  unfolding get_sql
  Within-get_sql st =
      Only-if (s.is_valid st) (finish (returned tt)) (wait_for (s.reconnects st) reconnect)
        (Only-finish (returned tt)) (Only-wait_for (s.reconnects st) reconnect tt)

  Only-answered : {A : Type 0} (o : Option A) (st : Call) → Within st → Only Within (answered o st)
  Only-answered none st p = record { calls = tt }
  Only-answered (some a) st p = record { calls = (p, tt) }

  pub Within-execute_query : (st : Statement) → Only Within (execute_query s st)
  unfolding execute_query
  Within-execute_query st =
      Only-bind (get_sql s st) (λ x. answered (s.rows st) (query st)) (Within-get_sql st)
        (λ x. Only-answered (s.rows st) (query st) tt)

  pub Within-execute_update : (st : Statement) → Only Within (execute_update s st)
  unfolding execute_update
  Within-execute_update st =
      Only-bind (get_sql s st) (λ x. answered (s.updated st) (update st)) (Within-get_sql st)
        (λ x. Only-answered (s.updated st) (update st) tt)

  Only-attempt : (b : Bool) (c : Call) → Within c → Only Within (attempt b c)
  Only-attempt true c p = record { calls = (p, tt) }
  Only-attempt false c p = record { calls = tt }

  pub Within-begin_transaction : Only Within (begin_transaction s)
  unfolding begin_transaction
  Within-begin_transaction = Only-attempt s.begins (set_auto_commit false) tt

  pub Within-commit_all : Only Within (commit_all s)
  unfolding commit_all
  Within-commit_all = Only-attempt s.commits commit tt

  pub Within-roll_back : Only Within (roll_back s)
  unfolding roll_back
  Within-roll_back = Only-attempt s.rolls_back rollback tt

pub Within-draw_id : (env : Env) → Only Within (draw_id env)
Within-draw_id env = elim (draw_id-cases env) [
  | inl (i, e) ↦ rw e (record { calls = (tt, tt) })
  | inr (inl e) ↦ rw e (record { calls = tt })
  | inr (inr e) ↦ rw e (record { calls = tt })
]

pub Within-claims_of_token : (env : Env) (token : Text) → Only Within (claims_of_token env token)
unfolding claims_of_token
Within-claims_of_token env token = Only-from_option (extract_user_claims env.decode token)

pub ruleset within_rules = (
  Only-finish, Only-from_option, Only-try_catch, Only-if, Only-bind, Only-perform, Only-check,
  Only-wait_for, Within-execute_query, Within-execute_update, Within-begin_transaction,
  Within-commit_all, Within-roll_back, Within-draw_id, Within-claims_of_token,
)
