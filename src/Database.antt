-- ===== src/Database.antt =====
-- src/db/sql_conn_RAII.hpp and sql_conn_RAII.cpp as the handlers use them: a handler is the list of
-- the calls that it makes on the database, the id generator and the session registry, in order, and
-- how it ends. What the database answers is a parameter, `Mysql`: it may answer anything.
pub mod Statements
pub mod Durable
pub mod Only
pub mod Held
pub mod Returns
pub mod Updates
pub mod Env
use tinychat_server.Base.{
  ℕ, Bool, true, false, Option, none, some, List, [], ◌∷◌, ◌++◌, if◌then◌else◌,
}
use tinychat_server.Base.Int.{ℤ}
use tinychat_server.Text.{Text}
use Statements.{Statement}

-- `throws` is an exception, `waits` a call that does not come back, and `undefined` what C++ leaves
-- undefined: a function that ends without the `return` that it needs, or a view cut too short.
pub data Outcome {ℓ} (A : Type ℓ) : Type ℓ where
  returned : A → Outcome A
  throws waits undefined : Outcome A

pub data Column : Type 0 where
  role type id password_hash nickname email avatar_url created_at user_id : Column

-- A row of a result: `none` is a getter that throws.
pub record Row : Type 0 where
  pub get_int : Column → Option ℤ
  pub get_uint64 : Column → Option ℕ
  pub get_string : Column → Option Text

-- What the pool, the driver and MySQL answer in one handler. Each statement is executed at most once
-- in a handler.
pub record Mysql : Type 0 where
  pub connects : Outcome (Unit {0})  -- `SqlConnPool::getConn` in the constructor
  pub begins : Bool  -- whether `setAutoCommit(false)` returns or throws
  pub is_valid : Statement → Bool  -- `isValid()` before a statement
  pub reconnects : Statement → Outcome (Unit {0})  -- `getConn` where it is not
  pub updated : Statement → Option ℕ  -- the rows changed, `none` for an exception
  pub rows : Statement → Option (List Row)
  pub commits : Bool
  pub rolls_back : Bool
  pub is_valid_at_end : Bool  -- `isValid()` in the destructor
  pub auto_commit_at_end : Bool  -- `getAutoCommit()` in the destructor
  pub resets_at_end : Bool  -- whether that and `setAutoCommit(true)` return there

-- A call that came back. A call that threw is not listed: it has no effect.
pub data Call : Type 0 where
  connect reconnect commit rollback free_conn next_id : Call
  set_auto_commit : Bool → Call
  update query : Statement → Call
  write_to write_to_room : ℕ → Text → Call  -- of `WSSessionMgr`

abbrev pub M : Type 0 → Type 0
M A = Outcome A × List Call

abbrev pub finish : {A : Type 0} → Outcome A → M A
finish o = (o, [])

abbrev pub perform : Call → M (Unit {0})
perform c = (returned tt, c ∷ [])

infixl 5 ◌>>=◌ ◌>>◌
abbrev pub ◌>>=◌ : {A B : Type 0} → M A → (A → M B) → M B
m >>= f = elim m.0 [
  | returned a ↦ ((f a).0, m.1 ++ (f a).1)
  | throws ↦ (throws, m.1)
  | waits ↦ (waits, m.1)
  | undefined ↦ (undefined, m.1)
]

abbrev pub ◌>>◌ : {B : Type 0} → M (Unit {0}) → M B → M B
m >> k = m >>= λ _. k

-- `try { m } catch (const std::exception&) { handler }`.
abbrev pub try_catch : {A : Type 0} → M A → M A → M A
try_catch m handler = elim m.0 [
  | returned a ↦ (returned a, m.1)
  | throws ↦ (handler.0, m.1 ++ handler.1)
  | waits ↦ (waits, m.1)
  | undefined ↦ (undefined, m.1)
]

abbrev pub from_option : {A : Type 0} → Option A → M A
from_option none = finish throws
from_option (some a) = finish (returned a)

-- `if (!test) throw ...`.
abbrev pub check : Bool → M (Unit {0})
check true = finish (returned tt)
check false = finish throws

-- A call that returns or throws.
abbrev pub attempt : Bool → Call → M (Unit {0})
attempt true c = perform c
attempt false c = finish throws

abbrev pub wait_for : Outcome (Unit {0}) → Call → M (Unit {0})
wait_for (returned a) c = perform c
wait_for throws c = finish throws
wait_for waits c = finish waits
wait_for undefined c = finish undefined

unfoldable pub begin_transaction : Mysql → M (Unit {0})
begin_transaction s = attempt s.begins (set_auto_commit false)

unfoldable pub commit_all : Mysql → M (Unit {0})
commit_all s = attempt s.commits commit

unfoldable pub roll_back : Mysql → M (Unit {0})
roll_back s = attempt s.rolls_back rollback

-- `SqlConnRAII::getSql` before a statement.
unfoldable pub get_sql : Mysql → Statement → M (Unit {0})
get_sql s st = if s.is_valid st then finish (returned tt) else wait_for (s.reconnects st) reconnect

abbrev pub answered : {A : Type 0} → Option A → Call → M A
answered none c = finish throws
answered (some a) c = (returned a, c ∷ [])

unfoldable pub execute_update : Mysql → Statement → M ℕ
unfolding get_sql
execute_update s st = get_sql s st >> answered (s.updated st) (update st)

unfoldable pub execute_query : Mysql → Statement → M (List Row)
unfolding get_sql
execute_query s st = get_sql s st >> answered (s.rows st) (query st)

-- `~SqlConnRAII`. An exception there (`resets_at_end` is false) ends the process, with nothing
-- committed or given back, and what the handler returns is of no more use.
unfoldable pub destroy : Mysql → List Call
destroy s =
    if s.is_valid_at_end
    then (if s.resets_at_end
        then (if s.auto_commit_at_end
            then free_conn ∷ []
            else set_auto_commit true ∷ free_conn ∷ [])
        else [])
    else []

-- The destructor runs however the block ends, unless that waits for ever.
abbrev pub closed : {A : Type 0} → Mysql → M A → M A
closed s m = elim m.0 [
  | returned a ↦ (returned a, m.1 ++ destroy s)
  | throws ↦ (throws, m.1 ++ destroy s)
  | waits ↦ (waits, m.1)
  | undefined ↦ (undefined, m.1 ++ destroy s)
]

-- `SqlConnRAII conn;` and the rest of its block.
abbrev pub with_conn : {A : Type 0} → Mysql → M A → M A
with_conn s block = wait_for s.connects connect >> closed s block
