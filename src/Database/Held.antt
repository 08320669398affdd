-- ===== src/Database/Held.antt =====
-- How a handler uses a connection: `SqlConnRAII conn;` and its destructor (src/db/sql_conn_RAII.hpp and
-- .cpp), around the blocks of src/core.
use tinychat_server.Base.{
  ℕ, suc, ◌≤◌, ◌≡◌, refl, sym, ◌∙◌, Bool, true, false, ◌&&◌, not, List, [], ◌∷◌, ◌++◌, All,
  append-nil, if◌then◌else◌, arith,
}
use tinychat_server.Database.{
  M, Call, connect, reconnect, commit, rollback, free_conn, next_id, set_auto_commit, update, query,
  write_to, write_to_room, Outcome, returned, throws, waits, undefined, Mysql, finish, ◌>>=◌, ◌>>◌,
  try_catch, wait_for, closed, with_conn, destroy,
}
use tinychat_server.Database.Only.{Only, Within}

abbrev pub is_waiting : {A : Type 0} → Outcome A → Bool
is_waiting waits = true
is_waiting _ = false

-- The handler does nothing at all outside of the time in which it holds its one connection: either
-- it makes no call, or it takes the connection first, and last comes the destructor's work, unless
-- it waits for ever in between.
pub data Held {A : Type 0} (s : Mysql) (m : M A) : Type 0 where
  untouched : m.1 ≡ [] → Held s m
  given_back :
      (calls : List Call)
      → All Within calls
      → is_waiting m.0 ≡ false
      → m.1 ≡ connect ∷ (calls ++ destroy s)
      → Held s m
  stuck : (calls : List Call) → All Within calls → m.0 ≡ waits → m.1 ≡ connect ∷ calls → Held s m

abbrev pub Never : Call → Type 0
Never c = ⊥

Never-nil : (calls : List Call) → All Never calls → calls ≡ []
Never-nil [] h = refl
Never-nil (c ∷ calls) h = absurd h.0

module _ {A : Type 0} {s : Mysql} where
  pub Held-finish : (o : Outcome A) → Held s (finish o)
  Held-finish o = untouched refl

  pub Held-if : (b : Bool) (m n : M A) → Held s m → Held s n → Held s (if b then m else n)
  Held-if true m n h k = h
  Held-if false m n h k = k

  Held-closed :
      (block : M A) → Only Within block → Held s (wait_for (returned tt) connect >> closed s block)
  Held-closed (returned a, calls) h = given_back calls h.calls refl refl
  Held-closed (throws, calls) h = given_back calls h.calls refl refl
  Held-closed (waits, calls) h = stuck calls h.calls refl refl
  Held-closed (undefined, calls) h = given_back calls h.calls refl refl

  with_connects :
      (o : Outcome (Unit {0})) (block : M A)
      → Only Within block
      → Held s (wait_for o connect >> closed s block)
  with_connects (returned a) block h = Held-closed block h
  with_connects throws block h = untouched refl
  with_connects waits block h = untouched refl
  with_connects undefined block h = untouched refl

  pub Held-with_conn : (block : M A) → Only Within block → Held s (with_conn s block)
  Held-with_conn block h = with_connects s.connects block h

  -- A handler of exceptions that only answers.
  pub Held-try_catch : (m : M A) (b : A) → Held s m → Held s (try_catch m (finish (returned b)))
  Held-try_catch (returned a, calls) b h = h
  Held-try_catch (waits, calls) b h = h
  Held-try_catch (undefined, calls) b h = h
  Held-try_catch (throws, calls) b (untouched e) = untouched (append-nil calls ∙ e)
  Held-try_catch (throws, calls) b (given_back held w k e) =
      given_back held w refl (append-nil calls ∙ e)
  Held-try_catch (throws, calls) b (stuck held w k e) = cc

pub ruleset held_rules = (Held-finish, Held-if, Held-with_conn, Held-try_catch)

module _ {A B : Type 0} {s : Mysql} where
  -- What comes before makes no call.
  pub Held-bind :
      (m : M A) (f : A → M B) → Only Never m → ((a : A) → Held s (f a)) → Held s (m >>= f)
  Held-bind (returned a, []) f n h = h a
  Held-bind (returned a, c ∷ calls) f n h = absurd n.calls.0
  Held-bind (throws, calls) f n h = untouched (Never-nil calls n.calls)
  Held-bind (waits, calls) f n h = untouched (Never-nil calls n.calls)
  Held-bind (undefined, calls) f n h = untouched (Never-nil calls n.calls)

-- The connections that a handler takes and gives back. One that `getSql` takes in place of an invalid
-- one is neither: it becomes the connection that is held, and the invalid one is dropped.
abbrev pub taken : List Call → ℕ
taken [] = 0
taken (connect ∷ calls) = suc (taken calls)
taken (_ ∷ calls) = taken calls

abbrev pub given : List Call → ℕ
given [] = 0
given (free_conn ∷ calls) = suc (given calls)
given (_ ∷ calls) = given calls

pub record IsBalanced {A : Type 0} (s : Mysql) (m : M A) : Type 0 where
  pub held : Held s m
  pub once : taken m.1 ≤ 1
  pub returns :
      given m.1
      ≡ (if s.is_valid_at_end && s.resets_at_end && not (is_waiting m.0) then taken m.1 else 0)

taken-Within :
    (calls rest : List Call)
    → All Within calls
    → (taken (calls ++ rest) ≡ taken rest) × (given (calls ++ rest) ≡ given rest)
taken-Within [] rest h = (refl, refl)
taken-Within (connect ∷ calls) rest h = absurd h.0
taken-Within (free_conn ∷ calls) rest h = absurd h.0
taken-Within (reconnect ∷ calls) rest h = taken-Within calls rest h.1
taken-Within (commit ∷ calls) rest h = taken-Within calls rest h.1
taken-Within (rollback ∷ calls) rest h = taken-Within calls rest h.1
taken-Within (next_id ∷ calls) rest h = taken-Within calls rest h.1
taken-Within (set_auto_commit b ∷ calls) rest h = taken-Within calls rest h.1
taken-Within (update st ∷ calls) rest h = taken-Within calls rest h.1
taken-Within (query st ∷ calls) rest h = taken-Within calls rest h.1
taken-Within (write_to user msg ∷ calls) rest h = taken-Within calls rest h.1
taken-Within (write_to_room room msg ∷ calls) rest h = taken-Within calls rest h.1

destroy-given :
    (s : Mysql)
    → (taken (destroy s) ≡ 0)
      × (given (destroy s) ≡ (if s.is_valid_at_end && s.resets_at_end then 1 else 0))
unfolding destroy
destroy-given s = ground arith

pub Held-IsBalanced : {A : Type 0} (s : Mysql) (m : M A) → Held s m → IsBalanced s m
Held-IsBalanced s m (untouched e) = record {
  held = untouched e;
  once = rw e (omega arith);
  returns = rw e (ground arith);
}
Held-IsBalanced s m (given_back calls w k e) =
    let (t, g) = taken-Within calls (destroy s) w in
    let (t', g') = destroy-given s in
    record {
      held = given_back calls w k e;
      once = rw e (omega (arith, t, t'));
      returns = rw e (ground (arith, t, t', g, g'));
    }
Held-IsBalanced s m (stuck calls w k e) =
    let (t, g) = taken-Within calls [] w in
    record {
      held = stuck calls w k e;
      once = rw (e, sym (append-nil calls)) (omega (arith, t));
      returns = rw (k, e, sym (append-nil calls)) (ground (arith, t, g));
    }
