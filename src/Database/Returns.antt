-- ===== src/Database/Returns.antt =====
-- What a block may return, one rule for each way in which the handlers build one.
use mathlib.Core.Path.{subst}
use tinychat_server.Base.{◌≡◌, ap, Bool, true, false, if◌then◌else◌}
use tinychat_server.Database.{
  M, connect, Outcome, returned, throws, waits, undefined, Mysql, finish, ◌>>=◌, try_catch,
  wait_for, closed, with_conn,
}

abbrev value : {A : Type 0} → A → Outcome A → A
value a (returned b) = b
value a throws = a
value a waits = a
value a undefined = a

-- If the block returns, what it returns satisfies `P`.
pub record Returns {A : Type 0} (P : A → Type 0) (m : M A) : Type 0 where
  pub at : (a : A) → m.0 ≡ returned a → P a

module _ {A : Type 0} {P : A → Type 0} where
  pub Returns-returned : (a : A) → P a → Returns P (finish (returned a))
  Returns-returned a p = record { at = λ b e. subst P (ap (value a) e) p }

  pub Returns-throws : Returns P (finish throws)
  Returns-throws = record { at = λ b e. cc }

  pub Returns-undefined : Returns P (finish undefined)
  Returns-undefined = record { at = λ b e. cc }

  pub Returns-if :
      (b : Bool) (m n : M A) → Returns P m → Returns P n → Returns P (if b then m else n)
  Returns-if true m n h k = h
  Returns-if false m n h k = k

  pub Returns-try_catch :
      (m handler : M A) → Returns P m → Returns P handler → Returns P (try_catch m handler)
  Returns-try_catch (returned a, calls) handler h k = record { at = h.at }
  Returns-try_catch (throws, calls) handler h k = record { at = k.at }
  Returns-try_catch (waits, calls) handler h k = record { at = h.at }
  Returns-try_catch (undefined, calls) handler h k = record { at = h.at }

module _ {A B : Type 0} {P : B → Type 0} where
  pub Returns-bind : (m : M A) (f : A → M B) → ((a : A) → Returns P (f a)) → Returns P (m >>= f)
  Returns-bind (returned a, calls) f k = record { at = (k a).at }
  Returns-bind (throws, calls) f k = record { at = λ b e. cc }
  Returns-bind (waits, calls) f k = record { at = λ b e. cc }
  Returns-bind (undefined, calls) f k = record { at = λ b e. cc }

module _ {A : Type 0} {P : A → Type 0} (s : Mysql) where
  Returns-closed : (block : M A) → Returns P block → Returns P (closed s block)
  Returns-closed (returned a, calls) h = record { at = h.at }
  Returns-closed (throws, calls) h = record { at = h.at }
  Returns-closed (waits, calls) h = record { at = h.at }
  Returns-closed (undefined, calls) h = record { at = h.at }

  pub Returns-with_conn : (block : M A) → Returns P block → Returns P (with_conn s block)
  Returns-with_conn block h =
      Returns-bind (wait_for s.connects connect) (λ x. closed s block) (λ x. Returns-closed block h)

pub ruleset returns_rules = (
  Returns-returned, Returns-throws, Returns-undefined, Returns-if, Returns-try_catch, Returns-bind,
  Returns-with_conn,
)
