-- ===== src/SessionMgr/Refine.antt =====
-- The registry as its clients see it: a function from users to sessions (src/core/ws_session_mgr.cpp).
use mathlib.Core.Path.{fun_ext}
use tinychat_server.Base.{
  ℕ, ◌≡◌, refl, ◌∙◌, ap, Bool, Option, none, some, List, [], ◌∷◌, ◌++◌, ◌==◌, if◌then◌else◌, arith,
}
use tinychat_server.Text.{Text}
use tinychat_server.SessionMgr.{
  Sessions, find, add_session, remove_session, write_to, write_to_room,
}
use tinychat_server.SessionMgr.Map.{
  Distinct, lock_session-online, find-lock_session_of, Distinct-lock_session, Distinct-add_session,
  Distinct-remove_session, find-add_session, find-remove_session,
}
use tinychat_server.SessionMgr.Sends.{one_message}
use tinychat_server.SessionMgr.Rooms.{write_to_each, write_to_room-write_to_each}

-- What a client of the registry may call; `alive` is what `lock()` answers during the call.
pub data Op : Type 0 where
  add : ℕ → ℕ → Op
  remove : ℕ → Op
  write : (ℕ → Bool) → ℕ → Text → Op
  write_room : (ℕ → Bool) → List ℕ → Text → Op

unfoldable pub call : Op → Sessions → List (ℕ × Text) × Sessions
call (add user session) m = ([], add_session user session m)
call (remove user) m = ([], remove_session user m)
call (write alive user msg) m = write_to alive user msg m
call (write_room alive users msg) m = write_to_room alive users msg m

unfoldable pub run : List Op → Sessions → List (ℕ × Text) × Sessions
unfolding call
run [] m = ([], m)
run (op ∷ ops) m = let (sent, m') = call op m in let (rest, m'') = run ops m' in (sent ++ rest, m'')

-- The specification.
abbrev pub Directory : Type 0
Directory = ℕ → Option ℕ

abbrev pub update : Directory → ℕ → Option ℕ → Directory
update f user o j = if user == j then o else f j

-- The session of a user, if it is there and lives.
abbrev pub living : (ℕ → Bool) → Option ℕ → Option ℕ
living alive none = none
living alive (some session) = if alive session then some session else none

abbrev pub tell : (ℕ → Bool) → ℕ → Text → Directory → List (ℕ × Text) × Directory
tell alive user msg f =
    (one_message (living alive (f user)) msg, update f user (living alive (f user)))

abbrev pub tell_all : (ℕ → Bool) → List ℕ → Text → Directory → List (ℕ × Text) × Directory
tell_all alive [] msg f = ([], f)
tell_all alive (user ∷ users) msg f =
    let (one, f') = tell alive user msg f in
    let (rest, f'') = tell_all alive users msg f' in (one ++ rest, f'')

abbrev pub meaning : Op → Directory → List (ℕ × Text) × Directory
meaning (add user session) f = ([], update f user (some session))
meaning (remove user) f = ([], update f user none)
meaning (write alive user msg) f = tell alive user msg f
meaning (write_room alive users msg) f = tell_all alive users msg f

abbrev pub replay : List Op → Directory → List (ℕ × Text) × Directory
replay [] f = ([], f)
replay (op ∷ ops) f =
    let (sent, f') = meaning op f in let (rest, f'') = replay ops f' in (sent ++ rest, f'')

abbrev pub directory : Sessions → Directory
directory m j = find j m

-- The calls do as the specification says, and keep the entries apart.
abbrev pub Agrees : List (ℕ × Text) × Sessions → List (ℕ × Text) × Directory → Type 0
Agrees c s = (c.0 ≡ s.0) × (directory c.1 ≡ s.1) × Distinct c.1

write_to-tell :
    (alive : ℕ → Bool) (user : ℕ) (msg : Text) (m : Sessions)
    → Distinct m
    → Agrees (write_to alive user msg m) (tell alive user msg (directory m))
unfolding write_to
write_to-tell alive user msg m d = (
  ground (arith, lock_session-online alive user m),
  fun_ext (λ j. ground (arith, find-lock_session_of alive user j m d)),
  Distinct-lock_session alive user m d,
)

write_to_each-tell_all :
    (alive : ℕ → Bool) (users : List ℕ) (msg : Text) (m : Sessions)
    → Distinct m
    → Agrees (write_to_each alive users msg m) (tell_all alive users msg (directory m))
write_to_each-tell_all alive [] msg m d = (refl, refl, d)
write_to_each-tell_all alive (user ∷ users) msg m d =
    let (sent, same, d') = write_to-tell alive user msg m d in
    let (sent', same', d'') =
      write_to_each-tell_all alive users msg (write_to alive user msg m).1 d' in
    (
      λ i. sent i ++ (sent' ∙ ap (λ f. (tell_all alive users msg f).0) same) i,
      same' ∙ ap (λ f. (tell_all alive users msg f).1) same,
      d'',
    )

pub call-meaning :
    (op : Op) (m : Sessions) → Distinct m → Agrees (call op m) (meaning op (directory m))
unfolding call
call-meaning (add user session) m d =
    (refl, fun_ext (λ j. find-add_session user j session m), Distinct-add_session user session m d)
call-meaning (remove user) m d =
    (refl, fun_ext (λ j. find-remove_session user j m d), Distinct-remove_session user m d)
call-meaning (write alive user msg) m d = write_to-tell alive user msg m d
call-meaning (write_room alive users msg) m d =
    rw (write_to_room-write_to_each alive users msg m) (write_to_each-tell_all alive users msg m d)

-- Any sequence of calls hands on the same messages, to the same sessions and in the same order, and
-- leads to the same answers of `find`, as the specification: a function from users to sessions,
-- where a call that meets an expired session forgets it. How the map is laid out is not seen.
pub run_refines :
    (ops : List Op) (m : Sessions) → Distinct m → Agrees (run ops m) (replay ops (directory m))
unfolding run
run_refines [] m d = (refl, refl, d)
run_refines (op ∷ ops) m d =
    let (sent, same, d') = call-meaning op m d in
    let (sent', same', d'') = run_refines ops (call op m).1 d' in
    (
      λ i. sent i ++ (sent' ∙ ap (λ f. (replay ops f).0) same) i,
      same' ∙ ap (λ f. (replay ops f).1) same,
      d'',
    )
