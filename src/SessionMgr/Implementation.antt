-- ===== src/SessionMgr/Implementation.antt =====
-- The map of sessions (src/core/ws_session_mgr.cpp) behind the interface of the registry.
use tinychat_server.Base.{ℕ, ◌≡◌, refl, ◌∙◌, ap, Bool, true, some, List, [], ◌∷◌, All, arith, sym}
use tinychat_server.Text.{Text}
use tinychat_server.SessionMgr.{Sessions, find, add_session, write_to}
use tinychat_server.SessionMgr.Map.{Distinct}
use tinychat_server.SessionMgr.Refine.{
  Op, add, remove, write, write_room, call, run, meaning, Directory, directory, tell_all,
  call-meaning,
}
use tinychat_server.SessionMgr.Interface.{Registry, Spares, after, added_session_gets}

-- Maps without double entries.
abbrev DistinctSessions : Type 0
DistinctSessions = (m : Sessions) × Distinct m

abbrev map_step : Op → DistinctSessions → List (ℕ × Text) × DistinctSessions
map_step op (m, d) = ((call op m).0, ((call op m).1, (call-meaning op m d).2))

-- What a call does to the session of one user.
found :
    (op : Op) (m : Sessions) (d : Distinct m) (j : ℕ)
    → find j (call op m).1 ≡ (meaning op (directory m)).1 j
found op m d j = ap (λ f. f j) (call-meaning op m d).1

tell_all-keeps :
    (alive : ℕ → Bool) (users : List ℕ) (msg : Text) (f : Directory) (j v : ℕ)
    → f j ≡ some v
    → alive v ≡ true
    → (tell_all alive users msg f).1 j ≡ some v
tell_all-keeps alive [] msg f j v e h = e
tell_all-keeps alive (user ∷ users) msg f j v e h =
    tell_all-keeps alive users msg _ j v (ground arith) h

abbrev map_registry : Registry
map_registry = record {
  State = DistinctSessions;
  session_of = λ s j. find j s.0;
  step = map_step;
  after_add = λ k v j s. found (add k v) s.0 s.1 j;
  after_remove = λ k j s. found (remove k) s.0 s.1 j;
  after_write = λ alive k j msg s. found (write alive k msg) s.0 s.1 j;
  after_write_room = λ alive users msg s j v e h.
      found (write_room alive users msg) s.0 s.1 j
      ∙ tell_all-keeps alive users msg (directory s.0) j v e h;
  sends = λ alive k msg s. (call-meaning (write alive k msg) s.0 s.1).0;
}

-- The calls on the map are those of `run`.
after-run : (ops : List Op) (s : DistinctSessions) → (after map_registry ops s).0 ≡ (run ops s.0).1
unfolding run
after-run [] s = refl
after-run (op ∷ ops) s = after-run ops (map_step op s).1

-- A session that is added to the map gets what is written to its user, after any calls in between
-- that add and remove no session of the user and find this one alive.
pub session_still_gets :
    (user session : ℕ) (ops : List Op) (m : Sessions) (alive : ℕ → Bool) (msg : Text)
    → Distinct m
    → All (Spares user session) ops
    → alive session ≡ true
    → (write_to alive user msg (run ops (add_session user session m)).1).0 ≡ (session, msg) ∷ []
unfolding call
session_still_gets user session ops m alive msg d h lives =
    ap (λ l. (write_to alive user msg l).0)
      (sym (after-run ops (map_step (add user session) (m, d)).1))
    ∙ added_session_gets map_registry user session ops (m, d) alive msg h lives
