-- ===== src/SessionMgr/Interface.antt =====
-- What a client relies on of the registry of sessions (src/core/ws_session_mgr.hpp): its operations
-- and their laws, and what follows from these alone.
use tinychat_server.Base.{
  ℕ, ◌≡◌, ◌≢◌, Bool, true, Option, none, some, List, [], ◌∷◌, ◌==◌, if◌then◌else◌, All, arith,
}
use tinychat_server.Text.{Text}
use tinychat_server.SessionMgr.Sends.{one_message}
use tinychat_server.SessionMgr.Refine.{Op, add, remove, write, write_room, living}

-- The session of each user, the calls, and what a call does to the session of a user.
pub record Registry : Type 1 where
  pub State : Type 0
  pub session_of : State → ℕ → Option ℕ
  pub step : Op → State → List (ℕ × Text) × State
  pub after_add :
      (k v j : ℕ) (s : State)
      → session_of (step (add k v) s).1 j ≡ (if k == j then some v else session_of s j)
  pub after_remove :
      (k j : ℕ) (s : State)
      → session_of (step (remove k) s).1 j ≡ (if k == j then none else session_of s j)
  pub after_write :
      (alive : ℕ → Bool) (k j : ℕ) (msg : Text) (s : State)
      → session_of (step (write alive k msg) s).1 j
        ≡ (if k == j then living alive (session_of s k) else session_of s j)
  pub after_write_room :
      (alive : ℕ → Bool) (users : List ℕ) (msg : Text) (s : State) (j v : ℕ)
      → session_of s j ≡ some v
      → alive v ≡ true
      → session_of (step (write_room alive users msg) s).1 j ≡ some v
  pub sends :
      (alive : ℕ → Bool) (k : ℕ) (msg : Text) (s : State)
      → (step (write alive k msg) s).0 ≡ one_message (living alive (session_of s k)) msg

-- The call neither adds nor removes a session of the user, and finds that session alive.
abbrev pub Spares : ℕ → ℕ → Op → Type 0
Spares user session (add k v) = k ≢ user
Spares user session (remove k) = k ≢ user
Spares user session (write alive k msg) = alive session ≡ true
Spares user session (write_room alive users msg) = alive session ≡ true

module _ (r : Registry) where
  abbrev pub after : List Op → r.State → r.State
  after [] s = s
  after (op ∷ ops) s = after ops (r.step op s).1

  spared :
      (user session : ℕ) (op : Op) (s : r.State)
      → Spares user session op
      → r.session_of s user ≡ some session
      → r.session_of (r.step op s).1 user ≡ some session
  spared user session (add k v) s h e = ground (arith, r.after_add k v user s)
  spared user session (remove k) s h e = ground (arith, r.after_remove k user s)
  spared user session (write alive k msg) s h e = ground (arith, r.after_write alive k user msg s)
  spared user session (write_room alive users msg) s h e =
      r.after_write_room alive users msg s user session e h

  all_spared :
      (user session : ℕ) (ops : List Op) (s : r.State)
      → All (Spares user session) ops
      → r.session_of s user ≡ some session
      → r.session_of (after ops s) user ≡ some session
  all_spared user session [] s h e = e
  all_spared user session (op ∷ ops) s h e =
      all_spared user session ops (r.step op s).1 h.1 (spared user session op s h.0 e)

  -- A session that is added gets what is written to its user, after any calls that spare it.
  pub added_session_gets :
      (user session : ℕ) (ops : List Op) (s : r.State) (alive : ℕ → Bool) (msg : Text)
      → All (Spares user session) ops
      → alive session ≡ true
      → (r.step (write alive user msg) (after ops (r.step (add user session) s).1)).0
        ≡ (session, msg) ∷ []
  added_session_gets user session ops s alive msg h lives =
      let there : r.session_of (r.step (add user session) s).1 user ≡ some session =
        ground (arith, r.after_add user session user s) in
      ground (
        arith,
        r.sends alive user msg (after ops (r.step (add user session) s).1),
        all_spared user session ops (r.step (add user session) s).1 h there,
      )
