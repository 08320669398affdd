-- ===== src/SessionMgr/Sends.antt =====
-- Who receives what `write_to` and `write_to_room` send (src/core/ws_session_mgr.cpp).
use mathlib.Core.Path.{fun_ext}
use tinychat_server.Base.{ℕ, ◌≡◌, refl, ap, ◌∙◌, Bool, Option, none, some, List, [], ◌∷◌, arith}
use tinychat_server.Text.{Text}
use tinychat_server.SessionMgr.{
  Sessions, find, lock_session, write_to, collect_online, send_all, write_to_room,
}
use tinychat_server.SessionMgr.Map.{
  Distinct, online, lock_session-online, online-lock_session, Distinct-lock_session,
  find-lock_session,
}

abbrev pub one_message : Option ℕ → Text → List (ℕ × Text)
one_message none msg = []
one_message (some session) msg = (session, msg) ∷ []

-- `write_to` sends the message once, to the user's session if that still has an owner, and to
-- nobody else; every user keeps the session that can be reached; the user's own entry is one that
-- can be reached, or it is gone.
pub write_to_lem :
    (alive : ℕ → Bool) (user : ℕ) (msg : Text) (m : Sessions)
    → Distinct m
    → ((write_to alive user msg m).0 ≡ one_message (online alive m user) msg)
      × ((j : ℕ) → online alive (write_to alive user msg m).1 j ≡ online alive m j)
      × (find user (write_to alive user msg m).1 ≡ online alive m user)
      × Distinct (write_to alive user msg m).1
unfolding write_to
write_to_lem alive user msg m d = (
  ground (arith, lock_session-online alive user m),
  λ j. online-lock_session alive user j m d,
  find-lock_session alive user m d,
  Distinct-lock_session alive user m d,
)

-- The sessions of the users that have one, in the order of the users.
abbrev pub receivers : (ℕ → Option ℕ) → List ℕ → List ℕ
receivers session_of [] = []
receivers session_of (user ∷ users) =
    let rest = receivers session_of users in
    elim (session_of user) [ none ↦ rest | some session ↦ session ∷ rest ]

collect_online_lem :
    (alive : ℕ → Bool) (users : List ℕ) (m : Sessions)
    → Distinct m
    → ((collect_online alive users m).0 ≡ receivers (online alive m) users)
      × ((j : ℕ) → online alive (collect_online alive users m).1 j ≡ online alive m j)
      × Distinct (collect_online alive users m).1
unfolding collect_online
collect_online_lem alive [] m d = (refl, λ j. refl, d)
collect_online_lem alive (user ∷ users) m d =
    let m' : Sessions = (lock_session alive user m).1 in
    let rest = collect_online_lem alive users m' (Distinct-lock_session alive user m d) in
    (
      ground (
        arith,
        lock_session-online alive user m,
        rest.0,
        ap (λ f. receivers f users) (fun_ext (λ j. online-lock_session alive user j m d)),
      ),
      λ j. rest.1 j ∙ online-lock_session alive user j m d,
      rest.2,
    )

-- `write_to_room` sends the message once to each member that the query lists and whose session
-- still has an owner, in the order of the list, and to nobody else; every user keeps the session
-- that can be reached.
pub write_to_room_lem :
    (alive : ℕ → Bool) (users : List ℕ) (msg : Text) (m : Sessions)
    → Distinct m
    → ((write_to_room alive users msg m).0 ≡ send_all (receivers (online alive m) users) msg)
      × ((j : ℕ) → online alive (write_to_room alive users msg m).1 j ≡ online alive m j)
      × Distinct (write_to_room alive users msg m).1
unfolding write_to_room
write_to_room_lem alive users msg m d =
    let all = collect_online_lem alive users m d in (ap (λ l. send_all l msg) all.0, all.1, all.2)
