-- ===== src/SessionMgr/Reconnect.antt =====
-- The registry beside the lives of the sessions: `WebsocketSession::auth_user` registers a session,
-- and its destructor removes the entry of its user (src/core/websocket_session.hpp and
-- websocket_session.cpp).
use tinychat_server.Base.{
  ℕ, ◌≡◌, refl, sym, ◌∙◌, inl, inr, Bool, true, false, Option, none, some, List, [], ◌∷◌, arith,
  Option-cases, ◌==◌, if◌then◌else◌,
}
use tinychat_server.Text.{Text}
use tinychat_server.SessionMgr.{
  Sessions, find, add_session, remove_session, lock_session, write_to, collect_online,
  write_to_room,
}
use tinychat_server.SessionMgr.Map.{
  Distinct, online, lock_session-online, find-lock_session_of, Distinct-lock_session,
  Distinct-add_session, Distinct-remove_session, find-add_session, find-remove_session,
}

-- A user who connects again while an older session still lives is reachable, until the older
-- session is destroyed: its destructor removes the entry of the newer one, and from then on nothing
-- is sent to the user, although the newer session lives.
pub reconnect_loses_session :
    (alive : ℕ → Bool) (user old new : ℕ) (msg : Text) (m : Sessions)
    → Distinct m
    → alive new ≡ true
    → ((write_to alive user msg (add_session user new (add_session user old m))).0
        ≡ (new, msg) ∷ [])
      × ((write_to alive user msg
            (remove_session user (add_session user new (add_session user old m)))).0
          ≡ [])
unfolding write_to
reconnect_loses_session alive user old new msg m d h =
    let twice : Sessions = add_session user new (add_session user old m) in
    let distinct : Distinct twice =
      Distinct-add_session user new (add_session user old m) (Distinct-add_session user old m d) in
    (
      ground (
        arith,
        lock_session-online alive user twice,
        find-add_session user user new (add_session user old m),
      ),
      ground (
        arith,
        lock_session-online alive user (remove_session user twice),
        find-remove_session user user twice distinct,
      ),
    )

-- The registry and, for each user, the session that lives.
pub record Registry : Type 0 where
  pub sessions : Sessions
  pub owner : ℕ → Option ℕ

abbrev pub is_owned : Option ℕ → ℕ → Bool
is_owned none session = false
is_owned (some s) session = s == session

abbrev pub update : (ℕ → Option ℕ) → ℕ → Option ℕ → ℕ → Option ℕ
update f k o j = if k == j then o else f j

-- A user connects only while no session of the same user lives. A session that was refused was never
-- registered, but its destructor removes the entry of whatever id its claims hold; here no session of
-- that user lives. A message may be sent at any time, to a user or to a list of members, under any
-- `alive` that holds of the sessions that live.
pub data Step (r : Registry) : Registry → Type 0 where
  connect :
      (user session : ℕ)
      → r.owner user ≡ none
      → Step r (record {
        sessions = add_session user session r.sessions;
        owner = update r.owner user (some session);
      })
  destroy :
      (user session : ℕ)
      → r.owner user ≡ some session
      → Step r
          (record { sessions = remove_session user r.sessions; owner = update r.owner user none })
  destroy_refused :
      (nobody : ℕ)
      → r.owner nobody ≡ none
      → Step r (record r { sessions = remove_session nobody r.sessions })
  send :
      (alive : ℕ → Bool) (user : ℕ) (msg : Text)
      → ((j s : ℕ) → r.owner j ≡ some s → alive s ≡ true)
      → Step r (record r { sessions = (write_to alive user msg r.sessions).1 })
  send_room :
      (alive : ℕ → Bool) (users : List ℕ) (msg : Text)
      → ((j s : ℕ) → r.owner j ≡ some s → alive s ≡ true)
      → Step r (record r { sessions = (write_to_room alive users msg r.sessions).1 })

pub data Reach : Registry → Type 0 where
  start : Reach (record { sessions = []; owner = λ j. none })
  next : {r r' : Registry} → Reach r → Step r r' → Reach r'

pub record IsExact (r : Registry) : Type 0 where
  pub distinct : Distinct r.sessions
  pub same : (j : ℕ) → find j r.sessions ≡ r.owner j

online-eq-find :
    (alive : ℕ → Bool) (m : Sessions) (user : ℕ)
    → ((s : ℕ) → find user m ≡ some s → alive s ≡ true)
    → online alive m user ≡ find user m
online-eq-find alive m user lives = elim (Option-cases (find user m)) [
  | inl e ↦ ground (arith, e)
  | inr (s, e) ↦ ground (arith, e, lives s e)
]

-- Nothing is erased where every entry is alive.
lock_session-alive :
    (alive : ℕ → Bool) (m : Sessions) (user : ℕ)
    → ((j s : ℕ) → find j m ≡ some s → alive s ≡ true)
    → (lock_session alive user m).1 ≡ m
unfolding lock_session
lock_session-alive alive m user lives = elim (Option-cases (find user m)) [
  | inl e ↦ ground (arith, e)
  | inr (s, e) ↦ ground (arith, e, lives user s e)
]

collect_online-alive :
    (alive : ℕ → Bool) (users : List ℕ) (m : Sessions)
    → ((j s : ℕ) → find j m ≡ some s → alive s ≡ true)
    → (collect_online alive users m).1 ≡ m
unfolding collect_online
collect_online-alive alive [] m lives = refl
collect_online-alive alive (user ∷ users) m lives =
    rw (lock_session-alive alive m user lives) (collect_online-alive alive users m lives)

Step-IsExact : {r r' : Registry} → Step r r' → IsExact r → IsExact r'
unfolding write_to write_to_room
Step-IsExact {r} (connect user session free) h = record {
  distinct = Distinct-add_session user session r.sessions h.distinct;
  same = λ j. ground (arith, find-add_session user j session r.sessions, h.same j);
}
Step-IsExact {r} (destroy user session owned) h = record {
  distinct = Distinct-remove_session user r.sessions h.distinct;
  same = λ j. ground (arith, find-remove_session user j r.sessions h.distinct, h.same j);
}
Step-IsExact {r} (send alive user msg lives) h = record {
  distinct = Distinct-lock_session alive user r.sessions h.distinct;
  same = λ j. ground (
    arith,
    find-lock_session_of alive user j r.sessions h.distinct,
    h.same j,
    online-eq-find alive r.sessions user (λ s e. lives user s (sym (h.same user) ∙ e)),
  );
}
Step-IsExact {r} (destroy_refused nobody free) h = record {
  distinct = Distinct-remove_session nobody r.sessions h.distinct;
  same = λ j. ground (arith, find-remove_session nobody j r.sessions h.distinct, h.same j);
}
Step-IsExact {r} (send_room alive users msg lives) h =
    let kept : (collect_online alive users r.sessions).1 ≡ r.sessions =
      collect_online-alive alive users r.sessions (λ j s e. lives j s (sym (h.same j) ∙ e)) in
    record { distinct = rw kept h.distinct; same = λ j. rw kept (h.same j) }

-- As long as no user connects while an older session of the same user lives, and no live session's
-- user has the id that a refused connection happens to hold when it is destroyed, the registry holds
-- exactly the sessions that live, each under its user, whatever is sent in between, to a user or to
-- the members of a room.
pub Reach-IsExact : {r : Registry} → Reach r → IsExact r
unfolding find
Reach-IsExact start = record { distinct = tt; same = λ j. refl }
Reach-IsExact (next r s) = Step-IsExact s (Reach-IsExact r)
