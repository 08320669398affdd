-- ===== src/SessionMgr/Addressed.antt =====
-- Who gets to see a message: the registry beside all connections that ever authenticated themselves
-- (src/core/ws_session_mgr.cpp, and `auth_user` and the destructor of
-- src/core/websocket_session.cpp and websocket_session.hpp).
use tinychat_server.Base.{
  ℕ, ◌≡◌, refl, Bool, Option, none, some, List, [], ◌∷◌, ◌++◌, All, All-append, All-map, arith,
}
use mathlib.Core.List.{mem-cons_self}
use tinychat_server.Text.{Text}
use tinychat_server.SessionMgr.{
  Sessions, add_session, remove_session, write_to, send_all, write_to_room,
}
use tinychat_server.SessionMgr.Owned.{
  update, IsAmong, Owned, Owned-lock_session, Owned-add_session, Owned-remove_session,
  Owned-collect_online, IsAmong-update, Owned-update,
}

-- A message that was handed to a connection, with the users for whom it was meant.
pub record Handed : Type 0 where
  pub session : ℕ
  pub msg : Text
  pub meant_for : List ℕ

pub record System : Type 0 where
  pub sessions : Sessions
  pub user_of : ℕ → Option ℕ  -- who a connection is, once it has authenticated itself
  pub handed : List Handed

abbrev pub handed_to : List ℕ → List (ℕ × Text) → List Handed
handed_to users [] = []
handed_to users ((session, msg) ∷ rest) =
    record { session = session; msg = msg; meant_for = users } ∷ handed_to users rest

-- A user may connect again at any time, connections may be destroyed at any time, and which of
-- them can still be locked is left open at every call.
pub data Step (s : System) : System → Type 0 where
  connect :
      (user session : ℕ)
      → s.user_of session ≡ none
      → Step s (record s {
        sessions = add_session user session s.sessions;
        user_of = update s.user_of session user;
      })
  destroy : (user : ℕ) → Step s (record s { sessions = remove_session user s.sessions })
  send :
      (alive : ℕ → Bool) (user : ℕ) (msg : Text)
      → Step s (record s {
        sessions = (write_to alive user msg s.sessions).1;
        handed = s.handed ++ handed_to (user ∷ []) (write_to alive user msg s.sessions).0;
      })
  send_room :
      (alive : ℕ → Bool) (users_in_group : List ℕ) (msg : Text)
      → Step s (record s {
        sessions = (write_to_room alive users_in_group msg s.sessions).1;
        handed =
            s.handed
            ++ handed_to users_in_group (write_to_room alive users_in_group msg s.sessions).0;
      })

pub data Reach : System → Type 0 where
  start : Reach (record { sessions = []; user_of = λ j. none; handed = [] })
  next : {s s' : System} → Reach s → Step s s' → Reach s'

abbrev pub Entitled : (ℕ → Option ℕ) → Handed → Type 0
Entitled user_of h = IsAmong user_of h.meant_for h.session

pub record IsPrivate (s : System) : Type 0 where
  pub owned : Owned s.user_of s.sessions
  pub entitled : All (Entitled s.user_of) s.handed

-- What is handed on goes to connections of the users for whom it is meant.
Entitled-handed_to :
    (user_of : ℕ → Option ℕ) (users : List ℕ) (msg : Text) (online : List ℕ)
    → All (IsAmong user_of users) online
    → All (Entitled user_of) (handed_to users (send_all online msg))
unfolding send_all
Entitled-handed_to user_of users msg [] h = tt
Entitled-handed_to user_of users msg (session ∷ online) h =
    (h.0, Entitled-handed_to user_of users msg online h.1)

Entitled-found :
    (user_of : ℕ → Option ℕ) (user : ℕ) (msg : Text) (found : Option ℕ)
    → ((session : ℕ) → found ≡ some session → user_of session ≡ some user)
    → All
        (Entitled user_of)
        (handed_to (user ∷ []) (elim found [ none ↦ [] | some session ↦ (session, msg) ∷ [] ]))
Entitled-found user_of user msg none h = tt
Entitled-found user_of user msg (some session) h = ((user, h session refl, mem-cons_self), tt)

Step-IsPrivate : {s s' : System} → Step s s' → IsPrivate s → IsPrivate s'
Step-IsPrivate {s} (connect user session free) h = record {
  owned =
      Owned-add_session (update s.user_of session user) user session s.sessions (ground arith)
        (Owned-update s.user_of session user s.sessions free h.owned);
  entitled =
      All-map (Entitled s.user_of) (Entitled (update s.user_of session user)) s.handed
        (λ a e. IsAmong-update s.user_of session user a.meant_for a.session free e) h.entitled;
}
Step-IsPrivate {s} (destroy user) h = record {
  owned = Owned-remove_session s.user_of user s.sessions h.owned;
  entitled = h.entitled;
}
Step-IsPrivate {s} (send alive user msg) h =
    let (kept, mine) = Owned-lock_session s.user_of alive user s.sessions h.owned in
    unfold write_to in
    record {
      owned = kept;
      entitled =
          All-append (Entitled s.user_of) s.handed _ h.entitled
            (Entitled-found s.user_of user msg _ mine);
    }
Step-IsPrivate {s} (send_room alive users msg) h =
    let (kept, theirs) = Owned-collect_online s.user_of alive users s.sessions h.owned in
    unfold write_to_room in
    record {
      owned = kept;
      entitled =
          All-append (Entitled s.user_of) s.handed _ h.entitled
            (Entitled-handed_to s.user_of users msg _ theirs);
    }

-- In any interleaving of connections, reconnections, destructions and messages, a message is handed
-- only to connections that authenticated themselves as a user for whom it was meant: the addressee
-- of `write_to`, or a member that the query of `write_to_room` returned.
pub Reach-IsPrivate : {s : System} → Reach s → IsPrivate s
Reach-IsPrivate start = record { owned = tt; entitled = tt }
Reach-IsPrivate (next r st) = Step-IsPrivate st (Reach-IsPrivate r)
