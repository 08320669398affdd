-- ===== src/SessionMgr/Owned.antt =====
-- The entries of the registry are connections of their users, and stay so (src/core/ws_session_mgr.cpp).
use tinychat_server.Base.{
  ℕ, ◌≡◌, refl, Bool, Option, none, some, List, [], ◌∷◌, All, All-map, Option-cases, Bool-cases,
  arith, inl, inr, ◌==◌, if◌then◌else◌,
}
use mathlib.Core.List.{Mem, mem-cons_self, mem-cons_of_mem}
use tinychat_server.SessionMgr.{
  Sessions, find, assign, erase, add_session, remove_session, lock_session, collect_online,
}

abbrev pub update : (ℕ → Option ℕ) → ℕ → ℕ → ℕ → Option ℕ
update f k v j = if k == j then some v else f j

-- The connection authenticated itself as one of the users.
abbrev pub IsAmong : (ℕ → Option ℕ) → List ℕ → ℕ → Type 0
IsAmong user_of users session = (user : ℕ) × (user_of session ≡ some user) × Mem user users

-- Every entry of the registry is a connection of its user.
abbrev pub Owned : (ℕ → Option ℕ) → Sessions → Type 0
Owned user_of m = All (λ e. user_of e.1 ≡ some e.0) m

Owned-assign :
    (user_of : ℕ → Option ℕ) (k v : ℕ) (m : Sessions)
    → user_of v ≡ some k
    → Owned user_of m
    → Owned user_of (assign k v m)
unfolding assign
Owned-assign user_of k v [] h o = tt
Owned-assign user_of k v ((j, w) ∷ m) h o = ground (arith, Owned-assign user_of k v m)

Owned-erase :
    (user_of : ℕ → Option ℕ) (k : ℕ) (m : Sessions) → Owned user_of m → Owned user_of (erase k m)
unfolding erase
Owned-erase user_of k [] o = tt
Owned-erase user_of k ((j, w) ∷ m) o = ground (arith, Owned-erase user_of k m)

Owned-find :
    (user_of : ℕ → Option ℕ) (k v : ℕ) (m : Sessions)
    → Owned user_of m
    → find k m ≡ some v
    → user_of v ≡ some k
unfolding find
Owned-find user_of k v [] o e = cc
Owned-find user_of k v ((j, w) ∷ m) o e = ground (arith, Owned-find user_of k v m)

-- The lookup finds a connection of the user, and keeps the registry's entries owned.
pub Owned-lock_session :
    (user_of : ℕ → Option ℕ) (alive : ℕ → Bool) (user : ℕ) (m : Sessions)
    → Owned user_of m
    → Owned user_of (lock_session alive user m).1
      × ((session : ℕ) → (lock_session alive user m).0 ≡ some session → user_of session ≡ some user)
unfolding lock_session
Owned-lock_session user_of alive user m o = elim (Option-cases (find user m)) [
  | inl e ↦ rw (e, lock_session) (o, λ session k. cc)
  | inr (v, e) ↦ elim (Bool-cases (alive v)) [
    | inl a ↦
        rw (e, lock_session, a) (o, λ session k. ground (arith, Owned-find user_of user v m o e))
    | inr a ↦ rw (e, lock_session, a) (Owned-erase user_of user m o, λ session k. cc)
  ]
]

pub Owned-add_session :
    (user_of : ℕ → Option ℕ) (k v : ℕ) (m : Sessions)
    → user_of v ≡ some k
    → Owned user_of m
    → Owned user_of (add_session k v m)
unfolding add_session
Owned-add_session user_of k v m h o = ground (arith, Owned-assign user_of k v m)

pub Owned-remove_session :
    (user_of : ℕ → Option ℕ) (k : ℕ) (m : Sessions)
    → Owned user_of m
    → Owned user_of (remove_session k m)
unfolding remove_session
Owned-remove_session user_of k m o = ground (arith, Owned-erase user_of k m)

All-found :
    (P : ℕ → Type 0) (found : Option ℕ) (rest : List ℕ)
    → ((session : ℕ) → found ≡ some session → P session)
    → All P rest
    → All P (elim found [ none ↦ rest | some session ↦ session ∷ rest ])
All-found P none rest h a = a
All-found P (some session) rest h a = (h session refl, a)

-- The connections that the loop over a room's members collects belong to members.
pub Owned-collect_online :
    (user_of : ℕ → Option ℕ) (alive : ℕ → Bool) (users : List ℕ) (m : Sessions)
    → Owned user_of m
    → Owned user_of (collect_online alive users m).1
      × All (IsAmong user_of users) (collect_online alive users m).0
unfolding collect_online
Owned-collect_online user_of alive [] m o = (o, tt)
Owned-collect_online user_of alive (user ∷ users) m o =
    let (kept, mine) = Owned-lock_session user_of alive user m o in
    let (kept', theirs) =
      Owned-collect_online user_of alive users (lock_session alive user m).1 kept in
    let online =
      All-map (IsAmong user_of users) (IsAmong user_of (user ∷ users)) _
        (λ a (u, e, k). (u, e, mem-cons_of_mem user k)) theirs in
    (
      kept',
      All-found (IsAmong user_of (user ∷ users)) (lock_session alive user m).0 _
          (λ session e. (user, mine session e, mem-cons_self)) online,
    )

-- A connection that authenticates itself was nobody before, so nothing is taken away.
pub IsAmong-update :
    (user_of : ℕ → Option ℕ) (k v : ℕ) (users : List ℕ) (session : ℕ)
    → user_of k ≡ none
    → IsAmong user_of users session
    → IsAmong (update user_of k v) users session
IsAmong-update user_of k v users session h (u, e, m) = (u, ground arith, m)

pub Owned-update :
    (user_of : ℕ → Option ℕ) (k v : ℕ) (m : Sessions)
    → user_of k ≡ none
    → Owned user_of m
    → Owned (update user_of k v) m
Owned-update user_of k v [] h o = tt
Owned-update user_of k v ((j, w) ∷ m) h o = (ground arith, Owned-update user_of k v m h o.1)
