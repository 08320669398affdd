-- ===== src/SessionMgr/Map.antt =====
-- The map of sessions (src/core/ws_session_mgr.cpp): what `find` sees after each operation.
use tinychat_server.Base.{
  ℕ, ◌≡◌, ◌≢◌, refl, Bool, Option, none, some, [], ◌∷◌, arith, inl, inr, Option-cases, ◌==◌,
  if◌then◌else◌,
}
use tinychat_server.SessionMgr.{
  Sessions, find, assign, erase, add_session, remove_session, lock_session,
}

-- No user has two entries.
abbrev pub Distinct : Sessions → Type 0
Distinct [] = Unit {0}
Distinct ((k, v) ∷ m) = (find k m ≡ none) × Distinct m

find-assign :
    (k j v : ℕ) (m : Sessions) {old : ℕ}
    → find k m ≡ some old
    → find j (assign k v m) ≡ (if k == j then some v else find j m)
unfolding find assign
find-assign k j v [] h = cc
find-assign k j v ((i, w) ∷ m) {old} h = ground (arith, find-assign k j v m {old = old})

find-erase :
    (k j : ℕ) (m : Sessions) → Distinct m → find j (erase k m) ≡ (if k == j then none else find j m)
unfolding find erase
find-erase k j [] d = ground arith
find-erase k j ((i, w) ∷ m) d = ground (arith, find-erase k j m d.1)

find-assign_ne : (k j v : ℕ) (m : Sessions) → k ≢ j → find j (assign k v m) ≡ find j m
unfolding find assign
find-assign_ne k j v [] h = refl
find-assign_ne k j v ((i, w) ∷ m) h = ground (arith, find-assign_ne k j v m h)

Distinct-assign : (k v : ℕ) (m : Sessions) → Distinct m → Distinct (assign k v m)
unfolding find assign
Distinct-assign k v [] d = tt
Distinct-assign k v ((i, w) ∷ m) d =
    ground (arith, Distinct-assign k v m d.1, find-assign_ne k i v m)

Distinct-erase : (k : ℕ) (m : Sessions) → Distinct m → Distinct (erase k m)
unfolding find erase
Distinct-erase k [] d = tt
Distinct-erase k ((i, w) ∷ m) d = ground (arith, Distinct-erase k m d.1, find-erase k i m d.1)

-- After `add_session` the user has the new session, and the other users have theirs.
pub find-add_session :
    (k j v : ℕ) (m : Sessions) → find j (add_session k v m) ≡ (if k == j then some v else find j m)
unfolding add_session
find-add_session k j v m = elim (Option-cases (find k m)) [
  | inl new ↦ rw (new, add_session) (unfold find in ground arith)
  | inr (old, e) ↦ rw (e, add_session) (find-assign k j v m e)
]

pub find-remove_session :
    (k j : ℕ) (m : Sessions)
    → Distinct m
    → find j (remove_session k m) ≡ (if k == j then none else find j m)
unfolding remove_session
find-remove_session k j m d = ground (arith, find-erase k j m d)

pub Distinct-add_session : (k v : ℕ) (m : Sessions) → Distinct m → Distinct (add_session k v m)
unfolding add_session
Distinct-add_session k v m d = elim (Option-cases (find k m)) [
  | inl new ↦ rw (new, add_session) (new, d)
  | inr (old, e) ↦ rw (e, add_session) (Distinct-assign k v m d)
]

pub Distinct-remove_session : (k : ℕ) (m : Sessions) → Distinct m → Distinct (remove_session k m)
unfolding remove_session
Distinct-remove_session k m d = ground (arith, Distinct-erase k m d)

-- Who is sent a message: the user's session, if it still has an owner.
abbrev pub online : (ℕ → Bool) → Sessions → ℕ → Option ℕ
online alive m user = elim (find user m) [
  | none ↦ none
  | some session ↦ if alive session then some session else none
]

pub lock_session-online :
    (alive : ℕ → Bool) (k : ℕ) (m : Sessions) → (lock_session alive k m).0 ≡ online alive m k
unfolding lock_session
lock_session-online alive k m = ground arith

-- Erasing what has expired changes nobody's session that can be locked.
pub online-lock_session :
    (alive : ℕ → Bool) (k j : ℕ) (m : Sessions)
    → Distinct m
    → online alive (lock_session alive k m).1 j ≡ online alive m j
unfolding lock_session
online-lock_session alive k j m d = ground (arith, find-erase k j m d)

pub Distinct-lock_session :
    (alive : ℕ → Bool) (k : ℕ) (m : Sessions) → Distinct m → Distinct (lock_session alive k m).1
unfolding lock_session
Distinct-lock_session alive k m d = ground (arith, Distinct-erase k m d)

-- Afterwards the user's entry is one that can be locked, or there is none.
pub find-lock_session :
    (alive : ℕ → Bool) (k : ℕ) (m : Sessions)
    → Distinct m
    → find k (lock_session alive k m).1 ≡ online alive m k
unfolding lock_session
find-lock_session alive k m d = ground (arith, find-erase k k m d)

pub find-lock_session_of :
    (alive : ℕ → Bool) (k j : ℕ) (m : Sessions)
    → Distinct m
    → find j (lock_session alive k m).1 ≡ (if k == j then online alive m k else find j m)
unfolding lock_session
find-lock_session_of alive k j m d = ground (arith, find-erase k j m d)
