-- ===== src/SessionMgr/Rooms.antt =====
-- `write_to_room` beside `write_to` (src/core/ws_session_mgr.cpp).
use tinychat_server.Base.{ℕ, ◌≡◌, refl, ◌∙◌, ap, Bool, Option, none, some, List, [], ◌∷◌, ◌++◌}
use tinychat_server.Text.{Text}
use tinychat_server.SessionMgr.{
  Sessions, lock_session, write_to, collect_online, send_all, write_to_room,
}

-- One `write_to` for each user, in order.
abbrev pub write_to_each : (ℕ → Bool) → List ℕ → Text → Sessions → List (ℕ × Text) × Sessions
write_to_each alive [] msg m = ([], m)
write_to_each alive (user ∷ users) msg m =
    let (one, m') = write_to alive user msg m in
    let (rest, m'') = write_to_each alive users msg m' in (one ++ rest, m'')

one_each :
    (found : Option ℕ) (msg : Text) (online : List ℕ)
    → send_all (elim found [ none ↦ online | some session ↦ session ∷ online ]) msg
      ≡ elim found [ none ↦ [] | some session ↦ (session, msg) ∷ [] ] ++ send_all online msg
unfolding send_all
one_each none msg online = refl
one_each (some session) msg online = refl

-- Collecting all sessions under one lock and sending afterwards hands on the same messages, in the
-- same order, and leaves the same registry, as one `write_to` for each member would: a member who is
-- listed twice gets the message twice either way, and an entry that has expired is erased once.
pub write_to_room-write_to_each :
    (alive : ℕ → Bool) (users : List ℕ) (msg : Text) (m : Sessions)
    → write_to_room alive users msg m ≡ write_to_each alive users msg m
unfolding write_to_room collect_online write_to send_all
write_to_room-write_to_each alive [] msg m = refl
write_to_room-write_to_each alive (user ∷ users) msg m =
    let (found, m') = lock_session alive user m in
    let rest = write_to_room-write_to_each alive users msg m' in
    λ i. (
      (one_each found msg (collect_online alive users m').0
            ∙ ap (λ r. elim found [ none ↦ [] | some session ↦ (session, msg) ∷ [] ] ++ r.0) rest)
          i,
      (rest i).1,
    )
