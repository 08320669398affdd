-- ===== src/History.antt =====
-- The updates that all requests and messages make, one after the other, on a database that reports
-- only what was inserted before (src/core/request_handler.hpp and ws_handler.cpp).
mod Witnesses
use tinychat_server.Base.{
  ℕ, ◌≡◌, ◌⊎◌, inl, inr, refl, sym, ap, Bool, true, some, List, [], ◌∷◌, All, arith,
}
use mathlib.Core.Path.{subst}
use tinychat_server.Base.Int.{pos}
use tinychat_server.Text.{Text}
use tinychat_server.Claims.{UserClaims}
use tinychat_server.Database.{Call, update, Mysql, Row, role, type, Outcome}
use tinychat_server.Database.Env.{Env}
use tinychat_server.Database.Updates.{OnUpdates}
use tinychat_server.Database.Statements.{
  Statement, insert_user, insert_private_room, insert_group_room, insert_member, insert_two_members,
  invite_member, delete_members, delete_room, select_room_type, select_role, select_membership,
  insert_message, update_last_message, select_user, select_room_ids, select_members,
}
use tinychat_server.Http.{Request}
use tinychat_server.RequestHandler.Access.{IsOwner}
use tinychat_server.RequestHandler.Assets.{Files}
use tinychat_server.RequestHandler.Credentials.{Auth}
use tinychat_server.RequestHandler.Dispatch.{handle_request}
use tinychat_server.RequestHandler.Permits.{Permitted}
use tinychat_server.RequestHandler.Permits.Dispatch.{handle_request-Permitted}
use tinychat_server.WsHandler.{handle_message}
use tinychat_server.WsHandler.Permits.{Storable, handle_message-Storable}

-- Some entry of the list satisfies `P`.
abbrev pub Some : {A : Type 0} → (A → Type 0) → List A → Type 0
Some P [] = ⊥
Some P (x ∷ xs) = P x ⊎ Some P xs

Some-map :
    {A : Type 0} (P Q R : A → Type 0) (xs : List A)
    → ((x : A) → P x → R x → Q x)
    → Some P xs
    → All R xs
    → Some Q xs
Some-map P Q R [] f p h = absurd p
Some-map P Q R (x ∷ xs) f (inl p) h = inl (f x p h.0)
Some-map P Q R (x ∷ xs) f (inr p) h = inr (Some-map P Q R xs f p h.1)

of_All : {A : Type 0} (P : A → Type 0) (a : A) (xs : List A) → All P xs → Some (λ x. x ≡ a) xs → P a
of_All P a [] h k = absurd k
of_All P a (x ∷ xs) h (inl e) = subst P e h.0
of_All P a (x ∷ xs) h (inr k) = of_All P a xs h.1 k

-- What an inserted row says.
abbrev pub MakesRoom : ℕ → ℕ → Statement → Type 0
MakesRoom room t (insert_group_room i name t' user) = (i ≡ room) × (t' ≡ t)
MakesRoom room t (insert_private_room i t') = (i ≡ room) × (t' ≡ t)
MakesRoom room t _ = ⊥

abbrev pub MakesGroup : ℕ → Statement → Type 0
MakesGroup room (insert_group_room i name t user) = i ≡ room
MakesGroup room _ = ⊥

abbrev pub MakesRole : ℕ → ℕ → ℕ → Statement → Type 0
MakesRole room user r (insert_member i u q) = (i ≡ room) × (u ≡ user) × (q ≡ r)
MakesRole room user r (insert_two_members i u q i' u' q') =
    ((i ≡ room) × (u ≡ user) × (q ≡ r)) ⊎ ((i' ≡ room) × (u' ≡ user) × (q' ≡ r))
MakesRole room user r (invite_member i u q) = (i ≡ room) × (u ≡ user) × (q ≡ r)
MakesRole room user r _ = ⊥

abbrev pub MakesMember : ℕ → ℕ → Statement → Type 0
MakesMember room user (insert_member i u q) = (i ≡ room) × (u ≡ user)
MakesMember room user (insert_two_members i u q i' u' q') =
    ((i ≡ room) × (u ≡ user)) ⊎ ((i' ≡ room) × (u' ≡ user))
MakesMember room user (invite_member i u q) = (i ≡ room) × (u ≡ user)
MakesMember room user _ = ⊥

-- The user is inserted alone, as the first member of a group is.
abbrev pub MakesFounder : ℕ → ℕ → Statement → Type 0
MakesFounder room user (insert_member i u q) = (i ≡ room) × (u ≡ user)
MakesFounder room user _ = ⊥

-- The database reports a room's type, a member's role and a membership only as they were inserted.
pub record Reports (s : Mysql) (log : List Statement) : Type 0 where
  pub rooms :
      (room t : ℕ) (row : Row) (rest : List Row)
      → s.rows (select_room_type room) ≡ some (row ∷ rest)
      → row.get_int type ≡ some (pos t)
      → Some (MakesRoom room t) log
  pub roles :
      (room user r : ℕ) (row : Row) (rest : List Row)
      → s.rows (select_role room user) ≡ some (row ∷ rest)
      → row.get_int role ≡ some (pos r)
      → Some (MakesRole room user r) log
  pub members :
      (room user : ℕ) (row : Row) (rest : List Row)
      → s.rows (select_membership room user) ≡ some (row ∷ rest)
      → Some (MakesMember room user) log

-- The updates so far, newest first. Each was executed by a request or by a message, on a database that
-- reported only what was there before it.
pub data History : List Statement → Type 0 where
  empty : History []
  by_request :
      {log : List Statement}
      → History log
      → (env : Env) (auth : Auth) (files : Files) (doc_root : Text) (req : Request) (st : Statement)
      → Reports env.mysql log
      → Some (λ c. c ≡ update st) (handle_request env auth files doc_root req).1
      → History (st ∷ log)
  by_message :
      {log : List Statement}
      → History log
      → (env : Env) (room_written : ℕ → Outcome (Unit {0})) (user_claims : UserClaims) (msg : Text)
        (st : Statement)
      → Reports env.mysql log
      → Some (λ c. c ≡ update st) (handle_message env room_written user_claims msg).1
      → History (st ∷ log)

-- What a statement is and what must be in the log before it, newest first. The first members of a
-- room are its owner, or two members of one room without a rank.
abbrev pub Justified : Statement → List Statement → Type 0
Justified (insert_member room user r) log = r ≡ 3
Justified (insert_two_members room u r room' u' r') log = (room ≡ room') × (r ≡ 0) × (r' ≡ 0)
Justified (invite_member room user r) log = Some (MakesGroup room) log
Justified (delete_members room) log = (user : ℕ) × Some (MakesFounder room user) log
Justified (delete_room room) log = (user : ℕ) × Some (MakesFounder room user) log
Justified (insert_message i room sender content) log = Some (MakesMember room sender) log
Justified (update_last_message i room) log = (user : ℕ) × Some (MakesMember room user) log
Justified _ log = Unit

abbrev pub AllJustified : List Statement → Type 0
AllJustified [] = Unit
AllJustified (st ∷ log) = Justified st log × AllJustified log

-- The constants that the statements carry.
abbrev IsPlain : Statement → Type 0
IsPlain (insert_private_room i t) = t ≡ 2
IsPlain (insert_two_members i u q i' u' q') = (q ≡ 0) × (q' ≡ 0)
IsPlain (invite_member i u q) = q ≡ 1
IsPlain _ = Unit

group_of : (room : ℕ) (st : Statement) → MakesRoom room 1 st → IsPlain st → MakesGroup room st
group_of room (insert_group_room i name t user) m p = m.0
group_of room (insert_private_room i t) m p = absurd (omega (arith, m.1, p))
group_of room _ m p = absurd m

founder_of :
    (room user : ℕ) (st : Statement)
    → MakesRole room user 3 st
    → IsPlain st
    → MakesFounder room user st
founder_of room user (insert_member i u q) m p = (m.0, m.1)
founder_of room user (insert_two_members i u q i' u' q') m p = absurd (ground arith)
founder_of room user (invite_member i u q) m p = absurd (omega (arith, m.2, p))
founder_of room user _ m p = absurd m

module _ (log : List Statement) (plain : All IsPlain log) where
  module _ (env : Env) (auth : Auth) (req : Request) (reports : Reports env.mysql log) where
    founded : (room : ℕ) → IsOwner env req room → (user : ℕ) × Some (MakesFounder room user) log
    founded room (claims, row, rest, c, q, r) = (
      claims.id,
      Some-map (MakesRole room claims.id 3) (MakesFounder room claims.id) IsPlain log
          (founder_of room claims.id) (reports.roles room claims.id 3 row rest q r) plain,
    )

    request-Justified : (st : Statement) → Permitted env auth req st → Justified st log × IsPlain st
    request-Justified (insert_user i username hashed mail nick) p = (tt, tt)
    request-Justified (insert_group_room i name t user) p = (tt, tt)
    request-Justified (insert_member room user r) p = (p.1, tt)
    request-Justified (insert_private_room i t) p = (tt, p.1)
    request-Justified (insert_two_members i u q i' u' q') p = ((p.1, p.2, p.3), (p.2, p.3))
    request-Justified (invite_member room user r) (caller, (row, rest, q, t), e) = (
      Some-map (MakesRoom room 1) (MakesGroup room) IsPlain log (group_of room)
          (reports.rooms room 1 row rest q t) plain,
      e,
    )
    request-Justified (delete_members room) p = (founded room p, tt)
    request-Justified (delete_room room) p = (founded room p, tt)
    request-Justified _ p = absurd p

  module _ (env : Env) (room_written : ℕ → Outcome (Unit {0})) (user_claims : UserClaims)
      (reports : Reports env.mysql log) where
    message-Justified :
        (st : Statement) → Storable env room_written user_claims st → Justified st log × IsPlain st
    message-Justified (insert_message i room sender content) (same, (row, rest, q)) = (
      subst (λ u. Some (MakesMember room u) log) (sym same)
          (reports.members room user_claims.id row rest q),
      tt,
    )
    message-Justified (update_last_message i room) (row, rest, q) =
        ((user_claims.id, reports.members room user_claims.id row rest q), tt)
    message-Justified _ p = absurd p

History-IsPlain : {log : List Statement} → History log → AllJustified log × All IsPlain log
History-IsPlain empty = (tt, tt)
History-IsPlain (by_request {log = log} h env auth files doc_root req st reports made) =
    let (before, plain) = History-IsPlain h in
    let p =
      of_All (OnUpdates (Permitted env auth req)) (update st)
        (handle_request env auth files doc_root req).1
        (handle_request-Permitted env auth files doc_root req) made in
    let (now, fits) = request-Justified log plain env auth req reports st p in
    ((now, before), (fits, plain))
History-IsPlain (by_message {log = log} h env room_written user_claims msg st reports made) =
    let (before, plain) = History-IsPlain h in
    let p =
      of_All (OnUpdates (Storable env room_written user_claims)) (update st)
        (handle_message env room_written user_claims msg).1
        (handle_message-Storable env room_written user_claims msg) made in
    let (now, fits) = message-Justified log plain env room_written user_claims reports st p in
    ((now, before), (fits, plain))

-- In whatever order requests and messages make their updates, statement by statement, on a database
-- that reports the types of rooms, roles and memberships only as they were inserted before: besides
-- the first members of a room, which are inserted as one owner or as two members of the same room
-- without a rank, a member is added, by an invitation, only to a room that was inserted as a group;
-- the members and the row of a room are deleted only where someone was inserted as its owner in that
-- way; and a message is stored, or named as the last of its room, only where its sender, or someone,
-- was inserted as a member of the room.
pub History-AllJustified : {log : List Statement} → History log → AllJustified log
History-AllJustified h = (History-IsPlain h).0
