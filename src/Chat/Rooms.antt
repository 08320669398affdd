-- ===== src/Chat/Rooms.antt =====
-- A message for a room reaches the members that are online (src/core/ws_handler.cpp,
-- ws_session_mgr.cpp and websocket_session.cpp).
use tinychat_server.Base.{
  ℕ, ◌≡◌, refl, sym, ◌∙◌, ap, Bool, false, Option, List, [], ◌∷◌, ◌++◌, append-nil, append_assoc,
  ◌==◌, if◌then◌else◌, Bool-cases, inl, inr,
}
use tinychat_server.Text.{Text}
use tinychat_server.Claims.{UserClaims, DecodedToken}
use tinychat_server.Models.Requests.{ClientGroupMsg}
use tinychat_server.Database.{Outcome, write_to_room}
use tinychat_server.Database.Env.{Env}
use tinychat_server.SessionMgr.{send_all}
use tinychat_server.SessionMgr.Map.{Distinct, online}
use tinychat_server.SessionMgr.Sends.{receivers, write_to_room_lem}
use tinychat_server.WsSession.{send}
use tinychat_server.WsSession.World.{World, performs}
use tinychat_server.WsSession.Fifo.{IsFifo}
use tinychat_server.WsSession.Drain.{Steps}
use tinychat_server.WsHandler.{handle_message, group_text}
use tinychat_server.WsHandler.Spec.{messages}
use tinychat_server.Chat.{Chat, send_each, perform_call, perform_calls}
use tinychat_server.Chat.Delivery.{perform_calls-messages, written_behind}

-- The message, once for each time that the connection stands in the list.
abbrev pub copies : ℕ → Text → List ℕ → List Text
copies j msg [] = []
copies j msg (session ∷ rest) =
    let more = copies j msg rest in if session == j then msg ∷ more else more

abbrev posts : World → List Text → World
posts w msgs = record w { posted = w.posted ++ msgs }

posts-append : (w : World) (xs ys : List Text) → posts (posts w xs) ys ≡ posts w (xs ++ ys)
posts-append w xs ys =
    ap {A = List Text} {B = World} (λ l. record w { posted = l }) (append_assoc w.posted xs ys)

posts-nil : (w : World) → w ≡ posts w []
posts-nil w =
    ap {A = List Text} {B = World} (λ l. record w { posted = l }) (sym (append-nil w.posted))

-- Each connection is posted the message as often as it is in the list.
send_each-send_all :
    (sessions : List ℕ) (msg : Text) (f : ℕ → World) (j : ℕ)
    → send_each (send_all sessions msg) f j ≡ posts (f j) (copies j msg sessions)
unfolding send_each send_all performs send
send_each-send_all [] msg f j = posts-nil (f j)
send_each-send_all (session ∷ rest) msg f j =
    let g : ℕ → World = λ k. if session == k then posts (f k) (msg ∷ []) else f k in
    send_each-send_all rest msg g j ∙ (elim (Bool-cases (session == j)) [
      | inl t ↦ rw t (posts-append (f j) (msg ∷ []) (copies j msg rest))
      | inr o ↦ rw o refl
    ])

-- A message for a room that the handler sends on is posted on each connection `j` once for each
-- member in the answer of the query whose connection is `j` and can be locked, and on no other. If
-- no write on `j` has failed, `j` can go on so that what was sent to it before is written first, and
-- then the message as often as it was posted.
pub group_message_reaches :
    (env : Env) (room_written : ℕ → Outcome (Unit {0})) (user_claims : UserClaims) (msg : Text)
    (m : ClientGroupMsg) (alive : ℕ → Bool) (members : ℕ → List ℕ) (c : Chat) (j : ℕ)
    (read_into : Text → Text → Text) (decode : Text → Option DecodedToken) (nobody : UserClaims)
    (header : Option Text)
    → messages (handle_message env room_written user_claims msg).1
      ≡ write_to_room m.room_id (group_text env room_written user_claims m) ∷ []
    → Distinct c.sessions
    → IsFifo (c.world j)
    → (c.world j).broken ≡ false
    → (let text = group_text env room_written user_claims m in
        let c' =
          perform_calls alive members (handle_message env room_written user_claims msg).1 c in
        let sent = copies j text (receivers (online alive c.sessions) (members m.room_id)) in
        (c'.world j ≡ record (c.world j) { posted = (c.world j).posted ++ sent })
        × ((w : World) × Steps read_into decode nobody header (c'.world j) w
            × (w.written ≡ (c.world j).accepted ++ ((c.world j).posted ++ sent))))
unfolding perform_calls perform_call
group_message_reaches env room_written user_claims msg m alive members c j read_into decode nobody
      header q d h b =
    let text = group_text env room_written user_claims m in
    let members_online = receivers (online alive c.sessions) (members m.room_id) in
    let calls = (handle_message env room_written user_claims msg).1 in
    let both =
      perform_calls-messages alive members calls c ∙ ap (λ l. perform_calls alive members l c) q in
    let (sent, same, d') = write_to_room_lem alive (members m.room_id) text c.sessions d in
    let posted : (perform_calls alive members calls c).world j
        ≡ posts (c.world j) (copies j text members_online) =
      (λ i. (both i).world j)
      ∙ ap (λ l. send_each l c.world j) sent
      ∙ send_each-send_all members_online text c.world j in
    (posted, written_behind read_into decode nobody header (c.world j) _ _ posted h b)
