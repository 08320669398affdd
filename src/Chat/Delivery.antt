-- ===== src/Chat/Delivery.antt =====
-- A private message reaches the connection of the other user (src/core/ws_handler.cpp,
-- ws_session_mgr.cpp and websocket_session.cpp).
use tinychat_server.Base.{
  ℕ, ◌≡◌, ◌≢◌, refl, sym, ◌∙◌, ap, Bool, false, Option, some, List, [], ◌∷◌, ◌++◌, ◌==◌,
  if◌then◌else◌, arith,
}
use tinychat_server.Text.{Text}
use tinychat_server.Claims.{UserClaims, DecodedToken}
use tinychat_server.Models.Requests.{ClientPrivateMsg}
use tinychat_server.Database.{
  Call, Outcome, connect, reconnect, commit, rollback, free_conn, next_id, set_auto_commit, update,
  query, write_to, write_to_room,
}
use tinychat_server.Database.Env.{Env}
use tinychat_server.SessionMgr.Map.{Distinct, online}
use tinychat_server.SessionMgr.Sends.{one_message, write_to_lem}
use tinychat_server.WsSession.World.{World}
use tinychat_server.WsSession.Fifo.{IsFifo}
use tinychat_server.WsSession.Drain.{Steps, drains}
use tinychat_server.WsSession.Writes.{WillWrite, writes_all}
use tinychat_server.WsHandler.{handle_message, private_text, sent_text}
use tinychat_server.WsHandler.Spec.{messages, private_calls}
use tinychat_server.Chat.{Chat, send_each, perform_call, perform_calls}

module _ (alive : ℕ → Bool) (members : ℕ → List ℕ) where
  -- Only the messages of a handler reach the registry.
  pub perform_calls-messages :
      (calls : List Call) (c : Chat)
      → perform_calls alive members calls c ≡ perform_calls alive members (messages calls) c
  unfolding perform_calls
  perform_calls-messages [] c = refl
  perform_calls-messages (write_to user msg ∷ calls) c = perform_calls-messages calls _
  perform_calls-messages (write_to_room room msg ∷ calls) c = perform_calls-messages calls _
  perform_calls-messages (connect ∷ calls) c = perform_calls-messages calls c
  perform_calls-messages (reconnect ∷ calls) c = perform_calls-messages calls c
  perform_calls-messages (commit ∷ calls) c = perform_calls-messages calls c
  perform_calls-messages (rollback ∷ calls) c = perform_calls-messages calls c
  perform_calls-messages (free_conn ∷ calls) c = perform_calls-messages calls c
  perform_calls-messages (next_id ∷ calls) c = perform_calls-messages calls c
  perform_calls-messages (set_auto_commit b ∷ calls) c = perform_calls-messages calls c
  perform_calls-messages (update st ∷ calls) c = perform_calls-messages calls c
  perform_calls-messages (query st ∷ calls) c = perform_calls-messages calls c

  -- A message to a user whose connection can be locked is posted to that connection alone.
  posted_to :
      (user session : ℕ) (msg : Text) (c : Chat)
      → Distinct c.sessions
      → online alive c.sessions user ≡ some session
      → (let c' = perform_call alive members (write_to user msg) c in
          ((j : ℕ)
            → c'.world j ≡ (
                if session == j
                then record (c.world j) { posted = (c.world j).posted ++ msg ∷ [] }
                else c.world j))
          × ((j : ℕ) → online alive c'.sessions j ≡ online alive c.sessions j)
          × Distinct c'.sessions)
  unfolding perform_call
  posted_to user session msg c d e =
      let (sent, same, found, d') = write_to_lem alive user msg c.sessions d in
      (λ j. ap (λ l. send_each l c.world j) (sent ∙ ap (λ o. one_message o msg) e), same, d')

other : (a b : ℕ) (x y : World) → a ≢ b → (if a == b then x else y) ≡ y
other a b x y h = ground arith

self : (a : ℕ) (x y : World) → (if a == a then x else y) ≡ x
self a x y = ground arith

-- Whatever is posted on a connection is written behind all that was sent before.
pub written_behind :
    (read_into : Text → Text → Text) (decode : Text → Option DecodedToken) (nobody : UserClaims)
    (header : Option Text) (w w' : World) (msgs : List Text)
    → w' ≡ record w { posted = w.posted ++ msgs }
    → IsFifo w
    → w.broken ≡ false
    → (x : World) × Steps read_into decode nobody header w' x
      × (x.written ≡ w.accepted ++ (w.posted ++ msgs))
written_behind read_into decode nobody header w w' msgs e h b =
    let sent : World = record w { posted = w.posted ++ msgs } in
    let (x, r, k, p, q) =
      drains read_into decode nobody header sent
        (record { in_order = h.in_order; writing = h.writing }) b in
    rw e (x, r, k)

-- Once the text is posted on the connection, it comes to be written there.
pub WillWrite-posted :
    (w w' : World) (msgs : List Text)
    → w' ≡ record w { posted = w.posted ++ msgs }
    → IsFifo w
    → w.broken ≡ false
    → WillWrite (w.accepted ++ (w.posted ++ msgs)) w'
WillWrite-posted w w' msgs e h b = rw e (
    writes_all (record w { posted = w.posted ++ msgs })
      (record { in_order = h.in_order; writing = h.writing }) b)

-- A private message that the handler sends on is posted on the connection of the other user, and the
-- receipt on that of the sender, each once and behind what was posted before, if both can be locked
-- and are two connections, and nothing is on any other connection. If no write on the two has failed,
-- and while none fails and nothing more is sent to them, both come to be written, behind what was
-- sent before, in whatever order the connection takes its steps. The registry has one entry for a
-- user at most, and the two connections are in order, as every reachable one is.
pub private_message_reaches :
    (env : Env) (room_written : ℕ → Outcome (Unit {0})) (user_claims : UserClaims) (msg : Text)
    (m : ClientPrivateMsg) (alive : ℕ → Bool) (members : ℕ → List ℕ) (c : Chat) (from to : ℕ)
    → messages (handle_message env room_written user_claims msg).1
      ≡ private_calls env room_written user_claims m
    → Distinct c.sessions
    → online alive c.sessions m.other_user_id ≡ some to
    → online alive c.sessions user_claims.id ≡ some from
    → from ≢ to
    → IsFifo (c.world to)
    → IsFifo (c.world from)
    → (c.world to).broken ≡ false
    → (c.world from).broken ≡ false
    → (let c' = perform_calls alive members (handle_message env room_written user_claims msg).1 c in
        let text = private_text env room_written user_claims m in
        let receipt = sent_text env room_written user_claims in
        (c'.world to ≡ record (c.world to) { posted = (c.world to).posted ++ text ∷ [] })
        × (c'.world from ≡ record (c.world from) { posted = (c.world from).posted ++ receipt ∷ [] })
        × ((j : ℕ) → j ≢ from → j ≢ to → c'.world j ≡ c.world j)
        × WillWrite ((c.world to).accepted ++ ((c.world to).posted ++ text ∷ [])) (c'.world to)
        × WillWrite
            ((c.world from).accepted ++ ((c.world from).posted ++ receipt ∷ []))
            (c'.world from))
unfolding perform_calls
private_message_reaches env room_written user_claims msg m alive members c from to q d e f ne ht hf
      bt bf =
    let text = private_text env room_written user_claims m in
    let receipt = sent_text env room_written user_claims in
    let (there, same, d') = posted_to alive members m.other_user_id to text c d e in
    let c1 : Chat = perform_call alive members (write_to m.other_user_id text) c in
    let (here, same', d'') =
      posted_to alive members user_claims.id from receipt c1 d' (same user_claims.id ∙ f) in
    let both =
      perform_calls-messages alive members (handle_message env room_written user_claims msg).1 c
      ∙ ap (λ l. perform_calls alive members l c) q in
    let world : (j : ℕ)
        → (perform_calls alive members (handle_message env room_written user_claims msg).1 c).world
            j
          ≡ (perform_call alive members (write_to user_claims.id receipt) c1).world j =
      λ j i. (both i).world j in
    let at_to = world to ∙ here to ∙ other from to _ _ ne ∙ there to ∙ self to _ _ in
    let at_from =
      world from
      ∙ here from
      ∙ self from _ _
      ∙ ap {A = World} {B = World} (λ w. record w { posted = w.posted ++ receipt ∷ [] })
          (there from ∙ other to from _ _ (λ k. ne (sym k))) in
    (
      at_to,
      at_from,
      λ j a b.
          world j
          ∙ here j
          ∙ other from j _ _ (λ k. a (sym k))
          ∙ there j
          ∙ other to j _ _ (λ k. b (sym k)),
      WillWrite-posted (c.world to) _ (text ∷ []) at_to ht bt,
      WillWrite-posted (c.world from) _ (receipt ∷ []) at_from hf bf,
    )
