-- ===== src/WsSession/Drain.antt =====
-- Every message that was sent gets written (src/core/websocket_session.cpp, `send`, `on_send` and
-- `on_write`).
use mathlib.Core.List.{append-nil, append_assoc}
use tinychat_server.Base.{
  ◌≡◌, refl, sym, ◌∙◌, ap, false, Option, List, [], ◌∷◌, ◌++◌, arith, List-cases,
}
use tinychat_server.Text.{Text}
use tinychat_server.Claims.{UserClaims, DecodedToken}
use tinychat_server.WsSession.{on_send, on_write}
use tinychat_server.WsSession.World.{World, take_effect, performs, Step, post_run, write_done}
use tinychat_server.WsSession.Fifo.{IsFifo, Step-IsFifo}

module _ (read_into : Text → Text → Text) (decode : Text → Option DecodedToken)
    (nobody : UserClaims) (header : Option Text) where
  pub data Steps (w : World) : World → Type 0 where
    done : Steps w w
    more : {w' w'' : World} → Steps w w' → Step read_into decode nobody header w' w'' → Steps w w''

  trans : {w w' w'' : World} → Steps w w' → Steps w' w'' → Steps w w''
  trans r done = r
  trans r (more t s) = more (trans r t) s

  -- What `on_send` leaves alone.
  post_run_fields :
      (w : World) (msg : Text) (ps : List Text)
      → (let w' =
            take_effect
              (record w { posted = ps; accepted = w.accepted ++ msg ∷ [] })
              (on_send w.session msg) in
          (w'.posted ≡ ps) × (w'.accepted ≡ w.accepted ++ msg ∷ []) × (w'.broken ≡ w.broken))
  unfolding performs on_send
  post_run_fields w msg ps = ground (arith, List-cases w.session.message_queue)

  -- The posts run, one after the other.
  posts_run :
      (ps : List Text) (w : World)
      → w.posted ≡ ps
      → IsFifo w
      → w.broken ≡ false
      → (w' : World) × Steps w w'
        × IsFifo w'
        × (w'.broken ≡ false)
        × (w'.posted ≡ [])
        × (w'.accepted ≡ w.accepted ++ ps)
  posts_run [] w e h b = (w, done, h, b, e, sym (append-nil w.accepted))
  posts_run (msg ∷ ps) w e h b =
      let step : Step read_into decode nobody header w _ = post_run msg ps e in
      let (p, a, k) = post_run_fields w msg ps in
      let (w', r, h', b', e', a') =
        posts_run ps _ p (Step-IsFifo read_into decode nobody header step h) (k ∙ b) in
      (
        w',
        trans (more done step) r,
        h',
        b',
        e',
        a' ∙ ap (λ l. l ++ ps) a ∙ append_assoc w.accepted (msg ∷ []) ps,
      )

  write_done_fields :
      (w : World) (msg : Text) (qs : List Text)
      → w.session.message_queue ≡ msg ∷ qs
      → (let w' =
            take_effect
              (record w { writes = []; written = w.written ++ msg ∷ [] })
              (on_write w.session false) in
          (w'.session.message_queue ≡ qs)
          × (w'.broken ≡ w.broken)
          × (w'.posted ≡ w.posted)
          × (w'.accepted ≡ w.accepted))
  unfolding performs on_write
  write_done_fields w msg [] e = ground (arith, e)
  write_done_fields w msg (q ∷ qs) e = ground (arith, e)

  -- The writes end, one after the other.
  writes_end :
      (qs : List Text) (w : World)
      → w.session.message_queue ≡ qs
      → IsFifo w
      → w.broken ≡ false
      → w.posted ≡ []
      → (w' : World) × Steps w w'
        × IsFifo w'
        × (w'.session.message_queue ≡ [])
        × (w'.posted ≡ [])
        × (w'.accepted ≡ w.accepted)
  writes_end [] w e h b p = (w, done, h, e, p, refl)
  writes_end (msg ∷ qs) w e h b p =
      let front : w.writes ≡ msg ∷ [] = ground arith in
      let step : Step read_into decode nobody header w _ = write_done msg [] front in
      let (q, k, p', a) = write_done_fields w msg qs e in
      let (w', r, h', q', p'', a') =
        writes_end qs _ q (Step-IsFifo read_into decode nobody header step h) (k ∙ b) (p' ∙ p) in
      (w', trans (more done step) r, h', q', p'', a' ∙ a)

  -- From any state of a connection on which no write has failed, posts that run and writes that
  -- succeed lead to one in which everything that was sent is written, in the order in which it was
  -- sent, behind what was written before.
  pub drains :
      (w : World)
      → IsFifo w
      → w.broken ≡ false
      → (w' : World) × Steps w w'
        × (w'.written ≡ w.accepted ++ w.posted)
        × (w'.posted ≡ [])
        × (w'.session.message_queue ≡ [])
  drains w h b =
      let (w', r, h', b', p', a') = posts_run w.posted w refl h b in
      let (w'', r', h'', q, p'', a'') = writes_end w'.session.message_queue w' refl h' b' p' in
      let all : w''.accepted ≡ w''.written =
        h''.in_order ∙ ap (λ l. w''.written ++ l) q ∙ append-nil w''.written in
      (w'', trans r r', sym all ∙ a'' ∙ a', p'', q)
