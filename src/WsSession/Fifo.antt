-- ===== src/WsSession/Fifo.antt =====
-- The write queue of a WebSocket connection (src/core/websocket_session.cpp, `on_send` and
-- `on_write`).
use mathlib.Core.List.{append_assoc}
use tinychat_server.Base.{
  ◌≡◌, ◌≢◌, List-cases, ◌⊎◌, ap, inl, inr, true, false, Option, none, some, List, [], ◌∷◌, ◌++◌,
  arith, length-append,
}
use tinychat_server.Text.{Text}
use tinychat_server.Claims.{UserClaims, DecodedToken}
use tinychat_server.WsSession.{success, closed, failed, on_accept, on_read, send, on_send, on_write}
use tinychat_server.WsSession.World.{
  World, performs, upgraded, Step, accept_done, read_done, read_ended, sent, post_run, write_done,
  write_failed, Reach, here, next,
}

abbrev pub front : List Text → List Text
front [] = []
front (msg ∷ rest) = msg ∷ []

-- What has been accepted is what was written, in order, and then the queue; the front of the
-- queue is the one outstanding write, unless a write has failed and none is left.
pub record IsFifo (w : World) : Type 0 where
  pub in_order : w.accepted ≡ w.written ++ w.session.message_queue
  pub writing :
      ((w.broken ≡ false) × (w.writes ≡ front w.session.message_queue))
      ⊎ ((w.broken ≡ true) × (w.writes ≡ []) × (w.session.message_queue ≢ []))

upgraded-IsFifo :
    (decode : Text → Option DecodedToken) (nobody : UserClaims) (header : Option Text)
    → IsFifo (upgraded decode nobody header)
unfolding upgraded
upgraded-IsFifo decode nobody none = ground arith
upgraded-IsFifo decode nobody (some []) = ground arith
upgraded-IsFifo decode nobody (some (c ∷ token)) = ground arith

module _ (read_into : Text → Text → Text) (decode : Text → Option DecodedToken)
    (nobody : UserClaims) (header : Option Text) where
  pub Step-IsFifo : {w w' : World} → Step read_into decode nobody header w w' → IsFifo w → IsFifo w'
  unfolding performs on_accept on_read send on_send on_write
  Step-IsFifo {w} (accept_done n success e) h = ground arith
  Step-IsFifo {w} (accept_done n closed e) h = ground arith
  Step-IsFifo {w} (accept_done n failed e) h = ground arith
  Step-IsFifo {w} (read_done n frame e) h = ground arith
  Step-IsFifo {w} (read_ended n success e ne) h = ground arith
  Step-IsFifo {w} (read_ended n closed e ne) h = ground arith
  Step-IsFifo {w} (read_ended n failed e ne) h = ground arith
  Step-IsFifo {w} (sent msg) h = ground arith
  Step-IsFifo {w} (post_run msg rest k) h =
      let q : List Text = w.session.message_queue in
      elim (List-cases q) [
        | inl e ↦ ground (
          arith,
          e,
          ap (λ l. l ++ msg ∷ []) e,
          ap (λ l. l ++ msg ∷ []) h.in_order,
          append_assoc w.written q (msg ∷ []),
        )
        | inr (x, r, e) ↦ ground (
          arith,
          e,
          ap (λ l. l ++ msg ∷ []) e,
          length-append r (msg ∷ []),
          ap (λ l. l ++ msg ∷ []) h.in_order,
          append_assoc w.written q (msg ∷ []),
        )
      ]
  Step-IsFifo {w} (write_done msg rest k) h = elim (List-cases w.session.message_queue) [
    | inl e ↦ ground (arith, e)
    | inr (x, r, e) ↦ elim (List-cases r) [
      | inl last ↦ ground (arith, e, last, append_assoc w.written (msg ∷ []) r)
      | inr (y, s, more) ↦ ground (arith, e, more, append_assoc w.written (msg ∷ []) r)
    ]
  ]
  Step-IsFifo {w} (write_failed msg rest k) h = elim (List-cases w.session.message_queue) [
    | inl e ↦ ground (arith, e)
    | inr (x, r, e) ↦ ground (arith, e)
  ]

  stays :
      {w w' : World}
      → Step read_into decode nobody header w w'
      → IsFifo w
      → w.broken ≡ true
      → (w'.broken ≡ true) × (w'.written ≡ w.written) × (w'.writes ≡ [])
  unfolding performs on_accept on_read send on_send on_write
  stays {w} (accept_done n success e) h b = ground arith
  stays {w} (accept_done n closed e) h b = ground arith
  stays {w} (accept_done n failed e) h b = ground arith
  stays {w} (read_done n frame e) h b = ground arith
  stays {w} (read_ended n success e ne) h b = ground arith
  stays {w} (read_ended n closed e ne) h b = ground arith
  stays {w} (read_ended n failed e ne) h b = ground arith
  stays {w} (sent msg) h b = ground arith
  stays {w} (post_run msg rest e) h b = elim (List-cases w.session.message_queue) [
    | inl k ↦ ground (arith, k)
    | inr (x, r, k) ↦ ground (arith, k, ap (λ l. l ++ msg ∷ []) k, length-append r (msg ∷ []))
  ]
  stays {w} (write_done msg rest e) h b = ground arith
  stays {w} (write_failed msg rest e) h b = ground arith

  -- Whatever the interleaving, messages are written in the order in which `on_send` took them, none
  -- twice and none left out but those still queued; at most one write is outstanding; and it is
  -- there whenever the queue is not empty, unless a write has failed.
  pub Reach-IsFifo : {w : World} → Reach read_into decode nobody header w → IsFifo w
  Reach-IsFifo here = upgraded-IsFifo decode nobody header
  Reach-IsFifo (next r s) = Step-IsFifo s (Reach-IsFifo r)

  -- After a failed write the connection writes nothing more, though it goes on taking messages.
  pub broken_writes_nothing :
      {w w' : World}
      → Reach read_into decode nobody header w
      → w.broken ≡ true
      → Step read_into decode nobody header w w'
      → (w'.broken ≡ true) × (w'.written ≡ w.written) × (w'.writes ≡ [])
  broken_writes_nothing r b s = stays s (Reach-IsFifo r) b
