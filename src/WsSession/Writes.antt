-- ===== src/WsSession/Writes.antt =====
-- That a connection writes what it was sent, however its own steps are ordered
-- (src/core/websocket_session.cpp, `on_send` and `on_write`).
use mathlib.Core.List.{append-nil, append_assoc}
use tinychat_server.Base.{
  ℕ, zero, suc, ◌+◌, ◌*◌, ◌<◌, ◌≡◌, sym, ◌∙◌, ap, false, none, List, [], ◌∷◌, ◌++◌, arith,
  List-cases, length, length-append, inl, inr,
}
use mathlib.Core.Path.{subst}
use tinychat_server.Text.{Text}
use tinychat_server.WsSession.{on_send, on_write}
use tinychat_server.WsSession.World.{World, take_effect, performs, post_run, write_done}
use tinychat_server.WsSession.Fifo.{IsFifo, Step-IsFifo}

-- What the connection does by itself while no write fails: a call that was posted runs on its strand,
-- or the write that is outstanding ends. Nothing is sent to it, and nothing is read.
pub data Advance (w : World) : World → Type 0 where
  runs :
      (msg : Text) (rest : List Text)
      → w.posted ≡ msg ∷ rest
      → Advance w (
          take_effect
            (record w { posted = rest; accepted = w.accepted ++ msg ∷ [] })
            (on_send w.session msg))
  writes :
      (msg : Text) (rest : List Text)
      → w.writes ≡ msg ∷ rest
      → Advance w (
          take_effect
            (record w { writes = rest; written = w.written ++ msg ∷ [] })
            (on_write w.session false))

-- In whatever order the connection goes on, it comes to have written just these messages: it has, or
-- it can go on, and does so after whichever step it takes.
pub data WillWrite (all : List Text) : World → Type 0 where
  has : {w : World} → w.written ≡ all → WillWrite all w
  goes_on :
      {w : World} (w' : World)
      → Advance w w'
      → ((x : World) → Advance w x → WillWrite all x)
      → WillWrite all w

-- These are steps of the connection, so they keep what all of its steps keep.
Advance-IsFifo : {w w' : World} → Advance w w' → IsFifo w → IsFifo w'
Advance-IsFifo (runs msg rest e) =
    Step-IsFifo (λ b f. b ++ f) (λ t. none) (record { id = 0; username = [] }) none
      (post_run msg rest e)
Advance-IsFifo (writes msg rest e) =
    Step-IsFifo (λ b f. b ++ f) (λ t. none) (record { id = 0; username = [] }) none
      (write_done msg rest e)

-- The steps that are left.
abbrev pending : World → ℕ
pending w = 2 * length w.posted + length w.session.message_queue

Advance-pending :
    {w w' : World}
    → Advance w w'
    → IsFifo w
    → w.broken ≡ false
    → (pending w' < pending w)
      × (w'.broken ≡ false)
      × (w'.accepted ++ w'.posted ≡ w.accepted ++ w.posted)
unfolding performs on_send on_write
Advance-pending {w} (runs msg rest e) h b =
    let sizes = length-append w.session.message_queue (msg ∷ []) in
    let order = append_assoc w.accepted (msg ∷ []) rest in
    elim (List-cases w.session.message_queue) [
      | inl k ↦ ground (arith, e, k, sizes, order)
      | inr (x, r, k) ↦ ground (arith, e, k, sizes, order, length-append r (msg ∷ []))
    ]
Advance-pending {w} (writes msg rest e) h b = elim (List-cases w.session.message_queue) [
  | inl k ↦ absurd (ground (arith, k))
  | inr (x, r, k) ↦ elim (List-cases r) [
    | inl l ↦ ground (arith, k, l)
    | inr (y, t, l) ↦ ground (arith, k, l)
  ]
]

-- Where nothing is left to do, all that was taken is written.
nothing_left :
    (w : World)
    → IsFifo w
    → w.posted ≡ []
    → w.session.message_queue ≡ []
    → w.written ≡ w.accepted ++ w.posted
nothing_left w h p q =
    sym (append-nil w.written)
    ∙ ap (λ l. w.written ++ l) (sym q)
    ∙ sym h.in_order
    ∙ sym (append-nil w.accepted)
    ∙ ap (λ l. w.accepted ++ l) (sym p)

will_write :
    (fuel : ℕ) (w : World)
    → pending w < fuel
    → IsFifo w
    → w.broken ≡ false
    → WillWrite (w.accepted ++ w.posted) w
will_write zero w p h b = absurd (omega arith)
will_write (suc fuel) w p h b =
    let after : (x : World) → Advance w x → WillWrite (w.accepted ++ w.posted) x = λ x a.
      let (less, whole, same) = Advance-pending a h b in
      subst (λ all. WillWrite all x) same
        (will_write fuel x (omega (arith, less)) (Advance-IsFifo a h) whole) in
    elim (List-cases w.posted) [
      | inr (msg, rest, e) ↦ goes_on _ (runs msg rest e) after
      | inl e ↦ elim (List-cases w.session.message_queue) [
        | inr (msg, rest, k) ↦ goes_on _ (writes msg [] (ground (arith, k))) after
        | inl k ↦ has (nothing_left w h e k)
      ]
    ]

-- From any state of a connection on which no write has failed, while none fails and nothing more is
-- sent: what was sent comes to be written, in the order in which it was sent, behind what was
-- written before, in whatever order the posted calls and the writes take their turns.
pub writes_all : (w : World) → IsFifo w → w.broken ≡ false → WillWrite (w.accepted ++ w.posted) w
writes_all w h b = will_write (suc (pending w)) w (omega arith) h b
