-- ===== src/WsSession/Buffer.antt =====
-- What the handler is given of the messages of a client (src/core/websocket_session.cpp, `on_read`).
use mathlib.Core.List.{map-append}
use tinychat_server.Base.{
  ◌≡◌, refl, sym, ap, ◌∙◌, Option, none, some, List, [], ◌∷◌, ◌++◌, map, arith, Bool, true, false,
  length, ◌==◌, if◌then◌else◌,
}
use tinychat_server.Text.{Text}
use tinychat_server.Claims.{UserClaims, DecodedToken}
use tinychat_server.WsSession.{
  success, closed, failed, on_accept, on_read, send, on_send, on_write, write_front, pop,
}
use tinychat_server.WsSession.World.{
  World, performs, upgraded, Step, accept_done, read_done, read_ended, sent, post_run, write_done,
  write_failed, Reach, here, next,
}

-- All messages in one, behind `start`.
abbrev pub joined : Text → List Text → Text
joined start [] = start
joined start (f ∷ fs) = joined (start ++ f) fs

-- The first message, the first two in one, the first three in one, and so on.
abbrev pub growing : Text → List Text → List Text
growing start [] = []
growing start (f ∷ fs) = (start ++ f) ∷ growing (start ++ f) fs

joined-snoc :
    (start : Text) (fs : List Text) (f : Text) → joined start (fs ++ f ∷ []) ≡ joined start fs ++ f
joined-snoc start [] f = refl
joined-snoc start (g ∷ fs) f = joined-snoc (start ++ g) fs f

growing-snoc :
    (start : Text) (fs : List Text) (f : Text)
    → growing start (fs ++ f ∷ []) ≡ growing start fs ++ (joined start fs ++ f) ∷ []
growing-snoc start [] f = refl
growing-snoc start (g ∷ fs) f = ap (λ l. (start ++ g) ∷ l) (growing-snoc (start ++ g) fs f)

abbrev pub tagged : UserClaims → List Text → List (Text × UserClaims)
tagged claims = map (λ payload. (payload, claims))

pub record IsGrowing (w : World) : Type 0 where
  pub buffered : w.session.buffer ≡ joined [] w.frames
  pub handed : w.tasks ≡ tagged w.session.user_claims (growing [] w.frames)

upgraded-IsGrowing :
    (decode : Text → Option DecodedToken) (nobody : UserClaims) (header : Option Text)
    → IsGrowing (upgraded decode nobody header)
unfolding upgraded
upgraded-IsGrowing decode nobody none = ground arith
upgraded-IsGrowing decode nobody (some []) = ground arith
upgraded-IsGrowing decode nobody (some (c ∷ token)) = ground arith

module _ (read_into : Text → Text → Text) (decode : Text → Option DecodedToken)
    (nobody : UserClaims) (header : Option Text) where
  -- Starting writes leaves the buffer, the messages and the tasks alone.
  write_front-IsGrowing :
      (w : World) (q : List Text) → IsGrowing w → IsGrowing (performs w (write_front q))
  unfolding performs
  write_front-IsGrowing w [] h = h
  write_front-IsGrowing w (x ∷ q) h = record { buffered = h.buffered; handed = h.handed }

  write_if-IsGrowing :
      (w : World) (b : Bool) (q : List Text)
      → IsGrowing w
      → IsGrowing (performs w (if b then write_front q else []))
  unfolding performs
  write_if-IsGrowing w true q h = write_front-IsGrowing w q h
  write_if-IsGrowing w false q h = h

  Step-IsGrowing :
      {w w' : World}
      → Step read_into decode nobody header w w'
      → ((buffer frame : Text) → read_into buffer frame ≡ buffer ++ frame)
      → IsGrowing w
      → IsGrowing w'
  unfolding performs on_accept on_read send on_send on_write
  Step-IsGrowing {w} (accept_done n success e) appends h = ground arith
  Step-IsGrowing {w} (accept_done n closed e) appends h = ground arith
  Step-IsGrowing {w} (accept_done n failed e) appends h = ground arith
  Step-IsGrowing {w} (read_done n frame e) appends h =
      let claims : UserClaims = w.session.user_claims in
      let now : read_into w.session.buffer frame ≡ joined [] w.frames ++ frame =
        appends w.session.buffer frame ∙ ap (λ b. b ++ frame) h.buffered in
      record {
        buffered = now ∙ sym (joined-snoc [] w.frames frame);
        handed =
            rw (growing-snoc [] w.frames frame, now)
              (ap (λ l. l ++ (joined [] w.frames ++ frame, claims) ∷ []) h.handed
                ∙ sym (map-append _ (growing [] w.frames) _));
      }
  Step-IsGrowing {w} (read_ended n success e ne) appends h = absurd (ne refl)
  Step-IsGrowing {w} (read_ended n closed e ne) appends h = ground arith
  Step-IsGrowing {w} (read_ended n failed e ne) appends h = ground arith
  Step-IsGrowing {w} (sent msg) appends h = ground arith
  Step-IsGrowing {w} (post_run msg rest e) appends h =
      let q : List Text = w.session.message_queue ++ msg ∷ [] in
      write_if-IsGrowing _ (length q == 1) q (record { buffered = h.buffered; handed = h.handed })
  Step-IsGrowing {w} (write_done msg rest e) appends h =
      write_front-IsGrowing _ (pop w.session.message_queue)
        (record { buffered = h.buffered; handed = h.handed })
  Step-IsGrowing {w} (write_failed msg rest e) appends h = ground arith

  -- The buffer is never cleared: the n-th task gets the first n messages run together, with the
  -- claims of the connection's user. Here `read_into` appends to the buffer, as Beast's reads do.
  pub Reach-IsGrowing :
      {w : World}
      → Reach read_into decode nobody header w
      → ((buffer frame : Text) → read_into buffer frame ≡ buffer ++ frame)
      → IsGrowing w
  Reach-IsGrowing here appends = upgraded-IsGrowing decode nobody header
  Reach-IsGrowing (next r s) appends = Step-IsGrowing s appends (Reach-IsGrowing r appends)
