-- ===== src/WsSession/Witnesses.antt =====
-- The theorems on a WebSocket connection at a short run.
use tinychat_server.Base.{refl, true, false, Option, some, [], ◌∷◌, ◌++◌}
use tinychat_server.Text.{Text, codes}
use tinychat_server.Text.Decimal.{stoull}
use tinychat_server.Claims.{UserClaims, DecodedToken, extract_user_claims}
use tinychat_server.WsSession.{success, on_accept, on_read, send, on_send, on_write}
use tinychat_server.WsSession.World.{
  World, upgraded, performs, accept_done, read_done, sent, post_run, write_done, write_failed,
  Reach, here, next,
}
use tinychat_server.WsSession.Fifo.{IsFifo, Reach-IsFifo}

-- Every token is one of user 42, "bob".
abbrev decode : Text → Option DecodedToken
decode token =
    some
      (record { has_username = true; username = some (codes "bob"); subject = some (codes "42") })

abbrev bob : UserClaims
bob = record { id = 42; username = codes "bob" }

abbrev nobody : UserClaims
nobody = record { id = 0; username = [] }

abbrev header : Option Text
header = some (codes "token")

abbrev append : Text → Text → Text
append buffer frame = buffer ++ frame

-- Two messages have been read, one has been written, and a second one waits for its write.
abbrev busy : World
busy = record {
  session = record { buffer = codes "onetwo"; message_queue = codes "b" ∷ []; user_claims = bob };
  accepts = 0;
  reads = 1;
  posted = [];
  writes = codes "b" ∷ [];
  registered = 42 ∷ [];
  tasks = (codes "one", bob) ∷ (codes "onetwo", bob) ∷ [];
  frames = codes "one" ∷ codes "two" ∷ [];
  accepted = codes "a" ∷ codes "b" ∷ [];
  written = codes "a" ∷ [];
  broken = false;
}

reaches_busy : Reach append decode nobody header busy
unfolding upgraded extract_user_claims stoull performs on_accept on_read send on_send on_write
reaches_busy =
    let r1 = next here (accept_done 0 success refl) in
    let r2 = next (next r1 (read_done 0 (codes "one") refl)) (read_done 0 (codes "two") refl) in
    let r3 = next (next r2 (sent (codes "a"))) (sent (codes "b")) in
    let r4 =
      next (next r3 (post_run (codes "a") (codes "b" ∷ []) refl)) (post_run (codes "b") [] refl) in
    next r4 (write_done (codes "a") [] refl)

reaches_broken : Reach append decode nobody header (record busy { writes = []; broken = true })
unfolding on_write performs
reaches_broken = next reaches_busy (write_failed (codes "b") [] refl)

Reach-IsFifo_example : IsFifo busy
Reach-IsFifo_example = Reach-IsFifo append decode nobody header reaches_busy
