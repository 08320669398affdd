-- ===== src/WsHandler/Escapes.antt =====
-- Which exceptions leave `handle_message` (src/core/ws_handler.cpp): the connection is taken and the
-- transaction begun in front of the `try`, and the rollback is in the handler behind it. Nothing on
-- the worker's thread catches them (src/pool/thread_pool.cpp).
use tinychat_server.Base.{ℕ, ◌≡◌, ◌↔◌, ◌⊎◌, false, arith}
use tinychat_server.Text.{Text}
use tinychat_server.Claims.{UserClaims}
use tinychat_server.Database.{
  M, Mysql, Outcome, returned, throws, ◌>>◌, try_catch, begin_transaction, roll_back, with_conn,
}
use tinychat_server.Database.Env.{Env}
use tinychat_server.WsHandler.{try_message, handle_message}

-- The statements around any block.
guarded_throws :
    (s : Mysql) (block : M (Unit {0}))
    → ((with_conn s (do begin_transaction s; try_catch block (roll_back s))).0 ≡ throws) ↔ (
        (s.connects ≡ throws)
        ⊎ ((s.connects ≡ returned tt)
            × ((s.begins ≡ false) ⊎ ((block.0 ≡ throws) × (s.rolls_back ≡ false)))))
unfolding begin_transaction roll_back
guarded_throws s block = (λ h. ground arith, λ h. ground arith)

-- An exception leaves the handler, and so ends the program, exactly if no connection can be had, or
-- the transaction cannot be begun, or the block of the `try` throws and the rollback throws, too: it
-- takes a failure of the database, whatever a client sends.
pub handle_message_throws :
    (env : Env) (room_written : ℕ → Outcome (Unit {0})) (user_claims : UserClaims) (msg : Text)
    → ((handle_message env room_written user_claims msg).0 ≡ throws) ↔ (
        (env.mysql.connects ≡ throws)
        ⊎ ((env.mysql.connects ≡ returned tt)
            × ((env.mysql.begins ≡ false)
                ⊎ (((try_message env room_written user_claims msg).0 ≡ throws)
                    × (env.mysql.rolls_back ≡ false)))))
unfolding handle_message
handle_message_throws env room_written user_claims msg =
    guarded_throws env.mysql (try_message env room_written user_claims msg)
