-- ===== src/WsHandler/Held.antt =====
-- How a message uses a connection to the database (src/core/ws_handler.cpp).
use tinychat_server.Base.{ℕ, List, [], ◌∷◌}
use tinychat_server.Text.{Text}
use tinychat_server.Json.{Entries}
use tinychat_server.Claims.{UserClaims}
use tinychat_server.Models.Requests.{ClientPrivateMsg, ClientGroupMsg}
use tinychat_server.Database.{Row, Outcome}
use tinychat_server.Database.Only.{Only, Within, within_rules}
use tinychat_server.Database.Held.{Held, held_rules}
use tinychat_server.Database.Env.{Env}
use tinychat_server.WsHandler.{
  handle_message, try_message, dispatch, private_message, private_as, group_message, group_as,
  store_message,
}

module _ (env : Env) (room_written : ℕ → Outcome (Unit {0})) (user_claims : UserClaims) where
  Within-private_as :
      (m : ClientPrivateMsg) (rows : List Row)
      → Only Within (private_as env room_written user_claims m rows)
  unfolding private_as store_message
  Within-private_as m [] = search within_rules depth 20
  Within-private_as m (row ∷ rest) = search within_rules depth 20

  Within-group_as :
      (m : ClientGroupMsg) (rows : List Row)
      → Only Within (group_as env room_written user_claims m rows)
  unfolding group_as store_message
  Within-group_as m [] = search within_rules depth 20
  Within-group_as m (row ∷ rest) = search within_rules depth 20

  Within-dispatch :
      (type : Text) (obj : Entries) → Only Within (dispatch env room_written user_claims type obj)
  unfolding dispatch private_message group_message
  Within-dispatch type obj = search (within_rules, Within-private_as, Within-group_as) depth 20

  pub Held-handle_message :
      (msg : Text) → Held env.mysql (handle_message env room_written user_claims msg)
  unfolding handle_message try_message
  Held-handle_message msg = search (held_rules, within_rules, Within-dispatch) depth 20
