-- ===== src/WsHandler/Permits.antt =====
-- What a message of a client may change in the database (src/core/ws_handler.cpp).
use tinychat_server.Base.{ℕ, ◌≡◌, some, List, [], ◌∷◌, All}
use tinychat_server.Text.{Text}
use tinychat_server.Json.{Json, Entries}
use tinychat_server.Claims.{UserClaims}
use tinychat_server.Models.Requests.{ClientPrivateMsg, ClientGroupMsg}
use tinychat_server.Database.{M, Row, Outcome}
use tinychat_server.Database.Env.{Env}
use tinychat_server.Database.Only.{Only, Only-perform}
use tinychat_server.Database.Updates.{OnUpdates, update_rules}
use tinychat_server.Database.Statements.{
  Statement, select_membership, insert_message, update_last_message,
}
use tinychat_server.WsHandler.{
  store_message, private_as, private_message, group_as, group_message, dispatch, try_message,
  handle_message,
}

module _ (env : Env) (room_written : ℕ → Outcome (Unit {0})) (user_claims : UserClaims) where
  -- MySQL reports the sender as a member of the room.
  abbrev pub IsMember : ℕ → Type 0
  IsMember room =
      (row : Row) × (rest : List Row) × (env.mysql.rows (select_membership room user_claims.id)
        ≡ some (row ∷ rest))

  -- A message is stored in the sender's name, in a room of the sender.
  abbrev pub Storable : Statement → Type 0
  Storable (insert_message i room sender content) = (sender ≡ user_claims.id) × IsMember room
  Storable (update_last_message i room) = IsMember room
  Storable _ = ⊥

  abbrev Stores : {A : Type 0} → M A → Type 0
  Stores m = Only (OnUpdates Storable) m

  store_message-Stores :
      (room : ℕ) (content : Text)
      → IsMember room
      → Stores (store_message env room_written user_claims room content)
  unfolding store_message
  store_message-Stores room content belongs = search (update_rules, belongs) depth 30

  private_as-Stores :
      (m : ClientPrivateMsg) (rows : List Row)
      → env.mysql.rows (select_membership m.room_id user_claims.id) ≡ some rows
      → Stores (private_as env room_written user_claims m rows)
  unfolding private_as
  private_as-Stores m [] q = search (update_rules, Only-perform) depth 30
  private_as-Stores m (row ∷ rest) q =
      let belongs : IsMember m.room_id = (row, rest, q) in
      search (update_rules, Only-perform, store_message-Stores, belongs) depth 30

  private_message-Stores :
      (payload : Json) → Stores (private_message env room_written user_claims payload)
  unfolding private_message
  private_message-Stores payload = search (update_rules, private_as-Stores) depth 30

  group_as-Stores :
      (m : ClientGroupMsg) (rows : List Row)
      → env.mysql.rows (select_membership m.room_id user_claims.id) ≡ some rows
      → Stores (group_as env room_written user_claims m rows)
  unfolding group_as
  group_as-Stores m [] q = search (update_rules, Only-perform) depth 30
  group_as-Stores m (row ∷ rest) q =
      let belongs : IsMember m.room_id = (row, rest, q) in
      search (update_rules, store_message-Stores, belongs) depth 30

  group_message-Stores :
      (payload : Json) → Stores (group_message env room_written user_claims payload)
  unfolding group_message
  group_message-Stores payload = search (update_rules, group_as-Stores) depth 30

  dispatch-Stores :
      (type : Text) (obj : Entries) → Stores (dispatch env room_written user_claims type obj)
  unfolding dispatch
  dispatch-Stores type obj =
      search (update_rules, private_message-Stores, group_message-Stores) depth 30

  try_message-Stores : (msg : Text) → Stores (try_message env room_written user_claims msg)
  unfolding try_message
  try_message-Stores msg = search (update_rules, dispatch-Stores) depth 30

  handle_message-Stores : (msg : Text) → Stores (handle_message env room_written user_claims msg)
  unfolding handle_message
  handle_message-Stores msg = search (update_rules, try_message-Stores) depth 30

  pub handle_message-Storable :
      (msg : Text) → All (OnUpdates Storable) (handle_message env room_written user_claims msg).1
  handle_message-Storable msg = (handle_message-Stores msg).calls
