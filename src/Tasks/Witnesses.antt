-- ===== src/Tasks/Witnesses.antt =====
-- The theorem on the tasks of the workers at a concrete input.
use tinychat_server.Base.{ℕ, All}
use tinychat_server.Database.Updates.{OnUpdates}
use tinychat_server.RequestHandler.Permits.{Permitted}
use tinychat_server.WsHandler.Permits.{Storable}
use tinychat_server.Text.{codes}
use tinychat_server.Database.Held.{IsBalanced}
use tinychat_server.Base.{some}
use tinychat_server.Json.{text, object, entry}
use tinychat_server.Database.Env.{Env}
use tinychat_server.Http.{post}
use tinychat_server.RequestHandler.Dispatch.{handle_request}
use tinychat_server.RequestHandler.Witnesses.{env, auth, files, request}
use tinychat_server.Tasks.{tasks-IsBalanced, tasks-Permitted}
use tinychat_server.SessionMgr.Members.{users_in_group, room_outcome}
use tinychat_server.Database.{Outcome}
use tinychat_server.WsHandler.{handle_message}
use tinychat_server.WsHandler.Witnesses.{nobody_waits, ann, message_entries}

-- One body that is a request for a private room and a private message: the room is created, and the
-- message stored and sent, on one database.
abbrev both : Env
both = record env {
  parse = λ s. some (object (entry (codes "other_id") (text (codes "8")) message_entries));
}

-- A room is written to as its members could be read.
abbrev as_read : ℕ → Outcome (Unit {0})
as_read room = room_outcome (users_in_group both.mysql room).0

tasks-IsBalanced_example :
    IsBalanced both.mysql (
      handle_request both auth files
        (codes "/srv")
        (request post (codes "/api/private_room") (codes "{}")))
    × IsBalanced both.mysql (handle_message both as_read ann (codes "{}"))
    × IsBalanced both.mysql (users_in_group both.mysql 5)
tasks-IsBalanced_example =
    tasks-IsBalanced both auth files (codes "/srv")
      (request post (codes "/api/private_room") (codes "{}")) as_read ann (codes "{}") both.mysql 5

tasks-Permitted_example :
    All
      (OnUpdates (Permitted both auth (request post (codes "/api/private_room") (codes "{}"))))
      (handle_request both auth files
        (codes "/srv")
        (request post (codes "/api/private_room") (codes "{}"))).1
    × All
        (OnUpdates (Storable both nobody_waits ann))
        (handle_message both nobody_waits ann (codes "{}")).1
tasks-Permitted_example =
    tasks-Permitted both auth files (codes "/srv")
      (request post (codes "/api/private_room") (codes "{}")) nobody_waits ann (codes "{}")
