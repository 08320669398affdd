-- ===== src/History/Witnesses.antt =====
-- The theorem on histories of updates at a group that is created and a user who is added to it.
use tinychat_server.Base.{◌==◌, refl, inl, inr, some, [], ◌∷◌, arith, if◌then◌else◌}
use tinychat_server.Base.Int.{pos}
use tinychat_server.Text.{codes, lit, text_eq, starts_with}
use tinychat_server.Text.Decimal.{stoull}
use tinychat_server.Json.{as_object, at, as_string}
use tinychat_server.Claims.{extract_user_claims}
use tinychat_server.Models.Requests.{create_g_room_req, g_room_invt_req, string_at, u64_at}
use tinychat_server.Database.{Row, execute_query, execute_update, begin_transaction, destroy}
use tinychat_server.Database.Env.{Env, claims_of_token, draw_id}
use tinychat_server.Database.Statements.{
  Statement, insert_group_room, invite_member, select_room_type,
}
use tinychat_server.Http.{post}
use tinychat_server.RequestHandler.Dispatch.{handle_request}
use tinychat_server.RequestHandler.Members.{handle_chat_room}
use tinychat_server.RequestHandler.Rooms.{create_g_room}
use tinychat_server.RequestHandler.Target.{extract_target_param}
use tinychat_server.RequestHandler.Witnesses.{env, auth, files, request}
use tinychat_server.Snowflake
use tinychat_server.History.{
  Reports, History, empty, by_request, AllJustified, History-AllJustified,
}

-- At first the database has no rows.
abbrev before : Env
before = record env { mysql = record env.mysql { rows = λ st. some [] } }

before-Reports : Reports before.mysql []
before-Reports = record {
  rooms = λ room t row rest q e. cc;
  roles = λ room user r row rest q e. cc;
  members = λ room user row rest q. cc;
}

abbrev created : Statement
created = insert_group_room 33558528 (codes "team") 1 7

abbrev group_row : Row
group_row = record {
  get_int = λ c. some (pos 1);
  get_uint64 = λ c. some 7;
  get_string = λ c. some [];
}

-- Then it has the group.
abbrev later : Env
later = record env {
  mysql = record env.mysql {
    rows = λ st. elim st [
      | select_room_type room ↦ if room == 33558528 then some (group_row ∷ []) else some []
      | _ ↦ some []
    ];
  };
}

later-Reports : Reports later.mysql (created ∷ [])
later-Reports = record {
  rooms = λ room t row rest q e. ground (arith, q, e);
  roles = λ room user r row rest q e. cc;
  members = λ room user row rest q. cc;
}

one_created : History (created ∷ [])
unfolding handle_request create_g_room text_eq lit starts_with execute_update begin_transaction
    draw_id Snowflake.next_id claims_of_token extract_user_claims stoull create_g_room_req string_at
    as_object at as_string destroy
one_created =
    by_request empty before auth files [] (request post (codes "/api/group_room") (codes "{}"))
      created before-Reports (inr (inr (inr (inl refl))))

one_added : History (invite_member 33558528 9 1 ∷ created ∷ [])
unfolding handle_request handle_chat_room text_eq lit starts_with execute_update execute_query
    claims_of_token extract_user_claims stoull g_room_invt_req u64_at string_at as_object at
    as_string destroy extract_target_param
one_added =
    by_request one_created later auth files []
      (request post (codes "/api/rooms/33558528/member") (codes "{}")) (invite_member 33558528 9 1)
      later-Reports (inr (inr (inl refl)))

History-AllJustified_example : AllJustified (invite_member 33558528 9 1 ∷ created ∷ [])
History-AllJustified_example = History-AllJustified one_added
