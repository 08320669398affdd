-- ===== src/Exchange/Witnesses.antt =====
-- The theorem on a connection that the handlers serve, at a run of one request.
use tinychat_server.Base.{
  ◌≤◌, ◌≡◌, refl, Bool, true, false, List, [], ◌∷◌, ◌++◌, length, arith, All,
}
use tinychat_server.Text.{codes, lit, text_eq, starts_with}
use tinychat_server.Text.Decimal.{stoull}
use tinychat_server.Claims.{extract_user_claims}
use tinychat_server.Database.Env.{claims_of_token}
use tinychat_server.Exchange.{Answers, Matches, responses_match}
use tinychat_server.Http.{Request, Response}
use tinychat_server.Http.Responses.{bad_request, create_json_response}
use tinychat_server.HttpSession.{
  received, on_read, queue_write, queue_response_from_worker, on_write,
}
use tinychat_server.HttpSession.World.{
  World, opened, performs, read_done, task_done, post_run, write_done,
}
use tinychat_server.HttpSession.Closing.{earlier}
use tinychat_server.HttpSession.Pairing.{Paired, Served, start, more}
use tinychat_server.RequestHandler.Dispatch.{handle_request}
use tinychat_server.RequestHandler.Witnesses.{env, auth, files, home}

abbrev plain : Request → Bool
plain q = false

abbrev not_found : Response
not_found = bad_request env.serialize home (lit " Not Found")

-- The queue limit is that of doc/config.ini.
abbrev served : World Request Response
served = record {
  session = record { response_queue = []; inflight_requests = 0 };
  reads = 0;
  tasks = [];
  posted = [];
  writes = [];
  reads_started = 1;
  written = not_found ∷ [];
  upgraded = [];
  ended = false;
}

served_once :
    Served 35 plain (λ r. r.keep_alive) (Answers auth files (codes "/srv")) served (home ∷ [])
unfolding opened performs on_read queue_write queue_response_from_worker on_write bad_request
    create_json_response
served_once =
    more
      (more
        (more (more start (read_done 0 (received home) refl) tt)
          (task_done [] [] home not_found refl)
          (
            env,
            unfold handle_request claims_of_token extract_user_claims stoull lit text_eq
                  starts_with in
                refl,
          ))
        (post_run not_found [] refl) tt)
      (write_done not_found [] refl) tt

responses_match_example :
    (waiting others : List Request) × (home ∷ [] ≡ waiting ++ others)
    × (length waiting ≤ 1)
    × Paired (Matches auth files (codes "/srv")) others served.written
    × All (λ req. req.keep_alive ≡ true) (earlier others)
responses_match_example =
    responses_match auth files (codes "/srv") 35 plain served_once (omega arith)
