-- ===== src/Http/Responses.antt =====
-- The helpers of src/core/request_handler.hpp and request_handler.cpp that build a response.
-- `serialize` is `json::serialize`.
use tinychat_server.Base.{ℕ, Bool, ◌++◌}
use tinychat_server.Text.{Text, lit}
use tinychat_server.Json.{Json, null, number, text, object, end, entry}
use tinychat_server.Models.Answers.{StatusCode, status_code}
use tinychat_server.Http.{Request, Response, Status, string_body}

-- `{"code": ..., "message": "Bad Request" + msg, "data": null}`.
unfoldable pub error_json : StatusCode → Text → Json
error_json code msg = object (
    entry (lit "code") (number (status_code code))
      (entry (lit "message") (text (lit "Bad Request" ++ msg)) (entry (lit "data") null end)))

-- The status of `error_resp` of a request: there is no case for `NotFound`.
unfoldable pub error_status : StatusCode → Status
error_status StatusCode.bad_request = Status.bad_request
error_status StatusCode.internal_server_error = Status.internal_server_error
error_status StatusCode.forbidden = Status.forbidden
error_status _ = Status.internal_server_error

-- The status of `error_resp` of a request's context.
unfoldable pub context_error_status : StatusCode → Status
context_error_status StatusCode.bad_request = Status.bad_request
context_error_status StatusCode.internal_server_error = Status.internal_server_error
context_error_status StatusCode.forbidden = Status.forbidden
context_error_status StatusCode.not_found = Status.not_found
context_error_status _ = Status.internal_server_error

module _ (serialize : Json → Text) where
  -- Both overloads build this, from the version and the keep-alive flag of the request.
  unfoldable pub create_json_response : Status → ℕ → Bool → Json → Response
  create_json_response status version keep_alive jv = record {
    status = status;
    version = version;
    keep_alive = keep_alive;
    content_type = lit "application/json";
    body = string_body (serialize jv);
  }

  unfoldable pub bad_request : Request → Text → Response
  unfolding error_json create_json_response
  bad_request req msg =
      create_json_response Status.bad_request req.version req.keep_alive
        (error_json StatusCode.bad_request msg)

  unfoldable pub error_resp : Request → StatusCode → Text → Response
  unfolding error_status error_json create_json_response
  error_resp req code msg =
      create_json_response (error_status code) req.version req.keep_alive (error_json code msg)

  unfoldable pub context_error_resp : ℕ → Bool → StatusCode → Text → Response
  unfolding context_error_status error_json create_json_response
  context_error_resp version keep_alive code msg =
      create_json_response (context_error_status code) version keep_alive (error_json code msg)
