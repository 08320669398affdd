-- ===== src/RequestHandler/Assets.antt =====
-- `handle_assets` (src/core/request_handler.cpp). The file system is a parameter.
use tinychat_server.Base.{
  ℕ, zero, suc, Bool, true, false, ◌||◌, Option, none, some, [], ◌∷◌, ◌++◌, if◌then◌else◌,
}
use tinychat_server.Text.{Text, lit, is_empty, starts_with}
use tinychat_server.Json.{Json}
use tinychat_server.Claims.{UserClaims}
use tinychat_server.Database.{returned, throws, undefined, M, finish, try_catch}
use tinychat_server.Http.{Verb, get, Response, Status, file_body}
use tinychat_server.Http.Responses.{context_error_resp}
use tinychat_server.Models.Answers.{StatusCode}
use tinychat_server.RequestHandler.Mime.{mime_type}

pub record ReqContext : Type 0 where
  pub version : ℕ
  pub keep_alive : Bool
  pub method : Verb
  pub target : Text
  pub jv_opt : Option Json
  pub user_claims_opt : Option UserClaims

pub data OpenResult : Type 0 where
  opened : ℕ → OpenResult  -- with the file's size
  no_such_file failed : OpenResult

-- `/` of `std::filesystem::path`, and `open` of a file body.
pub record Files : Type 0 where
  pub join : Text → Text → Text
  pub open_file : Text → OpenResult

abbrev pub is_get : Verb → Bool
is_get get = true
is_get _ = false

-- `s.find("..") != npos`.
unfoldable pub contains_dots : Text → Bool
contains_dots [] = false
contains_dots (c ∷ s) = let rest = contains_dots s in starts_with (c ∷ s) (b'.' ∷ b'.' ∷ []) || rest

-- `s.remove_prefix(n)`, which is undefined where `s` is shorter.
abbrev pub remove_prefix : ℕ → Text → Option Text
remove_prefix zero s = some s
remove_prefix (suc n) [] = none
remove_prefix (suc n) (c ∷ s) = remove_prefix n s

module _ (serialize : Json → Text) (files : Files) (doc_root : Text) where
  unfoldable pub opened_response : ReqContext → Text → OpenResult → M Response
  unfolding context_error_resp
  opened_response ctx asset_path no_such_file = finish (
      returned (
        context_error_resp serialize ctx.version ctx.keep_alive StatusCode.not_found
          (lit " Asset not found")))
  opened_response ctx asset_path failed = finish throws
  opened_response ctx asset_path (opened size) = finish (
      returned (record {
        status = Status.ok;
        version = ctx.version;
        keep_alive = ctx.keep_alive;
        content_type = mime_type (doc_root ++ asset_path);
        body = file_body (files.join doc_root asset_path) size;
      }))

  unfoldable pub asset_response : ReqContext → Option Text → M Response
  unfolding context_error_resp opened_response
  asset_response ctx none = finish undefined
  asset_response ctx (some asset_path) =
      if is_empty asset_path || contains_dots asset_path
      then finish (
          returned (
            context_error_resp serialize ctx.version ctx.keep_alive StatusCode.bad_request
              (lit " Invalid asset path")))
      else opened_response ctx asset_path (files.open_file (files.join doc_root asset_path))

  unfoldable pub handle_assets : ReqContext → M Response
  unfolding context_error_resp asset_response
  handle_assets ctx =
      try_catch
        (if is_get ctx.method
          then asset_response ctx (remove_prefix 8 ctx.target)
          else finish (
              returned (
                context_error_resp serialize ctx.version ctx.keep_alive StatusCode.bad_request
                  (lit " Method Not Allowed"))))
        (finish (
          returned (
            context_error_resp serialize ctx.version ctx.keep_alive StatusCode.internal_server_error
              (lit " Server Error"))))
