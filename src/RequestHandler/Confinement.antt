-- ===== src/RequestHandler/Confinement.antt =====
-- Which files `handle_assets` serves (src/core/request_handler.cpp).
use tinychat_server.Base.{
  ℕ, ◌≡◌, ◌≢◌, ap, true, false, Option, none, some, [], ◌∷◌, ◌++◌, arith, Option-cases, inl, inr,
}
use tinychat_server.Text.{Text, starts_with}
use tinychat_server.Json.{Json}
use tinychat_server.Database.{Outcome, returned, throws, waits, undefined}
use tinychat_server.Http.{get, Response, Body, string_body, file_body}
use tinychat_server.Http.Responses.{context_error_resp}
use tinychat_server.RequestHandler.Assets.{
  ReqContext, Files, opened, contains_dots, remove_prefix, handle_assets,
}

-- The path of the file that an answer carries.
abbrev pub file_of : Body → Option Text
file_of (string_body s) = none
file_of (file_body path size) = some path

abbrev pub served : Outcome Response → Option Text
served (returned r) = file_of r.body
served throws = none
served waits = none
served undefined = none

contains_dots-append : (a b : Text) → contains_dots (a ++ b'.' ∷ b'.' ∷ b) ≡ true
unfolding contains_dots starts_with
contains_dots-append [] b = ground arith
contains_dots-append (c ∷ a) b = ground (arith, contains_dots-append a b)

-- What is served lies behind the prefix: the path after it is not empty and has no two dots in a row.
pub record Serves (join : Text → Text → Text) (doc_root target path : Text) : Type 0 where
  pub asset_path : Text
  pub removed : remove_prefix 8 target ≡ some asset_path
  pub joined : path ≡ join doc_root asset_path
  pub named : asset_path ≢ []
  pub no_parent : (a b : Text) → asset_path ≢ a ++ b'.' ∷ b'.' ∷ b

module _ (serialize : Json → Text) (files : Files) (doc_root : Text) (ctx : ReqContext) where
  served_asset :
      (asset_path path : Text)
      → remove_prefix 8 ctx.target ≡ some asset_path
      → served (handle_assets serialize files doc_root ctx).0 ≡ some path
      → (ctx.method ≡ get)
        × (path ≡ files.join doc_root asset_path)
        × (asset_path ≢ [])
        × (contains_dots asset_path ≡ false)
  unfolding handle_assets context_error_resp
  served_asset asset_path path r h = ground (arith, r, h)

  no_asset :
      remove_prefix 8 ctx.target ≡ none
      → served (handle_assets serialize files doc_root ctx).0 ≡ none
  unfolding handle_assets context_error_resp
  no_asset r = ground (arith, r)

  -- A file is served only for a `GET`, and only the file that the document root and the rest of the
  -- target name together, where that rest is not empty and has no two dots in a row.
  pub handle_assets-Serves :
      (path : Text)
      → served (handle_assets serialize files doc_root ctx).0 ≡ some path
      → (ctx.method ≡ get) × Serves files.join doc_root ctx.target path
  handle_assets-Serves path h = elim (Option-cases (remove_prefix 8 ctx.target)) [
    | inl r ↦ absurd (ground (arith, no_asset r, h))
    | inr (asset_path, r) ↦
        let (m, p, n, d) = served_asset asset_path path r h in
        (
          m,
          record {
            asset_path = asset_path;
            removed = r;
            joined = p;
            named = n;
            no_parent =
                λ a b e. absurd (ground (arith, d, ap contains_dots e, contains_dots-append a b));
          },
        )
  ]

  -- A target with two slashes after `/assets` names a file by its absolute path: where joining with an
  -- absolute path gives that path, as `std::filesystem` does, any such file that can be opened and
  -- has no two dots in a row is served, whatever the document root is.
  pub absolute_path_served :
      (path : Text) (size : ℕ)
      → ((root p : Text) → files.join root (b'/' ∷ p) ≡ b'/' ∷ p)
      → ctx.method ≡ get
      → remove_prefix 8 ctx.target ≡ some (b'/' ∷ path)
      → contains_dots (b'/' ∷ path) ≡ false
      → files.open_file (b'/' ∷ path) ≡ opened size
      → served (handle_assets serialize files doc_root ctx).0 ≡ some (b'/' ∷ path)
  unfolding handle_assets
  absolute_path_served path size absolute m r d o = ground (arith, absolute doc_root path)
