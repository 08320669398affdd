-- ===== src/Http.antt =====
-- Requests and responses as src/core/request_handler.hpp and request_handler.cpp use them. A request
-- has the fields that the handlers ask for; what every response of a helper has alike (the field
-- `server`, and the length that `prepare_payload` sets) is left out.
pub mod Responses
use tinychat_server.Base.{ℕ, Bool, Option, none, some, []}
use tinychat_server.Text.{Text}

-- The methods that the handlers tell apart.
pub data Verb : Type 0 where
  get post delete other : Verb

pub record Request : Type 0 where
  pub version : ℕ
  pub keep_alive : Bool
  pub method : Verb
  pub target : Text
  pub authorization : Option Text  -- the field, if it is there
  pub body : Text

-- `req[http::field::authorization]` is empty where the field is not there.
abbrev pub authorization_text : Request → Text
authorization_text req = elim req.authorization [ none ↦ [] | some value ↦ value ]

pub data Status : Type 0 where
  ok bad_request unauthorized forbidden not_found internal_server_error : Status

-- A body is a text, or an open file with its path and size.
pub data Body : Type 0 where
  string_body : Text → Body
  file_body : Text → ℕ → Body

pub record Response : Type 0 where
  pub status : Status
  pub version : ℕ
  pub keep_alive : Bool
  pub content_type : Text
  pub body : Body
