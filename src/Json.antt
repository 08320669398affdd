-- ===== src/Json.antt =====
-- The JSON values of Boost.JSON that the program builds and takes apart: objects keep their entries
-- in order, and a number that is no unsigned integer keeps its text. Parsing and printing are
-- parameters of the modules that use them. What throws in the library returns `none` here.
use tinychat_server.Base.{ℕ, Bool, Option, none, some, if◌then◌else◌}
use tinychat_server.Text.{Text, text_eq}

mutual
  pub data Json : Type 0 where
    null : Json
    boolean : Bool → Json
    number : ℕ → Json
    other_number : Text → Json
    text : Text → Json
    array : Items → Json
    object : Entries → Json

  pub data Items : Type 0 where
    nil : Items
    cons : Json → Items → Items

  pub data Entries : Type 0 where
    end : Entries
    entry : Text → Json → Entries → Entries

-- `jv.as_object()`, `jv.is_object()`.
unfoldable pub as_object : Json → Option Entries
as_object (object es) = some es
as_object _ = none

-- `obj.at(key)`.
unfoldable pub at : Text → Entries → Option Json
at key end = none
at key (entry k v es) = if text_eq k key then some v else at key es

-- `value_to<std::string>(jv)`, and `jv.as_string()`.
unfoldable pub as_string : Json → Option Text
as_string (text s) = some s
as_string _ = none
