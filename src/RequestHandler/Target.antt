-- ===== src/RequestHandler/Target.antt =====
-- `extract_target_param` (src/core/request_handler.cpp): the segments of a target between slashes.
-- The positions of the source are what is left of the target from there on.
use tinychat_server.Base.{
  ℕ, zero, suc, ◌≡◌, refl, ◌∙◌, ap, false, List, [], ◌∷◌, ◌++◌, ◌==◌, get_or, if◌then◌else◌, All,
}
use tinychat_server.Text.{Text}

-- `target.find('/', start)`, and what is in front of it and behind it: to the end, if there is none.
unfoldable pub before_slash : Text → Text
before_slash [] = []
before_slash (c ∷ s) = let rest = c ∷ before_slash s in if c == b'/' then [] else rest

unfoldable pub from_slash : Text → Text
from_slash [] = []
from_slash (c ∷ s) = let rest = from_slash s in if c == b'/' then c ∷ s else rest

-- `if (target[start] == '/') ++start;`.
abbrev pub skip_slash : Text → Text
skip_slash [] = []
skip_slash (c ∷ s) = if c == b'/' then s else c ∷ s

-- The loop: `index` counts down to 0 as `current` counts up to it. The text is the target from
-- `end` on; where that is empty the loop returns an empty view.
unfoldable pub extract_target_param : Text → ℕ → Text
unfolding before_slash from_slash
extract_target_param [] index = []
extract_target_param (c ∷ s) zero = before_slash (skip_slash (c ∷ s))
extract_target_param (c ∷ s) (suc index) =
    extract_target_param (from_slash (skip_slash (c ∷ s))) index

-- A target of segments, a slash in front of each.
abbrev pub joined : List Text → Text
joined [] = []
joined (segment ∷ rest) = b'/' ∷ (segment ++ joined rest)

abbrev pub NoSlash : Text → Type 0
NoSlash = All (λ c. (c == b'/') ≡ false)

before_slash-joined :
    (segment : Text) (rest : List Text)
    → NoSlash segment
    → before_slash (segment ++ joined rest) ≡ segment
unfolding before_slash
before_slash-joined [] [] h = refl
before_slash-joined [] (r ∷ rest) h = refl
before_slash-joined (c ∷ s) rest h = rw h.0 (ap (λ t. c ∷ t) (before_slash-joined s rest h.1))

from_slash-joined :
    (segment : Text) (rest : List Text)
    → NoSlash segment
    → from_slash (segment ++ joined rest) ≡ joined rest
unfolding from_slash
from_slash-joined [] [] h = refl
from_slash-joined [] (r ∷ rest) h = refl
from_slash-joined (c ∷ s) rest h = rw h.0 (from_slash-joined s rest h.1)

-- The parameter of a target is its segment with that number, counted from 0, for every target of
-- segments with a slash in front of each and none inside, and it is empty from the number of
-- segments on.
pub extract_target_param-joined :
    (segments : List Text) (index : ℕ)
    → All NoSlash segments
    → extract_target_param (joined segments) index ≡ get_or segments index []
unfolding extract_target_param
extract_target_param-joined [] index h = refl
extract_target_param-joined (s ∷ rest) zero h = before_slash-joined s rest h.0
extract_target_param-joined (s ∷ rest) (suc index) h =
    ap (λ t. extract_target_param t index) (from_slash-joined s rest h.0)
    ∙ extract_target_param-joined rest index h.1
