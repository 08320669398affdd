-- ===== src/RequestHandler/Mime.antt =====
-- `mime_type` (src/core/request_handler.cpp).
use tinychat_server.Base.{
  ℕ, ◌+◌, ◌≡◌, refl, ◌∙◌, ap, Bool, false, ◌&&◌, List, [], ◌∷◌, ◌++◌, map, arith, leb, ◌==◌,
  if◌then◌else◌, String, All,
}
use tinychat_server.Text.{Text, codes, text_eq}

-- `path.substr(path.rfind("."))`, or nothing where there is no dot.
unfoldable pub extension : Text → Text
extension [] = []
extension (c ∷ s) = elim (extension s) [ [] ↦ if c == b'.' then c ∷ s else [] | d ∷ r ↦ d ∷ r ]

-- `tolower` of the C locale, by which `iequals` compares.
abbrev pub lower : ℕ → ℕ
lower c = if leb b'A' c && leb c b'Z' then c + 32 else c

abbrev pub iequals : Text → Text → Bool
iequals s t = text_eq (map lower s) (map lower t)

-- The first entry of a table whose extension fits.
unfoldable pub find_type : Text → List (String × String) → Text
find_type ext [] = codes "application/octet-stream"
find_type ext ((e, type) ∷ rest) = if iequals ext (codes e) then codes type else find_type ext rest

abbrev pub mime_types : List (String × String)
mime_types =
    (".htm", "text/html")
    ∷ (".html", "text/html")
    ∷ (".php", "text/html")
    ∷ (".css", "text/css")
    ∷ (".txt", "text/plain")
    ∷ (".js", "application/javascript")
    ∷ (".json", "application/json")
    ∷ (".xml", "application/xml")
    ∷ (".swf", "application/x-shockwave-flash")
    ∷ (".flv", "video/x-flv")
    ∷ (".png", "image/png")
    ∷ (".jpe", "image/jpeg")
    ∷ (".jpeg", "image/jpeg")
    ∷ (".jpg", "image/jpeg")
    ∷ (".gif", "image/gif")
    ∷ (".bmp", "image/bmp")
    ∷ (".ico", "image/vnd.microsoft.icon")
    ∷ (".tiff", "image/tiff")
    ∷ (".tif", "image/tiff")
    ∷ (".svg", "image/svg+xml")
    ∷ (".svgz", "image/svg+xml")
    ∷ []

unfoldable pub mime_type : Text → Text
unfolding extension find_type
mime_type path = find_type (extension path) mime_types

lower-lower : (c : ℕ) → lower (lower c) ≡ lower c
lower-lower c = ground arith

map-lower-lower : (s : Text) → map lower (map lower s) ≡ map lower s
map-lower-lower [] = refl
map-lower-lower (c ∷ s) = λ i. lower-lower c i ∷ map-lower-lower s i

extension-lower : (s : Text) → extension (map lower s) ≡ map lower (extension s)
unfolding extension
extension-lower [] = refl
extension-lower (c ∷ s) = ground (arith, extension-lower s)

find_type-lower :
    (ext : Text) (table : List (String × String))
    → find_type (map lower ext) table ≡ find_type ext table
unfolding find_type
find_type-lower ext [] = refl
find_type-lower ext ((e, type) ∷ rest) =
    rw (map-lower-lower ext) (rw (find_type-lower ext rest) refl)

abbrev pub NoDot : Text → Type 0
NoDot = All (λ c. (c == b'.') ≡ false)

extension-NoDot : (s : Text) → NoDot s → extension s ≡ []
unfolding extension
extension-NoDot [] h = refl
extension-NoDot (c ∷ s) h = rw (extension-NoDot s h.1) (rw h.0 refl)

extension-append : (stem ext : Text) → NoDot ext → extension (stem ++ b'.' ∷ ext) ≡ b'.' ∷ ext
unfolding extension
extension-append [] ext h = rw (extension-NoDot ext h) refl
extension-append (c ∷ stem) ext h = rw (extension-append stem ext h) refl

-- The type of a file depends only on what follows its last dot, and not on the case of its letters.
pub mime_type_lem :
    (stem stem' ext : Text)
    → NoDot ext
    → (mime_type (stem ++ b'.' ∷ ext) ≡ mime_type (stem' ++ b'.' ∷ ext))
      × (mime_type (map lower (stem ++ b'.' ∷ ext)) ≡ mime_type (stem ++ b'.' ∷ ext))
unfolding mime_type
mime_type_lem stem stem' ext h = (
  rw (extension-append stem ext h, extension-append stem' ext h) refl,
  ap (λ e. find_type e mime_types) (extension-lower (stem ++ b'.' ∷ ext))
      ∙ find_type-lower (extension (stem ++ b'.' ∷ ext)) mime_types,
)
