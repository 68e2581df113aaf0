-- ===== src/Middleware/ServeStatic.antt =====
-- src/middlewares/serve-static.c, which `main` does not install.
pub mod Confined
use ntu_computer_network.Base.{
  ℕ, Bool, true, false, ◌||◌, Option, none, some, [], ◌∷◌, ◌++◌, Bytes, codes, ◌==◌, if◌then◌else◌,
  bytes_eq, null_pointer, ok, ◌>>=◌, or_fault,
}
use ntu_computer_network.Headers
use ntu_computer_network.Response.{literal, Response}
use ntu_computer_network.Middleware.{Handler, content_type}

-- `strstr(text, "..") != NULL`
unfoldable pub has_dots : Bytes → Bool
has_dots [] = false
has_dots (c ∷ []) = false
has_dots (c ∷ d ∷ cs) = if c == b'.' then (d == b'.' || has_dots (d ∷ cs)) else has_dots (d ∷ cs)

-- `strrchr(text, '.')`
unfoldable pub last_dot : Bytes → Option Bytes
last_dot [] = none
last_dot (c ∷ cs) = elim (last_dot cs) [
  | some ext ↦ some ext
  | none ↦ if c == b'.' then some (c ∷ cs) else none
]

abbrev pub media_type : Bytes → Bytes
media_type ext =
    if bytes_eq ext (codes ".html")
    then codes "text/html"
    else if bytes_eq ext (codes ".css")
    then codes "text/css"
    else if bytes_eq ext (codes ".js")
    then codes "application/javascript"
    else if bytes_eq ext (codes ".png")
    then codes "image/png"
    else if bytes_eq ext (codes ".jpg")
    then codes "image/jpeg"
    else if bytes_eq ext (codes ".ico")
    then codes "image/x-icon"
    else []

-- `path` behind its first test, and `full_path`
abbrev pub index_path : Bytes → Bytes
index_path path = if bytes_eq path (codes "/") then codes "/index.html" else path

abbrev pub full_path : Bytes → Bytes
full_path path = codes "public" ++ path

abbrev pub refuse : ℕ → Bytes → Response → Response
refuse status text response = record response { status = status; body = some (literal text) }

unfoldable pub static_handler : (Bytes → Option Bytes) → Handler
unfolding has_dots last_dot
static_handler fopen world request response =
    let path = index_path request.path in
    elim (has_dots (full_path path)) [
      | true ↦ ok (record {
        turn_over = true;
        world = world;
        response = refuse 403 (codes "403 Forbidden") response;
      })
      | false ↦ elim (fopen (full_path path)) [
        | none ↦ ok (record {
          turn_over = true;
          world = world;
          response = refuse 404 (codes "404 Not Found") response;
        })
        | some content ↦ or_fault (last_dot path) null_pointer >>= λ ext. ok (record {
          turn_over = true;
          world = world;
          response = record response {
            headers = Headers.set response.headers (some content_type) (some (media_type ext));
            body_stream = some content;
          };
        })
      ]
    ]
