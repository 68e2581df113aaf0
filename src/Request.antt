-- ===== src/Request.antt =====
-- src/request.c and src/request.h: parsing a request out of the receive buffer, which `strtok` cuts
-- up in place.
pub mod Bounds
pub mod Overrun
pub mod Threads
pub mod Ends
pub mod Owned
pub mod Line
pub mod Fields
pub mod Loop
pub mod RoundTrip
pub mod Crashes
use ntu_computer_network.Base.{
  ℕ, zero, suc, ◌+◌, Bool, true, false, Option, none, some, List, [], ◌∷◌, ◌==◌, if◌then◌else◌,
  Bytes, codes, length, null_pointer, endless, Exec, ok, fault, ◌>>=◌, or_fault, fetch,
}
use ntu_computer_network.Headers
use ntu_computer_network.Headers.{Headers}
use ntu_computer_network.Tokens.{Buffer, Token, strtok, string_at}

pub record Request : Type 0 where
  pub method : Bytes
  pub path : Bytes
  pub headers : Headers
  pub body : Bytes

abbrev pub crlf : Bytes
crlf = codes "\r\n"

-- The string of a token that may be NULL.
abbrev pub optional_string : Buffer → Option ℕ → Exec (Option Bytes)
optional_string buffer none = ok none
optional_string buffer (some p) = string_at buffer p >>= λ s. ok (some s)

-- `strdup(token)` and `strlen(token)`: NULL is a fault.
abbrev pub needed_string : Buffer → Option ℕ → Exec Bytes
needed_string buffer token = or_fault token null_pointer >>= λ p. string_at buffer p

-- The request line: method, path, the buffer cut up, and the offset behind the line.
pub record RequestLine : Type 0 where
  pub method : Bytes
  pub path : Bytes
  pub buffer : Buffer
  pub offset : ℕ

unfoldable pub parse_request_line : Buffer → Exec RequestLine
parse_request_line buffer = do
  line ← strtok buffer 0 crlf
  start ← or_fault line.start null_pointer
  text ← string_at line.buffer start
  method ← strtok line.buffer start (codes " ")
  path ← strtok method.buffer method.save (codes " ")
  version ← strtok path.buffer path.save (codes " ")
  method_text ← needed_string version.buffer method.start
  path_text ← needed_string version.buffer path.start
  ok (record {
    method = method_text;
    path = path_text;
    buffer = version.buffer;
    offset = length text + 2;
  })

-- `value[0] == ' ' ? value + 1 : value`
abbrev pub skip_space : Bytes → Bytes
skip_space [] = []
skip_space (c ∷ cs) = if c == b' ' then cs else c ∷ cs

-- `strncmp(buffer + p, "\r\n", 2) == 0`
unfoldable pub starts_crlf : Buffer → ℕ → Exec Bool
starts_crlf buffer p = fetch buffer p >>= λ c.
    if c == b'\r' then (fetch buffer (p + 1) >>= λ d. ok (d == b'\n')) else ok false

-- What the header loop works on.
pub record Progress : Type 0 where
  pub buffer : Buffer
  pub offset : ℕ
  pub headers : Headers

-- The body of the loop, on a line that starts at `start`: the state behind it.
unfoldable pub parse_header : Progress → Token → ℕ → Exec Progress
parse_header s line start = do
  text ← string_at line.buffer start
  name ← strtok line.buffer start (codes ": ")
  value ← strtok name.buffer name.save []
  name_text ← optional_string value.buffer name.start
  value_text ← needed_string value.buffer value.start
  ok (record {
    buffer = value.buffer;
    offset = s.offset + length text + 2;
    headers = Headers.set s.headers name_text (some (skip_space value_text));
  })

-- The header loop on fuel. `strtok` returns no empty line, so `strlen(line) > 0` holds with it.
unfoldable pub parse_headers : ℕ → Progress → Exec Progress
unfolding parse_header starts_crlf
parse_headers zero s = fault endless
parse_headers (suc fuel) s = strtok s.buffer s.offset crlf >>= λ line. elim line.start [
  | none ↦ ok (record s { buffer = line.buffer })
  | some start ↦ parse_header s line start >>= λ s'. starts_crlf s'.buffer s'.offset >>= λ last.
      elim last [ true ↦ ok (record s' { offset = s'.offset + 2 }) | false ↦ parse_headers fuel s' ]
]

unfoldable pub parse_body : Progress → Exec Bytes
parse_body s = do
  body ← strtok s.buffer s.offset []
  text ← optional_string body.buffer body.start
  ok (Headers.or_empty text)

-- `request_parse`, with one round of the loop for each byte of the buffer and one more.
unfoldable pub request_parse : Buffer → Exec Request
unfolding parse_request_line parse_headers parse_body
request_parse buffer = do
  line ← parse_request_line buffer
  parsed ←
      parse_headers (suc (length buffer))
        (record { buffer = line.buffer; offset = line.offset; headers = Headers.create })
  body ← parse_body parsed
  ok (record { method = line.method; path = line.path; headers = parsed.headers; body = body })

-- `headers_destroy` in `request_destroy`: the strings of the headers are freed. The other frees are of
-- blocks that nothing else holds, and are not tracked.
unfoldable pub request_destroy : Request → Exec (List ℕ)
request_destroy r = Headers.destroy r.headers
