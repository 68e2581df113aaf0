-- ===== src/Response.antt =====
-- src/response.c and src/response.h: a response and its text.
pub mod Wire
use ntu_computer_network.Base.{
  ℕ, Option, none, some, List, [], ◌++◌, Bytes, codes, decimal, length, invalid_free, Exec, ok,
  fault, ◌>>=◌,
}
use ntu_computer_network.Headers
use ntu_computer_network.Headers.{Headers, buffer_limit, print_at}

-- The string that `body` points to: one that malloc has handed out, or a literal of the program.
pub data Body : Type 0 where
  allocated literal : Bytes → Body

-- `Response`, whose `body_stream` is what is left to read of the open file.
pub record Response : Type 0 where
  pub status : ℕ
  pub headers : Headers
  pub body : Option Body
  pub body_stream : Option Bytes

unfoldable pub create : Response
create = record { status = 200; headers = Headers.create; body = none; body_stream = none }

-- `response->body ? response->body : ""`
abbrev pub body_text : Option Body → Bytes
body_text none = []
body_text (some (allocated text)) = text
body_text (some (literal text)) = text

-- The text of the one `sprintf`, given that of the headers and the body.
abbrev pub response_text : ℕ → Bytes → Bytes → Bytes
response_text status headers body =
    codes "HTTP/1.1 "
    ++ (decimal status
        ++ (codes " OK\r\nContent-Length: "
            ++ (decimal (length body) ++ (codes "\r\n" ++ (headers ++ (codes "\r\n" ++ body))))))

unfoldable pub to_string : Response → Exec Bytes
to_string r = do
  headers ← Headers.to_string r.headers
  print_at buffer_limit 0 (response_text r.status headers (body_text r.body))

-- `free(response->body)` on the heap and elsewhere
abbrev pub free_body : Option Body → Exec (Unit {0})
free_body none = ok tt
free_body (some (allocated text)) = ok tt
free_body (some (literal text)) = fault invalid_free

-- The owners of strings that are freed with the headers.
unfoldable pub destroy : Response → Exec (List ℕ)
destroy r = do freed ← Headers.destroy r.headers; _ ← free_body r.body; ok freed
