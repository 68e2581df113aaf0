-- ===== src/Response/Wire.antt =====
-- The text of a response: what `response_to_string` prints, and that it reads back.
use ntu_computer_network.Base.{
  length-decimal, ℕ, ◌+◌, ◌*◌, ◌≤◌, ◌<◌, ◌≡◌, refl, ap, ◌∙◌, ◌≢◌, List, [], ◌∷◌, ◌++◌, append_assoc,
  arith, lt→ltb, Bytes, codes, length, All, All-imp, length-append, ok, ◌>>=◌, contains, IsDigit,
  decimal-IsDigit, decimal, decimal_pos,
}
use ntu_computer_network.Headers.{
  Header, Headers, header_line, print_from, print_at, buffer_limit, to_string,
}
use ntu_computer_network.Headers.Lookup.{pairs}
use ntu_computer_network.Headers.Ownership.{IsIntact}
use ntu_computer_network.Tokens.{Buffer}
use ntu_computer_network.Tokens.Laws.{IsPlain}
use ntu_computer_network.Tokens.Words.{IsWord}
use ntu_computer_network.Request.{Request, crlf, request_parse}
use ntu_computer_network.Request.Line.{separators}
use ntu_computer_network.Request.Fields.{field_line, IsField}
use ntu_computer_network.Request.RoundTrip.{render, render_fields, stored, request_parse-render}
use ntu_computer_network.Response
use ntu_computer_network.Response.{Response, body_text, response_text}

-- A response in the form of a request with the words of its status line, its length as the first
-- field, then the fields that the handlers have set.
unfoldable pub wire_fields : Response → List (Bytes × Bytes)
wire_fields r =
    (codes "Content-Length", decimal (length (body_text r.body))) ∷ pairs r.headers.fields

unfoldable pub wire : Response → Bytes
unfolding wire_fields
wire r =
    render (codes "HTTP/1.1") (decimal r.status) (codes "OK") (wire_fields r) (body_text r.body)

header_line-append :
    (h : Header) (rest : Bytes)
    → header_line h ++ rest ≡ field_line h.name h.value ++ (crlf ++ rest)
header_line-append h rest = simp append_assoc

-- The loop of `headers_to_string`, when its buffer holds the text.
print_from-fields :
    (at : ℕ) (fs : List Header)
    → at + length (render_fields (pairs fs)) < 1024 * 1024
    → print_from [] at fs ≡ ok (render_fields (pairs fs))
unfolding print_from render_fields contains
print_from-fields at [] h = refl
print_from-fields at (f ∷ fs) h =
    let parts : length (header_line f ++ render_fields (pairs fs))
        ≡ length (field_line f.name f.value ++ (crlf ++ render_fields (pairs fs))) =
      ap length (header_line-append f (render_fields (pairs fs))) in
    let sum = length-append (header_line f) (render_fields (pairs fs)) in
    rw
      (
        lt→ltb (at + length (header_line f)) (1024 * 1024) (omega arith),
        print_from-fields (at + length (header_line f)) fs (omega arith),
      )
      (ap ok (header_line-append f (render_fields (pairs fs))))

pub to_string-fields :
    {hs : Headers}
    → IsIntact hs
    → length (render_fields (pairs hs.fields)) < 1024 * 1024
    → to_string hs ≡ ok (render_fields (pairs hs.fields))
unfolding to_string
to_string-fields {hs} v h = rw v.unfreed (print_from-fields 0 hs.fields (omega arith))

response_text-wire :
    (r : Response)
    → response_text r.status (render_fields (pairs r.headers.fields)) (body_text r.body) ≡ wire r
unfolding wire render render_fields wire_fields
response_text-wire r = simp append_assoc

pub length-fields :
    (r : Response) → length (render_fields (pairs r.headers.fields)) ≤ length (wire r)
length-fields r =
    let fields = render_fields (pairs r.headers.fields) in
    let body = body_text r.body in
    let behind = codes "\r\n" ++ (fields ++ (codes "\r\n" ++ body)) in
    let size = decimal (length body) ++ behind in
    let whole = ap length (response_text-wire r) in
    omega (
      arith,
      whole,
      length-append (decimal r.status) (codes " OK\r\nContent-Length: " ++ size),
      length-append (decimal (length body)) behind,
      length-append fields (codes "\r\n" ++ body),
    )

-- How long the text of a response is, at most.
pub length-wire :
    (r : Response)
    → length (wire r)
      ≤ 80 + length (render_fields (pairs r.headers.fields)) + length (body_text r.body)
length-wire r =
    let fields = render_fields (pairs r.headers.fields) in
    let body = body_text r.body in
    let behind = codes "\r\n" ++ (fields ++ (codes "\r\n" ++ body)) in
    let size = decimal (length body) ++ behind in
    omega (
      arith,
      ap length (response_text-wire r),
      length-append (decimal r.status) (codes " OK\r\nContent-Length: " ++ size),
      length-append (decimal (length body)) behind,
      length-append fields (codes "\r\n" ++ body),
      length-decimal r.status,
      length-decimal (length body),
    )

printed : (text : Bytes) → length text < 1024 * 1024 → print_at buffer_limit 0 text ≡ ok text
printed text h = rw (lt→ltb (0 + length text) (1024 * 1024) (omega arith))

-- `response_to_string` prints a status line, the length of the body, the fields in their order, an
-- empty line and the body, when the headers are intact and the text is shorter than its buffer.
pub to_string-wire :
    (r : Response)
    → IsIntact r.headers
    → length (wire r) < 1024 * 1024
    → Response.to_string r ≡ ok (wire r)
unfolding Response.to_string
to_string-wire r v h =
    let text = ap length (response_text-wire r) in
    rw (to_string-fields v (omega (arith, length-fields r)), ◌>>=◌)
      (printed _ (omega arith) ∙ ap ok (response_text-wire r))

IsDigit-IsPlain : (c : ℕ) → IsDigit c → IsPlain separators c
unfolding contains
IsDigit-IsPlain c d = ground arith

decimal-IsPlain : (n : ℕ) → All (IsPlain separators) (decimal n)
decimal-IsPlain n = All-imp IsDigit-IsPlain (decimal n) (decimal-IsDigit n)

digits-IsWord :
    (text : Bytes) → 0 < length text → All (IsPlain separators) text → IsWord separators text
digits-IsWord [] h a = elim h [ ]
digits-IsWord (c ∷ cs) h a = a

separators-crlf : (c : ℕ) → IsPlain separators c → IsPlain crlf c
unfolding contains
separators-crlf c h = ground arith

-- The text of a response, read by the rules of `request_parse`, gives back the status, the length
-- of the body and the fields with names in lower case, and the body, when the headers are intact,
-- the names of the fields are words, their values hold no line end, the body holds no NUL, and the
-- text is shorter than its buffer.
pub to_string-parse :
    (r : Response) (pad : Buffer)
    → IsIntact r.headers
    → All IsField (pairs r.headers.fields)
    → All (λ c. c ≢ 0) (body_text r.body)
    → length (wire r) < 1024 * 1024
    → (text : Bytes) × (back : Request) × (Response.to_string r ≡ ok text)
      × (request_parse (text ++ 0 ∷ pad) ≡ ok back)
      × (back.path ≡ decimal r.status)
      × (pairs back.headers.fields ≡ stored (wire_fields r))
      × (back.body ≡ body_text r.body)
unfolding wire wire_fields contains
to_string-parse r pad v good plain h =
    let status =
      digits-IsWord (decimal r.status) (decimal_pos r.status) (decimal-IsPlain r.status) in
    let number = decimal (length (body_text r.body)) in
    let (back, run, method, path, fields, body, intact) =
      request_parse-render (codes "HTTP/1.1") (decimal r.status) (codes "OK")
        (codes "Content-Length", number) (pairs r.headers.fields) (body_text r.body) pad
        (ground arith) status (ground arith)
        (
          (
            ground arith,
            All-imp separators-crlf number (decimal-IsPlain (length (body_text r.body))),
          ),
          good,
        )
        plain in
    (wire r, back, to_string-wire r v h, run, path, fields, body)
