-- ===== src/Request/RoundTrip.antt =====
-- `request_parse` on a request that a client writes by the book: it gets back every part of it.
use ntu_computer_network.Base.{
  ℕ, suc, ◌+◌, ◌≤◌, ◌≡◌, refl, sym, ap, ◌∙◌, ◌≢◌, some, List, [], ◌∷◌, ◌++◌, append-nil,
  append_assoc, arith, Bytes, length, All, length-append, ok, ◌>>=◌, lower,
}
use ntu_computer_network.Headers
use ntu_computer_network.Headers.{Headers}
use ntu_computer_network.Headers.Lookup.{pairs, pairs-append}
use ntu_computer_network.Headers.Ownership.{IsIntact, create-IsIntact, set-IsIntact}
use ntu_computer_network.Tokens.{Buffer}
use ntu_computer_network.Tokens.Words.{IsWord}
use ntu_computer_network.Request.{Request, Progress, crlf, request_parse}
use ntu_computer_network.Request.Line.{
  separators, request_line, line_buffer, parse_request_line-words,
}
use ntu_computer_network.Request.Fields.{field_line, IsField}
use ntu_computer_network.Request.Loop.{lines_before, set_fields, loop_fields, parse_body-text}

-- The lines of the header fields, each with its end.
unfoldable pub render_fields : List (Bytes × Bytes) → Bytes
render_fields [] = []
render_fields ((n, v) ∷ fs) = field_line n v ++ (crlf ++ render_fields fs)

-- A request as it goes over the wire.
unfoldable pub render : Bytes → Bytes → Bytes → List (Bytes × Bytes) → Bytes → Bytes
render method path version fields body =
    request_line method path version ++ (crlf ++ (render_fields fields ++ (crlf ++ body)))

-- The fields as the server stores them: names in lower case.
abbrev pub stored : List (Bytes × Bytes) → List (Bytes × Bytes)
stored [] = []
stored ((n, v) ∷ fs) = (lower n, v) ∷ stored fs

pairs-set_fields :
    (fs : List (Bytes × Bytes)) (hs : Headers)
    → pairs (set_fields hs fs).fields ≡ pairs hs.fields ++ stored fs
unfolding Headers.set
pairs-set_fields [] hs = sym (append-nil (pairs hs.fields))
pairs-set_fields ((n, v) ∷ fs) hs =
    pairs-set_fields fs (Headers.set hs (some n) (some v))
    ∙ ap (λ ps. ps ++ stored fs) (pairs-append hs.fields _)
    ∙ append_assoc (pairs hs.fields) ((lower n, v) ∷ []) (stored fs)

set_fields-IsIntact :
    (fs : List (Bytes × Bytes)) (hs : Headers) → IsIntact hs → IsIntact (set_fields hs fs)
set_fields-IsIntact [] hs h = h
set_fields-IsIntact ((n, v) ∷ fs) hs h = set_fields-IsIntact fs _ (set-IsIntact (some n) (some v) h)

render_fields-lines :
    (fs : List (Bytes × Bytes)) (rest : Buffer)
    → render_fields fs ++ (crlf ++ rest) ≡ lines_before fs rest
unfolding render_fields
render_fields-lines [] rest = refl
render_fields-lines ((n, v) ∷ fs) rest =
    simp append_assoc
      (ap (λ r. n ++ b':' ∷ b' ' ∷ (v ++ b'\r' ∷ b'\n' ∷ r)) (render_fields-lines fs rest))

render-buffer :
    (m p v : Bytes) (fs : List (Bytes × Bytes)) (body pad : Buffer)
    → render m p v fs body ++ 0 ∷ pad
      ≡ line_buffer m p v b' ' b' ' b'\r' (lines_before fs (body ++ 0 ∷ pad))
unfolding render
render-buffer m p v fs body pad =
    rw (← render_fields-lines fs (body ++ 0 ∷ pad)) (simp append_assoc)

length-lines_before :
    (fs : List (Bytes × Bytes)) (rest : Buffer) → length fs ≤ length (lines_before fs rest)
length-lines_before [] rest = omega arith
length-lines_before ((n, v) ∷ fs) rest = omega (
  arith,
  length-append n (b':' ∷ b' ' ∷ (v ++ b'\r' ∷ b'\n' ∷ lines_before fs rest)),
  length-append v (b'\r' ∷ b'\n' ∷ lines_before fs rest),
  length-lines_before fs rest,
)

-- The state before the first header line.
abbrev pub at_fields : Bytes → Bytes → Bytes → Buffer → Progress
at_fields m p v rest = record {
  buffer = line_buffer m p v 0 0 0 rest;
  offset = length (request_line m p v) + 2;
  headers = Headers.create;
}

abbrev pub line_part : Bytes → Bytes → Bytes → Buffer
line_part m p v = m ++ 0 ∷ (p ++ 0 ∷ (v ++ 0 ∷ b'\n' ∷ []))

pub length-line_part : (m p v : Bytes) → length (request_line m p v) + 2 ≡ length (line_part m p v)
length-line_part m p v = omega (
  arith,
  length-append m (b' ' ∷ (p ++ b' ' ∷ v)),
  length-append p (b' ' ∷ v),
  length-append m (0 ∷ (p ++ 0 ∷ (v ++ 0 ∷ b'\n' ∷ []))),
  length-append p (0 ∷ (v ++ 0 ∷ b'\n' ∷ [])),
  length-append v (0 ∷ b'\n' ∷ []),
)

length-line_buffer :
    (m p v : Bytes) (a b c : ℕ) (rest : Buffer)
    → length rest ≤ length (line_buffer m p v a b c rest)
length-line_buffer m p v a b c rest = omega (
  arith,
  length-append m (a ∷ (p ++ b ∷ (v ++ c ∷ b'\n' ∷ rest))),
  length-append p (b ∷ (v ++ c ∷ b'\n' ∷ rest)),
  length-append v (c ∷ b'\n' ∷ rest),
)

request_parse-lines :
    (m p v : Bytes) (f : Bytes × Bytes) (fs : List (Bytes × Bytes)) (body : Bytes) (pad : Buffer)
    → IsWord separators m
    → IsWord separators p
    → IsWord separators v
    → All IsField (f ∷ fs)
    → All (λ c. c ≢ 0) body
    → request_parse (line_buffer m p v b' ' b' ' b'\r' (lines_before (f ∷ fs) (body ++ 0 ∷ pad)))
      ≡ ok (record {
        method = m;
        path = p;
        headers = set_fields Headers.create (f ∷ fs);
        body = body;
      })
unfolding request_parse
request_parse-lines m p v (n, w) fs body pad wm wp wv good plain =
    let rest = body ++ 0 ∷ pad in
    let lines = lines_before ((n, w) ∷ fs) rest in
    let enough = length-line_buffer m p v b' ' b' ' b'\r' lines in
    let (pre, loop) =
      loop_fields fs n w (suc (length (line_buffer m p v b' ' b' ' b'\r' lines)))
        (at_fields m p v lines) (line_part m p v) rest good (simp append_assoc)
        (length-line_part m p v) (omega (arith, enough, length-lines_before ((n, w) ∷ fs) rest)) in
    rw (parse_request_line-words m p v wm wp wv lines, ◌>>=◌)
      (rw (loop, ◌>>=◌)
        (rw (
          parse_body-text
            (record {
              buffer = pre ++ rest;
              offset = length pre;
              headers = set_fields Headers.create ((n, w) ∷ fs);
            })
            pre body pad refl refl plain)))

-- A request of three words, one or more fields whose names are words and whose values hold no line
-- end, and a body without NUL bytes is parsed back: method, path and body as they were sent, the
-- fields in their order with names in lower case, in headers that own their strings. What stands in
-- the buffer behind the NUL does not matter.
pub request_parse-render :
    (m p v : Bytes) (f : Bytes × Bytes) (fs : List (Bytes × Bytes)) (body : Bytes) (pad : Buffer)
    → IsWord separators m
    → IsWord separators p
    → IsWord separators v
    → All IsField (f ∷ fs)
    → All (λ c. c ≢ 0) body
    → (r : Request) × (request_parse (render m p v (f ∷ fs) body ++ 0 ∷ pad) ≡ ok r)
      × (r.method ≡ m)
      × (r.path ≡ p)
      × (pairs r.headers.fields ≡ stored (f ∷ fs))
      × (r.body ≡ body)
      × IsIntact r.headers
unfolding Headers.create
request_parse-render m p v (n, w) fs body pad wm wp wv good plain = (
  record { method = m; path = p; headers = set_fields Headers.create ((n, w) ∷ fs); body = body },
  ap request_parse (render-buffer m p v ((n, w) ∷ fs) body pad)
      ∙ request_parse-lines m p v (n, w) fs body pad wm wp wv good plain,
  refl,
  refl,
  pairs-set_fields ((n, w) ∷ fs) Headers.create,
  refl,
  set_fields-IsIntact ((n, w) ∷ fs) Headers.create create-IsIntact,
)
