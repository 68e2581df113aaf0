-- ===== src/Request/Owned.antt =====
-- The headers of a request that was parsed, from whatever bytes, own their strings.
use mathlib.Core.Path.{subst}
use ntu_computer_network.Base.{
  [], ℕ, zero, suc, ◌≡◌, ap, inl, inr, some, Bool-cases, Option-cases, codes, length, Exec, ok,
  fault, >>=-eq-ok,
}
use ntu_computer_network.Headers.{Headers}
use ntu_computer_network.Headers.Ownership.{IsIntact, create-IsIntact, set-IsIntact}
use ntu_computer_network.Tokens.{Buffer, Token, strtok, string_at}
use ntu_computer_network.Request.{
  Request, Progress, crlf, skip_space, needed_string, optional_string, parse_header, parse_headers,
  parse_request_line, starts_crlf, parse_body, request_parse,
}

-- Two results that are equal have the same headers.
ok-IsIntact : (s s' : Progress) → IsIntact s.headers → ok s ≡ ok s' → IsIntact s'.headers
ok-IsIntact s s' v e = subst IsIntact (ap headers_of e) v
  where
    headers_of : Exec Progress → Headers
    headers_of (ok p) = p.headers
    headers_of (fault f) = s.headers

parse_header-IsIntact :
    (s s' : Progress) (line : Token) (start : ℕ)
    → IsIntact s.headers
    → parse_header s line start ≡ ok s'
    → IsIntact s'.headers
unfolding parse_header
parse_header-IsIntact s s' line start v e =
    let (text, e1, r1) = >>=-eq-ok (string_at line.buffer start) _ e in
    let (name, e2, r2) = >>=-eq-ok (strtok line.buffer start (codes ": ")) _ r1 in
    let (value, e3, r3) = >>=-eq-ok (strtok name.buffer name.save []) _ r2 in
    let (n, e4, r4) = >>=-eq-ok (optional_string value.buffer name.start) _ r3 in
    let (t, e5, r5) = >>=-eq-ok (needed_string value.buffer value.start) _ r4 in
    ok-IsIntact _ s' (set-IsIntact n (some (skip_space t)) v) r5

parse_headers-IsIntact :
    (fuel : ℕ) (s s' : Progress)
    → IsIntact s.headers
    → parse_headers fuel s ≡ ok s'
    → IsIntact s'.headers
unfolding parse_headers
parse_headers-IsIntact zero s s' v e = cc
parse_headers-IsIntact (suc fuel) s s' v e =
    let (line, e1, r1) = >>=-eq-ok (strtok s.buffer s.offset crlf) _ e in
    elim (Option-cases line.start) [
      | inl over ↦ ok-IsIntact _ s' v (rw over at r1)
      | inr (start, more) ↦
          let (t, moved, r2) = >>=-eq-ok (parse_header s line start) _ (rw more at r1) in
          let (last, e3, r3) = >>=-eq-ok (starts_crlf t.buffer t.offset) _ r2 in
          let w = parse_header-IsIntact s t line start v moved in
          elim (Bool-cases last) [
            | inl yes_last ↦ ok-IsIntact _ s' w (rw yes_last at r3)
            | inr not_last ↦ parse_headers-IsIntact fuel t s' w (rw not_last at r3)
          ]
    ]

-- What `request_parse` returns owns the strings of its headers, each once, whatever the buffer holds.
pub request_parse-IsIntact :
    (buffer : Buffer) (r : Request) → request_parse buffer ≡ ok r → IsIntact r.headers
unfolding request_parse
request_parse-IsIntact buffer r e =
    let (line, e1, r1) = >>=-eq-ok (parse_request_line buffer) _ e in
    let (parsed, e2, r2) = >>=-eq-ok (parse_headers (suc (length buffer)) _) _ r1 in
    let (body, e3, r3) = >>=-eq-ok (parse_body parsed) _ r2 in
    let v = parse_headers-IsIntact (suc (length buffer)) _ parsed create-IsIntact e2 in
    subst IsIntact (ap headers_of r3) v
  where
    headers_of : Exec Request → Headers
    headers_of (ok q) = q.headers
    headers_of (fault f) = r.headers
