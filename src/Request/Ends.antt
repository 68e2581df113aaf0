-- ===== src/Request/Ends.antt =====
-- The header loop of `request_parse` ends for every buffer.
use ntu_computer_network.Base.{
  ℕ, zero, suc, ◌+◌, ◌≤◌, ◌<◌, ◌≡◌, ◌≢◌, inl, inr, true, false, Option, none, some, [], arith, ◌==◌,
  Option-cases, codes, length, drop, null_pointer, endless, ok, fault, >>=-eq-ok, >>=-ends, if-ends,
  or_fault-ends, fetch-ends, or_fault, fetch,
}
use ntu_computer_network.Tokens.{Buffer, Token, strtok, string_at}
use ntu_computer_network.Tokens.Laws.{length-strtok, strtok-ends, cstring-ends}
use ntu_computer_network.Request.{
  RequestLine, Progress, crlf, request_parse, parse_request_line, parse_header, parse_headers,
  parse_body, starts_crlf, needed_string, optional_string,
}

needed_string-ends :
    (buffer : Buffer) (token : Option ℕ) → needed_string buffer token ≢ fault endless
needed_string-ends buffer token =
    >>=-ends (or_fault token null_pointer) _ (or_fault-ends token null_pointer (λ e. cc))
      λ p _. cstring-ends (drop p buffer)

optional_string-ends :
    (buffer : Buffer) (token : Option ℕ) → optional_string buffer token ≢ fault endless
optional_string-ends buffer none = λ e. cc
optional_string-ends buffer (some p) =
    >>=-ends (string_at buffer p) _ (cstring-ends (drop p buffer)) (λ _ _ e. cc)

starts_crlf-ends : (buffer : Buffer) (p : ℕ) → starts_crlf buffer p ≢ fault endless
unfolding starts_crlf
starts_crlf-ends buffer p = >>=-ends (fetch buffer p) _ (fetch-ends buffer p) λ c _.
    if-ends _ _ (c == b'\r')
      (>>=-ends (fetch buffer (p + 1)) _ (fetch-ends buffer (p + 1)) (λ _ _ e. cc)) (λ e. cc)

parse_body-ends : (s : Progress) → parse_body s ≢ fault endless
unfolding parse_body
parse_body-ends s =
    >>=-ends (strtok s.buffer s.offset []) _ (strtok-ends s.buffer s.offset []) λ body _.
      >>=-ends (optional_string body.buffer body.start) _
        (optional_string-ends body.buffer body.start) (λ _ _ e. cc)

parse_header-ends :
    (s : Progress) (line : Token) (start : ℕ) → parse_header s line start ≢ fault endless
unfolding parse_header
parse_header-ends s line start =
    >>=-ends (string_at line.buffer start) _ (cstring-ends (drop start line.buffer)) λ text _.
      >>=-ends (strtok line.buffer start (codes ": ")) _ (strtok-ends line.buffer start _) λ name _.
        >>=-ends (strtok name.buffer name.save []) _ (strtok-ends name.buffer name.save _)
          λ value _.
            >>=-ends (optional_string value.buffer name.start) _
              (optional_string-ends value.buffer name.start)
              λ n _.
                >>=-ends (needed_string value.buffer value.start) _
                  (needed_string-ends value.buffer value.start) (λ _ _ e. cc)

-- A header moves the offset by two bytes at least, and keeps the size of the buffer.
parse_header-moves :
    (s : Progress) (line : Token) (start : ℕ) {s' : Progress}
    → parse_header s line start ≡ ok s'
    → (length s'.buffer ≡ length line.buffer) × (s.offset + 2 ≤ s'.offset)
unfolding parse_header
parse_header-moves s line start e =
    let (text, e1, r1) = >>=-eq-ok (string_at line.buffer start) _ e in
    let (name, e2, r2) = >>=-eq-ok (strtok line.buffer start (codes ": ")) _ r1 in
    let (value, e3, r3) = >>=-eq-ok (strtok name.buffer name.save []) _ r2 in
    let (n, e4, r4) = >>=-eq-ok (optional_string value.buffer name.start) _ r3 in
    let (v, e5, r5) = >>=-eq-ok (needed_string value.buffer value.start) _ r4 in
    ground (arith, length-strtok line.buffer start _ e2, length-strtok name.buffer name.save _ e3)

parse_headers-ends :
    (fuel : ℕ) (s : Progress)
    → 0 < fuel
    → length s.buffer < s.offset + fuel
    → parse_headers fuel s ≢ fault endless
unfolding parse_headers
parse_headers-ends zero s pos h = elim pos [ ]
parse_headers-ends (suc fuel) s pos h =
    >>=-ends (strtok s.buffer s.offset crlf) _ (strtok-ends s.buffer s.offset crlf) λ line e.
      let (same, inside) = length-strtok s.buffer s.offset crlf e in
      elim (Option-cases line.start) [
        | inl e' ↦ rw e' (λ r. cc)
        | inr (start, e') ↦ rw e' (
            >>=-ends (parse_header s line start) _ (parse_header-ends s line start) λ s' moved.
              let (same', further) = parse_header-moves s line start moved in
              >>=-ends (starts_crlf s'.buffer s'.offset) _ (starts_crlf-ends s'.buffer s'.offset)
                (elim [
                  | true ↦ λ _ r. cc
                  | false ↦ λ _. parse_headers-ends fuel s' (omega arith) (omega arith)
                ]))
      ]

parse_request_line-ends : (buffer : Buffer) → parse_request_line buffer ≢ fault endless
unfolding parse_request_line
parse_request_line-ends buffer =
    >>=-ends (strtok buffer 0 crlf) _ (strtok-ends buffer 0 crlf) λ line _.
      >>=-ends (or_fault line.start null_pointer) _
        (or_fault-ends line.start null_pointer (λ e. cc))
        λ start _.
          >>=-ends (string_at line.buffer start) _ (cstring-ends (drop start line.buffer)) λ text _.
            >>=-ends (strtok line.buffer start (codes " ")) _ (strtok-ends line.buffer start _)
              λ method _.
                >>=-ends (strtok method.buffer method.save (codes " ")) _
                  (strtok-ends method.buffer method.save _)
                  λ path _.
                    >>=-ends (strtok path.buffer path.save (codes " ")) _
                      (strtok-ends path.buffer path.save _)
                      λ version _.
                        >>=-ends (needed_string version.buffer method.start) _
                          (needed_string-ends version.buffer method.start)
                          λ m _.
                            >>=-ends (needed_string version.buffer path.start) _
                              (needed_string-ends version.buffer path.start) (λ _ _ e. cc)

length-parse_request_line :
    (buffer : Buffer) {r : RequestLine}
    → parse_request_line buffer ≡ ok r
    → length r.buffer ≡ length buffer
unfolding parse_request_line
length-parse_request_line buffer e =
    let (line, e1, r1) = >>=-eq-ok (strtok buffer 0 crlf) _ e in
    let (start, e2, r2) = >>=-eq-ok (or_fault line.start null_pointer) _ r1 in
    let (text, e3, r3) = >>=-eq-ok (string_at line.buffer start) _ r2 in
    let (method, e4, r4) = >>=-eq-ok (strtok line.buffer start (codes " ")) _ r3 in
    let (path, e5, r5) = >>=-eq-ok (strtok method.buffer method.save (codes " ")) _ r4 in
    let (version, e6, r6) = >>=-eq-ok (strtok path.buffer path.save (codes " ")) _ r5 in
    let (m, e7, r7) = >>=-eq-ok (needed_string version.buffer method.start) _ r6 in
    let (p, e8, r8) = >>=-eq-ok (needed_string version.buffer path.start) _ r7 in
    ground (
      arith,
      length-strtok buffer 0 crlf e1,
      length-strtok line.buffer start _ e4,
      length-strtok method.buffer method.save _ e5,
      length-strtok path.buffer path.save _ e6,
    )

-- `request_parse` ends on every buffer: it returns a request or meets one of the faults that are
-- not an endless loop, and one round for each byte is enough.
pub request_parse-ends : (buffer : Buffer) → request_parse buffer ≢ fault endless
unfolding request_parse
request_parse-ends buffer =
    >>=-ends (parse_request_line buffer) _ (parse_request_line-ends buffer) λ line e.
      >>=-ends (parse_headers (suc (length buffer)) _) _
        (parse_headers-ends (suc (length buffer)) _ (omega arith)
          (omega (arith, length-parse_request_line buffer e)))
        λ parsed _. >>=-ends (parse_body parsed) _ (parse_body-ends parsed) (λ _ _ r. cc)
