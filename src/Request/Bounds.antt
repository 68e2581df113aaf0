-- ===== src/Request/Bounds.antt =====
-- `request_parse` reads and writes inside the receive buffer when three NULs follow the request.
use ntu_computer_network.Base.{
  ℕ, zero, suc, ◌+◌, ◌≤◌, ◌<◌, ◌≡◌, refl, inl, inr, true, false, Option, none, some, [], arith,
  ◌==◌, Option-cases, Bytes, codes, length, contains, ◌>>=◌, fetch-lt, Yields, gives, stops,
  Yields-bind, Yields-map, Yields-if, Yields-or_fault,
}
use ntu_computer_network.Headers
use ntu_computer_network.Headers.{Headers}
use ntu_computer_network.Tokens.{Buffer, Token}
use ntu_computer_network.Tokens.Bounds.{
  IsPadded, IsInside, strtok-Yields, string_at-Yields, fetch-le, before_padding,
}
use ntu_computer_network.Request.{
  RequestLine, Progress, crlf, needed_string, optional_string, starts_crlf, parse_request_line,
  parse_header, parse_headers, parse_body, request_parse,
}

abbrev IsShort : ℕ → Bytes → Type 0
IsShort end text = length text ≤ end

-- Where a token that may be NULL starts.
abbrev StartsBefore : ℕ → Option ℕ → Type 0
StartsBefore end start = (q : ℕ) → start ≡ some q → q < end

needed_string-Yields :
    {end : ℕ} {buffer : Buffer} (start : Option ℕ)
    → IsPadded end buffer
    → StartsBefore end start
    → Yields (IsShort end) (needed_string buffer start)
needed_string-Yields {end} {buffer} none v h = stops
needed_string-Yields {end} {buffer} (some q) v h =
    let before = h q refl in
    Yields-map (string_at-Yields q v (omega arith)) (λ text short. omega arith)

optional_string-Yields :
    {end : ℕ} {buffer : Buffer} (start : Option ℕ)
    → IsPadded end buffer
    → StartsBefore end start
    → Yields (λ text. IsShort end (Headers.or_empty text)) (optional_string buffer start)
optional_string-Yields {end} {buffer} none v h = gives (omega arith)
optional_string-Yields {end} {buffer} (some q) v h =
    let before = h q refl in
    Yields-bind (string_at-Yields q v (omega arith)) (λ text short. gives (omega arith))

-- The state behind the request line.
record IsLine (end : ℕ) (r : RequestLine) : Type 0 where
  padded : IsPadded end r.buffer
  offset : r.offset ≤ end + 2
  method : IsShort end r.method
  path : IsShort end r.path

starts_before : {end p : ℕ} {t : Token} → IsInside end p t → StartsBefore end t.start
starts_before v q e = let (above, before, short) = v.token q e in before

parse_request_line-Yields :
    {end : ℕ} {buffer : Buffer}
    → IsPadded end buffer
    → Yields (IsLine end) (parse_request_line buffer)
unfolding parse_request_line contains
parse_request_line-Yields {end} {buffer} v =
    Yields-bind (strtok-Yields 0 crlf v refl (omega arith)) λ line l.
      Yields-bind (Yields-or_fault line.start (starts_before l)) λ start before.
        Yields-bind (string_at-Yields start l.padded (omega arith)) λ text short.
          Yields-bind (strtok-Yields start (codes " ") l.padded refl (omega arith)) λ method m.
            Yields-bind (strtok-Yields method.save (codes " ") m.padded refl m.save) λ path p.
              Yields-bind (strtok-Yields path.save (codes " ") p.padded refl p.save) λ version w.
                Yields-bind (needed_string-Yields method.start w.padded (starts_before m))
                  λ a m_short.
                    Yields-bind (needed_string-Yields path.start w.padded (starts_before p))
                      λ b p_short. gives (record {
                        padded = w.padded;
                        offset = omega arith;
                        method = m_short;
                        path = p_short;
                      })

-- The state of the header loop.
record IsHere (end : ℕ) (s : Progress) : Type 0 where
  padded : IsPadded end s.buffer
  offset : s.offset ≤ end + 2

parse_header-Yields :
    {end : ℕ} (s : Progress) (line : Token) (start : ℕ)
    → IsPadded end line.buffer
    → s.offset ≤ start
    → start < end
    → Yields (λ s'. IsHere end s' × (s.offset + 2 ≤ s'.offset)) (parse_header s line start)
unfolding parse_header contains
parse_header-Yields {end} s line start v below before =
    Yields-bind (string_at-Yields start v (omega arith)) λ text short.
      Yields-bind (strtok-Yields start (codes ": ") v refl (omega arith)) λ name n.
        Yields-bind (strtok-Yields name.save [] n.padded refl n.save) λ value w.
          Yields-bind (optional_string-Yields name.start w.padded (starts_before n)) λ a _.
            Yields-bind (needed_string-Yields value.start w.padded (starts_before w))
              λ b _. gives (record { padded = w.padded; offset = omega arith }, omega arith)

starts_crlf-Yields :
    {end : ℕ} {buffer : Buffer} (p : ℕ)
    → IsPadded end buffer
    → p ≤ end + 2
    → Yields (λ last. last ≡ true → p < end) (starts_crlf buffer p)
unfolding starts_crlf
starts_crlf-Yields {end} {buffer} p v h =
    let (c, at_p) = fetch-le buffer p (end + 2) v.third h in
    rw (at_p, ◌>>=◌)
      (Yields-if (c == b'\r')
        (λ cr.
          let before = before_padding p c v h at_p (ground arith) in
          let (d, at_next) = fetch-le buffer (p + 1) end v.first (omega arith) in
          rw (at_next, ◌>>=◌) (gives (λ _. before)))
        (λ other. gives (λ e. absurd (cc))))

parse_headers-Yields :
    {end : ℕ} (fuel : ℕ) (s : Progress)
    → IsHere end s
    → end + 2 < s.offset + fuel
    → Yields (IsHere end) (parse_headers fuel s)
unfolding parse_headers contains
parse_headers-Yields {end} zero s v h = absurd (omega (arith, v.offset))
parse_headers-Yields {end} (suc fuel) s v h =
    Yields-bind (strtok-Yields s.offset crlf v.padded refl v.offset) λ line l.
      elim (Option-cases line.start) [
        | inl over ↦ rw over (gives (record { padded = l.padded; offset = v.offset }))
        | inr (start, more) ↦
            let (below, before, short) = l.token start more in
            rw more (
              Yields-bind (parse_header-Yields s line start l.padded below before)
                λ s' (here, further).
                  Yields-bind (starts_crlf-Yields s'.offset here.padded here.offset) (elim [
                    | true ↦ λ at_end.
                        gives (record { padded = here.padded; offset = omega (arith, at_end refl) })
                    | false ↦ λ _. parse_headers-Yields fuel s' here (omega arith)
                  ]))
      ]

parse_body-Yields : {end : ℕ} (s : Progress) → IsHere end s → Yields (IsShort end) (parse_body s)
unfolding parse_body contains
parse_body-Yields s v = Yields-bind (strtok-Yields s.offset [] v.padded refl v.offset) λ body b.
    Yields-bind (optional_string-Yields body.start b.padded (starts_before b))
      λ text short. gives short

-- On a buffer in which three NULs stand at `end`, `request_parse` gives a request or dereferences a
-- null pointer, and does nothing else: it reads and writes only inside the buffer, and ends. What it
-- gives is no longer than the bytes before the NULs.
pub request_parse-Yields :
    {end : ℕ} (buffer : Buffer)
    → IsPadded end buffer
    → Yields
        (λ r. (length r.method ≤ end) × (length r.path ≤ end) × (length r.body ≤ end))
        (request_parse buffer)
unfolding request_parse
request_parse-Yields {end} buffer v = Yields-bind (parse_request_line-Yields v) λ line l.
    Yields-bind
      (parse_headers-Yields (suc (length buffer)) _
        (record { padded = l.padded; offset = l.offset })
        (omega (arith, fetch-lt buffer (end + 2) v.third)))
      λ parsed here.
        Yields-bind (parse_body-Yields parsed here) λ body short. gives (l.method, l.path, short)
