-- ===== src/Request/Crashes.antt =====
-- Requests on which `request_parse` dereferences a null pointer.
use ntu_computer_network.Base.{
  ℕ, sym, suc, ◌+◌, ◌≡◌, refl, none, some, [], ◌∷◌, ◌++◌, append_assoc, arith, Bytes, codes, length,
  length-append, null_pointer, ok, fault, ◌>>=◌, contains,
}
use ntu_computer_network.Headers
use mathlib.Core.Path.{subst}
use ntu_computer_network.Tokens.{Buffer, Token, strtok, string_at}
use ntu_computer_network.Tokens.Words.{
  IsWord, IsWord-All, IsWord-imp, IsPlain-nonzero, strtok_last-word, strtok_last-skip, strtok-word,
  strtok-none, string_at-word,
}
use ntu_computer_network.Request.{Progress, crlf, request_parse, parse_headers, parse_header}
use ntu_computer_network.Request.Line.{
  separators, request_line, line_buffer, parse_request_line-words,
}
use ntu_computer_network.Request.Fields.{name_ends, name-crlf, name-colon}
use ntu_computer_network.Request.RoundTrip.{at_fields, line_part, length-line_part}

-- A line that is one word, cut out of the buffer.
module _ (s : Progress) (pre : Buffer) (word : Bytes) (post : Buffer) (start save : ℕ)
    (w : IsWord name_ends word) (here : start ≡ length pre) where
  abbrev cut_buffer : Buffer
  cut_buffer = pre ++ (word ++ 0 ∷ post)

  abbrev line_token : Token
  line_token = record { start = some start; buffer = cut_buffer; save = save }

  word_string : string_at cut_buffer start ≡ ok word
  word_string =
      string_at-word cut_buffer start pre word post refl here
        (IsPlain-nonzero name_ends word (IsWord-All name_ends word w))

  word_name :
      strtok cut_buffer start (codes ": ")
      ≡ ok (record { start = some start; buffer = cut_buffer; save = start + length word })
  word_name =
      strtok_last-word cut_buffer start (codes ": ") pre word post refl here
        (IsWord-imp name_ends (codes ": ") word name-colon w)

  word_value :
      strtok cut_buffer (start + length word) []
      ≡ ok (record { start = none; buffer = cut_buffer; save = start + length word })
  unfolding contains
  word_value =
      strtok-none cut_buffer (start + length word) [] (pre ++ word) post (simp append_assoc)
        (omega (arith, length-append pre word)) refl

  -- It has no value: `value[0]` reads through the null pointer.
  parse_header-word : parse_header s line_token start ≡ fault null_pointer
  unfolding parse_header
  parse_header-word =
      rw (word_string, ◌>>=◌)
        (rw (word_name, ◌>>=◌) (rw (word_value, ◌>>=◌) (rw (word_string, ◌>>=◌))))

parse_headers-token :
    (fuel : ℕ) (s : Progress) (line : Token) (start : ℕ)
    → strtok s.buffer s.offset crlf ≡ ok line
    → line.start ≡ some start
    → parse_header s line start ≡ fault null_pointer
    → parse_headers (suc fuel) s ≡ fault null_pointer
unfolding parse_headers
parse_headers-token fuel s line start e at crash = rw (e, ◌>>=◌) (rw at (rw (crash, ◌>>=◌)))

module _ (m p v word : Bytes) (wm : IsWord separators m) (wp : IsWord separators p)
    (wv : IsWord separators v) (w : IsWord name_ends word) where
  crash :
      (rest : Buffer)
      → parse_headers (suc (length (line_buffer m p v b' ' b' ' b'\r' rest))) (at_fields m p v rest)
        ≡ fault null_pointer
      → request_parse (line_buffer m p v b' ' b' ' b'\r' rest) ≡ fault null_pointer
  unfolding request_parse
  crash rest e = rw (parse_request_line-words m p v wm wp wv rest, ◌>>=◌) (rw (e, ◌>>=◌))

  -- A request whose first header line is one word, without a colon or a space, crashes the parser.
  pub request_parse_no_colon :
      (post : Buffer)
      → request_parse (line_buffer m p v b' ' b' ' b'\r' (word ++ b'\r' ∷ b'\n' ∷ post))
        ≡ fault null_pointer
  unfolding contains
  request_parse_no_colon post = crash (word ++ b'\r' ∷ b'\n' ∷ post) (
      parse_headers-token _ (at_fields m p v (word ++ b'\r' ∷ b'\n' ∷ post)) _
        (length (request_line m p v) + 2)
        (strtok-word (line_buffer m p v 0 0 0 (word ++ b'\r' ∷ b'\n' ∷ post))
          (length (request_line m p v) + 2) crlf (line_part m p v) word b'\r' (b'\n' ∷ post)
          (line_part m p v ++ (word ++ 0 ∷ b'\n' ∷ post)) (simp append_assoc)
          (length-line_part m p v) (IsWord-imp name_ends crlf word name-crlf w) (λ e. omega arith)
          refl refl)
        refl
        (parse_header-word (at_fields m p v (word ++ b'\r' ∷ b'\n' ∷ post)) (line_part m p v) word
          (b'\n' ∷ post) (length (request_line m p v) + 2) _ w (length-line_part m p v)))

  -- A request without header fields whose body is one word crashes the parser: the empty line is
  -- skipped, and the body is taken for a header line.
  pub request_parse_body_only :
      (pad : Buffer)
      → request_parse (line_buffer m p v b' ' b' ' b'\r' (crlf ++ (word ++ 0 ∷ pad)))
        ≡ fault null_pointer
  unfolding contains
  request_parse_body_only pad = crash (crlf ++ (word ++ 0 ∷ pad)) (
      parse_headers-token (length (line_buffer m p v b' ' b' ' b'\r' (crlf ++ (word ++ 0 ∷ pad))))
        (state whole) (token whole) (at + 2)
        (strtok_last-skip whole at crlf (line_part m p v) crlf word pad (simp append_assoc)
          (length-line_part m p v) (refl, (refl, tt)) (IsWord-imp name_ends crlf word name-crlf w))
        refl broken)
    where
      at : ℕ
      at = length (request_line m p v) + 2

      whole : Buffer
      whole = line_buffer m p v 0 0 0 (crlf ++ (word ++ 0 ∷ pad))

      state : Buffer → Progress
      state b = record { buffer = b; offset = at; headers = Headers.create }

      token : Buffer → Token
      token b = record { start = some (at + 2); buffer = b; save = at + 2 + length word }

      same : whole ≡ (line_part m p v ++ crlf) ++ (word ++ 0 ∷ pad)
      same = simp append_assoc

      broken : parse_header (state whole) (token whole) (at + 2) ≡ fault null_pointer
      broken =
          subst (λ b. parse_header (state b) (token b) (at + 2) ≡ fault null_pointer) (sym same)
            (parse_header-word (state ((line_part m p v ++ crlf) ++ (word ++ 0 ∷ pad)))
              (line_part m p v ++ crlf) word pad (at + 2) (at + 2 + length word) w
              (omega (arith, length-line_part m p v, length-append (line_part m p v) crlf)))
