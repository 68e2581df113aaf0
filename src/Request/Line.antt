-- ===== src/Request/Line.antt =====
-- The request line: what `request_parse` makes of `METHOD PATH VERSION\r\n`.
use ntu_computer_network.Base.{
  ℕ, ◌+◌, ◌≡◌, refl, some, List, [], ◌∷◌, ◌++◌, append_assoc, arith, Bytes, codes, length, All,
  All-append, All-imp, length-append, Exec, ok, ◌>>=◌, contains,
}
use ntu_computer_network.Tokens.{Buffer, strtok, string_at}
use ntu_computer_network.Tokens.Laws.{IsPlain}
use ntu_computer_network.Tokens.Words.{
  IsWord, IsWord-All, IsWord-append, IsWord-imp, IsPlain-nonzero, strtok-word, strtok_last-word,
  string_at-word,
}
use ntu_computer_network.Request.{RequestLine, crlf, parse_request_line}

-- What ends a word of the request line.
abbrev pub separators : List ℕ
separators = codes " \r\n"

abbrev pub request_line : Bytes → Bytes → Bytes → Bytes
request_line method path version = method ++ b' ' ∷ (path ++ b' ' ∷ version)

-- The line in the buffer, with the two bytes that `strtok` turns into NULs, and the byte behind it.
abbrev pub cut_buffer : Bytes → Bytes → Bytes → ℕ → ℕ → ℕ → Buffer → Buffer
cut_buffer m p v a b c tail = m ++ a ∷ (p ++ b ∷ (v ++ c ∷ tail))

-- The line with its line end.
abbrev pub line_buffer : Bytes → Bytes → Bytes → ℕ → ℕ → ℕ → Buffer → Buffer
line_buffer m p v a b c rest = cut_buffer m p v a b c (b'\n' ∷ rest)

separators-space : (c : ℕ) → IsPlain separators c → IsPlain (codes " ") c
unfolding contains
separators-space c h = ground arith

separators-crlf : (c : ℕ) → IsPlain separators c → IsPlain crlf c
unfolding contains
separators-crlf c h = ground arith

module _ (m p v : Bytes) (wm : IsWord separators m) (wp : IsWord separators p)
    (wv : IsWord separators v) (tail : Buffer) where
  line-IsWord : IsWord crlf (request_line m p v)
  unfolding contains
  line-IsWord = IsWord-append crlf m _ (IsWord-imp separators crlf m separators-crlf wm) (
    (ground arith, ground arith),
    All-append (IsPlain crlf) p (b' ' ∷ v) (crlf_plain p wp)
        ((ground arith, ground arith), crlf_plain v wv),
  )
    where
      crlf_plain : (s : Bytes) → IsWord separators s → All (IsPlain crlf) s
      crlf_plain s w = All-imp separators-crlf s (IsWord-All separators s w)

  line_length : length (request_line m p v) ≡ length m + (1 + (length p + (1 + length v)))
  line_length = omega (arith, length-append m (b' ' ∷ (p ++ b' ' ∷ v)), length-append p (b' ' ∷ v))

  abbrev text_ends : ℕ
  text_ends = length (request_line m p v)

  words : Exec RequestLine
  words = ok (record {
    method = m;
    path = p;
    buffer = cut_buffer m p v 0 0 0 tail;
    offset = length (request_line m p v) + 2;
  })

  pub strtok_line :
      strtok (cut_buffer m p v b' ' b' ' b'\r' tail) 0 crlf
      ≡ ok (record {
        start = some 0;
        buffer = cut_buffer m p v b' ' b' ' 0 tail;
        save = 0 + text_ends + 1;
      })
  unfolding contains
  strtok_line =
      strtok-word _ 0 crlf [] (request_line m p v) b'\r' tail _ (simp append_assoc) refl line-IsWord
        (λ e. omega arith) refl (simp append_assoc)

  pub string_line : string_at (cut_buffer m p v b' ' b' ' 0 tail) 0 ≡ ok (request_line m p v)
  string_line =
      string_at-word _ 0 [] (request_line m p v) tail (simp append_assoc) refl
        (IsPlain-nonzero crlf _ (IsWord-All crlf _ line-IsWord))

  pub strtok_method :
      strtok (cut_buffer m p v b' ' b' ' 0 tail) 0 (codes " ")
      ≡ ok (record {
        start = some 0;
        buffer = cut_buffer m p v 0 b' ' 0 tail;
        save = 0 + length m + 1;
      })
  unfolding contains
  strtok_method =
      strtok-word _ 0 (codes " ") [] m b' ' _ _ refl refl
        (IsWord-imp separators (codes " ") m separators-space wm) (λ e. omega arith) refl refl

  pub strtok_path :
      strtok (cut_buffer m p v 0 b' ' 0 tail) (0 + length m + 1) (codes " ")
      ≡ ok (record {
        start = some (0 + length m + 1);
        buffer = cut_buffer m p v 0 0 0 tail;
        save = 0 + length m + 1 + length p + 1;
      })
  unfolding contains
  strtok_path =
      strtok-word _ _ (codes " ") (m ++ 0 ∷ []) p b' ' (v ++ 0 ∷ tail) _ (simp append_assoc)
        (omega (arith, length-append m (0 ∷ [])))
        (IsWord-imp separators (codes " ") p separators-space wp) (λ e. omega arith) refl
        (simp append_assoc)

  pub strtok_version :
      strtok (cut_buffer m p v 0 0 0 tail) (0 + length m + 1 + length p + 1) (codes " ")
      ≡ ok (record {
        start = some (0 + length m + 1 + length p + 1);
        buffer = cut_buffer m p v 0 0 0 tail;
        save = 0 + length m + 1 + length p + 1 + length v;
      })
  strtok_version =
      strtok_last-word _ _ (codes " ") (m ++ 0 ∷ (p ++ 0 ∷ [])) v tail (simp append_assoc)
        (omega (arith, length-append m (0 ∷ (p ++ 0 ∷ [])), length-append p (0 ∷ [])))
        (IsWord-imp separators (codes " ") v separators-space wv)

  pub string_method : string_at (cut_buffer m p v 0 0 0 tail) 0 ≡ ok m
  string_method =
      string_at-word _ 0 [] m _ refl refl
        (IsPlain-nonzero separators m (IsWord-All separators m wm))

  pub string_path : string_at (cut_buffer m p v 0 0 0 tail) (0 + length m + 1) ≡ ok p
  string_path =
      string_at-word (cut_buffer m p v 0 0 0 tail) (0 + length m + 1) (m ++ 0 ∷ []) p
        (v ++ 0 ∷ tail) (simp append_assoc) (omega (arith, length-append m (0 ∷ [])))
        (IsPlain-nonzero separators p (IsWord-All separators p wp))

  -- What follows the cutting of the line.
  line_words :
      (buffer : Buffer) (save : ℕ)
      → strtok buffer 0 crlf
        ≡ ok (record { start = some 0; buffer = cut_buffer m p v b' ' b' ' 0 tail; save = save })
      → parse_request_line buffer ≡ words
  unfolding parse_request_line words
  line_words buffer save e =
      rw (e, ◌>>=◌)
        (rw (string_line, ◌>>=◌)
          (rw (strtok_method, ◌>>=◌)
            (rw (strtok_path, ◌>>=◌)
              (rw (strtok_version, ◌>>=◌) (rw (string_method, ◌>>=◌) (rw (string_path, ◌>>=◌)))))))

  -- A request line without a line end, up to a NUL.
  pub parse_request_line-nul :
      parse_request_line (cut_buffer m p v b' ' b' ' 0 tail)
      ≡ ok (record {
        method = m;
        path = p;
        buffer = cut_buffer m p v 0 0 0 tail;
        offset = length (request_line m p v) + 2;
      })
  unfolding words
  parse_request_line-nul = line_words _ _ (
      strtok_last-word (cut_buffer m p v b' ' b' ' 0 tail) 0 crlf [] (request_line m p v) tail
        (simp append_assoc) refl line-IsWord)

-- A request line of three words gives its method and its path, and the offset behind the line.
pub parse_request_line-words :
    (m p v : Bytes)
    → IsWord separators m
    → IsWord separators p
    → IsWord separators v
    → (rest : Buffer)
    → parse_request_line (line_buffer m p v b' ' b' ' b'\r' rest)
      ≡ ok (record {
        method = m;
        path = p;
        buffer = line_buffer m p v 0 0 0 rest;
        offset = length (request_line m p v) + 2;
      })
unfolding words
parse_request_line-words m p v wm wp wv rest =
    line_words m p v wm wp wv (b'\n' ∷ rest) _ _ (strtok_line m p v wm wp wv (b'\n' ∷ rest))
