-- ===== src/Request/Fields.antt =====
-- The header lines: what the loop of `request_parse` makes of `NAME: VALUE\r\n`.
use ntu_computer_network.Base.{
  ℕ, suc, ◌+◌, ◌≡◌, refl, true, false, some, List, [], ◌∷◌, ◌++◌, append_assoc, arith, Bytes, codes,
  length, All, All-imp, length-append, ok, ◌>>=◌, contains,
}
use ntu_computer_network.Headers
use ntu_computer_network.Headers.{Headers}
use ntu_computer_network.Tokens.{Buffer, Token, strtok, string_at}
use ntu_computer_network.Tokens.Laws.{IsPlain}
use ntu_computer_network.Tokens.Words.{
  IsWord, IsWord-All, IsWord-append, IsWord-imp, IsPlain-nonzero, strtok-word, strtok_last-word,
  string_at-word,
}
use ntu_computer_network.Request.{Progress, crlf, parse_header, parse_headers, starts_crlf}

-- What ends a name, and what ends a value.
abbrev pub name_ends : List ℕ
name_ends = codes ": \r\n"

abbrev pub field_line : Bytes → Bytes → Bytes
field_line name value = name ++ b':' ∷ b' ' ∷ value

-- The line behind `pre`, with the two bytes that `strtok` turns into NULs.
abbrev pub field_buffer : Buffer → Bytes → Bytes → ℕ → ℕ → Buffer → Buffer
field_buffer pre n v a b rest = pre ++ (n ++ a ∷ b' ' ∷ (v ++ b ∷ b'\n' ∷ rest))

abbrev pub IsField : Bytes × Bytes → Type 0
IsField (n, v) = IsWord name_ends n × All (IsPlain crlf) v

pub name-crlf : (c : ℕ) → IsPlain name_ends c → IsPlain crlf c
unfolding contains
name-crlf c h = ground arith

pub name-colon : (c : ℕ) → IsPlain name_ends c → IsPlain (codes ": ") c
unfolding contains
name-colon c h = ground arith

crlf-any : (c : ℕ) → IsPlain crlf c → IsPlain [] c
unfolding contains
crlf-any c h = ground arith

module _ (s : Progress) (pre : Buffer) (n v : Bytes) (rest : Buffer) (wn : IsWord name_ends n)
    (pv : All (IsPlain crlf) v) (here : s.offset ≡ length pre) where
  abbrev whole : ℕ → ℕ → Buffer
  whole a b = field_buffer pre n v a b rest

  line-IsWord : IsWord crlf (field_line n v)
  unfolding contains
  line-IsWord =
      IsWord-append crlf n _ (IsWord-imp name_ends crlf n name-crlf wn)
        ((ground arith, ground arith), ((ground arith, ground arith), pv))

  strtok_line :
      strtok (whole b':' b'\r') s.offset crlf
      ≡ ok (record {
        start = some s.offset;
        buffer = whole b':' 0;
        save = s.offset + length (field_line n v) + 1;
      })
  unfolding contains
  strtok_line =
      strtok-word (whole b':' b'\r') s.offset crlf pre (field_line n v) b'\r' (b'\n' ∷ rest)
        (whole b':' 0) (simp append_assoc) here line-IsWord (λ e. omega arith) refl
        (simp append_assoc)

  string_line : string_at (whole b':' 0) s.offset ≡ ok (field_line n v)
  string_line =
      string_at-word (whole b':' 0) s.offset pre (field_line n v) (b'\n' ∷ rest) (simp append_assoc)
        here (IsPlain-nonzero crlf _ (IsWord-All crlf _ line-IsWord))

  strtok_name :
      strtok (whole b':' 0) s.offset (codes ": ")
      ≡ ok (record { start = some s.offset; buffer = whole 0 0; save = s.offset + length n + 1 })
  unfolding contains
  strtok_name =
      strtok-word (whole b':' 0) s.offset (codes ": ") pre n b':' (b' ' ∷ (v ++ 0 ∷ b'\n' ∷ rest))
        (whole 0 0) refl here (IsWord-imp name_ends (codes ": ") n name-colon wn) (λ e. omega arith)
        refl refl

  value_at : s.offset + length n + 1 ≡ length (pre ++ (n ++ 0 ∷ []))
  value_at = omega (arith, here, length-append pre (n ++ 0 ∷ []), length-append n (0 ∷ []))

  strtok_value :
      strtok (whole 0 0) (s.offset + length n + 1) []
      ≡ ok (record {
        start = some (s.offset + length n + 1);
        buffer = whole 0 0;
        save = s.offset + length n + 1 + suc (length v);
      })
  unfolding contains
  strtok_value =
      strtok_last-word (whole 0 0) (s.offset + length n + 1) [] (pre ++ (n ++ 0 ∷ [])) (b' ' ∷ v)
        (b'\n' ∷ rest) (simp append_assoc) value_at
        ((ground arith, ground arith), All-imp crlf-any v pv)

  string_name : string_at (whole 0 0) s.offset ≡ ok n
  string_name =
      string_at-word (whole 0 0) s.offset pre n (b' ' ∷ (v ++ 0 ∷ b'\n' ∷ rest)) refl here
        (IsPlain-nonzero name_ends n (IsWord-All name_ends n wn))

  string_value : string_at (whole 0 0) (s.offset + length n + 1) ≡ ok (b' ' ∷ v)
  string_value =
      string_at-word (whole 0 0) (s.offset + length n + 1) (pre ++ (n ++ 0 ∷ [])) (b' ' ∷ v)
        (b'\n' ∷ rest) (simp append_assoc) value_at ((λ e. omega arith), IsPlain-nonzero crlf v pv)

  abbrev line_token : Token
  line_token = record {
    start = some s.offset;
    buffer = whole b':' 0;
    save = s.offset + length (field_line n v) + 1;
  }

  -- The state behind the line.
  abbrev behind : Progress
  behind = record {
    buffer = whole 0 0;
    offset = s.offset + length (field_line n v) + 2;
    headers = Headers.set s.headers (some n) (some v);
  }

  parse_header-field : parse_header s line_token s.offset ≡ ok behind
  unfolding parse_header
  parse_header-field =
      rw (string_line, ◌>>=◌)
        (rw (strtok_name, ◌>>=◌)
          (rw (strtok_value, ◌>>=◌) (rw (string_name, ◌>>=◌) (rw (string_value, ◌>>=◌)))))

  -- One round of the loop on a field.
  pub parse_headers-field :
      (fuel : ℕ)
      → s.buffer ≡ whole b':' b'\r'
      → parse_headers (suc fuel) s ≡ (
          starts_crlf behind.buffer behind.offset >>= λ last. elim last [
            | true ↦ ok (record behind { offset = behind.offset + 2 })
            | false ↦ parse_headers fuel behind
          ])
  unfolding parse_headers
  parse_headers-field fuel e = rw (e, strtok_line, ◌>>=◌) (rw (parse_header-field, ◌>>=◌))
