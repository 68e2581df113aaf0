-- ===== src/Request/Loop.antt =====
-- The header loop of `request_parse` on one field and more, and the body behind them.
use ntu_computer_network.Base.{
  ℕ, zero, suc, ◌+◌, ◌<◌, ◌≡◌, refl, ap₂, ◌∙◌, ◌≢◌, true, false, some, List, [], ◌∷◌, ◌++◌,
  append_assoc, arith, ◌==◌, Bytes, length, All, All-imp, length-append, ok, ◌>>=◌, fetch,
  fetch-append, contains,
}
use ntu_computer_network.Headers
use ntu_computer_network.Headers.{Headers}
use ntu_computer_network.Tokens.{Buffer}
use ntu_computer_network.Tokens.Laws.{IsPlain}
use ntu_computer_network.Tokens.Words.{IsWord, strtok_last-word, strtok-none, string_at-word}
use ntu_computer_network.Request.{Progress, crlf, parse_headers, parse_body, starts_crlf}
use ntu_computer_network.Request.Fields.{
  name_ends, field_line, field_buffer, IsField, parse_headers-field,
}

-- The fields and the empty line, before what follows.
abbrev pub lines_before : List (Bytes × Bytes) → Buffer → Buffer
lines_before [] rest = b'\r' ∷ b'\n' ∷ rest
lines_before ((n, v) ∷ fs) rest = n ++ b':' ∷ b' ' ∷ (v ++ b'\r' ∷ b'\n' ∷ lines_before fs rest)

abbrev pub set_fields : Headers → List (Bytes × Bytes) → Headers
set_fields hs [] = hs
set_fields hs ((n, v) ∷ fs) = set_fields (Headers.set hs (some n) (some v)) fs

fetch_second :
    (pre : Buffer) (a b : ℕ) (rest : Buffer) → fetch (pre ++ a ∷ b ∷ rest) (length pre + 1) ≡ ok b
fetch_second pre a b rest =
    let one_on : length pre + 1 ≡ length (pre ++ a ∷ []) =
      omega (arith, length-append pre (a ∷ [])) in
    rw (one_on, ← append_assoc pre (a ∷ []) (b ∷ rest)) (fetch-append (pre ++ a ∷ []) b rest)

starts_crlf-crlf :
    (pre rest : Buffer) (p : ℕ)
    → p ≡ length pre
    → starts_crlf (pre ++ b'\r' ∷ b'\n' ∷ rest) p ≡ ok true
unfolding starts_crlf
starts_crlf-crlf pre rest p e =
    rw (e, fetch-append pre b'\r' (b'\n' ∷ rest), ◌>>=◌) (rw (fetch_second pre b'\r' b'\n' rest))

not_return : (c : ℕ) → IsPlain name_ends c → (c == b'\r') ≡ false
unfolding contains
not_return c h = ground arith

starts_crlf-word :
    (pre word rest : Buffer) (p : ℕ)
    → p ≡ length pre
    → IsWord name_ends word
    → starts_crlf (pre ++ (word ++ rest)) p ≡ ok false
unfolding starts_crlf contains
starts_crlf-word pre [] rest p e w = absurd w
starts_crlf-word pre (c ∷ word) rest p e w =
    rw (e, fetch-append pre c (word ++ rest), ◌>>=◌) (rw (not_return c w.0))

-- What stands in the buffer behind a field that is read.
abbrev pub read_part : Buffer → Bytes → Bytes → Buffer
read_part pre n v = pre ++ (n ++ 0 ∷ b' ' ∷ (v ++ 0 ∷ b'\n' ∷ []))

length-read_part :
    (offset : ℕ) (pre : Buffer) (n v : Bytes)
    → offset ≡ length pre
    → offset + length (field_line n v) + 2 ≡ length (read_part pre n v)
length-read_part offset pre n v here = omega (
  arith,
  length-append pre (n ++ 0 ∷ b' ' ∷ (v ++ 0 ∷ b'\n' ∷ [])),
  length-append n (0 ∷ b' ' ∷ (v ++ 0 ∷ b'\n' ∷ [])),
  length-append v (0 ∷ b'\n' ∷ []),
  length-append n (b':' ∷ b' ' ∷ v),
)

-- The loop on one field and more.
pub loop_fields :
    (fs : List (Bytes × Bytes)) (n v : Bytes) (fuel : ℕ) (s : Progress) (pre rest : Buffer)
    → All IsField ((n, v) ∷ fs)
    → s.buffer ≡ pre ++ lines_before ((n, v) ∷ fs) rest
    → s.offset ≡ length pre
    → length fs < fuel
    → (pre' : Buffer) × (parse_headers fuel s
        ≡ ok (record {
          buffer = pre' ++ rest;
          offset = length pre';
          headers = set_fields s.headers ((n, v) ∷ fs);
        }))
loop_fields fs n v zero s pre rest good e here h = elim h [ ]
loop_fields [] n v (suc fuel) s pre rest good e here h = (
  read_part pre n v ++ crlf,
  parse_headers-field s pre n v _ good.0.0 good.0.1 here fuel e
      ∙ rw (starts, ◌>>=◌)
          (ap₂
            (λ b o. ok (record {
              buffer = b;
              offset = o;
              headers = Headers.set s.headers (some n) (some v);
            }))
            (simp append_assoc) (omega (arith, at, length-append (read_part pre n v) crlf))),
)
  where
    at : s.offset + length (field_line n v) + 2 ≡ length (read_part pre n v)
    at = length-read_part s.offset pre n v here

    same :
        field_buffer pre n v 0 0 (lines_before [] rest) ≡ read_part pre n v ++ lines_before [] rest
    same = simp append_assoc

    starts :
        starts_crlf
          (field_buffer pre n v 0 0 (lines_before [] rest))
          (s.offset + length (field_line n v) + 2)
        ≡ ok true
    starts = rw same (starts_crlf-crlf (read_part pre n v) rest _ at)
loop_fields ((n', v') ∷ fs) n v (suc fuel) s pre rest good e here h =
    let (pre', run) =
      loop_fields fs n' v' fuel next (read_part pre n v) rest good.1 same at (omega arith) in
    (pre', parse_headers-field s pre n v _ good.0.0 good.0.1 here fuel e ∙ rw (starts, ◌>>=◌) run)
  where
    more : List (Bytes × Bytes)
    more = (n', v') ∷ fs

    next : Progress
    next = record {
      buffer = field_buffer pre n v 0 0 (lines_before more rest);
      offset = s.offset + length (field_line n v) + 2;
      headers = Headers.set s.headers (some n) (some v);
    }

    at : s.offset + length (field_line n v) + 2 ≡ length (read_part pre n v)
    at = length-read_part s.offset pre n v here

    same :
        field_buffer pre n v 0 0 (lines_before more rest)
        ≡ read_part pre n v ++ lines_before more rest
    same = simp append_assoc

    starts :
        starts_crlf
          (field_buffer pre n v 0 0 (lines_before more rest))
          (s.offset + length (field_line n v) + 2)
        ≡ ok false
    starts = rw same (starts_crlf-word (read_part pre n v) n' _ _ at good.1.0.0)

pub parse_body-text :
    (s : Progress) (pre : Buffer) (body : Bytes) (pad : Buffer)
    → s.buffer ≡ pre ++ (body ++ 0 ∷ pad)
    → s.offset ≡ length pre
    → All (λ c. c ≢ 0) body
    → parse_body s ≡ ok body
unfolding parse_body contains
parse_body-text s pre [] pad e here a =
    rw (strtok-none s.buffer s.offset [] pre pad e here refl, ◌>>=◌)
parse_body-text s pre (c ∷ body) pad e here a =
    rw
      (
        strtok_last-word s.buffer s.offset [] pre (c ∷ body) pad e here
            (All-imp {P = λ c. c ≢ 0} {Q = IsPlain []} (λ c h. (h, refl)) (c ∷ body) a),
        ◌>>=◌,
      )
      (rw (string_at-word s.buffer s.offset pre (c ∷ body) pad e here a))
