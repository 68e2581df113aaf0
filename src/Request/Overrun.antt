-- ===== src/Request/Overrun.antt =====
-- Requests that `request_parse` reads on past the end of the buffer.
use ntu_computer_network.Base.{
  ℕ, zero, suc, ◌+◌, ◌≤◌, ◌≡◌, refl, List, [], ◌∷◌, ◌++◌, arith, Bytes, length, length-append, drop,
  out_of_bounds, fault, ◌>>=◌, fetch,
}
use ntu_computer_network.Tokens.{Buffer, strtok, token_at, strspn}
use ntu_computer_network.Tokens.Words.{IsWord}
use ntu_computer_network.Request.{request_parse, parse_headers, crlf}
use ntu_computer_network.Request.Line.{separators, request_line, cut_buffer, parse_request_line-nul}

fetch-outside : (buffer : Buffer) (p : ℕ) → length buffer ≤ p → fetch buffer p ≡ fault out_of_bounds
unfolding fetch
fetch-outside [] p h = refl
fetch-outside (c ∷ cs) zero h = absurd (omega arith)
fetch-outside (c ∷ cs) (suc p) h = fetch-outside cs p (omega arith)

strtok-outside :
    (buffer : Buffer) (p : ℕ) (ds : List ℕ)
    → length buffer ≤ p
    → strtok buffer p ds ≡ fault out_of_bounds
unfolding strtok token_at
strtok-outside buffer p ds h =
    rw (fetch-outside buffer (p + strspn ds (drop p buffer)) (omega arith), ◌>>=◌)

length-cut_buffer :
    (m p v : Bytes) (a b c : ℕ) (tail : Buffer)
    → length (cut_buffer m p v a b c tail) ≡ length (request_line m p v) + 1 + length tail
length-cut_buffer m p v a b c tail = omega (
  arith,
  length-append m (a ∷ (p ++ b ∷ (v ++ c ∷ tail))),
  length-append p (b ∷ (v ++ c ∷ tail)),
  length-append v (c ∷ tail),
  length-append m (b' ' ∷ (p ++ b' ' ∷ v)),
  length-append p (b' ' ∷ v),
)

-- A request line without a line end, and at most one byte behind its NUL: the header loop starts two
-- bytes behind the line, which is outside the buffer.
pub request_parse_overruns :
    (m p v : Bytes) (tail : Buffer)
    → IsWord separators m
    → IsWord separators p
    → IsWord separators v
    → length tail ≤ 1
    → request_parse (cut_buffer m p v b' ' b' ' 0 tail) ≡ fault out_of_bounds
unfolding request_parse parse_headers
request_parse_overruns m p v tail wm wp wv short =
    rw (parse_request_line-nul m p v wm wp wv tail, ◌>>=◌)
      (rw (
        strtok-outside (cut_buffer m p v 0 0 0 tail) (length (request_line m p v) + 2) crlf
            (omega (arith, length-cut_buffer m p v 0 0 0 tail)),
        ◌>>=◌,
      ))
