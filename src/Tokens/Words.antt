-- ===== src/Tokens/Words.antt =====
-- The laws of `strtok` and of reading a string, for a buffer that is given with an equation that
-- takes it apart.
use ntu_computer_network.Base.{
  ℕ, ◌+◌, ◌≡◌, ap, ◌∙◌, ◌≢◌, true, false, none, some, List, [], ◌∷◌, ◌++◌, append_assoc, arith,
  Bytes, length, All, All-append, All-imp, length-append, ok, contains,
}
use ntu_computer_network.Tokens.{Buffer, string_at, strtok}
use ntu_computer_network.Tokens.Laws.{
  IsPlain, IsDelim, strtok-delim, strtok-nul, strtok_at_nul, string_at-nul,
}

-- A token that is not empty.
abbrev pub IsWord : List ℕ → Bytes → Type 0
IsWord ds [] = ⊥
IsWord ds (c ∷ tok) = All (IsPlain ds) (c ∷ tok)

pub IsWord-All : (ds : List ℕ) (tok : Bytes) → IsWord ds tok → All (IsPlain ds) tok
IsWord-All ds [] w = absurd w
IsWord-All ds (c ∷ tok) w = w

pub IsWord-append :
    (ds : List ℕ) (tok more : Bytes)
    → IsWord ds tok
    → All (IsPlain ds) more
    → IsWord ds (tok ++ more)
IsWord-append ds [] more w a = absurd w
IsWord-append ds (c ∷ tok) more w a = (w.0, All-append (IsPlain ds) tok more w.1 a)

pub IsWord-imp :
    (ds ds' : List ℕ) (tok : Bytes)
    → ((c : ℕ) → IsPlain ds c → IsPlain ds' c)
    → IsWord ds tok
    → IsWord ds' tok
IsWord-imp ds ds' [] imp w = absurd w
IsWord-imp ds ds' (c ∷ tok) imp w = All-imp imp (c ∷ tok) w

pub IsPlain-nonzero : (ds : List ℕ) (tok : Bytes) → All (IsPlain ds) tok → All (λ c. c ≢ 0) tok
IsPlain-nonzero ds tok = All-imp (λ c p. p.0) tok

-- A token behind delimiters that are skipped, before another delimiter.
pub strtok-skip :
    (buffer : Buffer) (p : ℕ) (ds : List ℕ) (pre skip tok : Bytes) (d : ℕ) (post cut : Buffer)
    → buffer ≡ pre ++ (skip ++ (tok ++ d ∷ post))
    → p ≡ length pre
    → All (IsDelim ds) skip
    → IsWord ds tok
    → d ≢ 0
    → contains ds d ≡ true
    → cut ≡ pre ++ (skip ++ (tok ++ 0 ∷ post))
    → strtok buffer p ds
      ≡ ok (record {
        start = some (p + length skip);
        buffer = cut;
        save = p + length skip + length tok + 1;
      })
strtok-skip buffer p ds pre skip [] d post cut e at s w nz del e' = absurd w
strtok-skip buffer p ds pre skip (c ∷ tok) d post cut e at s w nz del e' = rw (
  e,
  at,
  e',
  strtok-delim ds pre skip c tok post s w d nz del,
  length-append pre skip,
  append_assoc pre skip (c ∷ (tok ++ 0 ∷ post)),
)

-- A token at the pointer, before a delimiter, which becomes a NUL.
pub strtok-word :
    (buffer : Buffer) (p : ℕ) (ds : List ℕ) (pre tok : Bytes) (d : ℕ) (post cut : Buffer)
    → buffer ≡ pre ++ (tok ++ d ∷ post)
    → p ≡ length pre
    → IsWord ds tok
    → d ≢ 0
    → contains ds d ≡ true
    → cut ≡ pre ++ (tok ++ 0 ∷ post)
    → strtok buffer p ds ≡ ok (record { start = some p; buffer = cut; save = p + length tok + 1 })
strtok-word buffer p ds pre tok d post cut e at w nz del e' =
    strtok-skip buffer p ds pre [] tok d post cut e at tt w nz del e'
    ∙ ap (λ q. ok (record { start = some q; buffer = cut; save = q + length tok + 1 }))
        (omega arith)

-- A token behind delimiters that are skipped, before the NUL.
pub strtok_last-skip :
    (buffer : Buffer) (p : ℕ) (ds : List ℕ) (pre skip tok : Bytes) (post : Buffer)
    → buffer ≡ pre ++ (skip ++ (tok ++ 0 ∷ post))
    → p ≡ length pre
    → All (IsDelim ds) skip
    → IsWord ds tok
    → strtok buffer p ds
      ≡ ok (record {
        start = some (p + length skip);
        buffer = buffer;
        save = p + length skip + length tok;
      })
strtok_last-skip buffer p ds pre skip [] post e at s w = absurd w
strtok_last-skip buffer p ds pre skip (c ∷ tok) post e at s w =
    rw (e, at)
      (rw (
        strtok-nul ds pre skip c tok post s w,
        length-append pre skip,
        append_assoc pre skip (c ∷ (tok ++ 0 ∷ post)),
      ))

-- A token at the pointer, before the NUL.
pub strtok_last-word :
    (buffer : Buffer) (p : ℕ) (ds : List ℕ) (pre tok : Bytes) (post : Buffer)
    → buffer ≡ pre ++ (tok ++ 0 ∷ post)
    → p ≡ length pre
    → IsWord ds tok
    → strtok buffer p ds ≡ ok (record { start = some p; buffer = buffer; save = p + length tok })
strtok_last-word buffer p ds pre tok post e at w =
    strtok_last-skip buffer p ds pre [] tok post e at tt w
    ∙ ap (λ q. ok (record { start = some q; buffer = buffer; save = q + length tok })) (omega arith)

pub strtok-none :
    (buffer : Buffer) (p : ℕ) (ds : List ℕ) (pre : Bytes) (post : Buffer)
    → buffer ≡ pre ++ 0 ∷ post
    → p ≡ length pre
    → contains ds 0 ≡ false
    → strtok buffer p ds ≡ ok (record { start = none; buffer = buffer; save = p })
strtok-none buffer p ds pre post e at n = rw (e, at) (strtok_at_nul ds pre post n)

pub string_at-word :
    (buffer : Buffer) (p : ℕ) (pre s : Bytes) (post : Buffer)
    → buffer ≡ pre ++ (s ++ 0 ∷ post)
    → p ≡ length pre
    → All (λ c. c ≢ 0) s
    → string_at buffer p ≡ ok s
string_at-word buffer p pre s post e at a = rw e (string_at-nul pre p s post at a)
