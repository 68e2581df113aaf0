-- ===== src/Tokens/Laws.antt =====
-- `strtok` on a buffer that is cut where it reads: a token between delimiters, and one before the
-- NUL.
use native.Mathlib.Nat.{zero-add, add-zero}
use ntu_computer_network.Base.{
  length-store, inr, inl, store-ends, if-eq-ok, if-ends, fetch-lt, endless, >>=-eq-ok, >>=-ends,
  fetch-ends, ◌<◌, ne→==, ℕ, suc, ◌+◌, true, false, ◌||◌, ◌==◌, none, some, List, [], ◌∷◌, ◌++◌,
  drop, contains, length, All, Bytes, ok, fault, ◌>>=◌, fetch, store, ◌≡◌, ◌≢◌, refl, ap, ◌∙◌,
  arith, drop-append, fetch-append, store-append, length-append, append_assoc,
}
use ntu_computer_network.Tokens.{
  Buffer, Token, strspn, strcspn, cstring, string_at, token_at, strtok,
}

-- A byte of a token: not the NUL and no delimiter.
abbrev pub IsPlain : List ℕ → ℕ → Type 0
IsPlain ds c = (c ≢ 0) × (contains ds c ≡ false)

abbrev pub IsDelim : List ℕ → ℕ → Type 0
IsDelim ds c = contains ds c ≡ true

pub cstring-nul : (s : Bytes) (post : Buffer) → All (λ c. c ≢ 0) s → cstring (s ++ 0 ∷ post) ≡ ok s
unfolding cstring
cstring-nul [] post a = refl
cstring-nul (c ∷ s) post a = rw (ne→== c 0 a.0, cstring-nul s post a.1)

-- A string behind a prefix of the buffer.
pub string_at-nul :
    (pre : Buffer) (p : ℕ) (s : Bytes) (post : Buffer)
    → p ≡ length pre
    → All (λ c. c ≢ 0) s
    → string_at (pre ++ (s ++ 0 ∷ post)) p ≡ ok s
string_at-nul pre p s post e a = rw (e, drop-append pre (s ++ 0 ∷ post)) (cstring-nul s post a)

strcspn-plain :
    (ds : List ℕ) (tok : Bytes) (d : ℕ) (post : Buffer)
    → All (IsPlain ds) tok
    → (d == 0 || contains ds d) ≡ true
    → strcspn ds (tok ++ d ∷ post) ≡ length tok
unfolding strcspn
strcspn-plain ds [] d post a e = rw e
strcspn-plain ds (c ∷ tok) d post a e =
    rw (ne→== c 0 a.0.0, a.0.1) (ap suc (strcspn-plain ds tok d post a.1 e))

strspn-delims :
    (ds skip : List ℕ) (c : ℕ) (post : Buffer)
    → All (IsDelim ds) skip
    → contains ds c ≡ false
    → strspn ds (skip ++ c ∷ post) ≡ length skip
unfolding strspn
strspn-delims ds [] c post a e = rw e
strspn-delims ds (s ∷ skip) c post a e = rw a.0 (ap suc (strspn-delims ds skip c post a.1 e))

fetch-behind :
    (pre tok : Buffer) (d : ℕ) (post : Buffer)
    → fetch (pre ++ (tok ++ d ∷ post)) (length pre + length tok) ≡ ok d
fetch-behind pre tok d post =
    rw (← append_assoc pre tok (d ∷ post), ← length-append pre tok)
      (fetch-append (pre ++ tok) d post)

store-behind :
    (pre tok : Buffer) (d v : ℕ) (post : Buffer)
    → store (pre ++ (tok ++ d ∷ post)) (length pre + length tok) v ≡ ok (pre ++ (tok ++ v ∷ post))
store-behind pre tok d v post =
    rw
      (
        ← append_assoc pre tok (d ∷ post),
        ← length-append pre tok,
        ← append_assoc pre tok (v ∷ post),
      )
      (store-append (pre ++ tok) d v post)

module _ (ds : List ℕ) (pre : Buffer) (c : ℕ) (tok : Bytes) (post : Buffer)
    (plain : All (IsPlain ds) (c ∷ tok)) where
  token_at-delim :
      (d : ℕ)
      → d ≢ 0
      → contains ds d ≡ true
      → token_at (pre ++ ((c ∷ tok) ++ d ∷ post)) (length pre) ds
        ≡ ok (record {
          start = some (length pre);
          buffer = pre ++ ((c ∷ tok) ++ 0 ∷ post);
          save = length pre + length (c ∷ tok) + 1;
        })
  unfolding token_at
  token_at-delim d nonzero delim =
      rw (fetch-append pre c (tok ++ d ∷ post), ◌>>=◌)
        (rw
          (
            ne→== c 0 plain.0.0,
            drop-append pre (c ∷ (tok ++ d ∷ post)),
            strcspn-plain ds (c ∷ tok) d post plain (rw (delim, ne→== d 0 nonzero)),
            fetch-behind pre (c ∷ tok) d post,
            ◌>>=◌,
          )
          (rw (ne→== d 0 nonzero, store-behind pre (c ∷ tok) d 0 post)))

  token_at-nul :
      token_at (pre ++ ((c ∷ tok) ++ 0 ∷ post)) (length pre) ds
      ≡ ok (record {
        start = some (length pre);
        buffer = pre ++ ((c ∷ tok) ++ 0 ∷ post);
        save = length pre + length (c ∷ tok);
      })
  unfolding token_at
  token_at-nul =
      rw (fetch-append pre c (tok ++ 0 ∷ post), ◌>>=◌)
        (rw (
          ne→== c 0 plain.0.0,
          drop-append pre (c ∷ (tok ++ 0 ∷ post)),
          strcspn-plain ds (c ∷ tok) 0 post plain refl,
          fetch-behind pre (c ∷ tok) 0 post,
        ))

module _ (ds : List ℕ) (pre skip : Buffer) (c : ℕ) (tok : Bytes) (post : Buffer)
    (delims : All (IsDelim ds) skip) (plain : All (IsPlain ds) (c ∷ tok)) where
  skips :
      (d : ℕ)
      → strtok (pre ++ (skip ++ ((c ∷ tok) ++ d ∷ post))) (length pre) ds
        ≡ token_at ((pre ++ skip) ++ ((c ∷ tok) ++ d ∷ post)) (length (pre ++ skip)) ds
  unfolding strtok
  skips d = rw (
    drop-append pre (skip ++ ((c ∷ tok) ++ d ∷ post)),
    strspn-delims ds skip c (tok ++ d ∷ post) delims plain.0.1,
    append_assoc pre skip ((c ∷ tok) ++ d ∷ post),
    length-append pre skip,
  )

  -- A token between delimiters: those before it are skipped, the one behind it becomes a NUL.
  pub strtok-delim :
      (d : ℕ)
      → d ≢ 0
      → contains ds d ≡ true
      → strtok (pre ++ (skip ++ ((c ∷ tok) ++ d ∷ post))) (length pre) ds
        ≡ ok (record {
          start = some (length (pre ++ skip));
          buffer = (pre ++ skip) ++ ((c ∷ tok) ++ 0 ∷ post);
          save = length (pre ++ skip) + length (c ∷ tok) + 1;
        })
  strtok-delim d nonzero delim =
      skips d ∙ token_at-delim ds (pre ++ skip) c tok post plain d nonzero delim

  -- A token before the NUL: the buffer stays as it is.
  pub strtok-nul :
      strtok (pre ++ (skip ++ ((c ∷ tok) ++ 0 ∷ post))) (length pre) ds
      ≡ ok (record {
        start = some (length (pre ++ skip));
        buffer = (pre ++ skip) ++ ((c ∷ tok) ++ 0 ∷ post);
        save = length (pre ++ skip) + length (c ∷ tok);
      })
  strtok-nul = skips 0 ∙ token_at-nul ds (pre ++ skip) c tok post plain

-- At the NUL there is no token.
pub strtok_at_nul :
    (ds : List ℕ) (pre post : Buffer)
    → contains ds 0 ≡ false
    → strtok (pre ++ 0 ∷ post) (length pre) ds
      ≡ ok (record { start = none; buffer = pre ++ 0 ∷ post; save = length pre })
unfolding strtok token_at
strtok_at_nul ds pre post e =
    rw (
      drop-append pre (0 ∷ post),
      strspn-delims ds [] 0 post tt e,
      add-zero,
      fetch-append pre 0 post,
    )

-- Delimiters only, up to the NUL.
pub strtok-delims :
    (ds skip : List ℕ) (post : Buffer)
    → All (IsDelim ds) skip
    → contains ds 0 ≡ false
    → strtok (skip ++ 0 ∷ post) 0 ds
      ≡ ok (record { start = none; buffer = skip ++ 0 ∷ post; save = length skip })
unfolding strtok token_at
strtok-delims ds skip post a e =
    rw (strspn-delims ds skip 0 post a e, zero-add, fetch-append skip 0 post)

-- `strtok` keeps the size of the buffer, and starts inside it.
pub length-strtok :
    (buffer : Buffer) (p : ℕ) (ds : List ℕ) {t : Token}
    → strtok buffer p ds ≡ ok t
    → (length t.buffer ≡ length buffer) × (p < length buffer)
unfolding strtok token_at
length-strtok buffer p ds e =
    let (c, at_q, run) = >>=-eq-ok (fetch buffer (p + strspn ds (drop p buffer))) _ e in
    let inside = fetch-lt buffer (p + strspn ds (drop p buffer)) at_q in
    elim (if-eq-ok _ _ (c == 0) run) [
      | inl r ↦ (ground arith, omega arith)
      | inr r ↦
          let (d, at_e, run') = >>=-eq-ok (fetch buffer _) _ r in
          elim (if-eq-ok _ _ (d == 0) run') [
            | inl r' ↦ (ground arith, omega arith)
            | inr r' ↦
                let (cut, stored, end) = >>=-eq-ok (store buffer _ 0) _ r' in
                (ground (arith, length-store buffer _ 0 stored), omega arith)
          ]
    ]

pub strtok-ends : (buffer : Buffer) (p : ℕ) (ds : List ℕ) → strtok buffer p ds ≢ fault endless
unfolding strtok token_at
strtok-ends buffer p ds =
    >>=-ends (fetch buffer (p + strspn ds (drop p buffer))) _ (fetch-ends buffer _) λ c _.
      if-ends _ _ (c == 0) (λ e. cc)
        (>>=-ends (fetch buffer _) _ (fetch-ends buffer _) λ d _.
          if-ends _ _ (d == 0) (λ e. cc)
            (>>=-ends (store buffer _ 0) _ (store-ends buffer _ 0) (λ _ _ e. cc)))

pub cstring-ends : (buffer : Buffer) → cstring buffer ≢ fault endless
unfolding cstring
cstring-ends [] = λ e. cc
cstring-ends (c ∷ cs) =
    if-ends _ _ (c == 0) (λ e. cc) (>>=-ends (cstring cs) _ (cstring-ends cs) (λ _ _ e. cc))
