-- ===== src/Tokens/Bounds.antt =====
-- `strtok` and the reading of strings stay inside a buffer that ends in three NULs or more.
use ntu_computer_network.Base.{
  ℕ, zero, suc, ◌+◌, ◌-◌, ◌≤◌, ◌<◌, ◌≡◌, refl, ap, sym, ltb, ◌∙◌, inl, inr, false, some, List, [],
  ◌∷◌, arith, ◌==◌, ==_iff, Bool-cases, Bytes, length, drop, set, contains, Exec, ok, ◌>>=◌, fetch,
  store-set, fetch-lt, Yields, gives, Yields-if,
}
use ntu_computer_network.Tokens.{
  Buffer, Token, strspn, strcspn, cstring, string_at, strtok, token_at,
}

-- The bytes at `end` and the two behind it are NUL.
pub record IsPadded (end : ℕ) (buffer : Buffer) : Type 0 where
  pub first : fetch buffer end ≡ ok 0
  pub second : fetch buffer (end + 1) ≡ ok 0
  pub third : fetch buffer (end + 2) ≡ ok 0

fetch-drop : (buffer : Buffer) (p n : ℕ) → p ≤ n → fetch (drop p buffer) (n - p) ≡ fetch buffer n
unfolding fetch
fetch-drop buffer zero n h = ap (fetch buffer) (omega arith)
fetch-drop [] (suc p) n h = refl
fetch-drop (c ∷ cs) (suc p) zero h = absurd (omega arith)
fetch-drop (c ∷ cs) (suc p) (suc n) h =
    ap (fetch (drop p cs)) (omega arith) ∙ fetch-drop cs p n (omega arith)

pub fetch-le :
    (buffer : Buffer) (p n : ℕ) {c : ℕ}
    → fetch buffer n ≡ ok c
    → p ≤ n
    → (d : ℕ) × (fetch buffer p ≡ ok d)
unfolding fetch
fetch-le [] p n e h = absurd (cc)
fetch-le (b ∷ bs) zero n e h = (b, refl)
fetch-le (b ∷ bs) (suc p) zero e h = absurd (omega arith)
fetch-le (b ∷ bs) (suc p) (suc n) e h = fetch-le bs p n e (omega arith)

fetch-set : (buffer : Buffer) (i n : ℕ) → fetch buffer n ≡ ok 0 → fetch (set buffer i 0) n ≡ ok 0
unfolding fetch
fetch-set [] i n e = e
fetch-set (b ∷ bs) zero zero e = refl
fetch-set (b ∷ bs) zero (suc n) e = e
fetch-set (b ∷ bs) (suc i) zero e = e
fetch-set (b ∷ bs) (suc i) (suc n) e = fetch-set bs i n e

set-IsPadded :
    {end : ℕ} {buffer : Buffer} (i : ℕ) → IsPadded end buffer → IsPadded end (set buffer i 0)
set-IsPadded i v = record {
  first = fetch-set _ i _ v.first;
  second = fetch-set _ i _ v.second;
  third = fetch-set _ i _ v.third;
}

strspn-le :
    (ds : List ℕ) (buffer : Buffer) (n : ℕ)
    → contains ds 0 ≡ false
    → fetch buffer n ≡ ok 0
    → strspn ds buffer ≤ n
unfolding strspn fetch
strspn-le ds [] n h e = omega arith
strspn-le ds (c ∷ cs) zero h e = let nul : c ≡ 0 = cc in rw (nul, h) (omega arith)
strspn-le ds (c ∷ cs) (suc n) h e = ground (arith, strspn-le ds cs n h e)

strcspn-le : (ds : List ℕ) (buffer : Buffer) (n : ℕ) → fetch buffer n ≡ ok 0 → strcspn ds buffer ≤ n
unfolding strcspn fetch
strcspn-le ds [] n e = omega arith
strcspn-le ds (c ∷ cs) zero e = let nul : c ≡ 0 = cc in rw nul (omega arith)
strcspn-le ds (c ∷ cs) (suc n) e = ground (arith, strcspn-le ds cs n e)

cstring-le :
    (buffer : Buffer) (n : ℕ)
    → fetch buffer n ≡ ok 0
    → (text : Bytes) × (cstring buffer ≡ ok text) × (length text ≤ n)
unfolding cstring fetch
cstring-le [] n e = absurd (cc)
cstring-le (c ∷ cs) zero e = let nul : c ≡ 0 = cc in ([], rw nul refl, omega arith)
cstring-le (c ∷ cs) (suc n) e = elim (Bool-cases (c == 0)) [
  | inl nul ↦ rw nul ([], refl, omega arith)
  | inr more ↦
      let (text, run, short) = cstring-le cs n e in rw (more, run) (c ∷ text, refl, omega arith)
]

-- A string that starts inside the padding ends there, and one that starts before ends before it.
pub string_at-Yields :
    {end : ℕ} {buffer : Buffer} (p : ℕ)
    → IsPadded end buffer
    → p ≤ end
    → Yields (λ text. p + length text ≤ end) (string_at buffer p)
string_at-Yields {end} {buffer} p v h =
    let (text, run, short) =
      cstring-le (drop p buffer) (end - p) (fetch-drop buffer p end h ∙ v.first) in
    rw run (gives (omega arith))

-- What `strtok` makes of such a buffer: a token starts before the padding, and `save` is at it or
-- before it, or where the search started.
pub record IsInside (end p : ℕ) (t : Token) : Type 0 where
  pub padded : IsPadded end t.buffer
  pub save : t.save ≤ end + 2
  pub token : (q : ℕ) → t.start ≡ some q → (p ≤ q) × (q < end) × (t.save ≤ end)

strcspn-short :
    {end : ℕ} {buffer : Buffer} (q : ℕ) (ds : List ℕ)
    → IsPadded end buffer
    → q < end
    → q + strcspn ds (drop q buffer) ≤ end
strcspn-short {end} {buffer} q ds v h = omega (
  arith,
  strcspn-le ds (drop q buffer) (end - q) (fetch-drop buffer q end (omega arith) ∙ v.first),
)

ok-inj : {a b : ℕ} → ◌≡◌ {A = Exec ℕ} (ok a) (ok b) → a ≡ b
ok-inj e = cc

fetch_in_padding :
    {end : ℕ} {buffer : Buffer} (q : ℕ)
    → IsPadded end buffer
    → end ≤ q
    → q ≤ end + 2
    → fetch buffer q ≡ ok 0
fetch_in_padding {end} {buffer} q v h k = elim (Bool-cases (q == end)) [
  | inl e ↦ rw ((==_iff q end).0 e) v.first
  | inr ne ↦ elim (Bool-cases (q == end + 1)) [
    | inl e ↦ rw ((==_iff q (end + 1)).0 e) v.second
    | inr ne' ↦ let e : q ≡ end + 2 = ground arith in rw e v.third
  ]
]

strspn-inside :
    {end : ℕ} {buffer : Buffer} (p : ℕ) (ds : List ℕ)
    → IsPadded end buffer
    → contains ds 0 ≡ false
    → p ≤ end + 2
    → p + strspn ds (drop p buffer) ≤ end + 2
strspn-inside {end} {buffer} p ds v h inside = omega (
  arith,
  strspn-le ds (drop p buffer) (end + 2 - p) h (fetch-drop buffer p (end + 2) inside ∙ v.third),
)

-- A byte that is not NUL stands before the padding.
pub before_padding :
    {end : ℕ} {buffer : Buffer} (q c : ℕ)
    → IsPadded end buffer
    → q ≤ end + 2
    → fetch buffer q ≡ ok c
    → (c == 0) ≡ false
    → q < end
before_padding {end} {buffer} q c v h e more = elim (Bool-cases (ltb q end)) [
  | inl lt ↦ ground arith
  | inr ge ↦
      let nul : c ≡ 0 = ok-inj (sym e ∙ fetch_in_padding q v (ground arith) h) in
      absurd (ground arith)
]

token-IsInside :
    {end : ℕ} {buffer : Buffer} (p q save : ℕ)
    → IsPadded end buffer
    → p ≤ q
    → q < end
    → save ≤ end
    → IsInside end p (record { start = some q; buffer = buffer; save = save })
token-IsInside p q save v below before short = record {
  padded = v;
  save = omega arith;
  token = λ q' e. let same : q ≡ q' = cc in omega arith;
}

token_at-Yields :
    {end : ℕ} {buffer : Buffer} (p q : ℕ) (ds : List ℕ)
    → IsPadded end buffer
    → p ≤ q
    → q ≤ end + 2
    → Yields (IsInside end p) (token_at buffer q ds)
unfolding token_at
token_at-Yields {end} {buffer} p q ds v below inside =
    let (c, at_q) = fetch-le buffer q (end + 2) v.third inside in
    rw (at_q, ◌>>=◌)
      (Yields-if (c == 0)
        (λ nul. gives (record { padded = v; save = inside; token = λ q' e. absurd (cc) }))
        (λ more.
          let before = before_padding q c v inside at_q more in
          let short = strcspn-short q ds v before in
          let (d, at_e) = fetch-le buffer (q + strcspn ds (drop q buffer)) end v.first short in
          rw (at_e, ◌>>=◌)
            (Yields-if (d == 0) (λ nul. gives (token-IsInside p q _ v below before (omega arith)))
              (λ cut.
                let inner =
                  before_padding (q + strcspn ds (drop q buffer)) d v (omega arith) at_e cut in
                rw
                  (
                    store-set buffer (q + strcspn ds (drop q buffer)) 0 (fetch-lt buffer _ at_e),
                    ◌>>=◌,
                  )
                  (gives (
                    token-IsInside p q _ (set-IsPadded (q + strcspn ds (drop q buffer)) v) below
                      before (omega arith)))))))

pub strtok-Yields :
    {end : ℕ} {buffer : Buffer} (p : ℕ) (ds : List ℕ)
    → IsPadded end buffer
    → contains ds 0 ≡ false
    → p ≤ end + 2
    → Yields (IsInside end p) (strtok buffer p ds)
unfolding strtok
strtok-Yields {end} {buffer} p ds v h inside =
    token_at-Yields p (p + strspn ds (drop p buffer)) ds v (omega arith)
      (strspn-inside p ds v h inside)
