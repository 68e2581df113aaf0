-- ===== src/Headers/Delete/Loop.antt =====
-- The compacting loop of `headers_delete` in headers.c, round by round.
use native.Mathlib.Nat.{add_assoc}
use ntu_computer_network.Base.{
  sym, ◌>>=◌, ap₂, ◌<◌, Exec, ok, inl, inr, append_assoc, append-nil, length-append, ◌-◌,
  Bool-cases, length, ℕ, suc, ◌+◌, ◌≤◌, ◌≡◌, refl, ap, ◌∙◌, true, false, List, [], ◌∷◌, ◌++◌, Bytes,
  bytes_eq, contains, arith, All,
}
use ntu_computer_network.Headers.{Header, Headers, delete_from}
use ntu_computer_network.Headers.Delete.Slots.{
  others, matches, IsStale, shift, Compacted, has_owner-append, fetch-junk, store-junk,
  length-shift, IsStale-snoc, IsStale-shift,
}
use ntu_computer_network.Headers.Ownership.{Numbered}

module _ (kept junk : List Header) (h : Header) (rest : List Header) (name : Bytes) (next : ℕ)
    (freed : List ℕ) (live : contains freed h.owner ≡ false) where
  abbrev before : Headers
  before = record { fields = kept ++ (junk ++ h ∷ rest); next = next; freed = freed }

  -- One round that finds the name: the slot stays where it is, its strings freed.
  round_match :
      bytes_eq h.name name ≡ true
      → delete_from (suc (length rest)) (length kept + length junk) (length junk) name before
        ≡ delete_from
            (length rest)
            (length kept + length (junk ++ h ∷ []))
            (length (junk ++ h ∷ []))
            name
            (record {
              fields = kept ++ ((junk ++ h ∷ []) ++ rest);
              next = next;
              freed = h.owner ∷ freed;
            })
  unfolding delete_from
  round_match e =
      rw (fetch-junk kept junk h rest, live, ◌>>=◌)
        (rw (
          e,
          append_assoc junk (h ∷ []) rest,
          length-append junk (h ∷ []),
          add_assoc (length kept) (length junk) 1,
        ))

  -- One round that does not: the slot moves down over the first of the stale ones.
  round_keep :
      bytes_eq h.name name ≡ false
      → delete_from (suc (length rest)) (length kept + length junk) (length junk) name before
        ≡ delete_from
            (length rest)
            (length (kept ++ h ∷ []) + length (shift junk h))
            (length (shift junk h))
            name
            (record {
              fields = (kept ++ h ∷ []) ++ (shift junk h ++ rest);
              next = next;
              freed = freed;
            })
  unfolding delete_from
  round_keep e =
      let back : length kept + length junk - length junk ≡ length kept = omega arith in
      let count : length kept + length junk + 1 ≡ length kept + 1 + length junk = omega arith in
      rw (fetch-junk kept junk h rest, live, ◌>>=◌)
        (rw (e, back, store-junk kept junk h rest)
          (rw (length-shift junk h, length-append kept (h ∷ []), count)))

others_match :
    (name : Bytes) (h : Header) (rest : List Header)
    → bytes_eq h.name name ≡ true
    → (others name (h ∷ rest) ≡ others name rest)
      × (matches name (h ∷ rest) ≡ suc (matches name rest))
unfolding others matches
others_match name h rest e = rw e (refl, refl)

others_keep :
    (name : Bytes) (h : Header) (rest : List Header)
    → bytes_eq h.name name ≡ false
    → (others name (h ∷ rest) ≡ h ∷ others name rest)
      × (matches name (h ∷ rest) ≡ matches name rest)
unfolding others matches
others_keep name h rest e = rw e (refl, refl)

loop_nil :
    (kept junk : List Header) (name : Bytes) (i next : ℕ) (freed : List ℕ)
    → All (IsStale freed kept) junk
    → Compacted kept junk [] name (
        delete_from 0 i
          (length junk)
          name
          (record { fields = kept ++ (junk ++ []); next = next; freed = freed }))
unfolding others matches delete_from
loop_nil kept junk name i next freed stale = record {
  after = record { fields = kept ++ (junk ++ []); next = next; freed = freed };
  stale = junk;
  runs =
      ap (λ c. ok (c, record { fields = kept ++ (junk ++ []); next = next; freed = freed }))
        (omega arith);
  array = ap₂ ◌++◌ (sym (append-nil kept)) (append-nil junk);
  count = omega arith;
  aliased = rw append-nil stale;
}

-- A round that removes a slot, and one that keeps it, before a loop that ends well.
Compacted-match :
    (kept junk : List Header) (h : Header) (rest : List Header) (name : Bytes)
    (out : Exec (ℕ × Headers))
    → bytes_eq h.name name ≡ true
    → Compacted kept (junk ++ h ∷ []) rest name out
    → Compacted kept junk (h ∷ rest) name out
Compacted-match kept junk h rest name out e c =
    let (same, more) = others_match name h rest e in
    let total : length (junk ++ h ∷ []) + matches name rest
        ≡ length junk + matches name (h ∷ rest) =
      omega (arith, more, length-append junk (h ∷ [])) in
    record {
      after = c.after;
      stale = c.stale;
      runs = c.runs ∙ ap (λ t. ok (t, c.after)) total;
      array = rw same c.array;
      count = c.count ∙ total;
      aliased = rw same c.aliased;
    }

Compacted-keep :
    (kept junk : List Header) (h : Header) (rest : List Header) (name : Bytes)
    (out : Exec (ℕ × Headers))
    → bytes_eq h.name name ≡ false
    → Compacted (kept ++ h ∷ []) (shift junk h) rest name out
    → Compacted kept junk (h ∷ rest) name out
Compacted-keep kept junk h rest name out e c =
    let (same, less) = others_keep name h rest e in
    let moved : (kept ++ h ∷ []) ++ others name rest ≡ kept ++ others name (h ∷ rest) =
      rw same (append_assoc kept (h ∷ []) (others name rest)) in
    let total : length (shift junk h) + matches name rest ≡ length junk + matches name (h ∷ rest) =
      omega (arith, less, length-shift junk h) in
    record {
      after = c.after;
      stale = c.stale;
      runs = c.runs ∙ ap (λ t. ok (t, c.after)) total;
      array = c.array ∙ ap (λ fs. fs ++ c.stale) moved;
      count = c.count ∙ total;
      aliased = rw moved at c.aliased;
    }

freed_head : (o : ℕ) (freed : List ℕ) → contains (o ∷ freed) o ≡ true
unfolding contains
freed_head o freed = ground arith

freed_cons :
    (a : ℕ) (freed : List ℕ) (o : ℕ) → contains freed o ≡ true → contains (a ∷ freed) o ≡ true
unfolding contains
freed_cons a freed o e = ground arith

later :
    (a : ℕ) (freed : List ℕ) (o : ℕ)
    → a < o
    → contains freed o ≡ false
    → contains (a ∷ freed) o ≡ false
unfolding contains
later a freed o h e = ground arith

-- The loop, started on slots that are live and numbered from `k` on.
pub loop-Compacted :
    (rest kept junk : List Header) (name : Bytes) (k n next : ℕ) (freed : List ℕ)
    → Numbered k rest n
    → ((o : ℕ) → k ≤ o → contains freed o ≡ false)
    → All (IsStale freed kept) junk
    → Compacted kept junk rest name (
        delete_from
          (length rest)
          (length kept + length junk)
          (length junk)
          name
          (record { fields = kept ++ (junk ++ rest); next = next; freed = freed }))
loop-Compacted [] kept junk name k n next freed num live stale =
    loop_nil kept junk name _ next freed stale
loop-Compacted (h ∷ rest) kept junk name k n next freed num live stale =
    let here = live h.owner (omega (arith, num.0)) in
    elim (Bool-cases (bytes_eq h.name name)) [
      | inl e ↦ rw (round_match kept junk h rest name next freed here e) (
          Compacted-match kept junk h rest name _ e (
            loop-Compacted rest kept (junk ++ h ∷ []) name (suc k) n next (h.owner ∷ freed) num.1
              (λ o le. later h.owner freed o (omega (arith, num.0)) (live o (omega arith)))
              (IsStale-snoc freed (h.owner ∷ freed) kept kept (freed_cons h.owner freed) (λ o p. p)
                junk h stale (inl (freed_head h.owner freed)))))
      | inr e ↦ rw (round_keep kept junk h rest name next freed here e) (
          Compacted-keep kept junk h rest name _ e (
            loop-Compacted rest (kept ++ h ∷ []) (shift junk h) name (suc k) n next freed num.1
              (λ o le. live o (omega arith))
              (IsStale-shift freed freed kept (kept ++ h ∷ []) (λ o p. p)
                (λ o p. rw (has_owner-append o kept (h ∷ [])) (ground arith)) junk h stale
                (inr (rw (has_owner-append h.owner kept (h ∷ [])) (ground arith))))))
    ]

-- A stale slot stays so when the first of the slots that are kept is freed.
pub IsStale-next :
    (freed : List ℕ) (h : Header) (kept : List Header) (j : Header)
    → IsStale freed (h ∷ kept) j
    → IsStale (h.owner ∷ freed) kept j
unfolding contains
IsStale-next freed h kept j stale = ground arith
