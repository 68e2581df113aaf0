-- ===== src/Chat/Names.antt =====
-- The name that `strtok(new_name, "\n")` leaves at `new_name`, whatever text is there.
use ntu_computer_network.Base.{
  ℕ, ◌≤◌, ◌≡◌, refl, sym, ap, ◌∙◌, ◌≢◌, inl, inr, true, false, List, [], ◌∷◌, ◌++◌, append_assoc,
  arith, ◌==◌, if◌then◌else◌, ==_iff, Bool-cases, Bytes, codes, length, All, All-append, All-imp,
  ok, ◌>>=◌, contains,
}
use ntu_computer_network.Tokens.Laws.{IsPlain, IsDelim, cstring-nul, strtok-delims}
use ntu_computer_network.Tokens.Words.{
  IsWord, IsWord-All, IsPlain-nonzero, strtok-skip, strtok_last-skip, string_at-word,
}
use ntu_computer_network.Chat.{cut_name}

-- The text before the first line end.
unfoldable pub up_to_end : Bytes → Bytes
up_to_end [] = []
up_to_end (c ∷ cs) = if c == b'\n' then [] else c ∷ up_to_end cs

-- Line ends in front of the name stay: `strtok` skips them, but `new_name` still points to the first.
unfoldable pub name_of : Bytes → Bytes
name_of [] = []
name_of (c ∷ cs) = if c == b'\n' then c ∷ name_of cs else c ∷ up_to_end cs

pub length-up_to_end : (text : Bytes) → length (up_to_end text) ≤ length text
unfolding up_to_end
length-up_to_end [] = omega arith
length-up_to_end (c ∷ cs) = ground (arith, length-up_to_end cs)

abbrev line_ends : List ℕ
line_ends = codes "\n"

data Line (text : Bytes) : Type 0 where
  open_line : All (IsPlain line_ends) text → up_to_end text ≡ text → Line text
  closed_line :
      (tok more : Bytes)
      → text ≡ tok ++ b'\n' ∷ more
      → All (IsPlain line_ends) tok
      → up_to_end text ≡ tok
      → Line text

Line-cons : (c : ℕ) (cs : Bytes) → c ≢ 0 → (c == b'\n') ≡ false → Line cs → Line (c ∷ cs)
unfolding up_to_end contains
Line-cons c cs nz other (open_line plain whole) =
    open_line ((nz, rw other), plain) (rw other (ap (λ t. c ∷ t) whole))
Line-cons c cs nz other (closed_line tok more e plain cut) =
    closed_line (c ∷ tok) more (ap (λ t. c ∷ t) e) ((nz, rw other), plain)
      (rw other (ap (λ t. c ∷ t) cut))

Line-of : (text : Bytes) → All (λ c. c ≢ 0) text → Line text
unfolding up_to_end
Line-of [] a = open_line tt refl
Line-of (c ∷ cs) a = elim (Bool-cases (c == b'\n')) [
  | inl end ↦ closed_line [] cs (ap (λ d. d ∷ cs) ((==_iff c b'\n').0 end)) tt (rw end)
  | inr other ↦ Line-cons c cs a.0 other (Line-of cs a.1)
]

-- How `strtok` sees a text: line ends only, a word to the end, or a word before a line end.
data Parts (text : Bytes) : Type 0 where
  blank : All (IsDelim line_ends) text → name_of text ≡ text → Parts text
  whole :
      (skip tok : Bytes)
      → text ≡ skip ++ tok
      → All (IsDelim line_ends) skip
      → IsWord line_ends tok
      → name_of text ≡ text
      → Parts text
  cut :
      (skip tok more : Bytes)
      → text ≡ skip ++ (tok ++ b'\n' ∷ more)
      → All (IsDelim line_ends) skip
      → IsWord line_ends tok
      → name_of text ≡ skip ++ tok
      → Parts text

word-parts : (c : ℕ) (cs : Bytes) → c ≢ 0 → (c == b'\n') ≡ false → Line cs → Parts (c ∷ cs)
unfolding name_of contains
word-parts c cs nz other (open_line plain same) =
    whole [] (c ∷ cs) refl tt ((nz, rw other), plain) (rw other (ap (λ t. c ∷ t) same))
word-parts c cs nz other (closed_line tok more e plain same) =
    cut [] (c ∷ tok) more (ap (λ t. c ∷ t) e) tt ((nz, rw other), plain)
      (rw other (ap (λ t. c ∷ t) same))

end-parts : (c : ℕ) (cs : Bytes) → (c == b'\n') ≡ true → Parts cs → Parts (c ∷ cs)
unfolding name_of contains
end-parts c cs end (blank delims same) = blank (rw end, delims) (rw end (ap (λ t. c ∷ t) same))
end-parts c cs end (whole skip tok e delims word same) =
    whole (c ∷ skip) tok (ap (λ t. c ∷ t) e) (rw end, delims) word (rw end (ap (λ t. c ∷ t) same))
end-parts c cs end (cut skip tok more e delims word same) =
    cut (c ∷ skip) tok more (ap (λ t. c ∷ t) e) (rw end, delims) word
      (rw end (ap (λ t. c ∷ t) same))

parts_of : (text : Bytes) → All (λ c. c ≢ 0) text → Parts text
unfolding name_of
parts_of [] a = blank tt refl
parts_of (c ∷ cs) a = elim (Bool-cases (c == b'\n')) [
  | inl end ↦ end-parts c cs end (parts_of cs a.1)
  | inr other ↦ word-parts c cs a.0 other (Line-of cs a.1)
]

delim-nonzero : (c : ℕ) → IsDelim line_ends c → c ≢ 0
unfolding contains
delim-nonzero c d = ground arith

cut_name-parts :
    (text : Bytes) → All (λ c. c ≢ 0) text → Parts text → cut_name text ≡ ok (name_of text)
unfolding cut_name contains
cut_name-parts text a (blank delims same) =
    rw (strtok-delims line_ends text [] delims refl, ◌>>=◌)
      (cstring-nul text [] a ∙ ap ok (sym same))
cut_name-parts text a (whole skip tok e delims word same) =
    rw
      (
        strtok_last-skip (text ++ 0 ∷ []) 0 line_ends [] skip tok []
            (ap (λ t. t ++ 0 ∷ []) e ∙ append_assoc skip tok (0 ∷ [])) refl delims word,
        ◌>>=◌,
      )
      (cstring-nul text [] a ∙ ap ok (sym same))
cut_name-parts text a (cut skip tok more e delims word same) =
    rw
      (
        strtok-skip (text ++ 0 ∷ []) 0 line_ends [] skip tok b'\n' (more ++ 0 ∷ [])
            (skip ++ (tok ++ 0 ∷ (more ++ 0 ∷ []))) (ap (λ t. t ++ 0 ∷ []) e ∙ simp append_assoc)
            refl delims word (λ e. omega arith) refl refl,
        ◌>>=◌,
      )
      (string_at-word (skip ++ (tok ++ 0 ∷ (more ++ 0 ∷ []))) 0 [] (skip ++ tok) (more ++ 0 ∷ [])
          (sym (append_assoc skip tok (0 ∷ (more ++ 0 ∷ [])))) refl
          (All-append (λ c. c ≢ 0) skip tok (All-imp delim-nonzero skip delims)
            (IsPlain-nonzero line_ends tok (IsWord-All line_ends tok word)))
        ∙ ap ok (sym same))

-- The name is the first line, with the line ends in front of it.
pub cut_name-name_of : (text : Bytes) → All (λ c. c ≢ 0) text → cut_name text ≡ ok (name_of text)
cut_name-name_of text a = cut_name-parts text a (parts_of text a)
