-- ===== src/Request/Threads/Alone.antt =====
-- A worker that parses its request line while no other one calls `strtok`.
use ntu_computer_network.Base.{
  ap, ◌∙◌, ◌++◌, Bytes, ℕ, ◌+◌, ◌≡◌, refl, inl, inr, Option, none, some, List, [], ◌∷◌, codes,
  length, ok, ◌>>=◌, Exec-cases, Option-cases,
}
use ntu_computer_network.Tokens.Words.{IsWord}
use ntu_computer_network.Tokens.{Buffer, strtok, string_at}
use ntu_computer_network.Request.{RequestLine, needed_string, crlf, parse_request_line}
use ntu_computer_network.Request.Line.{separators, line_buffer, parse_request_line-words}
use ntu_computer_network.Request.Threads.{
  Pointer, Parser, left, Memory, pointer_at, Place, begins, has_words, parsed, System, run_schedule,
}

-- What a worker leaves behind, but for the pointer of `strtok`: its place, its buffer, and those of
-- the other one.
pub record View : Type 0 where
  pub place : Place
  pub buffer : Buffer
  pub other_place : Place
  pub other_buffer : Buffer

abbrev pub left_view : System → View
left_view s = record {
  place = s.left_place;
  buffer = s.memory.left_buffer;
  other_place = s.right_place;
  other_buffer = s.memory.right_buffer;
}

abbrev pub view_of : Place → Buffer → RequestLine → View
view_of place buffer r = record {
  place = parsed r.offset r.method r.path;
  buffer = r.buffer;
  other_place = place;
  other_buffer = buffer;
}

abbrev pub five : Parser → List Parser
five w = w ∷ w ∷ w ∷ w ∷ w ∷ []

-- The last step: the two calls of `strdup`.
words-alone :
    (place : Place) (m : Memory) (offset : ℕ) (method path : Option ℕ)
    → (run_schedule
          (record {
            left_place = has_words offset (pointer_at left method) (pointer_at left path);
            right_place = place;
            memory = m;
          })
          (left ∷ [])
        >>= λ s. ok (left_view s))
      ≡ ((needed_string m.left_buffer method >>= λ a. needed_string m.left_buffer path >>= λ b.
            ok (record { method = a; path = b; buffer = m.left_buffer; offset = offset }))
          >>= λ r. ok (view_of place m.right_buffer r))
unfolding run_schedule
words-alone place m offset none path = refl
words-alone place m offset (some a) path = elim (Exec-cases (string_at m.left_buffer a)) [
  | inr (f, e) ↦ rw (e, ◌>>=◌)
  | inl (text, e) ↦
      rw (e, ◌>>=◌)
        (elim (Option-cases path) [
          | inl none_left ↦ rw (none_left, ◌>>=◌)
          | inr (b, found) ↦
              rw (found, ◌>>=◌)
                (elim (Exec-cases (string_at m.left_buffer b)) [
                  | inr (f, e') ↦ rw (e', ◌>>=◌)
                  | inl (text', e') ↦ rw (e', ◌>>=◌)
                ])
        ])
]

-- The left worker runs its five statements while the right one stands still: whatever pointer `strtok` has
-- kept, it faults where `parse_request_line` of its buffer does, with the same fault, or gives the
-- same method, path, offset and buffer, and what is the other worker's stays as it is.
run_schedule-alone :
    (place : Place) (m : Memory)
    → (run_schedule (record { left_place = begins; right_place = place; memory = m }) (five left)
        >>= λ s. ok (left_view s))
      ≡ (parse_request_line m.left_buffer >>= λ r. ok (view_of place m.right_buffer r))
unfolding run_schedule parse_request_line
run_schedule-alone place m = elim (Exec-cases (strtok m.left_buffer 0 crlf)) [
  | inr (f, e) ↦ rw (e, ◌>>=◌)
  | inl (line, e) ↦
      rw (e, ◌>>=◌)
        (elim (Option-cases line.start) [
          | inl none_left ↦ rw (none_left, ◌>>=◌)
          | inr (start, found) ↦
              rw (found, ◌>>=◌)
                (elim (Exec-cases (string_at line.buffer start)) [
                  | inr (f, e1) ↦ rw (e1, ◌>>=◌)
                  | inl (text, e1) ↦
                      rw (e1, ◌>>=◌)
                        (elim (Exec-cases (strtok line.buffer start (codes " "))) [
                          | inr (f, e2) ↦ rw (e2, ◌>>=◌)
                          | inl (method, e2) ↦
                              rw (e2, ◌>>=◌)
                                (elim (Exec-cases (strtok method.buffer method.save (codes " "))) [
                                  | inr (f, e3) ↦ rw (e3, ◌>>=◌)
                                  | inl (path, e3) ↦
                                      rw (e3, ◌>>=◌)
                                        (elim (Exec-cases
                                          (strtok path.buffer path.save (codes " "))) [
                                            | inr (f, e4) ↦ rw (e4, ◌>>=◌)
                                            | inl (version, e4) ↦
                                                rw (e4, ◌>>=◌)
                                                  (words-alone place _ (length text + 2)
                                                    method.start path.start)
                                          ])
                                ])
                        ])
                ])
        ])
]

-- The left worker runs its five statements on a request line of three words while the right one stands
-- still, whatever pointer `strtok` has kept: it gets the method, the path and the offset behind the
-- line's end, its buffer has a NUL behind each word, and what is the other worker's stays as it is.
pub run_schedule-words :
    (place : Place) (save : Option Pointer) (other : Buffer) (m p v : Bytes)
    → IsWord separators m
    → IsWord separators p
    → IsWord separators v
    → (rest : Buffer)
    → (run_schedule
          (record {
            left_place = begins;
            right_place = place;
            memory = record {
              left_buffer = line_buffer m p v b' ' b' ' b'\r' rest;
              right_buffer = other;
              save = save;
            };
          })
          (five left)
        >>= λ s. ok (left_view s))
      ≡ ok (record {
        place = parsed (length (m ++ b' ' ∷ (p ++ b' ' ∷ v)) + 2) m p;
        buffer = line_buffer m p v 0 0 0 rest;
        other_place = place;
        other_buffer = other;
      })
run_schedule-words place save other m p v wm wp wv rest =
    run_schedule-alone place _
    ∙ ap (λ e. e >>= λ r. ok (view_of place other r)) (parse_request_line-words m p v wm wp wv rest)
