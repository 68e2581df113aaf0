-- ===== src/Request/Threads/Race.antt =====
-- Two workers that parse their request lines at once.
use ntu_computer_network.Base.{
  ℕ, ◌+◌, ◌≡◌, refl, ◌∙◌, inl, inr, Exec-cases, none, some, List, [], ◌∷◌, ◌++◌, append_assoc,
  arith, Bytes, codes, length, length-append, null_pointer, ok, fault, ◌>>=◌, contains,
}
use ntu_computer_network.Tokens.{Buffer, strtok, string_at}
use ntu_computer_network.Tokens.Words.{
  IsWord, IsWord-All, IsPlain-nonzero, string_at-word, strtok-none,
}
use ntu_computer_network.Request.Line.{
  separators, request_line, line_buffer, strtok_line, string_line, strtok_method, strtok_path,
  strtok_version, string_method, string_path,
}
use ntu_computer_network.Request.Threads.{
  Parser, left, right, Pointer, begins, has_method, parsed, System, step, run_schedule,
}

run_schedule-append :
    (s : System) (ws vs : List Parser)
    → run_schedule s (ws ++ vs) ≡ (run_schedule s ws >>= λ s'. run_schedule s' vs)
unfolding run_schedule
run_schedule-append s [] vs = refl
run_schedule-append s (w ∷ ws) vs = elim (Exec-cases (step s w)) [
  | inr (f, e) ↦ rw (e, ◌>>=◌)
  | inl (s', e) ↦ rw (e, ◌>>=◌) (run_schedule-append s' ws vs)
]

-- Two well-formed request lines in the two buffers.
module _ (m p v : Bytes) (wm : IsWord separators m) (wp : IsWord separators p)
    (wv : IsWord separators v) (rest : Buffer) (m' p' v' : Bytes) (wm' : IsWord separators m')
    (wp' : IsWord separators p') (wv' : IsWord separators v') (rest' : Buffer) where
  abbrev pub mine : ℕ → ℕ → ℕ → Buffer
  mine a b c = line_buffer m p v a b c rest

  abbrev pub other : ℕ → ℕ → ℕ → Buffer
  other a b c = line_buffer m' p' v' a b c rest'

  abbrev pub two_requests : System
  two_requests = record {
    left_place = begins;
    right_place = begins;
    memory = record {
      left_buffer = mine b' ' b' ' b'\r';
      right_buffer = other b' ' b' ' b'\r';
      save = none;
    };
  }

  abbrev at_left : ℕ → Pointer
  at_left q = record { owner = left; at = q }

  abbrev at_right : ℕ → Pointer
  at_right q = record { owner = right; at = q }

  abbrev offset : ℕ
  offset = length (request_line m p v) + 2

  abbrev offset' : ℕ
  offset' = length (request_line m' p' v') + 2

  abbrev behind_path : ℕ
  behind_path = 0 + length m' + 1 + length p' + 1

  -- Both have cut their first word, the right worker last.
  abbrev both_methods : System
  both_methods = record {
    left_place = has_method offset (some (at_left 0));
    right_place = has_method offset' (some (at_right 0));
    memory = record {
      left_buffer = mine 0 b' ' 0;
      right_buffer = other 0 b' ' 0;
      save = some (at_right (0 + length m' + 1));
    };
  }

  -- The left worker has gone on, in the buffer of the right one.
  abbrev pub wrong_path : System
  wrong_path = record {
    left_place = parsed offset m p';
    right_place = has_method offset' (some (at_right 0));
    memory = record {
      left_buffer = mine 0 b' ' 0;
      right_buffer = other 0 0 0;
      save = some (at_right (behind_path + length v'));
    };
  }

  first_words : run_schedule two_requests (left ∷ left ∷ right ∷ right ∷ []) ≡ ok both_methods
  unfolding run_schedule
  first_words =
      rw (strtok_line m p v wm wp wv (b'\n' ∷ rest), ◌>>=◌)
        (rw (string_line m p v wm wp wv (b'\n' ∷ rest), ◌>>=◌)
          (rw (strtok_method m p v wm wp wv (b'\n' ∷ rest), ◌>>=◌)
            (rw (strtok_line m' p' v' wm' wp' wv' (b'\n' ∷ rest'), ◌>>=◌)
              (rw (string_line m' p' v' wm' wp' wv' (b'\n' ∷ rest'), ◌>>=◌)
                (rw (strtok_method m' p' v' wm' wp' wv' (b'\n' ∷ rest'), ◌>>=◌))))))

  own_method : string_at (mine 0 b' ' 0) 0 ≡ ok m
  own_method =
      string_at-word (mine 0 b' ' 0) 0 [] m _ refl refl
        (IsPlain-nonzero separators m (IsWord-All separators m wm))

  left_goes_on : run_schedule both_methods (left ∷ left ∷ left ∷ []) ≡ ok wrong_path
  unfolding run_schedule
  left_goes_on =
      rw (strtok_path m' p' v' wm' wp' wv' (b'\n' ∷ rest'), ◌>>=◌)
        (rw (strtok_version m' p' v' wm' wp' wv' (b'\n' ∷ rest'), ◌>>=◌)
          (rw (own_method, ◌>>=◌) (rw (string_path m' p' v' wm' wp' wv' (b'\n' ∷ rest'), ◌>>=◌))))

  no_word_left :
      strtok (other 0 0 0) (behind_path + length v') (codes " ")
      ≡ ok (record { start = none; buffer = other 0 0 0; save = behind_path + length v' })
  unfolding contains
  no_word_left =
      strtok-none (other 0 0 0) (behind_path + length v') (codes " ") (m' ++ 0 ∷ (p' ++ 0 ∷ v'))
        (b'\n' ∷ rest') (simp append_assoc)
        (omega (arith, length-append m' (0 ∷ (p' ++ 0 ∷ v')), length-append p' (0 ∷ v'))) refl

  right_crashes : run_schedule wrong_path (right ∷ right ∷ right ∷ []) ≡ fault null_pointer
  unfolding run_schedule
  right_crashes =
      rw (no_word_left, ◌>>=◌)
        (rw (no_word_left, ◌>>=◌) (rw (string_method m' p' v' wm' wp' wv' (b'\n' ∷ rest'), ◌>>=◌)))

  abbrev pub schedule : List Parser
  schedule = left ∷ left ∷ right ∷ right ∷ left ∷ left ∷ left ∷ []

  -- Two workers have two well-formed requests, and the right one cuts its method between the two
  -- calls by which the left one cuts its method and its path. Then the left worker has parsed its own
  -- method with the path of the other request; and when the right one goes on, no word is left for
  -- it, and it dereferences a null pointer.
  pub paths_mixed :
      (run_schedule two_requests schedule ≡ ok wrong_path)
      × (run_schedule two_requests (schedule ++ right ∷ right ∷ right ∷ []) ≡ fault null_pointer)
  paths_mixed =
      let mixed : run_schedule two_requests schedule ≡ ok wrong_path =
        run_schedule-append two_requests (left ∷ left ∷ right ∷ right ∷ [])
          (left ∷ left ∷ left ∷ [])
        ∙ rw (first_words, ◌>>=◌) left_goes_on in
      (
        mixed,
        run_schedule-append two_requests schedule (right ∷ right ∷ right ∷ [])
            ∙ rw (mixed, ◌>>=◌) right_crashes,
      )
