-- ===== src/Request/Threads.antt =====
-- The request line in request.c, parsed by two workers at once. `strtok` keeps its pointer in one
-- variable of the process, so the workers share it. A step is one statement of `request_parse` that
-- calls `strtok`, with the `strlen` before it, or the two calls of `strdup`.
pub mod Alone
pub mod Race
use ntu_computer_network.Base.{
  ℕ, ◌+◌, Option, none, some, List, [], ◌∷◌, Bytes, codes, length, null_pointer, Exec, ok, fault,
  ◌>>=◌, or_fault,
}
use ntu_computer_network.Tokens.{Buffer, Token, strtok, string_at}
use ntu_computer_network.Request.{crlf}

pub data Parser : Type 0 where
  left right : Parser

-- A pointer into the receive buffer of a worker.
pub record Pointer : Type 0 where
  pub owner : Parser
  pub at : ℕ

-- The two receive buffers, and the pointer that `strtok` has kept.
pub record Memory : Type 0 where
  pub left_buffer : Buffer
  pub right_buffer : Buffer
  pub save : Option Pointer

abbrev pub buffer_of : Memory → Parser → Buffer
buffer_of m left = m.left_buffer
buffer_of m right = m.right_buffer

abbrev pub write_buffer : Memory → Parser → Buffer → Memory
write_buffer m left b = record m { left_buffer = b }
write_buffer m right b = record m { right_buffer = b }

-- What `strtok` returns, and the memory behind it.
pub record Found : Type 0 where
  pub start : Option Pointer
  pub memory : Memory

abbrev pub pointer_at : Parser → Option ℕ → Option Pointer
pointer_at w none = none
pointer_at w (some q) = some (record { owner = w; at = q })

abbrev pub found_at : Memory → Parser → Token → Found
found_at m w t = record {
  start = pointer_at w t.start;
  memory = record (write_buffer m w t.buffer) { save = some (record { owner = w; at = t.save }) };
}

-- `strtok(p, ds)`
unfoldable pub strtok_from : Memory → Pointer → List ℕ → Exec Found
strtok_from m p ds = strtok (buffer_of m p.owner) p.at ds >>= λ t. ok (found_at m p.owner t)

-- `strtok(NULL, ds)`
unfoldable pub strtok_next : Memory → List ℕ → Exec Found
unfolding strtok_from
strtok_next m ds = or_fault m.save null_pointer >>= λ p. strtok_from m p ds

abbrev pub text_at : Memory → Option Pointer → Exec Bytes
text_at m p = or_fault p null_pointer >>= λ q. string_at (buffer_of m q.owner) q.at

-- Where a worker stands in `request_parse`: before line 10, 12, 13, 14 or 17 of it, or behind line 18.
pub data Place : Type 0 where
  begins : Place
  has_line : Option Pointer → Place
  has_method : ℕ → Option Pointer → Place
  has_path : ℕ → Option Pointer → Option Pointer → Place
  has_words : ℕ → Option Pointer → Option Pointer → Place
  parsed : (offset : ℕ) (method path : Bytes) → Place

unfoldable pub advance : Parser → Place → Memory → Exec (Place × Memory)
unfolding strtok_from strtok_next
advance w begins m = do
  line ← strtok_from m (record { owner = w; at = 0 }) crlf
  ok (has_line line.start, line.memory)
advance w (has_line line) m = do
  start ← or_fault line null_pointer
  text ← string_at (buffer_of m start.owner) start.at
  method ← strtok_from m start (codes " ")
  ok (has_method (length text + 2) method.start, method.memory)
advance w (has_method offset method) m = do
  path ← strtok_next m (codes " ")
  ok (has_path offset method path.start, path.memory)
advance w (has_path offset method path) m = do
  version ← strtok_next m (codes " ")
  ok (has_words offset method path, version.memory)
advance w (has_words offset method path) m = do
  method_text ← text_at m method
  path_text ← text_at m path
  ok (parsed offset method_text path_text, m)
advance w (parsed offset method path) m = ok (parsed offset method path, m)

pub record System : Type 0 where
  pub left_place : Place
  pub right_place : Place
  pub memory : Memory

-- A step of one worker, and a schedule of such steps.
unfoldable pub step : System → Parser → Exec System
unfolding advance
step s left = do
  after ← advance left s.left_place s.memory
  ok (record s { left_place = after.0; memory = after.1 })
step s right = do
  after ← advance right s.right_place s.memory
  ok (record s { right_place = after.0; memory = after.1 })

unfoldable pub run_schedule : System → List Parser → Exec System
unfolding step
run_schedule s [] = ok s
run_schedule s (w ∷ ws) = step s w >>= λ s'. run_schedule s' ws
