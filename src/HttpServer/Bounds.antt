-- ===== src/HttpServer/Bounds.antt =====
-- A connection stays inside its receive buffer when the request leaves three bytes of it free.
use ntu_computer_network.Base.{
  [], ℕ, suc, ◌+◌, ◌-◌, ◌≤◌, ◌<◌, ◌≡◌, refl, ap, ◌∙◌, ◌∷◌, ◌++◌, arith, Bytes, length,
  length-append, append_assoc, get_elem?-append, length-replicate, replicate, out_of_bounds, fault,
  fetch, fetch-append, Yields, gives, Yields-bind,
}
use ntu_computer_network.Tokens.{Buffer}
use ntu_computer_network.Tokens.Bounds.{IsPadded}
use ntu_computer_network.Tokens.Words.{IsWord}
use ntu_computer_network.Request.{request_parse}
use ntu_computer_network.Request.Bounds.{request_parse-Yields}
use ntu_computer_network.Request.Line.{separators, request_line, cut_buffer}
use ntu_computer_network.Request.Overrun.{request_parse_overruns}
use ntu_computer_network.Middleware.{World, main_middlewares}
use ntu_computer_network.Response.Wire.{wire}
use ntu_computer_network.Middleware.Pipeline.{answer, logged}
use ntu_computer_network.Request.{Request}
use ntu_computer_network.HttpServer.{write, close, ServerConfig, receive_buffer, handle_client}
use ntu_computer_network.HttpServer.Answers.{handle_client_fault, handle_client-request_parse}

padded : (text : Bytes) (rest : Buffer) → IsPadded (length text) (text ++ 0 ∷ 0 ∷ 0 ∷ rest)
unfolding fetch
padded text rest = record {
  first = fetch-append text 0 (0 ∷ 0 ∷ rest);
  second = rw (get_elem?-append text (0 ∷ 0 ∷ 0 ∷ rest) 1);
  third = rw (get_elem?-append text (0 ∷ 0 ∷ 0 ∷ rest) 2);
}

receive_buffer-IsPadded :
    (n : ℕ) (received : Bytes)
    → length received + 3 ≤ n
    → IsPadded (length received) (receive_buffer n received)
receive_buffer-IsPadded n received h =
    let room : n - length received ≡ suc (suc (suc (n - length received - 3))) = omega arith in
    let same : receive_buffer n received
        ≡ received ++ 0 ∷ 0 ∷ 0 ∷ replicate (n - length received - 3) 0 =
      ap (λ k. received ++ replicate k 0) room in
    rw same (padded received (replicate (n - length received - 3) 0))

receive_buffer-cut :
    (n : ℕ) (m p v : Bytes)
    → length (request_line m p v) < n
    → receive_buffer n (request_line m p v)
      ≡ cut_buffer m p v b' ' b' ' 0 (replicate (n - length (request_line m p v) - 1) 0)
receive_buffer-cut n m p v h =
    let room : n - length (request_line m p v) ≡ suc (n - length (request_line m p v) - 1) =
      omega arith in
    ap (λ k. request_line m p v ++ replicate k 0) room ∙ simp append_assoc

-- With the middlewares of `main`, on any bytes that leave three of the receive buffer free:
-- `handle_client` logs a request, answers it by the home page or the page of status 404, and closes the
-- socket, or it dereferences a null pointer in the parser; it has no other fault, so it reads and
-- writes nothing outside the buffer, frees nothing twice, and comes to an end.
pub handle_client-Yields :
    (config : ServerConfig) (world : World) (time_str received : Bytes)
    → config.middlewares ≡ main_middlewares time_str
    → 0 < length received
    → length received + 3 ≤ config.buffer_size
    → length time_str ≤ 26
    → Yields
        (λ served.
          (request : Request) × (served
            ≡ (logged world request, write (wire (answer time_str request.path)) ∷ close ∷ [])))
        (handle_client config world received)
handle_client-Yields config world time_str received chain some_bytes room short =
    rw (handle_client-request_parse config world time_str received chain some_bytes short) (
      Yields-bind
        (request_parse-Yields _ (receive_buffer-IsPadded config.buffer_size received room))
        (λ request _. gives (request, refl)))

length-request_line : (m p v : Bytes) → 0 < length (request_line m p v)
length-request_line m p v = omega (arith, length-append m (b' ' ∷ (p ++ b' ' ∷ v)))

-- Any configuration: a request line of three words without a line end, which leaves one byte of the
-- receive buffer free or two, makes `handle_client` read outside the buffer.
pub handle_client_overruns :
    (config : ServerConfig) (world : World) (m p v : Bytes)
    → IsWord separators m
    → IsWord separators p
    → IsWord separators v
    → length (request_line m p v) < config.buffer_size
    → config.buffer_size ≤ length (request_line m p v) + 2
    → handle_client config world (request_line m p v) ≡ fault out_of_bounds
handle_client_overruns config world m p v wm wp wv fits tight =
    handle_client_fault config world (request_line m p v) out_of_bounds (length-request_line m p v)
      (ap request_parse (receive_buffer-cut config.buffer_size m p v fits)
        ∙ request_parse_overruns m p v _ wm wp wv (
            omega (
              arith,
              length-replicate {A = ℕ} (config.buffer_size - length (request_line m p v) - 1) 0,
            )))
