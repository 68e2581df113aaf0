-- ===== src/Tests/BoundsRuns.antt =====
-- The parser at the end of its buffer, and in two workers at once.
use ntu_computer_network.Base.{
  ◌≡◌, refl, ◌≤◌, ◌++◌, ◌>>=◌, [], ◌∷◌, List, none, some, contains, arith, Bytes, codes, length,
  out_of_bounds, null_pointer, ok, fault, fetch, Yields,
}
use ntu_computer_network.Tokens.{Buffer}
use ntu_computer_network.Tokens.Bounds.{IsPadded}
use ntu_computer_network.Request.{request_parse}
use ntu_computer_network.Request.Bounds.{request_parse-Yields}
use ntu_computer_network.Request.Line.{request_line}
use ntu_computer_network.Request.Threads.{
  Parser, left, right, begins, has_method, parsed, Memory, System, run_schedule,
}
use ntu_computer_network.Request.Threads.Alone.{left_view, five, run_schedule-words}
use ntu_computer_network.Request.Threads.Race.{paths_mixed}
use ntu_computer_network.Middleware.{World, main_middlewares}
use ntu_computer_network.Response.Wire.{wire}
use ntu_computer_network.Middleware.Pipeline.{answer, logged}
use ntu_computer_network.Request.{Request}
use ntu_computer_network.HttpServer.{
  write, close, ServerConfig, handle_client, server_config_create,
}
use ntu_computer_network.HttpServer.Bounds.{handle_client-Yields, handle_client_overruns}

abbrev short_text : Bytes
short_text = codes "GET / HTTP/1.1"

short_text-IsPadded : IsPadded 14 (short_text ++ 0 ∷ 0 ∷ 0 ∷ [])
unfolding fetch
short_text-IsPadded = record { first = refl; second = refl; third = refl }

request_parse-Yields_example :
    Yields
      (λ r. (length r.method ≤ 14) × (length r.path ≤ 14) × (length r.body ≤ 14))
      (request_parse (short_text ++ 0 ∷ 0 ∷ 0 ∷ []))
request_parse-Yields_example =
    request_parse-Yields (short_text ++ 0 ∷ 0 ∷ 0 ∷ []) short_text-IsPadded

abbrev world : World
world = record { request_id = 1; log = [] }

abbrev noon : Bytes
noon = codes "Mon Dec  4 12:00:00 2023\n"

abbrev config : ServerConfig
config = record server_config_create { buffer_size = 17; middlewares = main_middlewares noon }

handle_client-Yields_example :
    Yields
      (λ served.
        (request : Request) × (served
          ≡ (logged world request, write (wire (answer noon request.path)) ∷ close ∷ [])))
      (handle_client config world short_text)
handle_client-Yields_example =
    handle_client-Yields config world noon short_text refl (omega arith) (omega arith) (omega arith)

abbrev tight_config : ServerConfig
tight_config = record server_config_create { buffer_size = 16 }

handle_client_overruns_example :
    handle_client tight_config world (request_line (codes "GET") (codes "/") (codes "HTTP/1.1"))
    ≡ fault out_of_bounds
unfolding contains
handle_client_overruns_example =
    handle_client_overruns tight_config world (codes "GET") (codes "/") (codes "HTTP/1.1")
      (ground arith) (ground arith) (ground arith) (omega arith) (omega arith)

abbrev two_buffers : Memory
two_buffers = record {
  left_buffer = codes "GET /a HTTP/1.1\r\n" ++ 0 ∷ [];
  right_buffer = codes "GET /b HTTP/1.1\r\n" ++ 0 ∷ [];
  save = none;
}

run_schedule-words_example :
    (run_schedule
        (record { left_place = begins; right_place = begins; memory = two_buffers })
        (five left)
      >>= λ s. ok (left_view s))
    ≡ ok (record {
      place = parsed 17 (codes "GET") (codes "/a");
      buffer = codes "GET" ++ 0 ∷ (codes "/a" ++ 0 ∷ (codes "HTTP/1.1" ++ 0 ∷ b'\n' ∷ 0 ∷ []));
      other_place = begins;
      other_buffer = two_buffers.right_buffer;
    })
unfolding contains
run_schedule-words_example =
    run_schedule-words begins none two_buffers.right_buffer (codes "GET") (codes "/a")
      (codes "HTTP/1.1") (ground arith) (ground arith) (ground arith) (0 ∷ [])

abbrev two_requests : System
two_requests = record { left_place = begins; right_place = begins; memory = two_buffers }

abbrev cut : Bytes → Buffer
cut path = codes "GET" ++ 0 ∷ (path ++ 0 ∷ (codes "HTTP/1.1" ++ 0 ∷ b'\n' ∷ 0 ∷ []))

abbrev mixed : System
mixed = record {
  left_place = parsed 17 (codes "GET") (codes "/b");
  right_place = has_method 17 (some (record { owner = right; at = 0 }));
  memory = record {
    left_buffer =
        codes "GET" ++ 0 ∷ (codes "/a" ++ b' ' ∷ (codes "HTTP/1.1" ++ 0 ∷ b'\n' ∷ 0 ∷ []));
    right_buffer = cut (codes "/b");
    save = some (record { owner = right; at = 15 });
  };
}

abbrev schedule : List Parser
schedule = left ∷ left ∷ right ∷ right ∷ left ∷ left ∷ left ∷ []

paths_mixed_example :
    (run_schedule two_requests schedule ≡ ok mixed)
    × (run_schedule two_requests (schedule ++ right ∷ right ∷ right ∷ []) ≡ fault null_pointer)
unfolding contains
paths_mixed_example =
    paths_mixed (codes "GET") (codes "/a") (codes "HTTP/1.1") (ground arith) (ground arith)
      (ground arith) (0 ∷ []) (codes "GET") (codes "/b") (codes "HTTP/1.1") (ground arith)
      (ground arith) (ground arith) (0 ∷ [])
