-- ===== src/Middleware/Pipeline.antt =====
-- What the middlewares of `main` make of a request.
use ntu_computer_network.Base.{
  ◌^◌, ◌%◌, ◌+◌, ◌≡◌, inl, inr, none, some, [], ◌∷◌, ◌++◌, if◌then◌else◌, Bool-cases, Bytes, codes,
  ok, ◌>>=◌, bytes_eq,
}
use ntu_computer_network.Headers
use ntu_computer_network.Headers.Ownership.{IsIntact, create-IsIntact, set-IsIntact}
use ntu_computer_network.Request.{Request}
use ntu_computer_network.Response
use ntu_computer_network.Response.{Response, allocated}
use ntu_computer_network.Middleware.{
  World, run_chain, main_middlewares, logger_handler, homepage_handler, not_found_handler,
  content_type, html, add,
}

-- The world behind a request: its number and what it asks for are printed once.
unfoldable pub logged : World → Request → World
logged world request = record {
  request_id = (world.request_id + 1) % 2 ^ 64;
  log =
      world.log
      ++ (record { id = world.request_id; method = request.method; path = request.path }) ∷ [];
}

-- The two answers.
unfoldable pub home_page : Bytes → Response
home_page time_str = record {
  status = 200;
  headers =
      Headers.set Headers.create (some content_type) (some (codes "text/html; charset=utf-8"));
  body = some (allocated (html ++ time_str));
  body_stream = none;
}

unfoldable pub not_found : Response
not_found = record {
  status = 404;
  headers = Headers.set Headers.create (some content_type) (some (codes "text/plain"));
  body = some (allocated (codes "404 Not Found!!\n"));
  body_stream = none;
}

unfoldable pub answer : Bytes → Bytes → Response
answer time_str path = if bytes_eq path (codes "/") then home_page time_str else not_found

-- The chain of `main` prints one line, and makes the home page of a request for "/" and the page of
-- status 404 of every other one: the home page stops the chain, so the last handler does not
-- overwrite it.
pub main_middlewares-answer :
    (time_str : Bytes) (world : World) (request : Request)
    → run_chain (main_middlewares time_str) world request Response.create
      ≡ ok (logged world request, answer time_str request.path)
unfolding run_chain main_middlewares add logger_handler homepage_handler not_found_handler logged
    answer home_page not_found Response.create
main_middlewares-answer time_str world request =
    elim (Bool-cases (bytes_eq request.path (codes "/"))) [
      | inl e ↦ rw (e, run_chain, ◌>>=◌, homepage_handler)
      | inr e ↦ rw (e, run_chain, ◌>>=◌, homepage_handler)
    ]

pub answer-IsIntact : (time_str path : Bytes) → IsIntact (answer time_str path).headers
unfolding answer home_page not_found
answer-IsIntact time_str path = elim (Bool-cases (bytes_eq path (codes "/"))) [
  | inl e ↦ rw e (set-IsIntact (some content_type) _ create-IsIntact)
  | inr e ↦ rw e (set-IsIntact (some content_type) _ create-IsIntact)
]
