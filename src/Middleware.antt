-- ===== src/Middleware.antt =====
-- src/middleware.c, the loop of `handle_client` over the middlewares, and src/middlewares/.
-- The clock and the files are the arguments `time_str`, the text of `asctime`, and `fopen`, which
-- gives the content of a file that can be opened.
pub mod Contract
pub mod Pipeline
pub mod ServeStatic
use ntu_computer_network.Base.{
  ℕ, ◌+◌, Bool, true, false, not, ◌||◌, Option, none, some, List, [], ◌∷◌, ◌++◌, Bytes, codes, ◌==◌,
  if◌then◌else◌, bytes_eq, null_pointer, Exec, ok, fault, ◌>>=◌, ◌%◌, ◌^◌, or_fault,
}
use ntu_computer_network.Headers
use ntu_computer_network.Headers.{Headers, buffer_limit, print_at}
use ntu_computer_network.Request.{Request}
use ntu_computer_network.Response.{Body, allocated, literal, Response}

-- A line of the logger: the number of the request, and what the client asked for.
pub record LogLine : Type 0 where
  pub id : ℕ
  pub method : Bytes
  pub path : Bytes

-- What the handlers share: `_global_request_id`, and what the logger has printed.
pub record World : Type 0 where
  pub request_id : ℕ
  pub log : List LogLine

-- What a handler returns, with the response and the world behind it.
pub record Outcome : Type 0 where
  pub turn_over : Bool
  pub world : World
  pub response : Response

abbrev pub Handler : Type 0
Handler = World → Request → Response → Exec Outcome

pub record ServerMiddleware : Type 0 where
  pub name : Bytes
  pub handler : Handler

abbrev pub ServerMiddlewares : Type 0
ServerMiddlewares = List ServerMiddleware

abbrev pub name_or_default : Option Bytes → Bytes
name_or_default none = codes "unnamed middleware"
name_or_default (some name) = name

unfoldable pub add : ServerMiddlewares → Option Bytes → Handler → ServerMiddlewares
add middlewares name handler =
    middlewares ++ (record { name = name_or_default name; handler = handler }) ∷ []

abbrev pub is_set : Option Bytes → Bool
is_set none = false
is_set (some _) = true

-- The loop of `handle_client`.
unfoldable pub run_chain : ServerMiddlewares → World → Request → Response → Exec (World × Response)
run_chain [] world request response = ok (world, response)
run_chain (m ∷ ms) world request response = m.handler world request response >>= λ o.
    elim (not o.turn_over || is_set o.response.body_stream) [
      | true ↦ ok (o.world, o.response)
      | false ↦ run_chain ms o.world request o.response
    ]

abbrev pub content_type : Bytes
content_type = codes "Content-Type"

unfoldable pub logger_handler : Handler
logger_handler world request response = ok (record {
  turn_over = true;
  world = record {
    request_id = (world.request_id + 1) % 2 ^ 64;
    log =
        world.log
        ++ (record { id = world.request_id; method = request.method; path = request.path }) ∷ [];
  };
  response = response;
})

abbrev pub html : Bytes
html =
    codes "<h1>NTNU 41047029S Jacob Lin</h1><p>This is a simple web server written in C.</p>"
    ++ codes "<style>body { background-color: #f0f0f0; font-family: sans-serif; }</style>"

unfoldable pub homepage_handler : Bytes → Handler
homepage_handler time_str world request response = elim (bytes_eq request.path (codes "/")) [
  | true ↦ ok (record {
    turn_over = false;
    world = world;
    response = record response {
      status = 200;
      headers =
          Headers.set response.headers (some content_type)
            (some (codes "text/html; charset=utf-8"));
      body = some (allocated (html ++ time_str));
    };
  })
  | false ↦ ok (record { turn_over = true; world = world; response = response })
]

unfoldable pub not_found_handler : Handler
not_found_handler world request response = ok (record {
  turn_over = false;
  world = world;
  response = record response {
    status = 404;
    headers = Headers.set response.headers (some content_type) (some (codes "text/plain"));
    body = some (allocated (codes "404 Not Found!!\n"));
  };
})

-- `middleware_test_handler`, which `main` does not install.
unfoldable pub test_handler : Handler
test_handler world request response = do
  headers ← Headers.to_string request.headers
  body ← print_at buffer_limit 0 (
      codes "You requested "
      ++ (request.method
          ++ (codes " "
              ++ (request.path
                  ++ (codes "\n---\nWith headers:\n"
                      ++ (headers ++ (codes "\n---\nBody:\n" ++ request.body)))))))
  ok (record {
    turn_over = true;
    world = world;
    response = record response {
      status = 200;
      headers = Headers.set response.headers (some content_type) (some (codes "text/plain"));
      body = some (allocated body);
    };
  })

-- The pipeline of `main`.
unfoldable pub main_middlewares : Bytes → ServerMiddlewares
main_middlewares time_str =
    add
      (add (add [] (some (codes "Logger")) logger_handler) (some (codes "Home Page"))
        (homepage_handler time_str))
      (some (codes "404")) not_found_handler
