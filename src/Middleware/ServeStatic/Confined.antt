-- ===== src/Middleware/ServeStatic/Confined.antt =====
-- What `middleware_static_handler` reads, and what becomes of its refusals.
use ntu_computer_network.Base.{
  [], bytes_eq, ℕ, ◌≡◌, refl, inl, inr, true, false, Option, none, some, Bool-cases, Bytes, codes,
  ok, fault, ◌>>=◌, null_pointer, invalid_free,
}
use ntu_computer_network.Headers.Ownership.{IsIntact, destroy-IsIntact}
use ntu_computer_network.Middleware.Contract.{IsSound, create-IsOwned, destroy-IsOwned}
use ntu_computer_network.Headers
use ntu_computer_network.Request.{Request}
use ntu_computer_network.Response
use ntu_computer_network.Response.{Response, literal}
use ntu_computer_network.Middleware.{World, Outcome}
use ntu_computer_network.Middleware.ServeStatic.{
  has_dots, last_dot, index_path, full_path, refuse, static_handler,
}

-- The handler opens no file whose path has ".." in it: it cannot tell two file systems apart that
-- agree on all the other paths.
pub static_handler-confined :
    (f g : Bytes → Option Bytes) (world : World) (request : Request) (response : Response)
    → ((path : Bytes) → has_dots path ≡ false → f path ≡ g path)
    → static_handler f world request response ≡ static_handler g world request response
unfolding static_handler
static_handler-confined f g world request response same =
    elim (Bool-cases (has_dots (full_path (index_path request.path)))) [
      | inl e ↦ rw (e, static_handler)
      | inr e ↦ rw (e, static_handler, same (full_path (index_path request.path)) e)
    ]

destroy_literal :
    (status : ℕ) (text : Bytes) (response : Response)
    → IsIntact response.headers
    → Response.destroy (refuse status text response) ≡ fault invalid_free
unfolding Response.destroy
destroy_literal status text response v =
    let (freed, run, owners) = destroy-IsIntact v in rw (run, ◌>>=◌)

-- A path with ".." in it is answered with status 403, but the body is a literal of the program: to
-- free the response afterwards is a fault.
pub static_handler-refuse :
    (fopen : Bytes → Option Bytes) (world : World) (request : Request) (response : Response)
    → IsIntact response.headers
    → has_dots (full_path (index_path request.path)) ≡ true
    → (o : Outcome) × (static_handler fopen world request response ≡ ok o)
      × (o.response.status ≡ 403)
      × (Response.destroy o.response ≡ fault invalid_free)
unfolding static_handler
static_handler-refuse fopen world request response v dots = (
  record {
    turn_over = true;
    world = world;
    response = refuse 403 (codes "403 Forbidden") response;
  },
  rw (dots, static_handler),
  refl,
  destroy_literal 403 (codes "403 Forbidden") response v,
)

-- A file whose path has no dot is opened, and then a null pointer is read.
pub static_handler_no_extension :
    (fopen : Bytes → Option Bytes) (content : Bytes) (world : World) (request : Request)
    (response : Response)
    → has_dots (full_path (index_path request.path)) ≡ false
    → fopen (full_path (index_path request.path)) ≡ some content
    → last_dot (index_path request.path) ≡ none
    → static_handler fopen world request response ≡ fault null_pointer
unfolding static_handler
static_handler_no_extension fopen content world request response dots opened bare =
    rw (dots, static_handler, opened, bare, ◌>>=◌)

-- `middleware_serve_static_handler` does not keep the contract of a handler, whatever the files are.
pub static_handler-not_IsSound : (fopen : Bytes → Option Bytes) → ¬ IsSound (static_handler fopen)
unfolding has_dots bytes_eq
static_handler-not_IsSound fopen sound =
    let world : World = record { request_id = 0; log = [] } in
    let request : Request = record {
      method = [];
      path = codes "/../x";
      headers = Headers.create;
      body = [];
    } in
    let (o, run, v) = sound.runs world request Response.create create-IsOwned in
    let (o', run', status, crash) =
      static_handler-refuse fopen world request Response.create (create-IsOwned).intact refl in
    let (freed, end) = destroy-IsOwned o.response v in
    let same : o ≡ o' = cc in
    let free : Response.destroy o'.response ≡ ok freed = rw same at end in cc
