-- ===== src/Middleware/Contract.antt =====
-- What `handle_client` needs of a handler to write the response and to free it, whatever handlers
-- the configuration installs.
use ntu_computer_network.Base.{
  ℕ, ◌≡◌, refl, inl, inr, not, ◌||◌, Option, none, some, List, [], ◌∷◌, Bytes, codes, Bool-cases,
  All, All-append, ok, ◌>>=◌, bytes_eq,
}
use ntu_computer_network.Headers.Ownership.{
  IsIntact, create-IsIntact, set-IsIntact, destroy-IsIntact,
}
use ntu_computer_network.Request.{Request}
use ntu_computer_network.Response
use ntu_computer_network.Response.{Response, Body, allocated, literal}
use ntu_computer_network.Middleware.{
  Handler, Outcome, World, ServerMiddlewares, add, is_set, run_chain, logger_handler,
  homepage_handler, not_found_handler, main_middlewares, content_type,
}

-- The body can be freed.
abbrev pub IsHeap : Option Body → Type 0
IsHeap none = Unit {0}
IsHeap (some (allocated text)) = Unit {0}
IsHeap (some (literal text)) = ⊥

free_body-IsHeap : (body : Option Body) → IsHeap body → Response.free_body body ≡ ok tt
free_body-IsHeap none h = refl
free_body-IsHeap (some (allocated text)) h = refl
free_body-IsHeap (some (literal text)) h = absurd h

pub record IsOwned (r : Response) : Type 0 where
  pub intact : IsIntact r.headers
  pub heap : IsHeap r.body

-- The contract of a handler: it faults on no response that is owned, and leaves one behind.
pub record IsSound (handler : Handler) : Type 0 where
  pub runs :
      (world : World) (request : Request) (response : Response)
      → IsOwned response
      → (o : Outcome) × (handler world request response ≡ ok o) × IsOwned o.response

abbrev pub IsSoundChain : ServerMiddlewares → Type 0
IsSoundChain middlewares = All (λ m. IsSound m.handler) middlewares

pub create-IsOwned : IsOwned Response.create
unfolding Response.create
create-IsOwned = record { intact = create-IsIntact; heap = tt }

pub destroy-IsOwned :
    (r : Response) → IsOwned r → (freed : List ℕ) × (Response.destroy r ≡ ok freed)
unfolding Response.destroy
destroy-IsOwned r v =
    let (freed, run, owners) = destroy-IsIntact v.intact in
    (freed, rw (run, ◌>>=◌, free_body-IsHeap r.body v.heap))

-- A chain of sound handlers ends without a fault, and the response behind it is owned.
pub run_chain-IsOwned :
    (middlewares : ServerMiddlewares) (world : World) (request : Request) (response : Response)
    → IsSoundChain middlewares
    → IsOwned response
    → (after : World) × (answered : Response) × (run_chain middlewares world request response
        ≡ ok (after, answered))
      × IsOwned answered
unfolding run_chain
run_chain-IsOwned [] world request response sound v = (world, response, refl, v)
run_chain-IsOwned (m ∷ ms) world request response sound v =
    let (o, run, w) = sound.0.runs world request response v in
    elim (Bool-cases (not o.turn_over || is_set o.response.body_stream)) [
      | inl last ↦ (o.world, o.response, rw (run, ◌>>=◌) (rw last), w)
      | inr more ↦
          let (after, answered, run', w') =
            run_chain-IsOwned ms o.world request o.response sound.1 w in
          (after, answered, rw (run, ◌>>=◌) (rw more run'), w')
    ]

pub add-IsSoundChain :
    (middlewares : ServerMiddlewares) (name : Option Bytes) (handler : Handler)
    → IsSoundChain middlewares
    → IsSound handler
    → IsSoundChain (add middlewares name handler)
unfolding add
add-IsSoundChain middlewares name handler chain sound =
    All-append (λ m. IsSound m.handler) middlewares _ chain (sound, tt)

logger_handler-IsSound : IsSound logger_handler
unfolding logger_handler
logger_handler-IsSound = record { runs = λ world request response v. (_, refl, v) }

homepage_handler-IsSound : (time_str : Bytes) → IsSound (homepage_handler time_str)
unfolding homepage_handler
homepage_handler-IsSound time_str = record {
  runs = λ world request response v. elim (Bool-cases (bytes_eq request.path (codes "/"))) [
    | inl e ↦
        rw (e, homepage_handler)
          (_, refl, record { intact = set-IsIntact (some content_type) _ v.intact; heap = tt })
    | inr e ↦ rw (e, homepage_handler) (_, refl, v)
  ];
}

not_found_handler-IsSound : IsSound not_found_handler
unfolding not_found_handler
not_found_handler-IsSound = record {
  runs = λ world request response v.
      (_, refl, record { intact = set-IsIntact (some content_type) _ v.intact; heap = tt });
}

-- The chain of `main` fills the contract.
pub main_middlewares-IsSoundChain : (time_str : Bytes) → IsSoundChain (main_middlewares time_str)
unfolding main_middlewares
main_middlewares-IsSoundChain time_str =
    add-IsSoundChain _ _ _
      (add-IsSoundChain _ _ _ (add-IsSoundChain [] _ _ tt logger_handler-IsSound)
        (homepage_handler-IsSound time_str))
      not_found_handler-IsSound
