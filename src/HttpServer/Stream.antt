-- ===== src/HttpServer/Stream.antt =====
-- Stream mode: the file goes out in pieces of the buffer's size.
use ntu_computer_network.Base.{
  ℕ, zero, suc, ◌≤◌, ◌<◌, ◌≡◌, refl, ap, List, [], ◌∷◌, ◌++◌, arith, Bytes, length, take, drop, All,
  ok, ◌>>=◌,
}
use ntu_computer_network.HttpServer.{SocketCall, write, close, stream}

-- What is written to the socket, in order.
unfoldable pub written : List SocketCall → Bytes
written [] = []
written (write text ∷ calls) = text ++ written calls
written (close ∷ calls) = written calls

abbrev pub IsPiece : ℕ → SocketCall → Type 0
IsPiece size (write text) = (0 < length text) × (length text ≤ size)
IsPiece size close = ⊥

take-drop : (n : ℕ) (xs : Bytes) → take n xs ++ drop n xs ≡ xs
take-drop zero xs = refl
take-drop (suc n) [] = refl
take-drop (suc n) (x ∷ xs) = ap (λ ys. x ∷ ys) (take-drop n xs)

length-take-drop :
    (n : ℕ) (xs : Bytes) → (length (take n xs) ≤ n) × (length (drop n xs) ≤ length xs)
length-take-drop zero xs = (omega arith, omega arith)
length-take-drop (suc n) [] = (omega arith, omega arith)
length-take-drop (suc n) (x ∷ xs) =
    let (few, rest) = length-take-drop n xs in (omega arith, omega arith)

-- The loop over the stream ends with one round for each byte, whatever the size of the buffer is
-- above 0: all bytes of the file are written in their order, in pieces that are not empty and fit the
-- buffer.
pub stream-written :
    (fuel size : ℕ) (content : Bytes)
    → 0 < size
    → length content < fuel
    → (calls : List SocketCall) × (stream fuel size content ≡ ok calls)
      × (written calls ≡ content)
      × All (IsPiece size) calls
unfolding stream written
stream-written zero size content some_size h = elim h [ ]
stream-written (suc fuel) zero content some_size h = elim some_size [ ]
stream-written (suc fuel) (suc size) [] some_size h = ([], refl, refl, tt)
stream-written (suc fuel) (suc size) (c ∷ cs) some_size h =
    let (few, rest) = length-take-drop size cs in
    let (calls, run, all, pieces) =
      stream-written fuel (suc size) (drop size cs) some_size (omega arith) in
    (
      write (c ∷ take size cs) ∷ calls,
      rw (run, ◌>>=◌),
      rw all (ap (λ ys. c ∷ ys) (take-drop size cs)),
      ((omega arith, omega arith), pieces),
    )
