-- ===== src/Main/Frees.antt =====
-- Runs that free blocks of memory, one behind the other: the loops of `destroy_chat_server` and
-- `server_middlewares_destroy`.
use ntu_computer_network.Base.{
  ℕ, suc, ◌+◌, ◌≡◌, refl, ◌∙◌, Bool, true, false, not, ◌||◌, ◌&&◌, List, [], ◌∷◌, ◌==◌, ltb, Exec,
  ok, ◌>>=◌, arith, length,
}
use ntu_computer_network.Chat.{ChatClient}
use ntu_computer_network.Chat.Members.{has_socket, IsDistinct, other_socket}
use ntu_computer_network.Middleware.{ServerMiddlewares}
use ntu_computer_network.Main.{
  Block, name_block, client_block, middleware_name, is_freed, free, touch, free_clients, free_names,
}

-- A run that frees, of the blocks that were not freed, those of which `of` holds.
pub record Frees (freed : List Block) (run : Exec (List Block)) (of : Block → Bool) : Type 0 where
  pub after : List Block
  pub ends : run ≡ ok after
  pub blocks : (b : Block) → is_freed b after ≡ (is_freed b freed || of b)

abbrev pub is_block : Block → Block → Bool
is_block a b = a.kind == b.kind && a.index == b.index

pub free-Frees :
    (freed : List Block) (a : Block)
    → is_freed a freed ≡ false
    → Frees freed (free freed a) (is_block a)
unfolding free is_freed
free-Frees freed a h = record { after = a ∷ freed; ends = rw h; blocks = λ b. ground arith }

pub Frees-then :
    {freed : List Block} {m : Exec (List Block)} {of of' : Block → Bool}
    (k : List Block → Exec (List Block))
    → Frees freed m of
    → ((after : List Block)
        → ((b : Block) → is_freed b after ≡ (is_freed b freed || of b))
        → Frees after (k after) of')
    → Frees freed (m >>= k) (λ b. of b || of' b)
Frees-then {freed} {m} {of} {of'} k first second =
    let last = second first.after first.blocks in
    record {
      after = last.after;
      ends = rw (first.ends, ◌>>=◌) last.ends;
      blocks = λ b. ground (arith, last.blocks b, first.blocks b);
    }

pub Frees-as :
    {freed : List Block} {m : Exec (List Block)} {of of' : Block → Bool}
    → Frees freed m of
    → ((b : Block) → of b ≡ of' b)
    → Frees freed m of'
Frees-as v same = record {
  after = v.after;
  ends = v.ends;
  blocks = λ b. v.blocks b ∙ rw (same b) refl;
}

pub touched :
    (freed : List Block) (a : Block) (k : Unit {0} → Exec (List Block)) {of : Block → Bool}
    → is_freed a freed ≡ false
    → Frees freed (k tt) of
    → Frees freed (touch freed a >>= k) of
unfolding touch
touched freed a k h v = rw (h, ◌>>=◌) v

-- The blocks of the clients.
abbrev pub of_clients : List ChatClient → Block → Bool
of_clients cs b = (b.kind == 2 || b.kind == 3) && has_socket b.index cs

pub free_clients-Frees :
    (freed : List Block) (cs : List ChatClient)
    → IsDistinct cs
    → ((b : Block) → of_clients cs b ≡ true → is_freed b freed ≡ false)
    → Frees freed (free_clients freed cs) (of_clients cs)
unfolding free_clients
free_clients-Frees freed [] v h = record { after = freed; ends = refl; blocks = λ b. ground arith }
free_clients-Frees freed (c ∷ cs) v h =
    Frees-as
      (Frees-then _ (free-Frees freed (name_block c.socket) (h _ (ground arith))) (λ named e.
        Frees-then _
          (free-Frees named (client_block c.socket)
            (ground (arith, e (client_block c.socket), h (client_block c.socket) (ground arith))))
          (λ gone e'. free_clients-Frees gone cs v.1 (λ b m. ground (
            arith,
            e b,
            e' b,
            h b (ground (arith, m)),
            other_socket c cs b.index v.0 (ground (arith, m)),
          )))))
      (λ b. ground arith)

-- The blocks of the middlewares' names.
abbrev pub of_names : ℕ → ServerMiddlewares → Block → Bool
of_names i ms b = b.kind == 7 && (not (ltb b.index i) && ltb b.index (i + length ms))

pub free_names-Frees :
    (freed : List Block) (i : ℕ) (ms : ServerMiddlewares)
    → ((b : Block) → of_names i ms b ≡ true → is_freed b freed ≡ false)
    → Frees freed (free_names freed i ms) (of_names i ms)
unfolding free_names
free_names-Frees freed i [] h = record { after = freed; ends = refl; blocks = λ b. ground arith }
free_names-Frees freed i (m ∷ ms) h =
    Frees-as
      (Frees-then _ (free-Frees freed (middleware_name i) (h _ (ground arith))) (λ named e.
        free_names-Frees named (suc i) ms (λ b m. ground (arith, e b, h b (ground (arith, m))))))
      (λ b. ground arith)
