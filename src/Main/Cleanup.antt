-- ===== src/Main/Cleanup.antt =====
-- What `cleanup` of main.c frees, at each stage of the program.
use ntu_computer_network.Base.{
  ◌≡◌, ◌≢◌, refl, Bool, true, false, not, ◌||◌, ◌&&◌, some, List, [], ◌==◌, ltb, null_pointer,
  fault, ◌>>=◌, arith,
}
use ntu_computer_network.Chat.{ChatServer}
use ntu_computer_network.Chat.Members.{IsDistinct}
use ntu_computer_network.Middleware.{ServerMiddlewares}
use ntu_computer_network.Queue.{SafeQueue, lock}
use ntu_computer_network.Main.Frees.{
  Frees, is_block, free-Frees, Frees-then, Frees-as, touched, of_clients, free_clients-Frees,
  of_names, free_names-Frees,
}
use ntu_computer_network.Main.{
  Block, chat_block, clients_block, config_block, middlewares_block, middleware_array, server_block,
  pool_block, threads_block, queue_block, data_block, is_freed, touch, destroy_chat_server,
  server_middlewares_destroy, safe_queue_destroy, thread_pool_free, server_stop, server_destroy,
  destroy_server, destroy_config, cleanup, Stage, begun, chat_ready, config_ready, server_ready,
  serving, globals_at,
}

abbrev pub of_chat : ChatServer → Block → Bool
of_chat server b = (ltb b.kind 2 && b.index == 0) || of_clients server.clients b

destroy_chat_server-Frees :
    (freed : List Block) (server : ChatServer)
    → IsDistinct server.clients
    → ((b : Block) → of_chat server b ≡ true → is_freed b freed ≡ false)
    → Frees freed (destroy_chat_server freed server) (of_chat server)
unfolding destroy_chat_server
destroy_chat_server-Frees freed server v h = touched freed chat_block _ (h chat_block refl) (
    Frees-as
      (Frees-then _ (free_clients-Frees freed server.clients v (λ b m. h b (ground (arith, m))))
        (λ gone e.
          Frees-then _
            (free-Frees gone clients_block (ground (arith, e clients_block, h clients_block refl)))
            (λ array e'.
              free-Frees array chat_block
                (ground (arith, e chat_block, e' chat_block, h chat_block refl)))))
      (λ b. ground arith))

abbrev pub of_config : ServerMiddlewares → Block → Bool
of_config ms b = ((b.kind == 4 || b.kind == 5 || b.kind == 6) && b.index == 0) || of_names 0 ms b

destroy_config-Frees :
    (freed : List Block) (ms : ServerMiddlewares)
    → ((b : Block) → of_config ms b ≡ true → is_freed b freed ≡ false)
    → Frees freed (destroy_config freed (some ms)) (of_config ms)
unfolding server_middlewares_destroy
destroy_config-Frees freed ms h = touched freed config_block _ (h config_block refl) (
    Frees-as
      (Frees-then _
        (touched freed middlewares_block _ (h middlewares_block refl) (
          Frees-then _ (free_names-Frees freed 0 ms (λ b m. h b (ground (arith, m)))) (λ named e.
            Frees-then _
              (free-Frees named middleware_array
                (ground (arith, e middleware_array, h middleware_array refl)))
              (λ array e'. free-Frees array middlewares_block (
                ground
                  (arith, e middlewares_block, e' middlewares_block, h middlewares_block refl))))))
        (λ emptied e.
          free-Frees emptied config_block (ground (arith, e config_block, h config_block refl))))
      (λ b. ground arith))

abbrev pub of_pool : Block → Bool
of_pool b = not (ltb b.kind 9) && (ltb b.kind 13 && b.index == 0)

safe_queue_destroy-Frees :
    (freed : List Block) (queue : SafeQueue)
    → queue.locked ≡ false
    → ((b : Block) → of_pool b ≡ true → is_freed b freed ≡ false)
    → Frees freed
        (safe_queue_destroy freed queue)
        (λ b. is_block data_block b || is_block queue_block b)
unfolding safe_queue_destroy lock
safe_queue_destroy-Frees freed queue unlocked h =
    rw (unlocked, ◌>>=◌)
      (Frees-then _ (free-Frees freed data_block (h data_block refl)) (λ cells e.
        free-Frees cells queue_block (ground (arith, e queue_block, h queue_block refl))))

thread_pool_free-Frees :
    (freed : List Block) (queue : SafeQueue)
    → queue.locked ≡ false
    → ((b : Block) → of_pool b ≡ true → is_freed b freed ≡ false)
    → Frees freed (thread_pool_free freed queue) of_pool
unfolding thread_pool_free
thread_pool_free-Frees freed queue unlocked h = touched freed pool_block _ (h pool_block refl) (
    Frees-as
      (Frees-then _ (safe_queue_destroy-Frees freed queue unlocked h) (λ queued e.
        Frees-then _
          (free-Frees queued threads_block (ground (arith, e threads_block, h threads_block refl)))
          (λ threads e'.
            free-Frees threads pool_block
              (ground (arith, e pool_block, e' pool_block, h pool_block refl)))))
      (λ b. ground arith))

abbrev pub of_server : Block → Bool
of_server b = (b.kind == 8 && b.index == 0) || of_pool b

server_stop-Frees :
    (queue : SafeQueue) → queue.locked ≡ false → Frees [] (server_stop [] (some queue)) of_pool
unfolding server_stop is_freed touch
server_stop-Frees queue unlocked =
    let v = thread_pool_free-Frees [] queue unlocked (λ b m. refl) in
    let kept : is_freed config_block v.after ≡ false = v.blocks config_block in
    record { after = v.after; ends = rw (v.ends, ◌>>=◌) (rw (kept, ◌>>=◌)); blocks = v.blocks }

destroy_server-Frees :
    (queue : SafeQueue)
    → queue.locked ≡ false
    → Frees [] (destroy_server [] (some (some queue))) of_server
unfolding server_destroy is_freed
destroy_server-Frees queue unlocked =
    Frees-as
      (Frees-then _ (server_stop-Frees queue unlocked) (λ freed e.
        touched freed server_block _ (ground (arith, e server_block)) (
          touched freed config_block _ (ground (arith, e config_block))
            (free-Frees freed server_block (ground (arith, e server_block))))))
      (λ b. ground arith)

-- Whether a block is allocated when `main` has come to a stage.
abbrev pub is_owned : ChatServer → ServerMiddlewares → Stage → Block → Bool
is_owned chat middlewares begun b = false
is_owned chat middlewares chat_ready b = of_chat chat b
is_owned chat middlewares config_ready b = of_config middlewares b || of_chat chat b
is_owned chat middlewares server_ready b =
    (b.kind == 8 && b.index == 0) || (of_config middlewares b || of_chat chat b)
is_owned chat middlewares serving b = of_server b || (of_config middlewares b || of_chat chat b)

-- `cleanup` at any stage of `main` but the one between `server_create` and `thread_pool_create`, when
-- no two clients of the chat have one socket and nobody holds the mutex of the queue, the loops of
-- `thread_pool_destroy` being done: it frees no block twice and reads none that is freed, and when it
-- ends it has freed every block of the chat, the configuration and the server that is allocated at
-- that stage, and nothing else.
pub cleanup-Frees :
    (chat : ChatServer) (middlewares : ServerMiddlewares) (queue : SafeQueue) (stage : Stage)
    → IsDistinct chat.clients
    → queue.locked ≡ false
    → stage ≢ server_ready
    → Frees [] (cleanup (globals_at chat middlewares queue stage)) (is_owned chat middlewares stage)
unfolding cleanup globals_at is_freed
cleanup-Frees chat middlewares queue begun v unlocked ne = record {
  after = [];
  ends = refl;
  blocks = λ b. refl;
}
cleanup-Frees chat middlewares queue chat_ready v unlocked ne =
    destroy_chat_server-Frees [] chat v (λ b m. refl)
cleanup-Frees chat middlewares queue config_ready v unlocked ne =
    Frees-then _ (destroy_config-Frees [] middlewares (λ b m. refl))
      (λ freed e. destroy_chat_server-Frees freed chat v (λ b m. ground (arith, e b, m)))
cleanup-Frees chat middlewares queue server_ready v unlocked ne = absurd (ne refl)
cleanup-Frees chat middlewares queue serving v unlocked ne =
    Frees-then _ (destroy_server-Frees queue unlocked) (λ freed e.
      Frees-then _ (destroy_config-Frees freed middlewares (λ b m. ground (arith, e b, m)))
        (λ emptied e'.
          destroy_chat_server-Frees emptied chat v (λ b m. ground (arith, e b, e' b, m))))

-- SIGINT or SIGTERM between `server_create` and `thread_pool_create`: the pool of the server is NULL,
-- and `cleanup` reads it.
pub cleanup_early :
    (chat : ChatServer) (middlewares : ServerMiddlewares) (queue : SafeQueue)
    → cleanup (globals_at chat middlewares queue server_ready) ≡ fault null_pointer
unfolding cleanup globals_at is_freed touch
cleanup_early chat middlewares queue = refl
