-- ===== src/Tests/MainRuns.antt =====
-- `main` of main.c, and its `cleanup` while the servers run.
use ntu_computer_network.Base.{refl, [], ◌∷◌, codes}
use ntu_computer_network.Chat.{ChatServer}
use ntu_computer_network.Chat.Config.{main_chat_config}
use ntu_computer_network.Middleware.{ServerMiddlewares, main_middlewares}
use ntu_computer_network.Queue
use ntu_computer_network.Main.{serving, cleanup, globals_at}
use ntu_computer_network.Main.Frees.{Frees}
use ntu_computer_network.Main.Cleanup.{is_owned, cleanup-Frees}

abbrev chat : ChatServer
chat = record {
  clients =
      (record { name = codes "ann"; socket = 5 })
      ∷ (record { name = codes "bob"; socket = 6 })
      ∷ [];
  client_increment = 2;
  config = main_chat_config;
}

abbrev middlewares : ServerMiddlewares
middlewares = main_middlewares (codes "Mon Dec  4 12:00:00 2023\n")

cleanup-Frees_example :
    Frees []
      (cleanup (globals_at chat middlewares Queue.create serving))
      (is_owned chat middlewares serving)
unfolding Queue.create
cleanup-Frees_example =
    cleanup-Frees chat middlewares Queue.create serving (refl, (refl, tt)) refl (λ e. cc)
