-- ===== src/HttpServer/Accept/Connections.antt =====
-- Every connection that is handed to the pool is handled once.
use ntu_computer_network.Base.{◌≤◌, ℕ}
use ntu_computer_network.Pool.{ThreadPool, Reach, StaysWithin}
use ntu_computer_network.HttpServer.{ServerConfig}
use ntu_computer_network.HttpServer.Accept.{Server, Serves, opens, goes_on}

-- At no time do more than `n` connections wait.
abbrev pub QueueWithin : ℕ → {config : ServerConfig} {s : Server} → Serves config s → Type 0
QueueWithin n (opens sockfd) = Unit {0}
QueueWithin n (goes_on {t = t} before step) = QueueWithin n before × (t.pool.queue.size ≤ n)

-- What the pool of a server has done.
abbrev Ran : ℕ → ThreadPool → Type 0
Ran n p = (r : Reach n p) × StaysWithin 32 r
