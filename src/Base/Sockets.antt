-- ===== src/Base/Sockets.antt =====
-- What a server binds its socket to: `sockaddr_in`, with its port below 2 ^ 16.
use Prim.Native.Nat.{ℕ}
use ntu_computer_network.Base.Lists.{Bytes}

pub record Address : Type 0 where
  pub host : Bytes
  pub port : ℕ
