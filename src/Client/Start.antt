-- ===== src/Client/Start.antt =====
-- chat-client.c from the arguments of `main` to the connection, the whole of `main`, and the loop of
-- `receive_message`.
pub mod Session
use ntu_computer_network.Base.{
  ℕ, ◌≡◌, Bool, true, false, if◌then◌else◌, Option, none, some, List, [], ◌∷◌, ◌++◌, Bytes, codes,
  Exec, ok, ◌>>=◌,
}
use ntu_computer_network.Chat.Config.{atoi}
use ntu_computer_network.Client.{run_client, receive_message}

-- The operating system: what `socket` returns, `none` for -1, and whether `connect` brings a socket
-- to an address and a port.
pub record Network : Type 0 where
  pub new_socket : Option ℕ
  pub connects : ℕ → Bytes → ℕ → Bool

-- Where `main` is before it asks for the name: it has returned EXIT_FAILURE behind a text, or it has
-- a socket that is connected.
pub data Connection : Type 0 where
  failed : Bytes → Connection
  connected : ℕ → Connection

abbrev connect : Network → Bytes → ℕ → ℕ → Connection
connect network server_ip server_port socket_fd =
    if network.connects socket_fd server_ip server_port
    then connected socket_fd
    else failed (codes "Connection failed")

abbrev open_socket : Network → Bytes → ℕ → Connection
open_socket network server_ip server_port = elim network.new_socket [
  | none ↦ failed (codes "Failed to create socket")
  | some socket_fd ↦ connect network server_ip server_port socket_fd
]

-- `argv`, the name of the program first.
unfoldable pub open_connection : Network → List Bytes → Exec Connection
open_connection network (program ∷ server_ip ∷ port ∷ more) = do
  server_port ← atoi port
  ok (open_socket network server_ip server_port)
open_connection network _ = ok (failed (codes "Usage: ./client <server_ip> <server_port>\n"))

-- So many rounds of the endless loop: how `main` has started, and the texts it has sent.
unfoldable pub main :
    Network → List Bytes → ℕ → Bytes → Bytes → Bytes → Exec (Connection × List Bytes)
unfolding open_connection
main network argv rounds username message input = do
  started ← open_connection network argv
  elim started [
    | failed text ↦ ok (failed text, [])
    | connected socket_fd ↦
        run_client rounds username message input >>= λ texts. ok (connected socket_fd, texts)
  ]

-- What `receive_message` prints for what `recv` gives until it gives no more.
unfoldable pub receive_all : List Bytes → Exec (List Bytes)
receive_all [] = ok (codes "Connection closed.\n" ∷ [])
receive_all (received ∷ more) = do
  text ← receive_message received
  lines ← receive_all more
  ok ((text ++ b'\n' ∷ []) ∷ lines)
