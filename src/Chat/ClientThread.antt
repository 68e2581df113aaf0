-- ===== src/Chat/ClientThread.antt =====
-- The whole loop of `handle_chat_client`, for any messages.
use ntu_computer_network.Base.{
  ℕ, ◌≡◌, ◌≤◌, refl, ap, ◌∙◌, true, ◌&&◌, not, List, [], ◌∷◌, ◌++◌, Bytes, length, ◌==◌, ok, ◌>>=◌,
  All,
}
use ntu_computer_network.Chat.{ChatServer, Send, handle_chat_client, remove_chat_client}
use ntu_computer_network.Chat.Leaving.{remove_chat_client-IsValid}
use ntu_computer_network.Chat.Members.{has_socket, IsValid, IsSized}
use ntu_computer_network.Chat.Meaning.{meaning, handle_message-meaning}
use ntu_computer_network.Chat.Reaction.{up_to_nul}
use ntu_computer_network.Chat.Reach.{handle_message-Keeps}
use ntu_computer_network.Chat.Accept.Sockets.{handle_message-SameSockets, has_socket-SameSockets}

-- The server behind a conversation, and what is sent in it, by the meaning of each message.
unfoldable pub conversation : ChatServer → ℕ → List Bytes → ChatServer × List Send
conversation server socket [] = (remove_chat_client server socket, [])
conversation server socket (received ∷ messages) =
    let next = meaning server socket (up_to_nul received) in
    let end = conversation next.0 socket messages in (end.0, next.1 ++ end.1)

-- What a thread leaves behind: a valid server without its client, and with every other one.
pub record IsGone (server : ChatServer) (socket : ℕ) (after : ChatServer) : Type 0 where
  pub valid : IsValid after
  pub gone :
      (t : ℕ) → has_socket t after.clients ≡ (has_socket t server.clients && not (t == socket))

-- The thread of a client of a valid server whose sizes do not wrap, whatever messages that fit the
-- buffer it receives, when no other thread runs: it ends without a fault, having sent what the messages
-- mean, one after the other. Its client is gone then, every other client is still there, and the
-- server is valid.
pub handle_chat_client-conversation :
    (server : ChatServer) (socket : ℕ) (messages : List Bytes)
    → IsValid server
    → has_socket socket server.clients ≡ true
    → IsSized server.config
    → All (λ received. length received ≤ server.config.message_buffer_size) messages
    → (handle_chat_client server socket messages ≡ ok (conversation server socket messages))
      × IsGone server socket (conversation server socket messages).0
unfolding handle_chat_client conversation
handle_chat_client-conversation server socket [] v member sized fits =
    let (valid, gone) = remove_chat_client-IsValid socket v in
    (refl, record { valid = valid; gone = gone })
handle_chat_client-conversation server socket (received ∷ messages) v member sized fits =
    let (next, sent) = meaning server socket (up_to_nul received) in
    let run = handle_message-meaning socket received v member sized fits.0 in
    let kept = handle_message-Keeps socket received sent v run in
    let same : (t : ℕ) → has_socket t next.clients ≡ has_socket t server.clients = λ t.
      has_socket-SameSockets t server.clients next.clients
        (handle_message-SameSockets server socket received sent run) in
    let (run', left) =
      handle_chat_client-conversation next socket messages kept.valid (same socket ∙ member)
        (rw kept.same_config sized) (rw kept.same_config fits.1) in
    (
      rw (run, ◌>>=◌) (rw (run', ◌>>=◌)),
      record {
        valid = left.valid;
        gone = λ t. left.gone t ∙ ap (λ b. b && not (t == socket)) (same t);
      },
    )
