-- ===== src/Chat/Config.antt =====
-- `parse_chat_config_from_env` of chat-server.c, and the configuration of `main`. The environment is
-- the argument `getenv`. `atol` and `atoi` leave a value that does not fit undefined.
use ntu_computer_network.Base.{
  ℕ, ◌-◌, ◌*◌, ◌%◌, ◌^◌, ◌<◌, ◌≡◌, refl, ap, ◌∙◌, Bool, true, false, ◌&&◌, ◌||◌, Option, none, some,
  [], ◌∷◌, arith, ltb, leb, ◌==◌, if◌then◌else◌, lt→ltb, Bytes, codes, length, All, overflow, Exec,
  ok, fault, ◌>>=◌, decimal, decimal_pos, IsDigit, decimal-IsDigit, digits_value,
  digits_value-decimal,
}
use ntu_computer_network.Chat.{ChatServerConfig}

-- `isspace` in the C locale
abbrev is_space : ℕ → Bool
is_space c = c == b' ' || (leb 9 c && leb c 13)

skip_spaces : Bytes → Bytes
skip_spaces [] = []
skip_spaces (c ∷ cs) = elim (is_space c) [ true ↦ skip_spaces cs | false ↦ c ∷ cs ]

-- A number of `w` bits with a sign, as the unsigned number of `u` bits that it becomes.
abbrev checked : ℕ → ℕ → Bool → ℕ → Exec ℕ
checked w u true n =
    if leb n (2 ^ (w - 1)) then ok ((2 ^ u * 2 ^ w - n) % 2 ^ u) else fault overflow
checked w u false n = if ltb n (2 ^ (w - 1)) then ok (n % 2 ^ u) else fault overflow

-- The text behind spaces: a sign, and digits.
abbrev signed_value : ℕ → ℕ → Bytes → Exec ℕ
signed_value w u [] = ok 0
signed_value w u (c ∷ cs) =
    if c == b'-'
    then checked w u true (digits_value 0 cs)
    else if c == b'+'
    then checked w u false (digits_value 0 cs)
    else checked w u false (digits_value 0 (c ∷ cs))

-- `atol` into a `size_t`, and `atoi` into an `in_port_t`
unfoldable pub atol : Bytes → Exec ℕ
unfolding skip_spaces
atol text = signed_value 64 64 (skip_spaces text)

unfoldable pub atoi : Bytes → Exec ℕ
unfolding skip_spaces
atoi text = signed_value 32 16 (skip_spaces text)

-- A variable that is not set leaves the field as it is.
abbrev setting : (Bytes → Exec ℕ) → Option Bytes → ℕ → Exec ℕ
setting read none old = ok old
setting read (some text) old = read text

unfoldable pub parse_chat_config_from_env :
    (Bytes → Option Bytes) → ChatServerConfig → Exec ChatServerConfig
parse_chat_config_from_env getenv config = do
  clients ← setting atol (getenv (codes "CHAT_SERVER_MAX_CLIENTS")) config.max_clients
  buffer ←
      setting atol (getenv (codes "CHAT_SERVER_MESSAGE_BUFFER_SIZE")) config.message_buffer_size
  name ← setting atol (getenv (codes "CHAT_SERVER_MAX_NAME_LENGTH")) config.max_name_length
  port ← setting atoi (getenv (codes "CHAT_SERVER_PORT")) config.server_port
  ok (record {
    max_clients = clients;
    message_buffer_size = buffer;
    max_name_length = name;
    server_port = port;
  })

-- `chat_config` in `main`
unfoldable pub main_chat_config : ChatServerConfig
main_chat_config = record {
  max_name_length = 32;
  max_clients = 256;
  message_buffer_size = 1024;
  server_port = 30001;
}

skip_spaces-digits : (text : Bytes) → All IsDigit text → skip_spaces text ≡ text
unfolding skip_spaces
skip_spaces-digits [] a = refl
skip_spaces-digits (c ∷ cs) a =
    let no_space : is_space c ≡ false = ground (arith, a.0.0, a.0.1) in rw (no_space, skip_spaces)

signed_value-digits :
    (w u : ℕ) (text : Bytes)
    → 0 < length text
    → All IsDigit text
    → signed_value w u text ≡ checked w u false (digits_value 0 text)
signed_value-digits w u [] h a = elim h [ ]
signed_value-digits w u (c ∷ cs) h a =
    let no_minus : (c == b'-') ≡ false = ground (arith, a.0.0, a.0.1) in
    let no_plus : (c == b'+') ≡ false = ground (arith, a.0.0, a.0.1) in rw (no_minus, no_plus)

atol-decimal : (n : ℕ) → n < 2 ^ 63 → atol (decimal n) ≡ ok n
unfolding atol
atol-decimal n h =
    ap (signed_value 64 64) (skip_spaces-digits (decimal n) (decimal-IsDigit n))
    ∙ signed_value-digits 64 64 (decimal n) (decimal_pos n) (decimal-IsDigit n)
    ∙ ap (checked 64 64 false) (digits_value-decimal n (omega arith))
    ∙ rw (lt→ltb n (2 ^ 63) h) (ap ok (omega arith))

pub atoi-decimal : (n : ℕ) → n < 2 ^ 16 → atoi (decimal n) ≡ ok n
unfolding atoi
atoi-decimal n h =
    ap (signed_value 32 16) (skip_spaces-digits (decimal n) (decimal-IsDigit n))
    ∙ signed_value-digits 32 16 (decimal n) (decimal_pos n) (decimal-IsDigit n)
    ∙ ap (checked 32 16 false) (digits_value-decimal n (omega arith))
    ∙ rw (lt→ltb n (2 ^ 31) (omega arith)) (ap ok (omega arith))

-- The environment sets the configuration: when the four variables hold the decimal digits of numbers
-- that fit a `long`, and of a port, the configuration has these numbers, whatever it had before.
pub parse_chat_config_from_env-decimal :
    (getenv : Bytes → Option Bytes) (config : ChatServerConfig) (clients buffer name port : ℕ)
    → getenv (codes "CHAT_SERVER_MAX_CLIENTS") ≡ some (decimal clients)
    → getenv (codes "CHAT_SERVER_MESSAGE_BUFFER_SIZE") ≡ some (decimal buffer)
    → getenv (codes "CHAT_SERVER_MAX_NAME_LENGTH") ≡ some (decimal name)
    → getenv (codes "CHAT_SERVER_PORT") ≡ some (decimal port)
    → clients < 2 ^ 63
    → buffer < 2 ^ 63
    → name < 2 ^ 63
    → port < 2 ^ 16
    → parse_chat_config_from_env getenv config
      ≡ ok (record {
        max_clients = clients;
        message_buffer_size = buffer;
        max_name_length = name;
        server_port = port;
      })
unfolding parse_chat_config_from_env
parse_chat_config_from_env-decimal getenv config clients buffer name port e1 e2 e3 e4 h1 h2 h3 h4 =
    rw (e1, atol-decimal clients h1, ◌>>=◌)
      (rw (e2, atol-decimal buffer h2, ◌>>=◌)
        (rw (e3, atol-decimal name h3, ◌>>=◌) (rw (e4, atoi-decimal port h4, ◌>>=◌))))
