-- ===== src/Http.antt =====
-- The HTTP server of the firmwares (usb_sfhip.c, iSLER_sfhip.c): the answer that `sfhip_tcp_event`
-- composes, its table of sockets, and the names that are made from the chip's ROM word. The two
-- firmwares have the same code with different texts, which are arguments here.
pub mod Names
pub mod Reply
pub mod Sockets
pub mod Machine
pub mod Examples
use Prim.Native.Char.{code}
use Prim.Native.String.{String}
use ch32fun_wi_not_ap.Prelude.{
  ℕ, [], ◌∷◌, some, none, ◌>>=◌, List, get_or, Bool, ◌%◌, Option, ◌==◌, length, if◌then◌else◌, ◌*◌,
  ◌/◌, ◌+◌, ltb, ◌^◌, ◌-◌, false, set, not, replicate, true,
}
use ch32fun_wi_not_ap.Memory.{word_bytes, write_at, slice}

-- The bytes of a C string, without the zero at its end.
abbrev pub codes : String → List ℕ
codes String.[] = []
codes (String.◌∷◌ c s) = code c ∷ codes s

abbrev pub tcp_sockets : ℕ
tcp_sockets = 16

abbrev pub http_port : ℕ
http_port = 80

abbrev pub response_buf_size : ℕ
response_buf_size = 512

-- What `sfhip_tcp_event` returns: a length, or SFHIP_TCP_OUTPUT_FIN.
pub data TcpCode : Type 0 where
  send_length : ℕ → TcpCode
  output_fin : TcpCode

-- The four bits of a number as a digit: `hexlut[n & 0xf]`.
abbrev pub hex_digit : ℕ → ℕ
hex_digit n = get_or (codes "0123456789abcdef") (n % 16) 0

-- The loop that writes the bytes of the ROM word into a name from `idx` on, two digits each.
unfoldable pub put_hex : List ℕ → List ℕ → ℕ → Option (List ℕ)
put_hex [] name idx = some name
put_hex (b ∷ bytes) name idx = do
  name₁ ← write_at (length name) name idx (hex_digit (b / 2 ^ 4) ∷ [])
  name₂ ← write_at (length name) name₁ (idx + 1) (hex_digit b ∷ [])
  put_hex bytes name₂ (idx + 2)

-- `self_mac`: MAC_PREFIX, and the bytes of the ROM word.
unfoldable pub mac_address : ℕ → List ℕ
mac_address rom = 0xc6 ∷ 0x32 ∷ word_bytes rom

-- The buffer with the answer, and its length. `header` comes without the zero at its end, `hname` with it.
unfoldable pub compose : List ℕ → List ℕ → Option (List ℕ × ℕ)
compose header hname =
    let response_len = length header in
    let named_len = response_len + (length hname - 1) in
    do
      copied ←
          slice header 0
            (if ltb response_buf_size response_len then response_buf_size else response_len)
      buf₁ ← write_at response_buf_size (replicate response_buf_size 0) 0 copied
      buf₂ ← write_at response_buf_size buf₁ response_len hname
      buf₃ ← write_at response_buf_size buf₂ named_len (b'\r' ∷ [])
      buf₄ ← write_at response_buf_size buf₃ (named_len + 1) (b'\n' ∷ [])
      some (buf₄, named_len + 2)

-- A read of `response_sent[sockno]`.
abbrev pub is_sent : List Bool → ℕ → Option Bool
is_sent sent sockno = if ltb sockno tcp_sockets then some (get_or sent sockno false) else none

-- What a call of `sfhip_tcp_event` gives: its result, what it wrote to `ip_payload`, the table.
pub record Event : Type 0 where
  pub result : TcpCode
  pub written : List ℕ
  pub sent : List Bool

-- The first request on a socket gets the answer.
unfoldable pub answer : List ℕ → List ℕ → ℕ → ℕ → List Bool → Option Event
answer header hname sockno max_out sent = do
  (buf, response_len) ← compose header hname
  out ← slice buf 0 (if ltb max_out response_len then max_out else response_len)
  some (record { result = send_length response_len; written = out; sent = set sent sockno true })

-- `acked > 0 && response_sent[sockno]`
unfoldable pub after_ack : ℕ → ℕ → List Bool → Option Event
after_ack sockno acked sent = do
  over ← if ltb 0 acked then is_sent sent sockno else some false
  some (record { result = if over then output_fin else send_length 0; written = []; sent = sent })

unfoldable pub tcp_event : List ℕ → List ℕ → ℕ → ℕ → ℕ → ℕ → List Bool → Option Event
tcp_event header hname sockno received max_out acked sent = do
  fresh ← if ltb 0 received then (do was ← is_sent sent sockno; some (not was)) else some false
  if fresh then answer header hname sockno max_out sent else after_ack sockno acked sent

-- `localport` as the network has it: the two bytes of the port swapped.
unfoldable pub accept_connection : ℕ → Bool
accept_connection localport = localport == http_port * 2 ^ 8

unfoldable pub socket_closed : ℕ → List Bool → Option (List Bool)
socket_closed sockno sent = if ltb sockno tcp_sockets then some (set sent sockno false) else none
