-- ===== src/Eth.antt =====
-- The Ethernet access point (eth_sfhip.c): its hooks for sfhip, which answers with a constant text, and
-- its main loop. The driver ch32v208_eth.h is not part of the repository: what it finds at each poll is
-- an argument, and the calls of it are recorded.
pub mod Server
pub mod Buffers
pub mod Run
pub mod Examples
use ch32fun_wi_not_ap.Prelude.{
  ℕ, [], some, none, ◌>>=◌, ◌∷◌, List, Option, Bool, replicate, ◌==◌, length, if◌then◌else◌, ltb,
  ◌*◌, false, ◌^◌, ◌&&◌, ◌+◌, set, not, leb, ◌%◌, true,
}
use ch32fun_wi_not_ap.Sfhip.{Hooks, Stack, mtu, run}
use ch32fun_wi_not_ap.Http.{
  codes, Event, TcpCode, socket_closed, http_port, tcp_sockets, send_length, is_sent, after_ack,
}
use ch32fun_wi_not_ap.Clock.{Clock, is_due, count_ms}
use ch32fun_wi_not_ap.Memory.{write_at, slice}

-- A `const char []` without the zero at its end.
abbrev pub http_response : List ℕ
http_response =
    codes
      "HTTP/1.1 200 OK\r\nContent-Type: text/plain\r\nContent-Length: 22\r\nConnection: close\r\n\r\nHello from CH32V208!\r\n"

-- `eth_send_packet`, `eth_release_rx_packet`, `eth_poll_link`
pub data EthCall : Type 0 where
  eth_send : List ℕ → EthCall
  eth_release : EthCall
  eth_poll_link : EthCall

-- `rx` is the packet that the driver has ready: the memory of its buffer, and the length.
pub record EthPoint : Type 0 where
  pub rx : Option (List ℕ × ℕ)
  pub calls : List EthCall
  pub scratch : List ℕ
  pub response_sent : List Bool
  pub clock : Clock

-- The buffer that sfhip was given: the driver's, of ETH_RX_BUF_SIZE bytes, or `scratch`.
pub data EthBuffer : Type 0 where
  from_eth eth_scratch : EthBuffer

abbrev pub eth_rx_buf_size : ℕ
eth_rx_buf_size = 1536

abbrev pub rx_memory : Option (List ℕ × ℕ) → List ℕ
rx_memory none = []
rx_memory (some (buf, len)) = buf

unfoldable pub eth_memory : EthBuffer → EthPoint → List ℕ
eth_memory from_eth w = rx_memory w.rx
eth_memory eth_scratch w = w.scratch

abbrev pub put_rx : ℕ → List ℕ → Option (List ℕ × ℕ) → Option (Option (List ℕ × ℕ))
put_rx off bytes none = none
put_rx off bytes (some (buf, len)) = do
  buf' ← write_at eth_rx_buf_size buf off bytes
  some (some (buf', len))

unfoldable pub eth_write : EthBuffer → ℕ → List ℕ → EthPoint → Option EthPoint
eth_write from_eth off bytes w = do rx ← put_rx off bytes w.rx; some (record w { rx = rx })
eth_write eth_scratch off bytes w = do
  buf ← write_at mtu w.scratch off bytes
  some (record w { scratch = buf })

-- The driver's result is a parameter, which may depend on the bytes.
module _ (sends_eth : List ℕ → Option ℕ) where
  unfoldable pub eth_send_packet : EthBuffer → ℕ → EthPoint → Option (Option ℕ × EthPoint)
  eth_send_packet b len w = do
    bytes ← slice (eth_memory b w) 0 len
    some (sends_eth bytes, record w { calls = eth_send bytes ∷ w.calls })

-- The constant text goes out, as much of it as there is room for.
unfoldable pub respond : ℕ → ℕ → List Bool → Option Event
respond sockno max_out sent =
    let full = length http_response in
    let response_len = if ltb max_out full then max_out else full in
    do
      out ← slice http_response 0 response_len
      some
          (record { result = send_length response_len; written = out; sent = set sent sockno true })

unfoldable pub eth_tcp_event : ℕ → ℕ → ℕ → ℕ → List Bool → Option Event
eth_tcp_event sockno arrived max_out acked sent = do
  fresh ← if ltb 0 arrived then (do was ← is_sent sent sockno; some (not was)) else some false
  if fresh then respond sockno max_out sent else after_ack sockno acked sent

unfoldable pub eth_event : ℕ → ℕ → ℕ → ℕ → EthPoint → Option (TcpCode × List ℕ × EthPoint)
eth_event sockno arrived max_out acked w = do
  e ← eth_tcp_event sockno arrived max_out acked w.response_sent
  some (e.result, e.written, record w { response_sent = e.sent })

unfoldable pub eth_accept_connection : ℕ → Bool
eth_accept_connection localport = localport == http_port * 2 ^ 8

unfoldable pub eth_close : ℕ → EthPoint → Option EthPoint
eth_close sockno w = do
  sent ← socket_closed sockno w.response_sent
  some (record w { response_sent = sent })

abbrev pub eth_hooks : (List ℕ → Option ℕ) → EthBuffer → Hooks EthPoint
eth_hooks sends_eth b = record {
  memory = eth_memory b;
  write = eth_write b;
  send = eth_send_packet sends_eth b;
  lease = λ address w. w;
  accept = eth_accept_connection;
  event = eth_event;
  close = eth_close;
}

-- `eth_release_rx_packet`: the buffer goes back to the driver.
abbrev pub release_rx : EthPoint → EthPoint
release_rx w = record w { rx = none; calls = eth_release ∷ w.calls }

-- The loop, with the driver and the stack as parameters.
module _ (sends_eth : List ℕ → Option ℕ) (s : Stack) where
  unfoldable pub rx_part : s.Hip → EthPoint → Option (s.Hip × EthPoint)
  rx_part hip w = elim w.rx [
    | none ↦ some (hip, w)
    | some (buf, pkt_len) ↦
        if ltb 0 pkt_len && leb pkt_len mtu
        then (do
          (hip', w') ← run (eth_hooks sends_eth from_eth) (s.accept_packet hip pkt_len) w
          some (hip', release_rx w'))
        else some (hip, release_rx w)
  ]

  unfoldable pub clock_part : ℕ → ℕ → s.Hip → EthPoint → Option (s.Hip × EthPoint)
  clock_part ticks_per_ms now hip w =
      if is_due now w.clock
      then (do
        (hip', w') ←
            run (eth_hooks sends_eth eth_scratch) (s.ticks hip 1)
              (record w { clock = count_ms ticks_per_ms w.clock })
        some (
          hip',
          if w'.clock.ms_cnt % 100 == 0 then record w' { calls = eth_poll_link ∷ w'.calls } else w',
        ))
      else some (hip, w)

  -- `rx` is what `eth_get_rx_packet` finds.
  unfoldable pub loop_round :
      ℕ → ℕ → Option (List ℕ × ℕ) → s.Hip → EthPoint → Option (s.Hip × EthPoint)
  loop_round ticks_per_ms now rx hip w = do
    (hip', w') ← rx_part hip (record w { rx = rx })
    clock_part ticks_per_ms now hip' w'

-- The variables of `main` before the loop, once `eth_init` has returned 0.
unfoldable pub boot : ℕ → ℕ → EthPoint
boot ticks_per_ms now = record {
  rx = none;
  calls = [];
  scratch = replicate mtu 0;
  response_sent = replicate tcp_sockets false;
  clock = record { next_ms = (now + ticks_per_ms) % 2 ^ 32; ms_cnt = 0 };
}

-- `eth_config_t`, without the callbacks: none for a packet, and one that prints the state of the link.
pub record EthConfig : Type 0 where
  pub mac_addr : Option (List ℕ)
  pub promiscuous_mode : Bool
  pub broadcast_filter : Bool
  pub multicast_filter : Bool

abbrev pub eth_config : EthConfig
eth_config = record {
  mac_addr = none;
  promiscuous_mode = false;
  broadcast_filter = true;
  multicast_filter = false;
}

-- Before the loop: the device stays in `while(1)`, or is ready for its first round.
pub data Started (H : Type 0) : Type 0 where
  stuck : Started H
  ready : H → EthPoint → Started H

-- The driver's `eth_init` and `eth_get_mac_address`, and the write of `hip.self_mac`. The result of
-- `eth_init` is the word of its `int`.
module _ (H : Type 0) (eth_init : EthConfig → ℕ) (mac_address : List ℕ)
    (set_self_mac : List ℕ → H → H) where
  unfoldable pub set_up : ℕ → ℕ → H → Started H
  set_up ticks_per_ms now hip =
      if not (eth_init eth_config == 0)
      then stuck
      else ready (set_self_mac mac_address hip) (boot ticks_per_ms now)
