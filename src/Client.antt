-- ===== src/Client.antt =====
-- The WiNoT client firmware (iSLER_sfhip.c): the hooks that it gives sfhip, the announcement over the
-- side channels, and the main loop. The pins, the LED and the debug output are left out.
pub mod Keeping
pub mod Loop
pub mod Announce
pub mod Safety
pub mod Examples
use ch32fun_wi_not_ap.Prelude.{
  none, ℕ, [], some, ◌>>=◌, ◌∷◌, List, Option, true, Bool, if◌then◌else◌, ◌++◌, length, false, ltb,
  not, ◌-◌, ◌&&◌, replicate, ◌+◌, ◌%◌, ◌^◌, leb,
}
use ch32fun_wi_not_ap.Sfhip.{Hooks, Stack, run, mtu}
use ch32fun_wi_not_ap.Node.{Node, data_buf_size, is_newrx, emit, client, power_on}
use ch32fun_wi_not_ap.Clock.{
  Task, task_10ms, Clock, is_run, task_100ms, is_due, task_1s, count_ms, task_10s, task_100s,
}
use ch32fun_wi_not_ap.Http.{
  codes, TcpCode, socket_closed, accept_connection, put_hex, tcp_event, tcp_sockets,
}
use ch32fun_wi_not_ap.Memory.{write_at, Frame, word_bytes, slice}
use ch32fun_wi_not_ap.Request.{
  Packet, release_packet, request, poll_packet, own, send_packet, outside, start, sidechannel_tx,
}
use ch32fun_wi_not_ap.Radio.{delay_us}
use ch32fun_wi_not_ap.Tick.{tick}

abbrev pub http_response_header : List ℕ
http_response_header =
    codes
      "HTTP/1.1 200 OK\r\nContent-Type: text/plain\r\nContent-Length: 16\r\nConnection: close\r\n\r\n"

abbrev pub hname_blank : List ℕ
hname_blank = codes "WiNot_XXXXXXXX" ++ (0 ∷ [])

abbrev pub sidechannel_mqtt : ℕ
sidechannel_mqtt = 1

abbrev pub sidechannel_ntfy_sh : ℕ
sidechannel_ntfy_sh = 2

-- The static variables of the firmware, and those of `main` but for `hip`.
pub record Client : Type 0 where
  pub node : Node
  pub scratch : List ℕ
  pub hname : List ℕ
  pub response_sent : List Bool
  pub has_ip : Bool
  pub has_announced : Bool
  pub clock : Clock

-- The buffer that sfhip was given: the packet of WiNoT, or `scratch`.
pub data ClientBuffer : Type 0 where
  received client_scratch : ClientBuffer

unfoldable pub client_memory : ClientBuffer → Client → List ℕ
client_memory received w = w.node.data_buf
client_memory client_scratch w = w.scratch

unfoldable pub client_write : ClientBuffer → ℕ → List ℕ → Client → Option Client
client_write received off bytes w = do
  buf ← write_at data_buf_size w.node.data_buf off bytes
  some (record w { node = record w.node { data_buf = buf } })
client_write client_scratch off bytes w = do
  buf ← write_at mtu w.scratch off bytes
  some (record w { scratch = buf })

-- `data` and `length` of `sfhip_send_packet`.
unfoldable pub packet_at : ClientBuffer → ℕ → List ℕ → Option Packet
packet_at received len scratch = some (own len)
packet_at client_scratch len scratch = do bytes ← slice scratch 0 len; some (outside bytes)

unfoldable pub client_send : ClientBuffer → ℕ → Client → Option (Option ℕ × Client)
client_send b len w = do
  released ← release_packet w.node
  p ← packet_at b len w.scratch
  (res, n) ← send_packet p released
  some (res, record w { node = n })

unfoldable pub client_event : ℕ → ℕ → ℕ → ℕ → Client → Option (TcpCode × List ℕ × Client)
client_event sockno arrived max_out acked w = do
  e ← tcp_event http_response_header w.hname sockno arrived max_out acked w.response_sent
  some (e.result, e.written, record w { response_sent = e.sent })

unfoldable pub client_close : ℕ → Client → Option Client
client_close sockno w = do
  sent ← socket_closed sockno w.response_sent
  some (record w { response_sent = sent })

abbrev pub client_hooks : ClientBuffer → Hooks Client
client_hooks b = record {
  memory = client_memory b;
  write = client_write b;
  send = client_send b;
  lease = λ address w. record w { has_ip = true };
  accept = accept_connection;
  event = client_event;
  close = client_close;
}

-- The message of the announcement, and where the digits of the ROM word stand in it.
abbrev pub sidechannel_msg : List ℕ
sidechannel_msg = codes "XXXXch32fun/Hi from UUUUUUUU!" ++ (0 ∷ [])

abbrev pub uuid_idx : ℕ
uuid_idx = 20

-- A message that is sent: the server's address over its first four bytes, the zero at the end left off.
unfoldable pub announce_on : ℕ → List ℕ → List ℕ → Node → Option (List ℕ × Option ℕ × Node)
announce_on channel server msg n = do
  addressed ← write_at (length msg) msg 0 server
  bytes ← slice addressed 0 (length msg - 1)
  (res, n') ← sidechannel_tx channel bytes n
  some (addressed, res, n')

-- `res > 0`
abbrev pub is_positive : Option ℕ → Bool
is_positive none = false
is_positive (some r) = ltb 0 r

unfoldable pub announce_up : Node → Option (Option ℕ × Node)
announce_up n = do
  msg ← put_hex (word_bytes n.uuid) sidechannel_msg uuid_idx
  (msg₁, res_mqtt, n₁) ← announce_on sidechannel_mqtt (192 ∷ 168 ∷ 1 ∷ 12 ∷ []) msg n
  (msg₂, res_ntfy, n₂) ←
      announce_on sidechannel_ntfy_sh (159 ∷ 203 ∷ 148 ∷ 75 ∷ []) msg₁ (emit (delay_us 500) n₁)
  some (if is_positive res_mqtt && is_positive res_ntfy then res_ntfy else some 0, n₂)

unfoldable pub task : Task → Client → Option Client
task task_100ms w = do n ← request (outside []) w.node; some (record w { node = n })
task task_1s w =
    if not w.has_announced && w.has_ip
    then (do
      (res, n) ← announce_up w.node
      some (record w { node = n; has_announced = is_positive res }))
    else some w
task _ w = some w

abbrev pub task_if_due : Task → Client → Option Client
task_if_due t w = if is_run t w.clock.ms_cnt then task t w else some w

unfoldable pub tasks : Client → Option Client
tasks w = do
  w₁ ← task_if_due task_10ms w
  w₂ ← task_if_due task_100ms w₁
  w₃ ← task_if_due task_1s w₂
  w₄ ← task_if_due task_10s w₃
  task_if_due task_100s w₄

-- The variables of `main` before the loop. `tx_power` and the chip's clock come from the drivers.
unfoldable pub boot : ℕ → ℕ → ℕ → ℕ → Option Client
boot rom tx_power ticks_per_ms now = do
  hname ← put_hex (word_bytes rom) hname_blank 6
  n ← start client tx_power (power_on rom)
  some (record {
    node = n;
    scratch = replicate mtu 0;
    hname = hname;
    response_sent = replicate tcp_sockets false;
    has_ip = false;
    has_announced = false;
    clock = record { next_ms = (now + ticks_per_ms) % 2 ^ 32; ms_cnt = 0 };
  })

-- The loop, with the stack as a parameter.
module _ (s : Stack) where
  unfoldable pub accept : ℕ → s.Hip → Client → Option (s.Hip × Client)
  accept pkt_len hip w = do
    (hip', w') ← run (client_hooks received) (s.accept_packet hip pkt_len) w
    n ← if is_newrx w'.node.state then release_packet w'.node else some w'.node
    some (hip', record w' { node = n })

  unfoldable pub packet_taken : Option (ℕ × List ℕ) → s.Hip → Client → Option (s.Hip × Client)
  packet_taken none hip w = some (hip, w)
  packet_taken (some (pkt_len, pkt)) hip w =
      if ltb 0 pkt_len && leb pkt_len mtu
      then accept pkt_len hip w
      else (do n ← release_packet w.node; some (hip, record w { node = n }))

  unfoldable pub packet_part : s.Hip → Client → Option (s.Hip × Client)
  packet_part hip w = packet_taken (poll_packet w.node) hip w

  -- `rx` is the frame that the radio has ready at `winot_tick`, if any.
  unfoldable pub clock_part : ℕ → ℕ → Option Frame → s.Hip → Client → Option (s.Hip × Client)
  clock_part ticks_per_ms now rx hip w =
      if is_due now w.clock
      then (do
        (hip', w₁) ←
            run (client_hooks client_scratch) (s.ticks hip 1)
              (record w { clock = count_ms ticks_per_ms w.clock })
        n ← tick 1 rx w₁.node
        w₂ ← tasks (record w₁ { node = n })
        some (hip', w₂))
      else some (hip, w)

  unfoldable pub loop_round : ℕ → ℕ → Option Frame → s.Hip → Client → Option (s.Hip × Client)
  loop_round ticks_per_ms now rx hip w = do
    (hip', w') ← packet_part hip w
    clock_part ticks_per_ms now rx hip' w'
