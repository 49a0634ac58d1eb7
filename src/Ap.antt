-- ===== src/Ap.antt =====
-- The USB access point (usb_sfhip.c): the hooks that it gives sfhip, and the main loop, which routes
-- packets between the USB host, the WiNoT nodes and sfhip. The pins and the debug output are left out.
pub mod Routes
pub mod Safety
pub mod Start
pub mod Crossing
pub mod Delivery
pub mod Meeting
pub mod Keeping
pub mod Loop
pub mod Overflow
pub mod Examples
use ch32fun_wi_not_ap.Prelude.{
  ℕ, [], some, none, ◌>>=◌, ◌∷◌, List, Option, if◌then◌else◌, ◌++◌, Bool, ltb, ◌==◌, leb, replicate,
  false, ◌+◌, ◌%◌, ◌^◌,
}
use ch32fun_wi_not_ap.Sfhip.{Hooks, Stack, run, mtu}
use ch32fun_wi_not_ap.Usb.Out.{Driver, Wire, usb_send_packet}
use ch32fun_wi_not_ap.Node.{Node, dest_uuid, data_buf_size, ap, power_on}
use ch32fun_wi_not_ap.Http.{
  accept_connection, codes, TcpCode, socket_closed, put_hex, tcp_event, tcp_sockets,
}
use ch32fun_wi_not_ap.Usb.{Usb, poll, usb_buf_size, release, no_packet}
use ch32fun_wi_not_ap.Memory.{write_at, Frame, word_bytes, slice}
use ch32fun_wi_not_ap.Request.{
  Packet, poll_packet, own, release_packet, send_packet, start, outside,
}
use ch32fun_wi_not_ap.Clock.{is_due, Clock, count_ms}
use ch32fun_wi_not_ap.Tick.{tick}

abbrev pub http_response_header : List ℕ
http_response_header =
    codes
      "HTTP/1.1 200 OK\r\nContent-Type: text/plain\r\nContent-Length: 18\r\nConnection: close\r\n\r\n"

abbrev pub hname_blank : List ℕ
hname_blank = codes "WiNotAP_XXXXXXXX" ++ (0 ∷ [])

pub data Iface : Type 0 where
  iface_usb iface_winot : Iface

-- The static variables of the firmware, and those of `main` but for `hip`.
pub record AccessPoint : Type 0 where
  pub node : Node
  pub usb : Usb
  pub wire : Wire
  pub scratch : List ℕ
  pub hname : List ℕ
  pub response_sent : List Bool
  pub last_iface : Iface
  pub clock : Clock

-- The buffer that sfhip was given: the packet from USB, that of WiNoT, or `scratch`.
pub data ApBuffer : Type 0 where
  from_usb from_winot ap_scratch : ApBuffer

unfoldable pub ap_memory : ApBuffer → AccessPoint → List ℕ
ap_memory from_usb w = w.usb.data_buf
ap_memory from_winot w = w.node.data_buf
ap_memory ap_scratch w = w.scratch

unfoldable pub ap_write : ApBuffer → ℕ → List ℕ → AccessPoint → Option AccessPoint
ap_write from_usb off bytes w = do
  buf ← write_at usb_buf_size w.usb.data_buf off bytes
  some (record w { usb = record w.usb { data_buf = buf } })
ap_write from_winot off bytes w = do
  buf ← write_at data_buf_size w.node.data_buf off bytes
  some (record w { node = record w.node { data_buf = buf } })
ap_write ap_scratch off bytes w = do
  buf ← write_at mtu w.scratch off bytes
  some (record w { scratch = buf })

-- `data` and `length` of `sfhip_send_packet`, for WiNoT.
unfoldable pub packet_of : ApBuffer → ℕ → AccessPoint → Option Packet
unfolding ap_memory
packet_of from_winot len w = some (own len)
packet_of b len w = do bytes ← slice (ap_memory b w) 0 len; some (outside bytes)

-- The USB driver: the size of a part, and its answers.
module _ (packet_size : ℕ) (answers : Driver) where
  -- The answer goes out where the packet came in.
  unfoldable pub send_by_iface :
      Iface → ApBuffer → ℕ → AccessPoint → Option (Option ℕ × AccessPoint)
  send_by_iface iface_usb b len w = do
    (res, wire) ← usb_send_packet packet_size answers (ap_memory b w) len w.wire
    some (res, record w { wire = wire })
  send_by_iface iface_winot b len w = do
    released ← release_packet w.node
    p ← packet_of b len w
    (res, n) ← send_packet p released
    some (res, record w { node = n })

  unfoldable pub ap_send : ApBuffer → ℕ → AccessPoint → Option (Option ℕ × AccessPoint)
  unfolding send_by_iface
  ap_send b len w = send_by_iface w.last_iface b len w

unfoldable pub ap_event : ℕ → ℕ → ℕ → ℕ → AccessPoint → Option (TcpCode × List ℕ × AccessPoint)
ap_event sockno arrived max_out acked w = do
  e ← tcp_event http_response_header w.hname sockno arrived max_out acked w.response_sent
  some (e.result, e.written, record w { response_sent = e.sent })

unfoldable pub ap_close : ℕ → AccessPoint → Option AccessPoint
ap_close sockno w = do
  sent ← socket_closed sockno w.response_sent
  some (record w { response_sent = sent })

abbrev pub ap_hooks : ℕ → Driver → ApBuffer → Hooks AccessPoint
ap_hooks packet_size answers b = record {
  memory = ap_memory b;
  write = ap_write b;
  send = ap_send packet_size answers b;
  lease = λ address w. w;
  accept = accept_connection;
  event = ap_event;
  close = ap_close;
}

-- The variables of `main` before the loop.
unfoldable pub boot : ℕ → ℕ → ℕ → ℕ → Option AccessPoint
boot rom tx_power ticks_per_ms now = do
  hname ← put_hex (word_bytes rom) hname_blank 8
  n ← start ap tx_power (power_on rom)
  some (record {
    node = n;
    usb = no_packet;
    wire = record { attempts = 0; taken = [] };
    scratch = replicate mtu 0;
    hname = hname;
    response_sent = replicate tcp_sockets false;
    last_iface = iface_usb;
    clock = record { next_ms = (now + ticks_per_ms) % 2 ^ 32; ms_cnt = 0 };
  })

-- The loop, with the USB driver and the stack as parameters.
module _ (packet_size : ℕ) (answers : Driver) (s : Stack) where
  -- A packet from the host: for sfhip, or for a WiNoT node. One that is too large is dropped.
  unfoldable pub usb_routed : ℕ → List ℕ → s.Hip → AccessPoint → Option (s.Hip × AccessPoint)
  usb_routed len pkt hip w =
      if dest_uuid pkt == w.node.uuid
      then if leb len mtu
        then run (ap_hooks packet_size answers from_usb) (s.accept_packet hip len)
            (record w { last_iface = iface_usb })
        else some (hip, w)
      else if leb len data_buf_size
      then (do
        bytes ← slice pkt 0 len
        (res, n) ← send_packet (outside bytes) w.node
        some (hip, record w { node = n }))
      else some (hip, w)

  unfoldable pub usb_taken :
      Option (ℕ × List ℕ) → s.Hip → AccessPoint → Option (s.Hip × AccessPoint)
  usb_taken none hip w = some (hip, w)
  usb_taken (some (len, pkt)) hip w =
      if ltb 0 len
      then (do
        (hip', w') ← usb_routed len pkt hip w
        some (hip', record w' { usb = release w'.usb }))
      else some (hip, w)

  unfoldable pub usb_part : s.Hip → AccessPoint → Option (s.Hip × AccessPoint)
  usb_part hip w = usb_taken (poll w.usb).0 hip (record w { usb = (poll w.usb).1 })

  -- A packet from a WiNoT node: for sfhip, or for the network behind the host.
  unfoldable pub winot_routed : ℕ → List ℕ → s.Hip → AccessPoint → Option (s.Hip × AccessPoint)
  winot_routed len pkt hip w =
      if dest_uuid pkt == w.node.uuid
      then if leb len mtu
        then run (ap_hooks packet_size answers from_winot) (s.accept_packet hip len)
            (record w { last_iface = iface_winot })
        else some (hip, w)
      else (do
        (sent, wire) ← usb_send_packet packet_size answers pkt len w.wire
        some (hip, record w { wire = wire }))

  unfoldable pub winot_taken :
      Option (ℕ × List ℕ) → s.Hip → AccessPoint → Option (s.Hip × AccessPoint)
  winot_taken none hip w = some (hip, w)
  winot_taken (some (len, pkt)) hip w =
      if ltb 0 len
      then (do
        (hip', w') ← winot_routed len pkt hip w
        n ← release_packet w'.node
        some (hip', record w' { node = n }))
      else some (hip, w)

  unfoldable pub winot_part : s.Hip → AccessPoint → Option (s.Hip × AccessPoint)
  winot_part hip w = winot_taken (poll_packet w.node) hip w

  -- The tasks of this firmware do nothing. `rx` is the frame that the radio has ready, if any.
  unfoldable pub clock_part :
      ℕ → ℕ → Option Frame → s.Hip → AccessPoint → Option (s.Hip × AccessPoint)
  clock_part ticks_per_ms now rx hip w =
      if is_due now w.clock
      then (do
        (hip', w') ←
            run (ap_hooks packet_size answers ap_scratch) (s.ticks hip 1)
              (record w { clock = count_ms ticks_per_ms w.clock })
        n ← tick 1 rx w'.node
        some (hip', record w' { node = n }))
      else some (hip, w)

  unfoldable pub loop_round :
      ℕ → ℕ → Option Frame → s.Hip → AccessPoint → Option (s.Hip × AccessPoint)
  loop_round ticks_per_ms now rx hip w = do
    (hip₁, w₁) ← usb_part hip w
    (hip₂, w₂) ← winot_part hip₁ w₁
    clock_part ticks_per_ms now rx hip₂ w₂
