-- ===== src/Ap/Keeping.antt =====
-- What the access point's hooks keep, for any packet that sfhip sends and any event.
use ch32fun_wi_not_ap.Prelude.{
  zero, suc, some, [], ◌∷◌, true, false, ℕ, List, length, Bool, Option, ◌≤◌, ◌≡◌, Ensures, ◌+◌,
  ◌++◌, Bool-cases, Ensures->>=, arith, ◌<◌, ltb, set, inr, inl, if◌then◌else◌, ◌-◌, ltb→lt,
}
use ch32fun_wi_not_ap.System.Owned.{Owned, release_packet-Owned, send_packet-Owned, write-Owned}
use ch32fun_wi_not_ap.Node.{ap, Node}
use ch32fun_wi_not_ap.Ap.{
  AccessPoint, Iface, iface_usb, iface_winot, ApBuffer, from_usb, from_winot, ap_scratch, ap_memory,
  ap_write, packet_of, send_by_iface, ap_send, ap_event, ap_close, ap_hooks, http_response_header,
}
use ch32fun_wi_not_ap.Http.Sockets.{tcp_event-room}
use ch32fun_wi_not_ap.Usb.{usb_buf_size}
use ch32fun_wi_not_ap.Usb.Out.{Driver, usb_send_packet, send_loop, Wire}
use ch32fun_wi_not_ap.Sfhip.{mtu}
use ch32fun_wi_not_ap.Http.{response_buf_size, socket_closed, tcp_sockets, tcp_event}
use ch32fun_wi_not_ap.Memory.Laws.{slice-runs, write_at-size}
use ch32fun_wi_not_ap.Sfhip.Polite.{Keeps}

-- The node is an access point with this word, the arrays have their sizes, and the name has its zero at its end.
pub record Intact (u : ℕ) (name : List ℕ) (w : AccessPoint) : Type 0 where
  pub owned : Owned ap u w.node
  pub usb_size : length w.usb.data_buf ≡ usb_buf_size
  pub usb_fits : w.usb.data_len ≤ usb_buf_size
  pub scratch_size : length w.scratch ≡ mtu
  pub named : w.hname ≡ name ++ (0 ∷ [])

-- What changes none of these.
pub with_wire :
    (u : ℕ) (name : List ℕ) (wire : Wire) (w : AccessPoint)
    → Intact u name w
    → Intact u name (record w { wire = wire })
with_wire u name wire w v = record {
  owned = v.owned;
  usb_size = v.usb_size;
  usb_fits = v.usb_fits;
  scratch_size = v.scratch_size;
  named = v.named;
}

pub with_node :
    (u : ℕ) (name : List ℕ) (n : Node) (w : AccessPoint)
    → Intact u name w
    → Owned ap u n
    → Intact u name (record w { node = n })
with_node u name n w v o = record {
  owned = o;
  usb_size = v.usb_size;
  usb_fits = v.usb_fits;
  scratch_size = v.scratch_size;
  named = v.named;
}

with_sent :
    (u : ℕ) (name : List ℕ) (sent : List Bool) (w : AccessPoint)
    → Intact u name w
    → Intact u name (record w { response_sent = sent })
with_sent u name sent w v = record {
  owned = v.owned;
  usb_size = v.usb_size;
  usb_fits = v.usb_fits;
  scratch_size = v.scratch_size;
  named = v.named;
}

-- A packet to the host is read within its buffer, whatever the driver answers.
send_loop-returns :
    (packet_size : ℕ) (answers : Driver) (fuel : ℕ) (bytes : List ℕ) (len i : ℕ) (res : Option ℕ)
    (w : Wire)
    → len ≤ length bytes
    → Ensures (λ r. Unit {0}) (send_loop packet_size answers fuel bytes len i res w)
unfolding send_loop
send_loop-returns k answers zero bytes len i res w h = tt
send_loop-returns k answers (suc fuel) bytes len i res w h = elim (Bool-cases (ltb i len)) [
  | inr past ↦ rw past tt
  | inl more ↦
      let m = if ltb k (len - i) then k else len - i in
      let small : m ≤ len - i = ground arith in
      rw (more, slice-runs bytes i m (omega (arith, ltb→lt i len more)))
        (send_loop-returns k answers fuel bytes len (i + k) _ _ h)
]

pub usb_send_packet-returns :
    (packet_size : ℕ) (answers : Driver) (bytes : List ℕ) (len : ℕ) (w : Wire)
    → len ≤ length bytes
    → Ensures (λ r. Unit {0}) (usb_send_packet packet_size answers bytes len w)
unfolding usb_send_packet
usb_send_packet-returns k answers bytes len w h =
    send_loop-returns k answers len bytes len 0 (some len) w h

module _ (u : ℕ) (name : List ℕ)
    (short : length http_response_header + length name + 2 ≤ response_buf_size) where
  ap_write-Intact :
      (b : ApBuffer) (off : ℕ) (bytes : List ℕ) (w : AccessPoint)
      → off + length bytes ≤ mtu
      → Intact u name w
      → Ensures (Intact u name) (ap_write b off bytes w)
  unfolding ap_write
  ap_write-Intact from_usb off bytes w h v =
      Ensures->>= (λ buf. length buf ≡ usb_buf_size) (Intact u name) _ _
        (write_at-size usb_buf_size w.usb.data_buf off bytes v.usb_size (omega arith))
        λ buf z. record {
          owned = v.owned;
          usb_size = z;
          usb_fits = v.usb_fits;
          scratch_size = v.scratch_size;
          named = v.named;
        }
  ap_write-Intact from_winot off bytes w h v =
      Ensures->>= (λ buf. Owned ap u (record w.node { data_buf = buf })) (Intact u name) _ _
        (write-Owned off bytes w.node (omega arith) v.owned)
        λ buf o. with_node u name (record w.node { data_buf = buf }) w v o
  ap_write-Intact ap_scratch off bytes w h v =
      Ensures->>= (λ buf. length buf ≡ mtu) (Intact u name) _ _
        (write_at-size mtu w.scratch off bytes v.scratch_size h)
        λ buf z. record {
          owned = v.owned;
          usb_size = v.usb_size;
          usb_fits = v.usb_fits;
          scratch_size = z;
          named = v.named;
        }

  -- Each of the three buffers has room for a packet of sfhip.
  ap_memory-size : (b : ApBuffer) (w : AccessPoint) → Intact u name w → mtu ≤ length (ap_memory b w)
  unfolding ap_memory
  ap_memory-size from_usb w v = omega (arith, v.usb_size)
  ap_memory-size from_winot w v = omega (arith, v.owned.inv.sizes)
  ap_memory-size ap_scratch w v = omega (arith, v.scratch_size)

  packet_of-returns :
      (b : ApBuffer) (len : ℕ) (w : AccessPoint)
      → len ≤ mtu
      → Intact u name w
      → Ensures (λ p. Unit {0}) (packet_of b len w)
  unfolding packet_of
  packet_of-returns from_winot len w h v = tt
  packet_of-returns from_usb len w h v =
      rw (slice-runs (ap_memory from_usb w) 0 len (omega (arith, ap_memory-size from_usb w v))) tt
  packet_of-returns ap_scratch len w h v =
      rw (slice-runs (ap_memory ap_scratch w) 0 len (omega (arith, ap_memory-size ap_scratch w v)))
        tt

  module _ (packet_size : ℕ) (answers : Driver) where
    send_by_iface-Intact :
        (iface : Iface) (b : ApBuffer) (len : ℕ) (w : AccessPoint)
        → len ≤ mtu
        → Intact u name w
        → Ensures (λ r. Intact u name r.1) (send_by_iface packet_size answers iface b len w)
    unfolding send_by_iface
    send_by_iface-Intact iface_usb b len w h v =
        Ensures->>= (λ r. Unit {0}) (λ r. Intact u name r.1)
          (usb_send_packet packet_size answers (ap_memory b w) len w.wire) _
          (usb_send_packet-returns packet_size answers (ap_memory b w) len w.wire
            (omega (arith, ap_memory-size b w v)))
          λ r t. with_wire u name r.1 w v
    send_by_iface-Intact iface_winot b len w h v =
        Ensures->>= (Owned ap u) (λ r. Intact u name r.1) _ _ (release_packet-Owned w.node v.owned)
          λ released o.
            Ensures->>= (λ p. Unit {0}) (λ r. Intact u name r.1) (packet_of b len w) _
              (packet_of-returns b len w h v)
              λ p t.
                Ensures->>= (λ a. Owned ap u a.1) (λ r. Intact u name r.1) _ _
                  (send_packet-Owned p released o) λ a o'. with_node u name a.1 w v o'

    ap_event-Intact :
        (sockno arrived room acked : ℕ) (w : AccessPoint)
        → sockno < tcp_sockets
        → Intact u name w
        → Ensures
            (λ r. (length r.1 ≤ room) × Intact u name r.2)
            (ap_event sockno arrived room acked w)
    unfolding ap_event
    ap_event-Intact sockno arrived room acked w s v =
        Ensures->>= (λ e. length e.written ≤ room) (λ r. (length r.1 ≤ room) × Intact u name r.2)
          (tcp_event http_response_header w.hname sockno arrived room acked w.response_sent) _
          (rw v.named (
            tcp_event-room http_response_header name sockno arrived room acked w.response_sent short
              s))
          λ e h. (h, with_sent u name e.sent w v)

    ap_close-Intact :
        (sockno : ℕ) (w : AccessPoint)
        → sockno < tcp_sockets
        → Intact u name w
        → Ensures (Intact u name) (ap_close sockno w)
    unfolding ap_close socket_closed
    ap_close-Intact sockno w s v =
        let inside : ltb sockno tcp_sockets ≡ true = ground arith in
        rw inside (with_sent u name (set w.response_sent sockno false) w v)

    pub ap_hooks-Keeps : (b : ApBuffer) → Keeps (ap_hooks packet_size answers b) (Intact u name)
    unfolding ap_send
    ap_hooks-Keeps b = record {
      write_keeps = ap_write-Intact b;
      send_keeps = λ len w h v. send_by_iface-Intact w.last_iface b len w h v;
      lease_keeps = λ address w v. v;
      event_keeps = ap_event-Intact;
      close_keeps = ap_close-Intact;
    }
