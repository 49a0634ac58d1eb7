-- ===== src/Client/Keeping.antt =====
-- What the client's hooks keep, for any packet that sfhip sends and any event.
use ch32fun_wi_not_ap.Prelude.{
  [], ◌∷◌, ℕ, List, length, ◌≡◌, ◌+◌, ◌≤◌, ◌++◌, Ensures, ◌<◌, Ensures->>=, arith, ltb, true,
}
use ch32fun_wi_not_ap.System.Owned.{Owned, release_packet-Owned, send_packet-Owned, write-Owned}
use ch32fun_wi_not_ap.Client.{
  Client, ClientBuffer, received, client_scratch, client_write, client_send, client_event,
  client_close, client_hooks, http_response_header, packet_at,
}
use ch32fun_wi_not_ap.Http.Sockets.{tcp_event-room}
use ch32fun_wi_not_ap.Node.{client}
use ch32fun_wi_not_ap.Sfhip.{mtu}
use ch32fun_wi_not_ap.Http.{response_buf_size, socket_closed, tcp_sockets, tcp_event}
use ch32fun_wi_not_ap.Sfhip.Polite.{Keeps}
use ch32fun_wi_not_ap.Request.{Packet}
use ch32fun_wi_not_ap.Memory.Laws.{slice-runs, write_at-size}

-- The node is a client with this uuid, the arrays have their sizes, and the name has its zero at its end.
pub record Fine (u : ℕ) (name : List ℕ) (w : Client) : Type 0 where
  pub owned : Owned client u w.node
  pub scratch_size : length w.scratch ≡ mtu
  pub named : w.hname ≡ name ++ (0 ∷ [])

module _ (u : ℕ) (name : List ℕ)
    (short : length http_response_header + length name + 2 ≤ response_buf_size) where
  client_write-Fine :
      (b : ClientBuffer) (off : ℕ) (bytes : List ℕ) (w : Client)
      → off + length bytes ≤ mtu
      → Fine u name w
      → Ensures (Fine u name) (client_write b off bytes w)
  unfolding client_write
  client_write-Fine received off bytes w h v =
      Ensures->>= (λ buf. Owned client u (record w.node { data_buf = buf })) (Fine u name) _ _
        (write-Owned off bytes w.node (omega arith) v.owned)
        λ buf o. record { owned = o; scratch_size = v.scratch_size; named = v.named }
  client_write-Fine client_scratch off bytes w h v =
      Ensures->>= (λ buf. length buf ≡ mtu) (Fine u name) _ _
        (write_at-size mtu w.scratch off bytes v.scratch_size h)
        λ buf z. record { owned = v.owned; scratch_size = z; named = v.named }

  client_send-Fine :
      (b : ClientBuffer) (len : ℕ) (w : Client)
      → len ≤ mtu
      → Fine u name w
      → Ensures (λ r. Fine u name r.1) (client_send b len w)
  unfolding client_send packet_at
  client_send-Fine b len w h v =
      Ensures->>= (Owned client u) (λ r. Fine u name r.1) _ _ (release_packet-Owned w.node v.owned)
        λ released o.
          Ensures->>= (λ p. Unit {0}) (λ r. Fine u name r.1) (packet_at b len w.scratch) _
            (packet_at-runs b len w.scratch (omega (arith, v.scratch_size)))
            λ p _.
              Ensures->>= (λ a. Owned client u a.1) (λ r. Fine u name r.1) _ _
                (send_packet-Owned p released o)
                λ a o'. record { owned = o'; scratch_size = v.scratch_size; named = v.named }
    where
      packet_at-runs :
          (b : ClientBuffer) (len : ℕ) (scratch : List ℕ)
          → len ≤ length scratch
          → Ensures (λ (p : Packet). Unit {0}) (packet_at b len scratch)
      packet_at-runs received len scratch fits = tt
      packet_at-runs client_scratch len scratch fits =
          rw (slice-runs scratch 0 len (omega arith)) tt

  client_event-Fine :
      (sockno arrived room acked : ℕ) (w : Client)
      → sockno < tcp_sockets
      → Fine u name w
      → Ensures
          (λ r. (length r.1 ≤ room) × Fine u name r.2)
          (client_event sockno arrived room acked w)
  unfolding client_event
  client_event-Fine sockno arrived room acked w s v =
      Ensures->>= (λ e. length e.written ≤ room) (λ r. (length r.1 ≤ room) × Fine u name r.2)
        (tcp_event http_response_header w.hname sockno arrived room acked w.response_sent) _
        (rw v.named (
          tcp_event-room http_response_header name sockno arrived room acked w.response_sent short
            s))
        λ e h. (h, record { owned = v.owned; scratch_size = v.scratch_size; named = v.named })

  client_close-Fine :
      (sockno : ℕ) (w : Client)
      → sockno < tcp_sockets
      → Fine u name w
      → Ensures (Fine u name) (client_close sockno w)
  unfolding client_close socket_closed
  client_close-Fine sockno w s v =
      let inside : ltb sockno tcp_sockets ≡ true = ground arith in
      rw inside (record { owned = v.owned; scratch_size = v.scratch_size; named = v.named })

  pub client_hooks-Keeps : (b : ClientBuffer) → Keeps (client_hooks b) (Fine u name)
  client_hooks-Keeps b = record {
    write_keeps = client_write-Fine b;
    send_keeps = client_send-Fine b;
    lease_keeps =
        λ address w v. record { owned = v.owned; scratch_size = v.scratch_size; named = v.named };
    event_keeps = client_event-Fine;
    close_keeps = client_close-Fine;
  }
