-- ===== src/System/Owned.antt =====
-- What a firmware may rely on for its node: the invariant, and the role and the uuid that it started with.
use ch32fun_wi_not_ap.Prelude.{
  refl, none, some, ℕ, Option, List, Ensures, ◌+◌, ◌≡◌, length, arith, ◌≤◌, Ensures-mono, false,
  Ensures-some,
}
use ch32fun_wi_not_ap.System.Same.{
  Same, SameLeft, same, same_left, request-Same, release_packet-Same, either, change_state-Same,
}
use ch32fun_wi_not_ap.Node.{
  Role, Node, emit, power_on, client, data_buf_size, listening, communicating, fragment_size,
}
use ch32fun_wi_not_ap.Request.{start, Packet, request, release_packet, send_packet, sidechannel_tx}
use ch32fun_wi_not_ap.Radio.{Call}
use ch32fun_wi_not_ap.Node.Invariant.{Inv}
use ch32fun_wi_not_ap.Memory.{Frame, write_at}
use ch32fun_wi_not_ap.Request.Calls.{
  request-Inv, release_packet-Inv, send_packet-Inv, sidechannel_tx-Inv, start-Inv,
}
use ch32fun_wi_not_ap.Tick.Safety.{Harmless, tick-Inv}
use ch32fun_wi_not_ap.System.Same.Calls.{
  send_packet-Same, sidechannel_tx-Same, tick-Same, process_rx-Same,
}
use ch32fun_wi_not_ap.Tick.{tick}
use ch32fun_wi_not_ap.Memory.Laws.{write_at-size}
use ch32fun_wi_not_ap.Receive.{process_rx}
use ch32fun_wi_not_ap.Receive.Safety.{rx_overflows, process_rx-Inv}

pub record Owned (r : Role) (u : ℕ) (n : Node) : Type 0 where
  pub inv : Inv n
  pub role : n.role ≡ r
  pub uuid : n.uuid ≡ u

module _ {r : Role} {u : ℕ} where
  both : (m : Option Node) → Ensures Inv m → Same r u m → Ensures (Owned r u) m
  both none v s = v
  both (some n) v (same _ p q) = record { inv = v; role = p; uuid = q }

  both_left :
      {A : Type 0} (m : Option (A × Node))
      → Ensures (λ a. Inv a.1) m
      → SameLeft r u m
      → Ensures (λ a. Owned r u a.1) m
  both_left none v s = v
  both_left (some (a, n)) v (same_left _ _ p q) = record { inv = v; role = p; uuid = q }

  pub request-Owned : (pk : Packet) (n : Node) → Owned r u n → Ensures (Owned r u) (request pk n)
  request-Owned pk n o = both _ (request-Inv pk n o.inv) (request-Same pk n o.role o.uuid)

  pub release_packet-Owned : (n : Node) → Owned r u n → Ensures (Owned r u) (release_packet n)
  release_packet-Owned n o =
      both _ (release_packet-Inv n o.inv) (release_packet-Same n o.role o.uuid)

  pub send_packet-Owned :
      (pk : Packet) (n : Node) → Owned r u n → Ensures (λ a. Owned r u a.1) (send_packet pk n)
  send_packet-Owned pk n o =
      both_left _ (send_packet-Inv pk n o.inv) (send_packet-Same pk n o.role o.uuid)

  pub sidechannel_tx-Owned :
      (c : ℕ) (bytes : List ℕ) (n : Node)
      → Owned r u n
      → Ensures (λ a. Owned r u a.1) (sidechannel_tx c bytes n)
  sidechannel_tx-Owned c bytes n o =
      both_left _ (sidechannel_tx-Inv c bytes n o.inv) (sidechannel_tx-Same c bytes n o.role o.uuid)

  pub tick-Owned :
      (dt_ms : ℕ) (rx : Option Frame) (n : Node)
      → Owned r u n
      → Harmless rx n
      → Ensures (Owned r u) (tick dt_ms rx n)
  tick-Owned dt_ms rx n o h =
      both _ (tick-Inv dt_ms rx n o.inv h) (tick-Same dt_ms rx n o.role o.uuid)

  -- A packet of at most a fragment always fits the response.
  pub short-Owned :
      (f : Frame) (n : Node)
      → n.data_len ≤ fragment_size
      → Owned r u n
      → Ensures (Owned r u) (process_rx f n)
  short-Owned f n h o =
      let fine : rx_overflows f n ≡ false = ground arith in
      both _ (process_rx-Inv f n o.inv fine) (process_rx-Same f n o.role o.uuid)

  -- On a data channel there is room for every frame.
  pub data_frame-Owned :
      (f : Frame) (n : Node)
      → n.state ≡ communicating
      → Owned r u n
      → Ensures (Owned r u) (process_rx f n)
  data_frame-Owned f n e o =
      let fine : rx_overflows f n ≡ false = rw e (ground arith) in
      both _ (process_rx-Inv f n o.inv fine) (process_rx-Same f n o.role o.uuid)

  pub data_frame-keeps :
      (f : Frame) (n m : Node)
      → n.state ≡ communicating
      → Owned r u n
      → process_rx f n ≡ some m
      → Owned r u m
  data_frame-keeps f n m e o = Ensures-some (Owned r u) _ m (data_frame-Owned f n e o)

  -- Bytes that are written into the packet, and a pause.
  pub write-Owned :
      (off : ℕ) (bytes : List ℕ) (n : Node)
      → off + length bytes ≤ data_buf_size
      → Owned r u n
      → Ensures
          (λ buf. Owned r u (record n { data_buf = buf }))
          (write_at data_buf_size n.data_buf off bytes)
  write-Owned off bytes n h o =
      Ensures-mono (λ b. length b ≡ data_buf_size) _ _
        (λ b z. record {
          inv = record { sizes = omega (arith, z, o.inv.sizes); states = o.inv.states };
          role = o.role;
          uuid = o.uuid;
        })
        (write_at-size data_buf_size n.data_buf off bytes o.inv.sizes.buf_size h)

  pub pause-Owned : (c : Call) (n : Node) → Owned r u n → Owned r u (emit c n)
  pause-Owned c n o = record {
    inv = record { sizes = omega (arith, o.inv.sizes); states = o.inv.states };
    role = o.role;
    uuid = o.uuid;
  }

pub start-Owned :
    (r : Role) (tx_power uuid : ℕ) → Ensures (Owned r uuid) (start r tx_power (power_on uuid))
unfolding start
start-Owned r tx_power uuid =
    both _ (start-Inv r tx_power uuid)
      (either _ _ _ (same _ refl refl) (change_state-Same listening _ refl refl))

-- A client has room for every frame.
pub client-Harmless : (u : ℕ) (rx : Option Frame) (n : Node) → Owned client u n → Harmless rx n
client-Harmless u none n o = tt
client-Harmless u (some f) n o = rw o.role
