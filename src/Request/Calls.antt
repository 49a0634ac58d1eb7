-- ===== src/Request/Calls.antt =====
-- Every call of WiNoT's interface returns and keeps the invariant.
use ch32fun_wi_not_ap.Prelude.{
  Bool-cases, Ensures, Ensures->>=, List, arith, if◌then◌else◌, inl, inr, leb, length, ltb, refl,
  true, ℕ, ◌%◌, ◌&&◌, ◌+◌, ◌==◌, ◌≡◌, ◌≤◌,
}
use ch32fun_wi_not_ap.Node.{
  Node, Role, State, active_channel, ap, ap_channel, change_state, client, communicating,
  data_buf_size, emit, fragment_size, idle, is_client, is_newrx, listening, newrx, power_on,
  requesting, rest_state,
}
use ch32fun_wi_not_ap.Request.{
  Packet, fill_buf, is_idle, memory, outside, own, release_packet, request, request_channel,
  request_header, request_with_payload, send_by, send_packet, sidechannel_tx, size, start,
  transmit_sidechannel,
}
use ch32fun_wi_not_ap.Node.Invariant.{
  Inv, Sizes, change_state-Inv, change_state-empty, channel_after, consistent, consistent-empty,
  is_newrx_eq, power_on-Sizes,
}
use ch32fun_wi_not_ap.Request.Safety.{
  Asked, IsBuf, fill_buf-size, request_channel-Asked, request_with_payload-Asked,
}
use ch32fun_wi_not_ap.Fragment.Burst.{burst-Inv}
use ch32fun_wi_not_ap.Memory.{word_bytes, write_at}
use ch32fun_wi_not_ap.Memory.Laws.{write_at-size, slice-runs}
use ch32fun_wi_not_ap.Radio.{init}

is_idle_eq : (s : State) → is_idle s ≡ true → s ≡ idle
is_idle_eq idle h = refl
is_idle_eq newrx h = cc
is_idle_eq listening h = cc
is_idle_eq requesting h = cc
is_idle_eq communicating h = cc

consistent-requesting :
    (r : Role) (c l c' l' : ℕ) → consistent r idle c l ≡ true → consistent r requesting c' l' ≡ true
consistent-requesting ap c l c' l' h = cc
consistent-requesting client c l c' l' h = refl

-- `winot_request` returns whatever it is given, and keeps the invariant.
pub request-Inv : (p : Packet) (n : Node) → Inv n → Ensures Inv (request p n)
unfolding request
request-Inv p n v = elim (Bool-cases (is_idle n.state && leb (size p) data_buf_size)) [
  | inr e ↦ rw (e, request) v
  | inl e ↦
      let idles : n.state ≡ idle = is_idle_eq n.state (ground arith) in
      let fits : size p ≤ data_buf_size = ground arith in
      let c : consistent n.role idle (active_channel n) n.data_len ≡ true = rw (← idles) v.states in
      rw (e, request)
        (Ensures->>= (Asked n) Inv
          (if ltb fragment_size (size p) then request_channel p n else request_with_payload p n) _
          (elim (Bool-cases (ltb fragment_size (size p))) [
            | inl big ↦ rw big (request_channel-Asked p n v.sizes fits)
            | inr small ↦ rw small (request_with_payload-Asked p n v.sizes (ground arith))
          ])
          λ m a. change_state-Inv requesting m a.sizes (
            rw a.role_kept (
              consistent-requesting n.role (active_channel n) n.data_len (active_channel m)
                m.data_len c)))
]

size-le-memory :
    (p : Packet) (n : Node) → Sizes n → size p ≤ data_buf_size → size p ≤ length (memory p n)
size-le-memory (own len) n z h = omega arith
size-le-memory (outside bytes) n z h = omega arith

consistent-ap_len :
    (s : State) (c l l' : ℕ) → consistent ap s c l ≡ true → consistent ap s c l' ≡ true
consistent-ap_len listening c l l' h = h
consistent-ap_len communicating c l l' h = h
consistent-ap_len newrx c l l' h = h
consistent-ap_len idle c l l' h = h
consistent-ap_len requesting c l l' h = h

send_by-Inv :
    (r : Role) (s : State) (p : Packet) (n : Node)
    → n.role ≡ r
    → n.state ≡ s
    → Inv n
    → size p ≤ data_buf_size
    → Ensures Inv (send_by r s p n)
unfolding send_by
send_by-Inv client communicating p n er es v h =
    burst-Inv n.uuid (active_channel n % 256) (memory p n) (size p) n (size-le-memory p n v.sizes h)
      v es
send_by-Inv client idle p n er es v h = request-Inv p n v
send_by-Inv client s p n er es v h = v
send_by-Inv ap s p n er es v h =
    Ensures->>= IsBuf Inv (fill_buf p n.data_buf) _ (fill_buf-size p n.data_buf v.sizes.buf_size h)
      λ buf e. record {
        sizes = omega arith;
        states =
            rw er (
              consistent-ap_len n.state (active_channel n) n.data_len (size p) (rw er at v.states));
      }

-- `winot_send_packet` returns whatever it is given, and keeps the invariant.
pub send_packet-Inv : (p : Packet) (n : Node) → Inv n → Ensures (λ r. Inv r.1) (send_packet p n)
unfolding send_packet
send_packet-Inv p n v = elim (Bool-cases (ltb data_buf_size (size p))) [
  | inl e ↦ rw (e, send_packet) v
  | inr e ↦
      rw (e, send_packet)
        (Ensures->>= Inv (λ r. Inv r.1) (send_by n.role n.state p n) _
          (send_by-Inv n.role n.state p n refl refl v (ground arith)) λ m w. w)
]

-- `winot_sidechannel_tx` returns whatever it is given, and keeps the invariant.
pub sidechannel_tx-Inv :
    (sidechannel : ℕ) (bytes : List ℕ) (n : Node)
    → Inv n
    → Ensures (λ r. Inv r.1) (sidechannel_tx sidechannel bytes n)
unfolding sidechannel_tx transmit_sidechannel word_bytes
sidechannel_tx-Inv sidechannel bytes n v = elim (Bool-cases (ltb fragment_size (length bytes))) [
  | inl e ↦ rw (e, sidechannel_tx) v
  | inr e ↦ elim (Bool-cases (is_client n.role && is_idle n.state)) [
    | inr busy ↦ rw (e, sidechannel_tx, busy) v
    | inl free ↦
        let short : length bytes ≤ fragment_size = ground arith in
        let header = request_header 0 (length bytes) sidechannel n.uuid in
        rw (e, sidechannel_tx, free)
          (Ensures->>= IsBuf (λ r. Inv r.1) (write_at data_buf_size n.data_buf 0 header) _
            (write_at-size data_buf_size n.data_buf 0 header v.sizes.buf_size (omega arith))
            λ b₁ e₁.
              Ensures->>= IsBuf (λ r. Inv r.1) (write_at data_buf_size b₁ 8 bytes) _
                (write_at-size data_buf_size b₁ 8 bytes e₁ (omega arith))
                λ b₂ e₂. rw (slice-runs b₂ 0 (8 + length bytes) (omega arith)) (record {
                  sizes = omega (arith, v.sizes.uuids_size);
                  states = consistent-empty n.role n.state (active_channel n) n.data_len v.states;
                }))
  ]
]

-- The state after a packet suits the role and the channel.
next_state-consistent :
    (r : Role) (c l : ℕ) (n : Node)
    → active_channel n ≡ c
    → n.data_len ≡ 0
    → consistent r newrx c l ≡ true
    → let s = if c == ap_channel then rest_state r else communicating in
      consistent r s (channel_after s n) n.data_len ≡ true
next_state-consistent ap c l n e z h = ground arith
next_state-consistent client c l n e z h = ground arith

-- `winot_release_packet` returns and keeps the invariant.
pub release_packet-Inv : (n : Node) → Inv n → Ensures Inv (release_packet n)
unfolding release_packet
release_packet-Inv n v = elim (Bool-cases (is_newrx n.state)) [
  | inr e ↦ rw (e, release_packet) v
  | inl e ↦
      let c : consistent n.role newrx (active_channel n) n.data_len ≡ true =
        rw (← is_newrx_eq n.state e) v.states in
      let n' = record n { data_len = 0 } in
      rw (e, release_packet, change_state-empty)
        (change_state-Inv _ n' (omega (arith, v.sizes.uuids_size))
          (next_state-consistent n.role (active_channel n) n.data_len n' refl refl c))
]

start-Inv_from :
    (r : Role) (tx_power : ℕ) (n : Node)
    → Sizes n
    → n.state ≡ idle
    → Ensures Inv (start r tx_power n)
unfolding start change_state
start-Inv_from client tx_power n z e = record { sizes = omega arith; states = rw e }
start-Inv_from ap tx_power n z e =
    change_state-Inv listening (emit (init tx_power) (record n { role = ap })) (omega arith) refl

-- From the variables as the C runtime sets them up, `winot_init` returns a node with the invariant.
pub start-Inv : (r : Role) (tx_power uuid : ℕ) → Ensures Inv (start r tx_power (power_on uuid))
start-Inv r tx_power uuid = start-Inv_from r tx_power (power_on uuid) (power_on-Sizes uuid) refl
