-- ===== src/System/Same/Calls.antt =====
-- No call changes the role of a node or its uuid: the receive handler, and the calls.
use ch32fun_wi_not_ap.Prelude.{ℕ, some, none, List, Option, ◌≡◌, ◌+◌, arith, ◌%◌, length}
use ch32fun_wi_not_ap.Node.{
  ap, client, State, idle, listening, requesting, communicating, newrx, Role, Node, change_state,
  is_newrx, rest_state, advance, active_channel, data_buf_size,
}
use ch32fun_wi_not_ap.Memory.{Frame, slice, write_at}
use ch32fun_wi_not_ap.Receive.{
  route_request, ap_request, keep_active, data_frame, rx_by, process_rx,
}
use ch32fun_wi_not_ap.Request.{
  Packet, send_by, send_packet, sidechannel_tx, transmit_sidechannel, memory, size, request_header,
}
use ch32fun_wi_not_ap.Tick.{receive, on_time, tick}
use ch32fun_wi_not_ap.System.Same.{
  Same, SameLeft, same, faults, same_left, after, acts, either, left_after, left_acts, left_either,
  change_state-Same, burst-Same, route_request-Same, answer_request-Same, defragment-Same,
  client_response-Same, send_pending-Same, request-Same, take_sidechannel-Same,
}

module _ {r : Role} {u : ℕ} where
  ruleset acting = (same, faults, after, acts, either, change_state-Same, burst-Same)

  routed_role : (f : Frame) (n : Node) → n.role ≡ r → n.uuid ≡ u → (route_request f n).role ≡ r
  routed_role f n p q = (route_request-Same f n p q).0

  routed_uuid : (f : Frame) (n : Node) → n.role ≡ r → n.uuid ≡ u → (route_request f n).uuid ≡ u
  routed_uuid f n p q = (route_request-Same f n p q).1

  ap_request-Same : (f : Frame) (n : Node) → n.role ≡ r → n.uuid ≡ u → Same r u (ap_request f n)
  unfolding ap_request
  ap_request-Same f n p q =
      search (acting, answer_request-Same, take_sidechannel-Same, routed_role, routed_uuid)

  keep_active-Same :
      (ro : Role) (n : Node)
      → n.role ≡ r
      → n.uuid ≡ u
      → ((keep_active ro n).role ≡ r) × ((keep_active ro n).uuid ≡ u)
  unfolding keep_active
  keep_active-Same client n p q = (p, q)
  keep_active-Same ap n p q = ground arith

  data_frame-Same : (f : Frame) (n : Node) → n.role ≡ r → n.uuid ≡ u → Same r u (data_frame f n)
  unfolding data_frame
  data_frame-Same f n p q =
      let k = keep_active-Same n.role n p q in
      acts _ _ (defragment-Same f (keep_active n.role n) k.0 k.1) λ a p' q'.
        either (is_newrx a.state) (some a) (change_state communicating a) (same a p' q')
          (change_state-Same communicating a p' q')

  rx_by-Same :
      (ro : Role) (s : State) (f : Frame) (n : Node)
      → n.role ≡ r
      → n.uuid ≡ u
      → Same r u (rx_by ro s f n)
  unfolding rx_by
  rx_by-Same ap listening f n p q = ap_request-Same f n p q
  rx_by-Same ap communicating f n p q = data_frame-Same f n p q
  rx_by-Same ap idle f n p q = change_state-Same (rest_state ap) n p q
  rx_by-Same ap requesting f n p q = change_state-Same (rest_state ap) n p q
  rx_by-Same ap newrx f n p q = change_state-Same (rest_state ap) n p q
  rx_by-Same client requesting f n p q = client_response-Same f n p q
  rx_by-Same client communicating f n p q = data_frame-Same f n p q
  rx_by-Same client idle f n p q = change_state-Same (rest_state client) n p q
  rx_by-Same client listening f n p q = change_state-Same (rest_state client) n p q
  rx_by-Same client newrx f n p q = change_state-Same (rest_state client) n p q

  pub process_rx-Same : (f : Frame) (n : Node) → n.role ≡ r → n.uuid ≡ u → Same r u (process_rx f n)
  unfolding process_rx
  process_rx-Same f n p q = rx_by-Same n.role n.state f n p q

  receive-Same : (rx : Option Frame) (n : Node) → n.role ≡ r → n.uuid ≡ u → Same r u (receive rx n)
  unfolding receive
  receive-Same none n p q = same n p q
  receive-Same (some f) n p q = process_rx-Same f n p q

  on_time-Same : (s : State) (n : Node) → n.role ≡ r → n.uuid ≡ u → Same r u (on_time s n)
  unfolding on_time
  on_time-Same requesting n p q = search acting
  on_time-Same communicating n p q = search (acting, send_pending-Same)
  on_time-Same idle n p q = same n p q
  on_time-Same listening n p q = same n p q
  on_time-Same newrx n p q = same n p q

  pub tick-Same :
      (dt_ms : ℕ) (rx : Option Frame) (n : Node)
      → n.role ≡ r
      → n.uuid ≡ u
      → Same r u (tick dt_ms rx n)
  unfolding tick
  tick-Same dt_ms rx n p q =
      acts (receive rx n) _ (receive-Same rx n p q)
        λ a p' q'. on_time-Same a.state (advance dt_ms a) p' q'

  send_by-Same :
      (ro : Role) (s : State) (pk : Packet) (n : Node)
      → n.role ≡ r
      → n.uuid ≡ u
      → Same r u (send_by ro s pk n)
  unfolding send_by
  send_by-Same client communicating pk n p q =
      burst-Same n.uuid (active_channel n % 256) (memory pk n) (size pk) n p q
  send_by-Same client idle pk n p q = request-Same pk n p q
  send_by-Same client listening pk n p q = same n p q
  send_by-Same client requesting pk n p q = same n p q
  send_by-Same client newrx pk n p q = same n p q
  send_by-Same ap s pk n p q = search acting

  pub send_packet-Same :
      (pk : Packet) (n : Node) → n.role ≡ r → n.uuid ≡ u → SameLeft r u (send_packet pk n)
  unfolding send_packet
  send_packet-Same pk n p q = search (same_left, left_acts, left_either, send_by-Same)

  transmit_sidechannel-Same :
      (c : ℕ) (bytes : List ℕ) (n : Node)
      → n.role ≡ r
      → n.uuid ≡ u
      → SameLeft r u (transmit_sidechannel c bytes n)
  unfolding transmit_sidechannel
  transmit_sidechannel-Same c bytes n p q =
      left_after (write_at data_buf_size n.data_buf 0 (request_header 0 (length bytes) c n.uuid)) _
        λ headed.
          left_after (write_at data_buf_size headed 8 bytes) _
            λ buf. left_after (slice buf 0 (8 + length bytes)) _ λ frame. same_left _ _ p q

  pub sidechannel_tx-Same :
      (c : ℕ) (bytes : List ℕ) (n : Node)
      → n.role ≡ r
      → n.uuid ≡ u
      → SameLeft r u (sidechannel_tx c bytes n)
  unfolding sidechannel_tx
  sidechannel_tx-Same c bytes n p q =
      left_either _ _ _ (same_left _ _ p q)
        (left_either _ _ _ (transmit_sidechannel-Same c bytes n p q) (same_left _ _ p q))
