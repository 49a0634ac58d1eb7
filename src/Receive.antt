-- ===== src/Receive.antt =====
-- `winot_process_rx`: what a node does with a frame that the radio has received.
pub mod Payload
pub mod Route
pub mod Answer
pub mod Safety
pub mod Reassembly
pub mod RoundTrip
pub mod Arrival
pub mod Exchange
pub mod Bare
pub mod Channel
pub mod Follow
pub mod Laden
pub mod Kept
pub mod Lossy
pub mod Late
pub mod Mixed
pub mod Hears
pub mod Examples
use ch32fun_wi_not_ap.Prelude.{
  ℕ, ◌+◌, ◌^◌, ◌%◌, Bool, ◌&&◌, ◌||◌, not, List, [], ◌∷◌, ◌++◌, Option, some, ltb, leb, ◌==◌,
  if◌then◌else◌, ◌>>=◌, bit_and, replicate, set,
}
use ch32fun_wi_not_ap.Memory.{Frame, copy, slice, write_at, into_array, sub8, load_word, word_bytes}
use ch32fun_wi_not_ap.Radio.{transmit}
use ch32fun_wi_not_ap.Node.{
  Node, Role, client, ap, State, idle, listening, requesting, communicating, newrx, is_newrx,
  rest_state, ap_channel, clients_max, fragment_size, fragmented, data_buf_size, active_channel,
  set_active_channel, dest_uuid, emit, change_state,
}
use ch32fun_wi_not_ap.Routing.{store}
use ch32fun_wi_not_ap.Fragment.{burst_tx_and_communicate, defragment}

-- `len` on the request channel: the length byte less 2 and less 4, each time as a byte.
abbrev pub request_len : Frame → ℕ
request_len f = sub8 (sub8 (f 1) 2) 4

abbrev pub ap_needs_datachannel : ℕ → Node → Bool
ap_needs_datachannel client_uuid n =
    not (n.data_len == 0) && (ltb fragment_size n.data_len && client_uuid == dest_uuid n.data_buf)

abbrev pub client_needs_datachannel : Frame → Bool
client_needs_datachannel f = not (bit_and (f 0) fragmented == 0)

-- The payload at frame + 8 becomes the node's packet.
unfoldable pub take_payload : Frame → Node → Option Node
take_payload f n =
    let len = request_len f in
    if len == 0 then some n else (do
      buf ← write_at data_buf_size n.data_buf 0 (copy f 8 len)
      change_state newrx (record n { data_buf = buf; data_len = len }))

-- The access point's packet is copied into the response, unless it needs a data channel.
unfoldable pub give_payload : Bool → Node → Option (List ℕ × Node)
give_payload needs n =
    if not (n.data_len == 0) && not needs
    then (do
      source ← slice n.data_buf 0 n.data_len
      bytes ← into_array (fragment_size + 8) 8 source
      some (bytes, record n { data_len = 0 }))
    else some ([], n)

-- The bytes of `response`. Nothing writes byte 1, which is zero from the start.
abbrev pub response_frame : ℕ → ℕ → List ℕ → List ℕ
response_frame channel uuid payload = 0 ∷ 0 ∷ channel ∷ 0 ∷ (word_bytes uuid ++ payload)

-- The state after the response: a packet is waiting, or the channel of the response decides.
unfoldable pub after_response : ℕ → Node → Option Node
after_response channel n =
    if is_newrx n.state
    then some n
    else change_state (if channel == ap_channel then listening else communicating) n

unfoldable pub answer_request : Frame → Bool → ℕ → Node → Option Node
answer_request f needs client_uuid n =
    let channel = active_channel n % 2 ^ 8 in
    do
      (payload, n₁) ← give_payload needs n
      n₂ ← take_payload f n₁
      after_response channel
          (emit (transmit client_uuid (response_frame channel n.uuid payload) ap_channel) n₂)

-- A side channel message becomes a packet for the host: six zeros, the number, the payload.
unfoldable pub take_sidechannel : Frame → Node → Option Node
take_sidechannel f n =
    let len = request_len f in
    do
      buf₁ ← write_at data_buf_size n.data_buf 0 (replicate 6 0)
      buf₂ ← write_at data_buf_size buf₁ 6 (f 2 ∷ [])
      buf₃ ← write_at data_buf_size buf₂ 7 (copy f 8 len)
      change_state newrx (record n { data_buf = buf₃; data_len = len + 7 })

-- The routing of a request: the client's place becomes the active channel if one side needs it.
unfoldable pub route_request : Frame → Node → Node
route_request f n =
    let client_uuid = load_word f 4 in
    let needs = ap_needs_datachannel client_uuid n in
    let (idx, n') = store client_uuid n in
    if (not needs && not (client_needs_datachannel f)) || not (f 2 == 0)
    then set_active_channel ap_channel (set_active_channel idx n')
    else set_active_channel idx n'

unfoldable pub ap_request : Frame → Node → Option Node
ap_request f n =
    let client_uuid = load_word f 4 in
    let n' = route_request f n in
    if f 2 == 0
    then answer_request f (ap_needs_datachannel client_uuid n) client_uuid n'
    else take_sidechannel f n'

-- What a client does with the channel of the response.
unfoldable pub follow_channel : ℕ → Node → Option Node
follow_channel channel n =
    if channel == ap_channel
    then (if is_newrx n.state then some n else change_state idle n)
    else (let n' = set_active_channel channel n in
        if n'.data_len == 0 then change_state communicating n' else (do
          n'' ←
              burst_tx_and_communicate n'.uuid (active_channel n' % 2 ^ 8) n'.data_buf n'.data_len
                n'
          some (record n'' { data_len = 0 })))

unfoldable pub client_response : Frame → Node → Option Node
client_response f n = do n' ← take_payload f n; follow_channel (f 2) n'

-- An access point keeps the client of the active channel fresh in the routing table.
unfoldable pub keep_active : Role → Node → Node
keep_active client n = n
keep_active ap n =
    let c = active_channel n in
    if not (c == 0) && leb c clients_max
    then record n { last_activity = set n.last_activity c n.tick }
    else n

unfoldable pub data_frame : Frame → Node → Option Node
data_frame f n = do
  n' ← defragment f (keep_active n.role n)
  if is_newrx n'.state then some n' else change_state communicating n'

-- The chain of tests of `winot_process_rx`.
unfoldable pub rx_by : Role → State → Frame → Node → Option Node
rx_by ap listening f n = ap_request f n
rx_by client requesting f n = client_response f n
rx_by _ communicating f n = data_frame f n
rx_by r _ f n = change_state (rest_state r) n

unfoldable pub process_rx : Frame → Node → Option Node
unfolding rx_by
process_rx f n = rx_by n.role n.state f n
