-- ===== src/Request.antt =====
-- The calls by which the rest of the firmware uses WiNoT: `winot_init`, `winot_request`,
-- `winot_send_packet`, `winot_sidechannel_tx`, `winot_poll_packet` and `winot_release_packet`.
pub mod Safety
pub mod Calls
pub mod InPlace
pub mod Reaches
pub mod Exchange
pub mod Upload
pub mod Turn
pub mod Download
pub mod Responding
pub mod Collision
pub mod Examples
use ch32fun_wi_not_ap.Prelude.{
  ℕ, zero, suc, ◌+◌, ◌^◌, ◌%◌, Bool, true, false, ◌&&◌, List, ◌∷◌, Option, none, some, ltb, leb,
  ◌==◌, if◌then◌else◌, ◌>>=◌, length, get_or, set,
}
use ch32fun_wi_not_ap.Memory.{slice, write_at, word_bytes}
use ch32fun_wi_not_ap.Radio.{transmit, init}
use ch32fun_wi_not_ap.Node.{
  Node, Role, client, ap, State, idle, listening, requesting, communicating, is_newrx, rest_state,
  ap_channel, ap_access_address, fragment_size, fragmented, data_buf_size, active_channel, emit,
  change_state, is_client,
}
use ch32fun_wi_not_ap.Fragment.{burst_tx_and_communicate}

-- `data` and `len`: the pointer is `gs_winot_data_buf` itself, or leads to `len` other bytes.
pub data Packet : Type 0 where
  own : ℕ → Packet
  outside : List ℕ → Packet

abbrev pub size : Packet → ℕ
size (own len) = len
size (outside bytes) = length bytes

-- The memory at `data`.
abbrev pub memory : Packet → Node → List ℕ
memory (own len) n = n.data_buf
memory (outside bytes) n = bytes

-- `memcpy(gs_winot_data_buf, data, len)`
unfoldable pub fill_buf : Packet → List ℕ → Option (List ℕ)
fill_buf (own len) buf = some buf
fill_buf (outside bytes) buf = write_at data_buf_size buf 0 bytes

-- The loop that moves `len` bytes 8 places up, from the last one down.
unfoldable pub move_up : ℕ → List ℕ → List ℕ
move_up zero buf = buf
move_up (suc i) buf = move_up i (set buf (i + 8) (get_or buf i 0))

-- The payload is put behind the place of the header.
unfoldable pub place_payload : Packet → List ℕ → Option (List ℕ)
place_payload (own len) buf = some (move_up len buf)
place_payload (outside bytes) buf = write_at data_buf_size buf 8 bytes

abbrev pub request_header : ℕ → ℕ → ℕ → ℕ → List ℕ
request_header pdu len sidechannel uuid =
    pdu ∷ (len + 6) % 2 ^ 8 ∷ sidechannel ∷ 0 ∷ word_bytes uuid

-- More than a fragment: the packet stays in the buffer, and a data channel is asked for.
unfoldable pub request_channel : Packet → Node → Option Node
request_channel p n = do
  buf ← fill_buf p n.data_buf
  some (
      emit (transmit ap_access_address (request_header fragmented 0 0 n.uuid) ap_channel)
        (record n { data_buf = buf; data_len = size p }))

-- The packet goes with the request, put together in the buffer.
unfoldable pub request_with_payload : Packet → Node → Option Node
request_with_payload p n = do
  placed ← if size p == 0 then some n.data_buf else place_payload p n.data_buf
  buf ← write_at data_buf_size placed 0 (request_header 0 (size p) 0 n.uuid)
  bytes ← slice buf 0 (8 + size p)
  some (
      emit (transmit ap_access_address bytes ap_channel)
        (record n { data_buf = buf; data_len = 0 }))

abbrev pub is_idle : State → Bool
is_idle idle = true
is_idle _ = false

-- The value returned is the state of the node returned.
unfoldable pub request : Packet → Node → Option Node
request p n =
    if is_idle n.state && leb (size p) data_buf_size
    then (do
      n' ← if ltb fragment_size (size p) then request_channel p n else request_with_payload p n
      change_state requesting n')
    else some n

-- `winot_send_packet` past its test of the length.
unfoldable pub send_by : Role → State → Packet → Node → Option Node
send_by client communicating p n =
    burst_tx_and_communicate n.uuid (active_channel n % 2 ^ 8) (memory p n) (size p) n
send_by client idle p n = request p n
send_by client _ p n = some n
send_by ap s p n = do
  buf ← fill_buf p n.data_buf
  some (record n { data_buf = buf; data_len = size p })

-- The value returned is the length, or -1, for which `none` stands.
unfoldable pub send_packet : Packet → Node → Option (Option ℕ × Node)
unfolding send_by
send_packet p n =
    if ltb data_buf_size (size p)
    then some (none, n)
    else (do n' ← send_by n.role n.state p n; some (some (size p), n'))

unfoldable pub transmit_sidechannel : ℕ → List ℕ → Node → Option (Option ℕ × Node)
transmit_sidechannel sidechannel bytes n = do
  headed ← write_at data_buf_size n.data_buf 0 (request_header 0 (length bytes) sidechannel n.uuid)
  buf ← write_at data_buf_size headed 8 bytes
  frame ← slice buf 0 (8 + length bytes)
  some (
    some (length bytes),
    emit (transmit ap_access_address frame ap_channel) (record n { data_buf = buf; data_len = 0 }),
  )

unfoldable pub sidechannel_tx : ℕ → List ℕ → Node → Option (Option ℕ × Node)
sidechannel_tx sidechannel bytes n =
    if ltb fragment_size (length bytes)
    then some (none, n)
    else if is_client n.role && is_idle n.state
    then transmit_sidechannel sidechannel bytes n
    else some (some 0, n)

unfoldable pub start : Role → ℕ → Node → Option Node
start r tx_power n =
    let n' = emit (init tx_power) (record n { role = r }) in
    if is_client r then some n' else change_state listening n'

-- The length is a `uint16_t`, the pointer that of the buffer; `none` is NULL.
unfoldable pub poll_packet : Node → Option (ℕ × List ℕ)
poll_packet n = if is_newrx n.state then some (n.data_len % 2 ^ 16, n.data_buf) else none

unfoldable pub release_packet : Node → Option Node
release_packet n =
    if is_newrx n.state
    then (do
      n' ←
          change_state (if active_channel n == ap_channel then rest_state n.role else communicating)
            n
      some (record n' { data_len = 0 }))
    else some n
