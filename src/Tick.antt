-- ===== src/Tick.antt =====
-- `winot_tick`: the frame that the radio has ready, the clock, and what time brings about.
pub mod Safety
pub mod Window
pub mod Hears
pub mod Examples
use ch32fun_wi_not_ap.Prelude.{
  ℕ, ◌+◌, ◌-◌, ◌^◌, ◌%◌, Bool, ◌&&◌, Option, none, some, ltb, ◌==◌, if◌then◌else◌, ◌>>=◌,
}
use ch32fun_wi_not_ap.Memory.{Frame}
use ch32fun_wi_not_ap.Node.{
  Node, State, idle, requesting, communicating, rest_state, response_window_ms, active_channel,
  entry, dest_uuid, advance, change_state,
}
use ch32fun_wi_not_ap.Fragment.{burst_tx_and_communicate}
use ch32fun_wi_not_ap.Receive.{process_rx}

-- `rx_ready` and the frame behind it.
unfoldable pub receive : Option Frame → Node → Option Node
receive none n = some n
receive (some f) n = process_rx f n

-- `elapsed > WINOT_RESPONSE_WINDOW_MS`: the difference of the two words, read as a signed one.
abbrev pub window_over : Node → Bool
window_over n =
    let elapsed = (n.tick + 2 ^ 32 - n.last_change) % 2 ^ 32 in
    ltb response_window_ms elapsed && ltb elapsed (2 ^ 31)

-- The packet that waits is sent if it is for the client on the data channel.
unfoldable pub send_pending : Node → Option Node
send_pending n = do
  client_uuid ← entry n.datachannel (active_channel n)
  if dest_uuid n.data_buf == client_uuid
      then (do
        n' ← burst_tx_and_communicate client_uuid (active_channel n % 2 ^ 8) n.data_buf n.data_len n
        some (record n' { data_len = 0 }))
      else some n

unfoldable pub on_time : State → Node → Option Node
on_time requesting n = if window_over n then change_state idle n else some n
on_time communicating n =
    if window_over n
    then change_state (rest_state n.role) n
    else if n.data_len == 0
    then some n
    else send_pending n
on_time _ n = some n

-- The value returned is the state of the node returned.
unfoldable pub tick : ℕ → Option Frame → Node → Option Node
unfolding on_time
tick dt_ms rx n = do
  received ← receive rx n
  let later = advance dt_ms received
  on_time later.state later
