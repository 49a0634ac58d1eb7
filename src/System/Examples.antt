-- ===== src/System/Examples.antt =====
-- The theorems on whole histories at a concrete history: an access point is started, gets a packet for
-- a client, and the client asks for a data channel.
use ch32fun_wi_not_ap.Prelude.{Option, [], false, get_or, none, refl, some, ◌∷◌, ◌≡◌, ◌≢◌}
use ch32fun_wi_not_ap.Node.{Node, ap, change_state, power_on}
use ch32fun_wi_not_ap.Memory.{Frame, frame_of, write_at}
use ch32fun_wi_not_ap.Request.{start, outside, send_packet, fill_buf, Packet}
use ch32fun_wi_not_ap.System.{
  ticks, sends, Reach, next, started, returns, perform, Reach-Inv, Reach-ne-none,
}
use ch32fun_wi_not_ap.Node.Invariant.{Inv}
use ch32fun_wi_not_ap.Receive.Safety.{rx_overflows}

-- A request of client 0x04030201 for a data channel, with no payload.
abbrev asking : Frame
asking = frame_of (8 ∷ 6 ∷ 0 ∷ 0 ∷ 1 ∷ 2 ∷ 3 ∷ 4 ∷ [])

node_of : Option Node → Node
node_of none = power_on 0
node_of (some n) = n

ap_node : Node
unfolding node_of
ap_node = node_of (start ap 0 (power_on 7))

abbrev packet : Packet
packet = outside (0 ∷ 0 ∷ 1 ∷ 2 ∷ 3 ∷ 4 ∷ [])

loaded : Node
unfolding node_of
loaded = node_of (perform (sends packet) ap_node)

loaded-Reach : Reach ap 0 7 loaded
unfolding loaded ap_node start change_state perform send_packet fill_buf write_at get_or
loaded-Reach = next (started refl) (returns (sends packet) refl)

Reach-Inv_example : Inv loaded
Reach-Inv_example = Reach-Inv ap 0 7 loaded-Reach

loaded_harmless : rx_overflows asking loaded ≡ false
unfolding loaded ap_node start change_state perform send_packet fill_buf write_at get_or
loaded_harmless = refl

Reach-ne-none_example : perform (ticks 1 (some asking)) loaded ≢ none
Reach-ne-none_example = Reach-ne-none ap 0 7 (ticks 1 (some asking)) loaded-Reach loaded_harmless
