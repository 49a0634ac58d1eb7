-- ===== src/System.antt =====
-- A node from its start on: the calls that the firmware may make of WiNoT, in any order and with any
-- arguments, and any frames that the radio may bring.
pub mod Same
pub mod Owned
pub mod Released
pub mod Examples
use ch32fun_wi_not_ap.Prelude.{
  ==_iff, Bool, Bool-cases, Ensures, Ensures->>=, Ensures-mono, Ensures-ne-none, Ensures-some, List,
  Option, Option-cases, [], append-nil, append_assoc, arith, bit_and, bit_or, cong, drop,
  drop-append, drop-drop, false, get_or, get_or-set_ne, get_or-set_self, if◌then◌else◌, inl, inr,
  leb, leb→le, length, length-append, length-drop, length-replicate, length-set, length-take,
  le→leb, ltb, ltb→lt, lt→ltb, min, none, not, refl, replicate, set, some, subst, suc, sym, take,
  take-append, take-append-drop, take-length, true, zero, ℕ, ◌%◌, ◌&&◌, ◌*◌, ◌++◌, ◌+◌, ◌-◌, ◌/◌,
  ◌<◌, ◌==◌, ◌>>=◌, ◌^◌, ◌||◌, ◌↔◌, ◌∙◌, ◌∷◌, ◌≡◌, ◌≢◌, ◌≤◌, ◌⊎◌,
}
use ch32fun_wi_not_ap.Node.{
  Node, Role, State, active_channel, advance, ap, ap_access_address, ap_channel, change_state,
  client, clients_max, communicating, data_buf_size, dest_uuid, emit, enter, entry, fragment_size,
  fragmented, fragments_max, idle, is_client, is_listening, is_newrx, listening, newrx,
  peer_address, power_on, requesting, response_window_ms, rest_state, set_active_channel,
}
use ch32fun_wi_not_ap.Memory.{Frame}
use ch32fun_wi_not_ap.Request.{
  Packet, fill_buf, is_idle, memory, move_up, outside, own, place_payload, poll_packet,
  release_packet, request, request_channel, request_header, request_with_payload, send_by,
  send_packet, sidechannel_tx, size, start, transmit_sidechannel,
}
use ch32fun_wi_not_ap.Tick.{tick}
use ch32fun_wi_not_ap.Node.Invariant.{Inv}
use ch32fun_wi_not_ap.Request.Calls.{
  release_packet-Inv, request-Inv, send_packet-Inv, sidechannel_tx-Inv, start-Inv,
}
use ch32fun_wi_not_ap.Tick.Safety.{Harmless, tick-Inv, tick-returns-Inv}

-- The calls of the interface, each with its arguments.
pub data Call : Type 0 where
  ticks : ℕ → Option Frame → Call
  requests : Packet → Call
  sends : Packet → Call
  sidechannels : ℕ → List ℕ → Call
  releases : Call

-- The node that a call with a result leaves.
abbrev left : Option (Option ℕ × Node) → Option Node
left m = do r ← m; some r.1

pub perform : Call → Node → Option Node
perform (ticks dt_ms rx) n = tick dt_ms rx n
perform (requests p) n = request p n
perform (sends p) n = left (send_packet p n)
perform (sidechannels c bytes) n = left (sidechannel_tx c bytes n)
perform releases n = release_packet n

-- One call that returns.
pub data Step : Node → Node → Type 0 where
  returns : {n m : Node} (c : Call) → perform c n ≡ some m → Step n m

-- What a node of a role can become, from the variables that the C runtime sets up.
pub data Reach (r : Role) (tx_power uuid : ℕ) : Node → Type 0 where
  started : {n : Node} → start r tx_power (power_on uuid) ≡ some n → Reach r tx_power uuid n
  next : {n m : Node} → Reach r tx_power uuid n → Step n m → Reach r tx_power uuid m

left-Inv : (m : Option (Option ℕ × Node)) → Ensures (λ r. Inv r.1) m → Ensures Inv (left m)
left-Inv none h = h
left-Inv (some r) h = h

Step-Inv : {n m : Node} → Step n m → Inv n → Inv m
unfolding perform
Step-Inv {n} {m} (returns (ticks dt_ms rx) e) v = tick-returns-Inv dt_ms rx n m v e
Step-Inv {n} {m} (returns (requests p) e) v = Ensures-some Inv (request p n) m (request-Inv p n v) e
Step-Inv {n} {m} (returns (sends p) e) v =
    Ensures-some Inv (left (send_packet p n)) m (left-Inv (send_packet p n) (send_packet-Inv p n v))
      e
Step-Inv {n} {m} (returns (sidechannels c bytes) e) v =
    Ensures-some Inv (left (sidechannel_tx c bytes n)) m
      (left-Inv (sidechannel_tx c bytes n) (sidechannel_tx-Inv c bytes n v)) e
Step-Inv {n} {m} (returns releases e) v =
    Ensures-some Inv (release_packet n) m (release_packet-Inv n v) e

-- Every node reached from winot_init, by any calls that return and any received frames, satisfies
-- the invariant of the WiNoT variables.
pub Reach-Inv : (r : Role) (tx_power uuid : ℕ) {n : Node} → Reach r tx_power uuid n → Inv n
Reach-Inv r tx_power uuid {n} (started e) =
    Ensures-some Inv (start r tx_power (power_on uuid)) n (start-Inv r tx_power uuid) e
Reach-Inv r tx_power uuid (next p s) = Step-Inv s (Reach-Inv r tx_power uuid p)

-- The only call that can fault is a tick with a frame that overflows the response.
abbrev pub IsHarmless : Call → Node → Type 0
IsHarmless (ticks dt_ms rx) n = Harmless rx n
IsHarmless _ n = Unit {0}

perform-Inv : (c : Call) (n : Node) → IsHarmless c n → Inv n → Ensures Inv (perform c n)
unfolding perform
perform-Inv (ticks dt_ms rx) n h v = tick-Inv dt_ms rx n v h
perform-Inv (requests p) n h v = request-Inv p n v
perform-Inv (sends p) n h v = left-Inv (send_packet p n) (send_packet-Inv p n v)
perform-Inv (sidechannels c bytes) n h v =
    left-Inv (sidechannel_tx c bytes n) (sidechannel_tx-Inv c bytes n v)
perform-Inv releases n h v = release_packet-Inv n v

-- In every node reached from winot_init every call returns without an access outside an array, a
-- tick under the condition that the frame it handles, if any, does not overflow the access point's
-- response.
pub Reach-ne-none :
    (r : Role) (tx_power uuid : ℕ) {n : Node} (c : Call)
    → Reach r tx_power uuid n
    → IsHarmless c n
    → perform c n ≢ none
Reach-ne-none r tx_power uuid {n} c p h =
    Ensures-ne-none Inv (perform c n) (perform-Inv c n h (Reach-Inv r tx_power uuid p))
