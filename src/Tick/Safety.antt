-- ===== src/Tick/Safety.antt =====
-- `winot_tick` keeps the invariant, and faults only where the handler of received frames does.
use ch32fun_wi_not_ap.Prelude.{
  Bool-cases, Ensures, Ensures->>=, Ensures-some, List, Option, arith, false, inl, inr, none, refl,
  some, sym, true, ℕ, ◌%◌, ◌==◌, ◌∙◌, ◌≡◌, ◌≢◌,
}
use ch32fun_wi_not_ap.Node.{
  Node, Role, State, active_channel, advance, ap, ap_channel, client, communicating, dest_uuid,
  entry, idle, requesting, rest_state,
}
use ch32fun_wi_not_ap.Tick.{on_time, receive, send_pending, tick, window_over}
use ch32fun_wi_not_ap.Node.Invariant.{
  Inv, change_state-Inv, channel_after, consistent, consistent-empty,
}
use ch32fun_wi_not_ap.Receive.Safety.{process_rx-Inv, rx_overflows, process_rx-faults_iff}
use ch32fun_wi_not_ap.Memory.{Frame}
use ch32fun_wi_not_ap.Fragment.Burst.{burst_away-Inv}

-- No frame is ready, or one that the handler has room to answer.
abbrev pub Harmless : Option Frame → Node → Type 0
Harmless none n = Unit {0}
Harmless (some f) n = rx_overflows f n ≡ false

receive-Inv : (rx : Option Frame) (n : Node) → Inv n → Harmless rx n → Ensures Inv (receive rx n)
unfolding receive
receive-Inv none n v h = v
receive-Inv (some f) n v h = process_rx-Inv f n v h

-- Only an access point communicates with a packet, and then its channel is one of the table.
in_table :
    (r : Role) (c l : ℕ) (table : List ℕ)
    → consistent r communicating c l ≡ true
    → l ≢ 0
    → Ensures (λ (u : ℕ). Unit {0}) (entry table c)
in_table ap c l table h ne = ground arith
in_table client c l table h ne = absurd (ne (ground arith))

rest-consistent :
    (r : Role) (s : State) (c l : ℕ) (n : Node)
    → consistent r s c l ≡ true
    → consistent r (rest_state r) (channel_after (rest_state r) n) l ≡ true
rest-consistent ap s c l n h = refl
rest-consistent client s c l n h = refl

send_pending-Inv :
    (n : Node) → Inv n → n.state ≡ communicating → n.data_len ≢ 0 → Ensures Inv (send_pending n)
unfolding send_pending
send_pending-Inv n v e full =
    Ensures->>= (λ u. Unit {0}) Inv (entry n.datachannel (active_channel n)) _
      (in_table n.role (active_channel n) n.data_len n.datachannel (rw (← e) v.states) full)
      λ u _. elim (Bool-cases (dest_uuid n.data_buf == u)) [
        | inl ours ↦ rw ours (burst_away-Inv u (active_channel n % 256) n v.sizes c)
        | inr other ↦ rw other v
      ]
  where
    c : consistent n.role communicating (active_channel n) 0 ≡ true
    c = consistent-empty n.role communicating (active_channel n) n.data_len (rw (← e) v.states)

idle-consistent :
    (r : Role) (c l : ℕ)
    → consistent r requesting c l ≡ true
    → consistent r idle ap_channel l ≡ true
idle-consistent ap c l h = cc
idle-consistent client c l h = refl

on_time-Inv : (s : State) (n : Node) → n.state ≡ s → Inv n → Ensures Inv (on_time s n)
unfolding on_time
on_time-Inv requesting n e v = elim (Bool-cases (window_over n)) [
  | inr early ↦ rw (early, on_time) v
  | inl late ↦
      rw (late, on_time)
        (change_state-Inv idle n v.sizes
          (idle-consistent n.role (active_channel n) n.data_len (rw (← e) v.states)))
]
on_time-Inv communicating n e v = elim (Bool-cases (window_over n)) [
  | inl late ↦
      rw (late, on_time)
        (change_state-Inv (rest_state n.role) n v.sizes
          (rest-consistent n.role n.state (active_channel n) n.data_len n v.states))
  | inr early ↦ elim (Bool-cases (n.data_len == 0)) [
    | inl empty ↦ rw (early, on_time, empty) v
    | inr full ↦ rw (early, on_time, full) (send_pending-Inv n v e (ground arith))
  ]
]
on_time-Inv _ n e v = v

-- The tick of a node whose frame, if one is ready, is harmless returns and keeps the invariant.
pub tick-Inv :
    (dt_ms : ℕ) (rx : Option Frame) (n : Node)
    → Inv n
    → Harmless rx n
    → Ensures Inv (tick dt_ms rx n)
unfolding tick
tick-Inv dt_ms rx n v h = Ensures->>= Inv Inv (receive rx n) _ (receive-Inv rx n v h) λ m w.
    on_time-Inv m.state (advance dt_ms m) refl
      (record { sizes = omega (arith, w.sizes.len_fits); states = w.states })

pub tick-faults :
    (dt_ms : ℕ) (f : Frame) (n : Node)
    → Inv n
    → rx_overflows f n ≡ true
    → tick dt_ms (some f) n ≡ none
unfolding tick receive
tick-faults dt_ms f n v h = rw ((process_rx-faults_iff f n v).1 h)

-- If a tick returns, the node that it returns has the invariant.
pub tick-returns-Inv :
    (dt_ms : ℕ) (rx : Option Frame) (n m : Node) → Inv n → tick dt_ms rx n ≡ some m → Inv m
tick-returns-Inv dt_ms none n m v e =
    Ensures-some Inv (tick dt_ms none n) m (tick-Inv dt_ms none n v tt) e
tick-returns-Inv dt_ms (some f) n m v e = elim (Bool-cases (rx_overflows f n)) [
  | inr fine ↦ Ensures-some Inv (tick dt_ms (some f) n) m (tick-Inv dt_ms (some f) n v fine) e
  | inl over ↦ let no : none ≡ some m = sym (tick-faults dt_ms f n v over) ∙ e in cc
]
