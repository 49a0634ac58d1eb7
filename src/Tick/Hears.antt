-- ===== src/Tick/Hears.antt =====
-- A node that handles each frame that it hears in a call of `winot_tick`.
use ch32fun_wi_not_ap.Prelude.{
  [], some, List, ℕ, Option, ◌≡◌, ◌⊎◌, inl, inr, refl, ◌<◌, ◌≤◌, ◌^◌, Ensures, Ensures->>=,
  Ensures-with, arith, Bool-cases, ltb, ◌+◌, ◌*◌, ◌%◌, true, map, ◌∙◌, if◌then◌else◌, ◌==◌, ◌++◌,
  ◌∷◌,
}
use ch32fun_wi_not_ap.Node.{
  Node, State, Role, ap, client, newrx, communicating, advance, response_window_ms, is_newrx,
  change_state, data_buf_size, fragment_size, peer_address, enter, emit, active_channel, idle,
  listening,
}
use ch32fun_wi_not_ap.Memory.{Frame, sub8}
use ch32fun_wi_not_ap.Receive.{keep_active, data_frame, process_rx}
use ch32fun_wi_not_ap.Fragment.{finish_fragment, defragment}
use ch32fun_wi_not_ap.System.Released.{Leaves, Leaves-after, Leaves->>=}
use ch32fun_wi_not_ap.Tick.{tick, on_time, receive}
use ch32fun_wi_not_ap.Radio.Tuning.{heard, tuned, sent_to, added_lem}
use ch32fun_wi_not_ap.Node.Invariant.{is_newrx_eq, advance-Inv}
use ch32fun_wi_not_ap.System.Owned.{Owned, data_frame-keeps}
use ch32fun_wi_not_ap.Tick.Window.{on_time-early, window_open}
use ch32fun_wi_not_ap.Radio.{listen}
use ch32fun_wi_not_ap.Receive.RoundTrip.{each, Lifts}
use ch32fun_wi_not_ap.Receive.Reassembly.{process_rx-communicating}

-- A call for each frame, `dt` milliseconds after the one before.
abbrev pub tick_each : ℕ → List Frame → Node → Option Node
tick_each dt = each (λ f. tick dt (some f))

-- The node `k` handles what it hears of a node that went from `n` to `m`.
abbrev pub ticked : (List ℕ → Frame) → ℕ → Node → Node → Node → Option Node
ticked deliver dt n m k = tick_each dt (map deliver (heard (tuned k.calls) n.calls m.calls)) k

pub heard_lem :
    (a c : ℕ) (n m k : Node) (fs : List (List ℕ))
    → tuned k.calls ≡ some (a, c)
    → sent_to a c m.calls ≡ sent_to a c n.calls ++ fs
    → heard (tuned k.calls) n.calls m.calls ≡ fs
unfolding heard
heard_lem a c n m k fs t s = rw t (added_lem (sent_to a c n.calls) fs (sent_to a c m.calls) s)

pub ticked_one :
    (deliver : List ℕ → Frame) (dt a c : ℕ) (n m k : Node) (P : Node → Type 0) (f : List ℕ)
    → tuned k.calls ≡ some (a, c)
    → sent_to a c m.calls ≡ sent_to a c n.calls ++ (f ∷ [])
    → Ensures P (tick dt (some (deliver f)) k)
    → Ensures P (ticked deliver dt n m k)
unfolding each
ticked_one deliver dt a c n m k P f t s h =
    rw (heard_lem a c n m k (f ∷ []) t s) (Ensures->>= P P _ _ h λ q p. p)

-- The handler of a frame on a data channel leaves a new packet, or enters the state again.
Clocked : Node → Node → Type 0
Clocked n m =
    (m.tick ≡ n.tick) × ((m.state ≡ newrx) ⊎ ((m.state ≡ communicating) × (m.last_change ≡ m.tick)))

keep_active-tick : (r : Role) (n : Node) → (keep_active r n).tick ≡ n.tick
unfolding keep_active
keep_active-tick client n = refl
keep_active-tick ap n = ground arith

finish_fragment-tick :
    (pdu frag last : ℕ) (n : Node) → Leaves (λ m. m.tick ≡ n.tick) (finish_fragment pdu frag last n)
unfolding finish_fragment change_state
finish_fragment-tick pdu frag last n = ground arith

defragment-tick : (f : Frame) (n : Node) → Leaves (λ m. m.tick ≡ n.tick) (defragment f n)
unfolding defragment
defragment-tick f n =
    elim (Bool-cases (ltb data_buf_size (f 0 % 8 * fragment_size + sub8 (f 1) 2))) [
      | inl e ↦ rw e refl
      | inr e ↦ rw e (Leaves-after (λ m. m.tick ≡ n.tick) _ _ λ buf. finish_fragment-tick _ _ _ _)
    ]

communicate-Clocked :
    (n m : Node) → m.tick ≡ n.tick → Leaves (Clocked n) (change_state communicating m)
unfolding change_state Clocked
communicate-Clocked n m e =
    Leaves-after (Clocked n) (peer_address m.role m)
      (λ a. some (enter communicating (emit (listen a (active_channel m)) m)))
      λ a. (e, inr (refl, refl))

process_rx-Clocked :
    (f : Frame) (n : Node) → n.state ≡ communicating → Leaves (Clocked n) (process_rx f n)
unfolding data_frame Clocked
process_rx-Clocked f n e = rw (process_rx-communicating f n e) (
    Leaves->>= (λ m. m.tick ≡ (keep_active n.role n).tick) (Clocked n) _ _
      (defragment-tick f (keep_active n.role n)) λ m t. decided m (t ∙ keep_active-tick n.role n))
  where
    decided :
        (m : Node)
        → m.tick ≡ n.tick
        → Leaves (Clocked n) (if is_newrx m.state then some m else change_state communicating m)
    decided m t = elim (Bool-cases (is_newrx m.state)) [
      | inl e ↦ rw e (t, inl (is_newrx_eq m.state e))
      | inr e ↦ rw e (communicate-Clocked n m t)
    ]

-- The states in which time brings nothing about.
abbrev pub IsSettled : State → Type 0
IsSettled s = (s ≡ newrx) ⊎ ((s ≡ idle) ⊎ (s ≡ listening))

on_time-IsSettled : (s : State) (n : Node) → IsSettled s → on_time s n ≡ some n
unfolding on_time
on_time-IsSettled s n (inl e) = rw e refl
on_time-IsSettled s n (inr (inl e)) = rw e refl
on_time-IsSettled s n (inr (inr e)) = rw e refl

-- A call whose handler leaves such a state does what the handler does, and time passes.
pub tick-IsSettled :
    (dt : ℕ) (P : Node → Type 0) (f : Frame) (n : Node)
    → ((m : Node) → P m → IsSettled m.state)
    → ((m : Node) → P m → P (advance dt m))
    → Ensures P (process_rx f n)
    → Ensures P (tick dt (some f) n)
unfolding tick receive
tick-IsSettled dt P f n settled stable h =
    Ensures->>= P P _ _ h
      λ m p. rw (on_time-IsSettled m.state (advance dt m) (settled m p)) (stable m p)

-- A client on its data channel, and a clock of 32 bits.
abbrev pub Timed : ℕ → Node → Type 0
Timed u n = Owned client u n × (n.tick < 2 ^ 32)

pub advance-Timed : (dt u : ℕ) (n : Node) → Owned client u n → Timed u (advance dt n)
advance-Timed dt u n o =
    (record { inv = advance-Inv dt n o.inv; role = o.role; uuid = o.uuid }, omega arith)

pub client_empty : (u : ℕ) (n : Node) → Owned client u n → n.state ≡ communicating → n.data_len ≡ 0
client_empty u n o e =
    let states = o.inv.states in
    let empty : (n.data_len == 0) ≡ true = rw (o.role, e) at states in ground arith

-- A client that communicates has no packet, so within the response window it waits on.
pub client_waits :
    (dt u : ℕ) (n : Node)
    → dt ≤ response_window_ms
    → Owned client u n
    → n.tick < 2 ^ 32
    → n.state ≡ communicating
    → n.last_change ≡ n.tick
    → on_time n.state (advance dt n) ≡ some (advance dt n)
client_waits dt u n h o now e since =
    on_time-early n.state (advance dt n) (inr (e, client_empty u n o e))
      (window_open dt n now since h)

module _ (dt u : ℕ) (soon : dt ≤ response_window_ms) where
  still :
      (n m : Node)
      → n.tick < 2 ^ 32
      → Owned client u m
      → Clocked n m
      → on_time m.state (advance dt m) ≡ some (advance dt m)
  unfolding Clocked
  still n m now o (t, inl e) = on_time-IsSettled m.state (advance dt m) (inl e)
  still n m now o (t, inr (e, since)) = client_waits dt u m soon o (omega (arith, t)) e since

  -- What the handler makes of a frame on the data channel, the tick around it keeps.
  pub tick-data_frame :
      (Q : Node → Type 0) (f : Frame) (n : Node)
      → ((m : Node) → Q m → Q (advance dt m))
      → n.state ≡ communicating
      → Timed u n
      → Ensures Q (process_rx f n)
      → Ensures (λ m. Q m × Timed u m) (tick dt (some f) n)
  unfolding tick receive
  tick-data_frame Q f n stable e o q =
      Ensures->>= (λ m. Q m × (Owned client u m × Clocked n m)) (λ m. Q m × Timed u m) _ _
        (Ensures-with Q (λ m. Owned client u m × Clocked n m) _ q
          λ m r. (data_frame-keeps f n m e o.0 r, rw r at (process_rx-Clocked f n e)))
        λ m h. rw (still n m o.1 h.1.0 h.1.1) (stable m h.0, advance-Timed dt u m h.1.0)

  pub tick-Lifts : Lifts (Timed u) (λ f. tick dt (some f))
  tick-Lifts Q f n stable e o q = tick-data_frame Q f n (stable dt) e o q
