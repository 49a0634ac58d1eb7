-- ===== src/Tick/Window.antt =====
-- The response window: what becomes of a node that hears nothing.
use ch32fun_wi_not_ap.Prelude.{
  refl, some, none, ◌>>=◌, zero, suc, inl, inr, true, false, ℕ, Option, ◌<◌, ◌≡◌, ◌^◌, ◌+◌, ◌⊎◌,
  arith, Ensures, ◌-◌, ltb, ◌∙◌, ◌%◌, ◌==◌, ◌≤◌, Ensures-mono, Ensures->>=,
}
use ch32fun_wi_not_ap.Node.{
  ap, client, Role, Node, change_state, active_channel, State, listening, ap_channel, requesting,
  advance, ap_access_address, idle, communicating, rest_state, response_window_ms,
}
use ch32fun_wi_not_ap.Tick.{on_time, tick, receive, window_over}
use ch32fun_wi_not_ap.Radio.Tuning.{tuned}
use ch32fun_wi_not_ap.Node.Invariant.{Sizes, active-set, consistent, Inv, advance-Inv}

-- The milliseconds go by one by one, and the radio has no frame.
unfoldable pub quiet : ℕ → Node → Option Node
quiet zero n = some n
quiet (suc k) n = do m ← tick 1 none n; quiet k m

-- A client that waits for its response, or a node on a data channel without a packet, `e` ms after the
-- last change of its state; the clock may have run over since.
pub record Waiting (e : ℕ) (n : Node) : Type 0 where
  pub tick_word : n.tick < 2 ^ 32
  pub change_word : n.last_change < 2 ^ 32
  pub elapsed : (n.tick + 2 ^ 32 - n.last_change) % 2 ^ 32 ≡ e
  pub phase : (n.state ≡ requesting) ⊎ ((n.state ≡ communicating) × (n.data_len ≡ 0))

-- The node listens on the request channel, or is idle.
abbrev pub Resting : Role → Node → Type 0
Resting ap m = (m.state ≡ listening) × (tuned m.calls ≡ some (ap_access_address, ap_channel))
Resting client m = m.state ≡ idle

pub record Rested (n m : Node) : Type 0 where
  pub rests : Resting n.role m
  pub off_channel : active_channel m ≡ ap_channel
  pub len_kept : m.data_len ≡ n.data_len
  pub buf_kept : m.data_buf ≡ n.data_buf

later : (e : ℕ) (n : Node) → e < 2 ^ 31 → Waiting e n → Waiting (e + 1) (advance 1 n)
later e n h w = record {
  tick_word = omega arith;
  change_word = w.change_word;
  elapsed = omega (arith, w.tick_word, w.change_word, w.elapsed);
  phase = w.phase;
}

window : (e : ℕ) (n : Node) → Waiting e n → e < 2 ^ 31 → window_over n ≡ ltb response_window_ms e
window e n w h =
    let small : ltb e (2 ^ 31) ≡ true = ground arith in rw (w.elapsed, small) (ground arith)

pub on_time-early :
    (s : State) (n : Node)
    → (s ≡ requesting) ⊎ ((s ≡ communicating) × (n.data_len ≡ 0))
    → window_over n ≡ false
    → on_time s n ≡ some n
unfolding on_time
on_time-early s n (inl e) fresh = rw (e, fresh) refl
on_time-early s n (inr (e, l)) fresh =
    let empty : (n.data_len == 0) ≡ true = ground arith in rw (e, fresh, empty) refl

pub window_open :
    (dt : ℕ) (n : Node)
    → n.tick < 2 ^ 32
    → n.last_change ≡ n.tick
    → dt ≤ response_window_ms
    → window_over (advance dt n) ≡ false
window_open dt n now since h =
    let e : ((n.tick + dt) % 2 ^ 32 + 2 ^ 32 - n.last_change) % 2 ^ 32 ≡ dt =
      omega (arith, since) in
    let short : ltb response_window_ms dt ≡ false = ground arith in rw (e, short) refl

tick-early : (e : ℕ) (n : Node) → e < 20 → Waiting e n → tick 1 none n ≡ some (advance 1 n)
unfolding tick receive
tick-early e n h w =
    let w' = later e n (omega arith) w in
    on_time-early n.state (advance 1 n) w.phase
      (window (e + 1) (advance 1 n) w' (omega arith) ∙ ground arith)

rest-Rested :
    (r : Role) (n : Node)
    → n.role ≡ r
    → Sizes n
    → Ensures (Rested n) (change_state (rest_state r) n)
unfolding change_state tuned
rest-Rested ap n e z = record {
  rests = rw e (refl, refl);
  off_channel = active-set n ap_channel z;
  len_kept = refl;
  buf_kept = refl;
}
rest-Rested client n e z = record {
  rests = rw e refl;
  off_channel = active-set n ap_channel z;
  len_kept = refl;
  buf_kept = refl;
}

requesting_client : (r : Role) (c l : ℕ) → consistent r requesting c l ≡ true → r ≡ client
requesting_client client c l h = refl
requesting_client ap c l h = cc

-- The window is over.
on_time-late :
    (s : State) (n : Node)
    → (s ≡ requesting) ⊎ ((s ≡ communicating) × (n.data_len ≡ 0))
    → (consistent n.role s (active_channel n) n.data_len ≡ true)
    → window_over n ≡ true
    → on_time s n ≡ change_state (rest_state n.role) n
unfolding on_time
on_time-late s n (inr (e, l)) c over = rw (e, over) refl
on_time-late s n (inl e) c over =
    let r : n.role ≡ client = requesting_client n.role (active_channel n) n.data_len (rw e at c) in
    let idles : rest_state n.role ≡ idle = rw r refl in rw (e, over, idles) refl

tick-late : (n : Node) → Inv n → Waiting 20 n → Ensures (Rested n) (tick 1 none n)
unfolding tick receive
tick-late n v w =
    let n' = advance 1 n in
    let over : window_over n' ≡ true =
      window 21 n' (later 20 n (omega arith) w) (omega arith) ∙ ground arith in
    rw (on_time-late n.state n' w.phase v.states over) (
      Ensures-mono (Rested n') (Rested n) _
        (λ m q. record {
          rests = q.rests;
          off_channel = q.off_channel;
          len_kept = q.len_kept;
          buf_kept = q.buf_kept;
        })
        (rest-Rested n.role n' refl (record {
          buf_size = v.sizes.buf_size;
          uuids_size = v.sizes.uuids_size;
          times_size = v.sizes.times_size;
          len_fits = v.sizes.len_fits;
        })))

-- Before the window is over nothing but the clock changes.
quiet-waits :
    (k e : ℕ) (n : Node)
    → e + k ≤ 20
    → Waiting e n
    → quiet k n ≡ some (record n { tick = (n.tick + k) % 2 ^ 32 })
unfolding quiet
quiet-waits zero e n h w =
    let same : (n.tick + 0) % 2 ^ 32 ≡ n.tick = omega (arith, w.tick_word) in rw same refl
quiet-waits (suc k) e n h w =
    let shift : ((n.tick + 1) % 2 ^ 32 + k) % 2 ^ 32 ≡ (n.tick + suc k) % 2 ^ 32 = omega arith in
    rw (tick-early e n (omega arith) w)
      (rw shift at (quiet-waits k (e + 1) (advance 1 n) (omega arith) (later e n (omega arith) w)))

-- The millisecond at which it is over puts the node to rest.
quiet-rests :
    (k e : ℕ) (n : Node) → e + k ≡ 20 → Inv n → Waiting e n → Ensures (Rested n) (quiet (suc k) n)
unfolding quiet
quiet-rests zero e n h v w =
    let last : e ≡ 20 = omega arith in
    Ensures->>= (Rested n) (Rested n) _ _ (tick-late n v (rw last at w)) λ m q. q
quiet-rests (suc k) e n h v w = rw (tick-early e n (omega arith) w) (
    Ensures-mono (Rested (advance 1 n)) (Rested n) _
      (λ m q. record {
        rests = q.rests;
        off_channel = q.off_channel;
        len_kept = q.len_kept;
        buf_kept = q.buf_kept;
      })
      (quiet-rests k (e + 1) (advance 1 n) (omega arith) (advance-Inv 1 n v)
        (later e n (omega arith) w)))

-- A node with the invariant that hears nothing comes back from an exchange when the response
-- window of 20 ms is over, and not before: a client that waits for its response, or a node on a
-- data channel without a packet, e ms after the last change of its state, as the difference of two
-- 32-bit words, changes nothing but the clock in the 20 - e ticks of a millisecond that follow;
-- the next tick returns, and then a client is idle, an access point listens on the request channel
-- with its radio told so, the active channel is the request channel, and the packet is as before.
pub quiet-Rested :
    (k e : ℕ) (n : Node)
    → e + k ≡ response_window_ms
    → Inv n
    → Waiting e n
    → (quiet k n ≡ some (record n { tick = (n.tick + k) % 2 ^ 32 }))
      × Ensures (Rested n) (quiet (suc k) n)
quiet-Rested k e n h v w = (quiet-waits k e n (omega arith) w, quiet-rests k e n h v w)
