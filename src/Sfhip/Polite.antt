-- ===== src/Sfhip/Polite.antt =====
-- A stack that stays within the documented limits, and what a firmware keeps while it runs.
use ch32fun_wi_not_ap.Prelude.{
  ℕ, List, ◌+◌, length, Ensures, ◌≤◌, Ensures->>=, arith, Option, ◌<◌, Bool,
}
use ch32fun_wi_not_ap.Sfhip.{
  Talk, done, reads, scribbles, sends, leases, accepts, events, closes, Hooks, run, mtu, Stack,
}
use ch32fun_wi_not_ap.Http.{tcp_sockets, TcpCode}

-- The stack writes and sends within the buffer, and leaves room in it for what an event may write.
-- It names only the sockets there are.
abbrev pub Polite : {H : Type 0} → Talk H → Type 0
Polite (done h) = Unit {0}
Polite (reads k) = (b : List ℕ) → Polite (k b)
Polite (scribbles off bytes t) = (off + length bytes ≤ mtu) × Polite t
Polite (sends len k) = (len ≤ mtu) × ((r : Option ℕ) → Polite (k r))
Polite (leases address t) = Polite t
Polite (accepts port k) = (b : Bool) → Polite (k b)
Polite (events sockno off received room acked k) =
    (sockno < tcp_sockets) × (off + room ≤ mtu) × ((c : TcpCode) → Polite (k c))
Polite (closes sockno t) = (sockno < tcp_sockets) × Polite t

-- A stack that is polite in each call, when it is given a packet that fits its buffer.
pub record IsPolite (s : Stack) : Type 0 where
  pub accept_polite : (h : s.Hip) (len : ℕ) → len ≤ mtu → Polite (s.accept_packet h len)
  pub ticks_polite : (h : s.Hip) (dt_ms : ℕ) → Polite (s.ticks h dt_ms)

-- Each hook returns and keeps a property of the firmware's state.
pub record Keeps {W : Type 0} (hooks : Hooks W) (P : W → Type 0) : Type 0 where
  pub write_keeps :
      (off : ℕ) (bytes : List ℕ) (w : W)
      → off + length bytes ≤ mtu
      → P w
      → Ensures P (hooks.write off bytes w)
  pub send_keeps : (len : ℕ) (w : W) → len ≤ mtu → P w → Ensures (λ r. P r.1) (hooks.send len w)
  pub lease_keeps : (address : ℕ) (w : W) → P w → P (hooks.lease address w)
  pub event_keeps :
      (sockno received room acked : ℕ) (w : W)
      → sockno < tcp_sockets
      → P w
      → Ensures (λ r. (length r.1 ≤ room) × P r.2) (hooks.event sockno received room acked w)
  pub close_keeps :
      (sockno : ℕ) (w : W) → sockno < tcp_sockets → P w → Ensures P (hooks.close sockno w)

module _ {H W : Type 0} (hooks : Hooks W) (P : W → Type 0) (k : Keeps hooks P) where
  pub run-Ensures : (t : Talk H) (w : W) → Polite t → P w → Ensures (λ r. P r.1) (run hooks t w)
  unfolding run
  run-Ensures (done h) w p v = v
  run-Ensures (reads next) w p v = run-Ensures (next (hooks.memory w)) w (p (hooks.memory w)) v
  run-Ensures (scribbles off bytes t) w p v =
      Ensures->>= P (λ r. P r.1) _ _ (k.write_keeps off bytes w p.0 v)
        λ w' v'. run-Ensures t w' p.1 v'
  run-Ensures (sends len next) w p v =
      Ensures->>= (λ r. P r.1) (λ r. P r.1) _ _ (k.send_keeps len w p.0 v)
        λ r v'. run-Ensures (next r.0) r.1 (p.1 r.0) v'
  run-Ensures (leases address t) w p v =
      run-Ensures t (hooks.lease address w) p (k.lease_keeps address w v)
  run-Ensures (accepts port next) w p v =
      run-Ensures (next (hooks.accept port)) w (p (hooks.accept port)) v
  run-Ensures (events sockno off received room acked next) w p v =
      Ensures->>= (λ r. (length r.1 ≤ room) × P r.2) (λ r. P r.1) _ _
        (k.event_keeps sockno received room acked w p.0 v)
        λ r h.
          Ensures->>= P (λ r'. P r'.1) _ _ (k.write_keeps off r.1 r.2 (omega (arith, h.0, p.1)) h.1)
            λ w₂ v₂. run-Ensures (next r.0) w₂ (p.2 r.0) v₂
  run-Ensures (closes sockno t) w p v =
      Ensures->>= P (λ r. P r.1) _ _ (k.close_keeps sockno w p.0 v) λ w' v'. run-Ensures t w' p.1 v'
