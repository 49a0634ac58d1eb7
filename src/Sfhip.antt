-- ===== src/Sfhip.antt =====
-- The IP stack sfhip.h as the firmwares use it. It is a copy of another project's code, so a call of
-- it is a parameter: what the stack does until it returns, as a tree of its calls of the firmware's
-- hooks and its accesses to the buffer that it was given (sfhip.h, "YOU MUST CALL" and "YOU MUST
-- IMPLEMENT").
pub mod Polite
pub mod Echo
use ch32fun_wi_not_ap.Prelude.{ℕ, some, none, ◌>>=◌, List, Option, Bool}
use ch32fun_wi_not_ap.Http.{TcpCode}

-- sizeof(sfhip_phy_packet_mtu) without a PHY header, the MAC header included.
abbrev pub mtu : ℕ
mtu = 1536

-- `H` is what the stack remembers between the calls.
pub data Talk (H : Type 0) : Type 0 where
  done : H → Talk H
  reads : (List ℕ → Talk H) → Talk H
  scribbles : ℕ → List ℕ → Talk H → Talk H
  -- `sfhip_send_packet(hip, data, length)`; `none` stands for -1.
  sends : ℕ → (Option ℕ → Talk H) → Talk H
  -- `sfhip_got_dhcp_lease`
  leases : ℕ → Talk H → Talk H
  -- `sfhip_tcp_accept_connection`
  accepts : ℕ → (Bool → Talk H) → Talk H
  -- `sfhip_tcp_event`: the socket, the payload's place in the buffer, what was received, how much
  -- there is room for, what was acknowledged.
  events : ℕ → ℕ → ℕ → ℕ → ℕ → (TcpCode → Talk H) → Talk H
  -- `sfhip_tcp_socket_closed`
  closes : ℕ → Talk H → Talk H

-- The stack between the calls: what `sfhip_accept_packet` and `sfhip_tick` do.
pub record Stack : Type 1 where
  pub Hip : Type 0
  pub accept_packet : Hip → ℕ → Talk Hip
  pub ticks : Hip → ℕ → Talk Hip

-- What a firmware in state `W` gives the stack: the memory of the buffer and the hooks. An event
-- leaves the bytes that it wrote at the payload's place.
pub record Hooks (W : Type 0) : Type 0 where
  pub memory : W → List ℕ
  pub write : ℕ → List ℕ → W → Option W
  pub send : ℕ → W → Option (Option ℕ × W)
  pub lease : ℕ → W → W
  pub accept : ℕ → Bool
  pub event : ℕ → ℕ → ℕ → ℕ → W → Option (TcpCode × List ℕ × W)
  pub close : ℕ → W → Option W

-- A call of the stack, with the firmware's hooks.
module _ {H W : Type 0} (hooks : Hooks W) where
  unfoldable pub run : Talk H → W → Option (H × W)
  run (done h) w = some (h, w)
  run (reads k) w = run (k (hooks.memory w)) w
  run (scribbles off bytes t) w = do w' ← hooks.write off bytes w; run t w'
  run (sends len k) w = do (res, w') ← hooks.send len w; run (k res) w'
  run (leases address t) w = run t (hooks.lease address w)
  run (accepts port k) w = run (k (hooks.accept port)) w
  run (events sockno off received room acked k) w = do
    (res, written, w₁) ← hooks.event sockno received room acked w
    w₂ ← hooks.write off written w₁
    run (k res) w₂
  run (closes sockno t) w = do w' ← hooks.close sockno w; run t w'
