-- ===== src/Receive/Route.antt =====
-- The routing step of a request on the request channel.
use ch32fun_wi_not_ap.Prelude.{
  Bool, arith, false, get_or, get_or-set_self, if◌then◌else◌, length-set, refl, set, true, ℕ, ◌==◌,
  ◌||◌, ◌≡◌, ◌≢◌, ◌≤◌,
}
use ch32fun_wi_not_ap.Receive.{route_request}
use ch32fun_wi_not_ap.Node.{Node, active_channel, ap_channel, set_active_channel, clients_max}
use ch32fun_wi_not_ap.Memory.{Frame, load_word}
use ch32fun_wi_not_ap.Node.Invariant.{Sizes, is_client_channel, active-set}
use ch32fun_wi_not_ap.Routing.{store}
use ch32fun_wi_not_ap.Routing.Place.{store-Sizes, store_place, store-rest}

-- The request's channel is that of a client, or none; for the side channel it is none.
pub record Routed (f : Frame) (n m : Node) : Type 0 where
  pub sizes : Sizes m
  pub role_kept : m.role ≡ n.role
  pub state_kept : m.state ≡ n.state
  pub buf_kept : m.data_buf ≡ n.data_buf
  pub len_kept : m.data_len ≡ n.data_len
  pub uuid_kept : m.uuid ≡ n.uuid
  pub channel : ((active_channel m == ap_channel) || is_client_channel (active_channel m)) ≡ true
  pub sidechannel : f 2 ≢ 0 → active_channel m ≡ ap_channel

route_to : Bool → ℕ → Node → Node
route_to b idx n =
    if b then set_active_channel ap_channel (set_active_channel idx n) else set_active_channel idx n

route_to-Routed :
    (f : Frame) (n n' : Node) (b : Bool) (idx : ℕ)
    → Sizes n'
    → (1 ≤ idx) × (idx ≤ clients_max)
    → (n'.role ≡ n.role)
      × (n'.state ≡ n.state)
      × (n'.data_buf ≡ n.data_buf)
      × (n'.data_len ≡ n.data_len)
      × (n'.uuid ≡ n.uuid)
    → (b ≡ false → f 2 ≡ 0)
    → Routed f n (route_to b idx n')
unfolding route_to
route_to-Routed f n n' true idx z i k h =
    let e : get_or (set (set n'.datachannel 0 idx) 0 35) 0 0 ≡ 35 =
      get_or-set_self (set n'.datachannel 0 idx) 0 35 0
        (omega (arith, length-set n'.datachannel 0 idx)) in
    record {
      sizes =
          omega
            (arith, length-set n'.datachannel 0 idx, length-set (set n'.datachannel 0 idx) 0 35);
      role_kept = k.0;
      state_kept = k.1;
      buf_kept = k.2;
      len_kept = k.3;
      uuid_kept = k.4;
      channel = rw e;
      sidechannel = λ _. e;
    }
route_to-Routed f n n' false idx z i k h =
    let e : get_or (set n'.datachannel 0 idx) 0 0 ≡ idx = active-set n' idx z in
    record {
      sizes = omega (arith, length-set n'.datachannel 0 idx);
      role_kept = k.0;
      state_kept = k.1;
      buf_kept = k.2;
      len_kept = k.3;
      uuid_kept = k.4;
      channel = rw e (ground arith);
      sidechannel = λ s. absurd (s (h refl));
    }

pub route_request-Routed : (f : Frame) (n : Node) → Sizes n → Routed f n (route_request f n)
unfolding route_request route_to
route_request-Routed f n z =
    route_to-Routed f n (store (load_word f 4) n).1 _ (store (load_word f 4) n).0
      (store-Sizes (load_word f 4) n z) (store_place (load_word f 4) n)
      (store-rest (load_word f 4) n) (ground arith)
