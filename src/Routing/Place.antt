-- ===== src/Routing/Place.antt =====
-- The place that `winot_routing_table_store` chooses lies in the table, and what a store leaves.
use ch32fun_wi_not_ap.Prelude.{List, arith, length-set, refl, suc, zero, ℕ, ◌+◌, ◌≡◌, ◌≤◌}
use ch32fun_wi_not_ap.Routing.{find_place, store}
use ch32fun_wi_not_ap.Node.{Node, clients_max}
use ch32fun_wi_not_ap.Node.Invariant.{Sizes}

pub find_place_bounds :
    (uuids times : List ℕ) (uuid rounds c idx : ℕ)
    → 1 ≤ c
    → c + rounds ≤ clients_max + 1
    → 1 ≤ idx
    → idx ≤ clients_max
    → (1 ≤ find_place uuids times uuid rounds c idx)
      × (find_place uuids times uuid rounds c idx ≤ clients_max)
unfolding find_place
find_place_bounds uuids times uuid zero c idx hc hr lo hi = (lo, hi)
find_place_bounds uuids times uuid (suc rounds) c idx hc hr lo hi = ground (
  arith,
  find_place_bounds uuids times uuid rounds (c + 1) c,
  find_place_bounds uuids times uuid rounds (c + 1) idx,
)

pub store_place : (uuid : ℕ) (n : Node) → (1 ≤ (store uuid n).0) × ((store uuid n).0 ≤ clients_max)
unfolding store
store_place uuid n =
    find_place_bounds n.datachannel n.last_activity uuid clients_max 1 1 (omega arith) (omega arith)
      (omega arith) (omega arith)

pub store-Sizes : (uuid : ℕ) (n : Node) → Sizes n → Sizes (store uuid n).1
unfolding store
store-Sizes uuid n z =
    let idx = find_place n.datachannel n.last_activity uuid clients_max 1 1 in
    omega (arith, length-set n.datachannel idx uuid, length-set n.last_activity idx n.tick)

pub store-rest :
    (uuid : ℕ) (n : Node)
    → ((store uuid n).1.role ≡ n.role)
      × ((store uuid n).1.state ≡ n.state)
      × ((store uuid n).1.data_buf ≡ n.data_buf)
      × ((store uuid n).1.data_len ≡ n.data_len)
      × ((store uuid n).1.uuid ≡ n.uuid)
unfolding store
store-rest uuid n = (refl, refl, refl, refl, refl)
