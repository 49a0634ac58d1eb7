-- ===== src/Routing/Known.antt =====
-- A client that the routing table knows is found at its place.
use ch32fun_wi_not_ap.Prelude.{
  List, [], arith, get_or, length, refl, set, suc, zero, ℕ, ◌+◌, ◌<◌, ◌∷◌, ◌≡◌, ◌≢◌, ◌≤◌, ◌⊎◌,
}
use ch32fun_wi_not_ap.Routing.{find_place, store}
use ch32fun_wi_not_ap.Routing.Place.{store_place}
use ch32fun_wi_not_ap.Node.{Node, clients_max}
use ch32fun_wi_not_ap.Node.Invariant.{Sizes}

-- A table as `winot_routing_table_store` builds it: a place in use has a time other than 0 and an open one
-- has time 0; the first place is used first; behind two open places all are open.
pub record IsTable (uuids times : List ℕ) : Type 0 where
  pub used : (c : ℕ) → 1 ≤ c → get_or uuids c 0 ≢ 0 → get_or times c 0 ≢ 0
  pub unused : (c : ℕ) → 1 ≤ c → get_or uuids c 0 ≡ 0 → get_or times c 0 ≡ 0
  pub first : (c : ℕ) → 1 ≤ c → get_or uuids 1 0 ≡ 0 → get_or uuids c 0 ≡ 0
  pub behind :
      (a b c : ℕ)
      → 1 ≤ a
      → a < b
      → b < c
      → get_or uuids a 0 ≡ 0
      → get_or uuids b 0 ≡ 0
      → get_or uuids c 0 ≡ 0

module _ (uuids times : List ℕ) (t : IsTable uuids times) (uuid : ℕ) (real : uuid ≢ 0) where
  -- The search from `c` on, with a client at place `k` not passed yet: the place found so far is in use,
  -- or it is an open one that has been passed.
  find_place-known :
      (rounds c idx k : ℕ)
      → 1 ≤ c
      → c ≤ k
      → k < c + rounds
      → get_or uuids k 0 ≡ uuid
      → (get_or times idx 0 ≢ 0) ⊎ ((1 ≤ idx) × (idx < c) × (get_or uuids idx 0 ≡ 0))
      → get_or uuids (find_place uuids times uuid rounds c idx) 0 ≡ uuid
  unfolding find_place
  find_place-known zero c idx k hc lo hi at so = absurd (omega arith)
  find_place-known (suc rounds) c idx k hc lo hi at so = ground (
    arith,
    t.used c hc,
    t.unused idx,
    t.unused c hc,
    t.behind idx c k,
    find_place-known rounds (c + 1) c k,
    find_place-known rounds (c + 1) idx k,
  )

set-same : (xs : List ℕ) (i v : ℕ) → get_or xs i 0 ≡ v → i < length xs → set xs i v ≡ xs
unfolding set get_or
set-same [] i v e h = refl
set-same (x ∷ xs) zero v e h = rw e
set-same (x ∷ xs) (suc i) v e h = rw (set-same xs i v e (omega arith))

-- In a well-formed routing table a client with a nonzero uuid that stands at any place is found
-- again: the store returns a place that held this uuid, and the uuids of the table stay as they
-- are, so no second entry is made.
pub store-known :
    (uuid k : ℕ) (n : Node)
    → Sizes n
    → IsTable n.datachannel n.last_activity
    → uuid ≢ 0
    → 1 ≤ k
    → k ≤ clients_max
    → get_or n.datachannel k 0 ≡ uuid
    → (get_or n.datachannel (store uuid n).0 0 ≡ uuid)
      × ((store uuid n).1.datachannel ≡ n.datachannel)
unfolding store
store-known uuid k n z t real lo hi at =
    let place = find_place n.datachannel n.last_activity uuid clients_max 1 1 in
    let found =
      find_place-known n.datachannel n.last_activity t uuid real clients_max 1 1 k (omega arith)
        (omega arith) (omega arith) at start_used in
    (found, set-same n.datachannel place uuid found (omega (arith, store_place uuid n)))
  where
    start_used :
        (get_or n.last_activity 1 0 ≢ 0) ⊎ ((1 ≤ 1) × (1 < 1) × (get_or n.datachannel 1 0 ≡ 0))
    start_used = ground (arith, t.used 1 (omega arith), t.first k lo)
