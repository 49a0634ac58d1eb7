-- ===== src/Routing/Examples.antt =====
-- The theorems on the routing table at a concrete table: two clients, on channels 1 and 3.
use ch32fun_wi_not_ap.Prelude.{
  Ensures, arith, get_or, if◌then◌else◌, inl, inr, length-replicate, none, refl, replicate, suc,
  zero, ℕ, ◌<◌, ◌==◌, ◌↔◌, ◌∷◌, ◌≡◌, ◌≢◌, ◌≤◌, ◌⊎◌,
}
use ch32fun_wi_not_ap.Node.{Node, ap, clients_max, power_on}
use ch32fun_wi_not_ap.Node.Invariant.{Sizes, power_on-Sizes}
use ch32fun_wi_not_ap.Routing.{find_place, print_routing_table, store}
use ch32fun_wi_not_ap.Routing.Known.{IsTable, store-known}
use ch32fun_wi_not_ap.Routing.Order.{store-IsTable, store-oldest, store_lem}
use ch32fun_wi_not_ap.Routing.Print.{
  IsFull, Lines, print_routing_table-Lines, print_routing_table-faults_iff,
}

-- The table of an access point that client 11 asked at 5 ms and client 12 at 9 ms.
abbrev two_clients : Node
two_clients = record (power_on 7) {
  role = ap;
  datachannel = 35 ∷ 11 ∷ 0 ∷ 12 ∷ replicate 29 0;
  last_activity = 0 ∷ 5 ∷ 0 ∷ 9 ∷ replicate 29 0;
  tick = 20;
}

two_clients-Sizes : Sizes two_clients
two_clients-Sizes =
    let z = power_on-Sizes 7 in omega (arith, z.buf_size, length-replicate 29 (zero))

-- Client 11 is moved to its place by nobody, and a new client goes to channel 4.
places :
    ((store 11 two_clients).0 ≡ 1) × ((store 12 two_clients).0 ≡ 3) × ((store 13 two_clients).0 ≡ 4)
unfolding store find_place get_or replicate
places = (refl, refl, refl)

get_or-replicate : (n i : ℕ) → get_or (replicate n (zero)) i 0 ≡ 0
unfolding get_or replicate
get_or-replicate zero i = refl
get_or-replicate (suc n) zero = refl
get_or-replicate (suc n) (suc i) = get_or-replicate n i

abbrev uuid_at : ℕ → ℕ
uuid_at c = get_or two_clients.datachannel c 0

abbrev time_at : ℕ → ℕ
time_at c = get_or two_clients.last_activity c 0

used_at : (c : ℕ) → 1 ≤ c → uuid_at c ≢ 0 → time_at c ≢ 0
unfolding get_or
used_at zero h u e = absurd (omega arith)
used_at (suc zero) h u e = cc
used_at (suc (suc zero)) h u e = u refl
used_at (suc (suc (suc zero))) h u e = cc
used_at (suc (suc (suc (suc c)))) h u e = u (get_or-replicate 29 c)

unused_at : (c : ℕ) → 1 ≤ c → uuid_at c ≡ 0 → time_at c ≡ 0
unfolding get_or
unused_at zero h u = absurd (omega arith)
unused_at (suc zero) h u = cc
unused_at (suc (suc zero)) h u = refl
unused_at (suc (suc (suc zero))) h u = cc
unused_at (suc (suc (suc (suc c)))) h u = get_or-replicate 29 c

open_at : (c : ℕ) → 1 ≤ c → uuid_at c ≡ 0 → (c ≡ 2) ⊎ (4 ≤ c)
unfolding get_or
open_at zero h u = absurd (omega arith)
open_at (suc zero) h u = cc
open_at (suc (suc zero)) h u = inl refl
open_at (suc (suc (suc zero))) h u = cc
open_at (suc (suc (suc (suc c)))) h u = inr (omega arith)

far_open : (c : ℕ) → 4 ≤ c → uuid_at c ≡ 0
unfolding get_or
far_open (suc (suc (suc (suc c)))) h = get_or-replicate 29 c
far_open zero h = absurd (omega arith)
far_open (suc zero) h = absurd (omega arith)
far_open (suc (suc zero)) h = absurd (omega arith)
far_open (suc (suc (suc zero))) h = absurd (omega arith)

two_clients-IsTable : IsTable two_clients.datachannel two_clients.last_activity
two_clients-IsTable = record {
  used = used_at;
  unused = unused_at;
  first = λ c h e. absurd (omega (arith, open_at 1 (omega arith) e));
  behind = λ a b c ha hb hc ea eb.
      far_open c (omega (arith, open_at a ha ea, open_at b (omega arith) eb));
}

store_lem_example :
    let (place, m) = store 13 two_clients in
    (1 ≤ place)
    × (place ≤ clients_max)
    × (get_or m.datachannel 4 0 ≡ (if place == 4 then 13 else get_or two_clients.datachannel 4 0))
    × (get_or m.last_activity 4 0
        ≡ (if place == 4 then 20 else get_or two_clients.last_activity 4 0))
store_lem_example = store_lem 13 4 two_clients two_clients-Sizes

store-known_example :
    (get_or two_clients.datachannel (store 12 two_clients).0 0 ≡ 12)
    × ((store 12 two_clients).1.datachannel ≡ two_clients.datachannel)
unfolding get_or
store-known_example =
    store-known 12 3 two_clients two_clients-Sizes two_clients-IsTable (omega arith) (omega arith)
      (omega arith) refl

store-IsTable_example :
    IsTable (store 13 two_clients).1.datachannel (store 13 two_clients).1.last_activity
store-IsTable_example =
    store-IsTable 13 two_clients two_clients-Sizes two_clients-IsTable (omega arith) (omega arith)

-- A table in which every place is in use, by client 11 from 5 ms on.
abbrev crowded : Node
crowded = record (power_on 7) { datachannel = replicate 33 11; last_activity = replicate 33 5 }

get_or-replicate_at : (n i v : ℕ) → i < n → get_or (replicate n v) i 0 ≡ v
unfolding get_or replicate
get_or-replicate_at zero i v h = absurd (omega arith)
get_or-replicate_at (suc n) zero v h = refl
get_or-replicate_at (suc n) (suc i) v h = get_or-replicate_at n i v (omega arith)

store-oldest_example :
    get_or crowded.last_activity (store 12 crowded).0 0 ≤ get_or crowded.last_activity 9 0
store-oldest_example =
    store-oldest 12 9 crowded
      (λ i lo hi.
        let e = get_or-replicate_at 33 i 11 (omega arith) in (omega (arith, e), omega (arith, e)))
      (omega arith) (omega arith)

print_routing_table-faults_iff_example : (print_routing_table crowded ≡ none) ↔ IsFull crowded
print_routing_table-faults_iff_example = print_routing_table-faults_iff crowded

print_routing_table-Lines_example : Ensures (Lines 1 two_clients) (print_routing_table two_clients)
unfolding get_or
print_routing_table-Lines_example =
    print_routing_table-Lines 2 two_clients (omega arith) (omega arith) refl
