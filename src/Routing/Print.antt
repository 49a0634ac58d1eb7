-- ===== src/Routing/Print.antt =====
-- `winot_print_routing_table` stops at the first open place, and only there.
use ch32fun_wi_not_ap.Prelude.{
  ==_iff, Bool-cases, Ensures, Ensures->>=, Ensures-ne-none, List, [], arith, get_or, inl, inr, ltb,
  none, refl, suc, true, zero, ℕ, ◌+◌, ◌<◌, ◌==◌, ◌↔◌, ◌∷◌, ◌≡◌, ◌≢◌, ◌≤◌,
}
use ch32fun_wi_not_ap.Node.{Node, clients_max}
use ch32fun_wi_not_ap.Routing.{print_from, print_routing_table}

-- Every place of the table is in use.
abbrev pub IsFull : Node → Type 0
IsFull n = (c : ℕ) → 1 ≤ c → c ≤ clients_max → get_or n.datachannel c 0 ≢ 0

print_from-full : (fuel c : ℕ) (n : Node) → IsFull n → 1 ≤ c → print_from fuel c n ≡ none
unfolding print_from
print_from-full zero c n full h = refl
print_from-full (suc fuel) c n full h =
    ground (arith, full c h, print_from-full fuel (c + 1) n full)

-- The lines from place `c` on: those of the places in use before the first open one.
abbrev pub Lines : ℕ → Node → List (ℕ × ℕ) → Type 0
Lines c n [] = get_or n.datachannel c 0 ≡ 0
Lines c n ((channel, uuid) ∷ lines) =
    (channel ≡ c) × (uuid ≡ get_or n.datachannel c 0) × (uuid ≢ 0) × Lines (c + 1) n lines

print_from-Lines :
    (fuel c k : ℕ) (n : Node)
    → c ≤ k
    → k ≤ clients_max
    → k < c + fuel
    → get_or n.datachannel k 0 ≡ 0
    → Ensures (Lines c n) (print_from fuel c n)
unfolding print_from
print_from-Lines zero c k n lo hi f e = absurd (omega arith)
print_from-Lines (suc fuel) c k n lo hi f e =
    let inside : ltb c (clients_max + 1) ≡ true = ground arith in
    elim (Bool-cases (get_or n.datachannel c 0 == 0)) [
      | inl stop ↦ rw (inside, stop) ((==_iff (get_or n.datachannel c 0) 0).0 stop)
      | inr go ↦
          let more : c ≢ k = ground arith in
          let used : get_or n.datachannel c 0 ≢ 0 = ground arith in
          rw (inside, go)
            (Ensures->>= (Lines (c + 1) n) (Lines c n) (print_from fuel (c + 1) n) _
              (print_from-Lines fuel (c + 1) k n (omega arith) hi (omega arith) e)
              λ lines rest. (refl, refl, used, rest))
    ]

-- Where some place of the routing table is open, its printing returns, and prints the channel and
-- uuid of each place in use before the first open one, in order.
pub print_routing_table-Lines :
    (k : ℕ) (n : Node)
    → 1 ≤ k
    → k ≤ clients_max
    → get_or n.datachannel k 0 ≡ 0
    → Ensures (Lines 1 n) (print_routing_table n)
unfolding print_routing_table
print_routing_table-Lines k n lo hi e = print_from-Lines 33 1 k n lo hi (omega arith) e

-- The printing of the routing table leaves the table exactly when all 32 places are in use.
pub print_routing_table-faults_iff : (n : Node) → (print_routing_table n ≡ none) ↔ IsFull n
unfolding print_routing_table
print_routing_table-faults_iff n = (
  λ fault c lo hi e.
      Ensures-ne-none (Lines 1 n) (print_routing_table n) (print_routing_table-Lines c n lo hi e)
        fault,
  λ full. print_from-full 33 1 n full (omega arith),
)
