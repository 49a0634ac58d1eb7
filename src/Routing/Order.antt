-- ===== src/Routing/Order.antt =====
-- Which place a new client gets, and that the table stays as the search needs it.
use ch32fun_wi_not_ap.Prelude.{
  Bool-cases, List, arith, get_or, get_or-set_ne, get_or-set_self, if◌then◌else◌, inl, inr, length,
  set, suc, zero, ℕ, ◌+◌, ◌<◌, ◌==◌, ◌≡◌, ◌≢◌, ◌≤◌, ◌⊎◌,
}
use ch32fun_wi_not_ap.Node.{Node, clients_max}
use ch32fun_wi_not_ap.Routing.{find_place, store}
use ch32fun_wi_not_ap.Routing.Known.{IsTable}
use ch32fun_wi_not_ap.Node.Invariant.{Sizes}
use ch32fun_wi_not_ap.Routing.Place.{store_place}

-- In a table with no open place and without the client, nothing has been quiet for longer than the
-- place found.
find_place-oldest :
    (uuids times : List ℕ) (uuid j : ℕ)
    → ((i : ℕ) → 1 ≤ i → i ≤ clients_max → (get_or uuids i 0 ≢ 0) × (get_or uuids i 0 ≢ uuid))
    → (rounds c idx : ℕ) → 1 ≤ c
    → c + rounds ≡ clients_max + 1
    → 1 ≤ j
    → j ≤ clients_max
    → (c ≤ j) ⊎ (get_or times idx 0 ≤ get_or times j 0)
    → get_or times (find_place uuids times uuid rounds c idx) 0 ≤ get_or times j 0
unfolding find_place
find_place-oldest uuids times uuid j full zero c idx hc hr lo hi so = ground arith
find_place-oldest uuids times uuid j full (suc rounds) c idx hc hr lo hi so = ground (
  arith,
  full c hc (omega arith),
  find_place-oldest uuids times uuid j full rounds (c + 1) c,
  find_place-oldest uuids times uuid j full rounds (c + 1) idx,
)

-- The search does not pass a second open place.
find_place-behind :
    (uuids times : List ℕ) (uuid a b : ℕ)
    → IsTable uuids times
    → 1 ≤ a
    → a < b
    → get_or uuids a 0 ≡ 0
    → get_or uuids b 0 ≡ 0
    → (rounds c idx : ℕ) → 1 ≤ c
    → (c ≤ a) ⊎ (idx ≡ a)
    → (c ≤ b) ⊎ (idx ≡ b)
    → idx ≤ c
    → (find_place uuids times uuid rounds c idx ≤ b)
      ⊎ (get_or uuids (find_place uuids times uuid rounds c idx) 0 ≡ uuid)
unfolding find_place
find_place-behind uuids times uuid a b t ha hab oa ob zero c idx hc sa sb hi = ground arith
find_place-behind uuids times uuid a b t ha hab oa ob (suc rounds) c idx hc sa sb hi = ground (
  arith,
  t.unused a ha oa,
  t.unused b (omega arith) ob,
  t.unused c hc,
  find_place-behind uuids times uuid a b t ha hab oa ob rounds (c + 1) c,
  find_place-behind uuids times uuid a b t ha hab oa ob rounds (c + 1) idx,
)

-- In a routing table whose 32 places are all used by other clients, the place that a new client
-- gets has the earliest time of activity.
pub store-oldest :
    (uuid j : ℕ) (n : Node)
    → ((i : ℕ)
        → 1 ≤ i
        → i ≤ clients_max
        → (get_or n.datachannel i 0 ≢ 0) × (get_or n.datachannel i 0 ≢ uuid))
    → 1 ≤ j
    → j ≤ clients_max
    → get_or n.last_activity (store uuid n).0 0 ≤ get_or n.last_activity j 0
unfolding store
store-oldest uuid j n full lo hi =
    find_place-oldest n.datachannel n.last_activity uuid j full clients_max 1 1 (omega arith)
      (omega arith) lo hi (omega arith)

-- The place found, and what the search has passed on the way to it.
place-behind :
    (uuid a b : ℕ) (n : Node)
    → IsTable n.datachannel n.last_activity
    → 1 ≤ a
    → a < b
    → get_or n.datachannel a 0 ≡ 0
    → get_or n.datachannel b 0 ≡ 0
    → ((store uuid n).0 ≤ b) ⊎ (get_or n.datachannel (store uuid n).0 0 ≡ uuid)
unfolding store
place-behind uuid a b n t ha hab oa ob =
    find_place-behind n.datachannel n.last_activity uuid a b t ha hab oa ob clients_max 1 1
      (omega arith) (omega arith) (omega arith) (omega arith)

get_or-set :
    (xs : List ℕ) (i j v : ℕ)
    → i < length xs
    → get_or (set xs i v) j 0 ≡ (if i == j then v else get_or xs j 0)
get_or-set xs i j v h = elim (Bool-cases (i == j)) [
  | inl e ↦ let same : i ≡ j = ground arith in rw (e, ← same) (get_or-set_self xs i v 0 h)
  | inr e ↦ rw e (get_or-set_ne xs i j v 0 (ground arith))
]

find_place-first :
    (uuids times : List ℕ) (uuid rounds : ℕ)
    → get_or uuids 1 0 ≡ 0
    → find_place uuids times uuid (suc rounds) 1 1 ≡ 1
unfolding find_place
find_place-first uuids times uuid rounds e = ground arith

-- In a table that nobody uses the first place is found.
place-first : (uuid : ℕ) (n : Node) → get_or n.datachannel 1 0 ≡ 0 → (store uuid n).0 ≡ 1
unfolding store
place-first uuid n e = find_place-first n.datachannel n.last_activity uuid 31 e

-- The table after a store.
pub uuids-store :
    (uuid j : ℕ) (n : Node)
    → Sizes n
    → get_or (store uuid n).1.datachannel j 0
      ≡ (if (store uuid n).0 == j then uuid else get_or n.datachannel j 0)
unfolding store
uuids-store uuid j n z =
    get_or-set n.datachannel _ j uuid (omega (arith, store_place uuid n, z.uuids_size))

pub times-store :
    (uuid j : ℕ) (n : Node)
    → Sizes n
    → get_or (store uuid n).1.last_activity j 0
      ≡ (if (store uuid n).0 == j then n.tick else get_or n.last_activity j 0)
unfolding store
times-store uuid j n z =
    get_or-set n.last_activity _ j n.tick (omega (arith, store_place uuid n, z.times_size))

-- A store of a client with a nonzero uuid at a nonzero time keeps the routing table well-formed:
-- used places have a time, open ones none, the first place is used first, and behind two open
-- places all are open.
pub store-IsTable :
    (uuid : ℕ) (n : Node)
    → Sizes n
    → IsTable n.datachannel n.last_activity
    → uuid ≢ 0
    → n.tick ≢ 0
    → IsTable (store uuid n).1.datachannel (store uuid n).1.last_activity
store-IsTable uuid n z t real late = record {
  used = λ c lo h. ground (arith, uuids-store uuid c n z, times-store uuid c n z, t.used c lo);
  unused = λ c h e. ground (arith, uuids-store uuid c n z, times-store uuid c n z, t.unused c h);
  first = λ c h e.
      ground
        (arith, uuids-store uuid 1 n z, uuids-store uuid c n z, t.first c h, place-first uuid n);
  behind = λ a b c ha hb hc ea eb. ground (
    arith,
    uuids-store uuid a n z,
    uuids-store uuid b n z,
    uuids-store uuid c n z,
    t.behind a b c ha hb hc,
    place-behind uuid a b n t ha hb,
  );
}

-- A store returns a place from 1 to 32, writes the client's uuid and the time of now there, and
-- leaves every other place as it was.
pub store_lem :
    (uuid j : ℕ) (n : Node)
    → Sizes n
    → let (place, m) = store uuid n in
      (1 ≤ place)
      × (place ≤ clients_max)
      × (get_or m.datachannel j 0 ≡ (if place == j then uuid else get_or n.datachannel j 0))
      × (get_or m.last_activity j 0 ≡ (if place == j then n.tick else get_or n.last_activity j 0))
store_lem uuid j n z =
    ((store_place uuid n).0, (store_place uuid n).1, uuids-store uuid j n z, times-store uuid j n z)
