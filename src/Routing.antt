-- ===== src/Routing.antt =====
-- The routing table of the access point: `winot_routing_table_store` and
-- `winot_print_routing_table`. The client on channel `c` has its uuid in `datachannel[c]` and the time
-- of its last activity in `last_activity[c]`, for c from 1 to WINOT_AP_CLIENTS_MAX.
pub mod Place
pub mod Known
pub mod Order
pub mod Print
pub mod Examples
use ch32fun_wi_not_ap.Prelude.{
  ℕ, zero, suc, ◌+◌, List, [], ◌∷◌, Option, none, some, ltb, ◌==◌, if◌then◌else◌, ◌>>=◌, get_or,
  set,
}
use ch32fun_wi_not_ap.Node.{Node, clients_max, entry}

-- The loop of `winot_routing_table_store` with `rounds` left, at index `c`: the client's own place,
-- or the place that has been quiet for longest up to an open one.
unfoldable pub find_place : List ℕ → List ℕ → ℕ → ℕ → ℕ → ℕ → ℕ
find_place uuids times uuid zero c idx = idx
find_place uuids times uuid (suc rounds) c idx =
    let older = find_place uuids times uuid rounds (c + 1) c in
    let same = find_place uuids times uuid rounds (c + 1) idx in
    if get_or uuids c 0 == uuid
    then c
    else if ltb (get_or times c 0) (get_or times idx 0)
    then older
    else if get_or uuids c 0 == 0
    then c
    else same

unfoldable pub store : ℕ → Node → ℕ × Node
store uuid n =
    let idx = find_place n.datachannel n.last_activity uuid clients_max 1 1 in
    (
      idx,
      record n {
        datachannel = set n.datachannel idx uuid;
        last_activity = set n.last_activity idx n.tick;
      },
    )

-- The lines that `winot_print_routing_table` prints, from index `c`: channel and uuid. The loop
-- reads on until it meets a zero, so it leaves the table when no place is open; `fuel` bounds it.
unfoldable pub print_from : ℕ → ℕ → Node → Option (List (ℕ × ℕ))
print_from zero c n = none
print_from (suc fuel) c n =
    let rest = print_from fuel (c + 1) n in
    do
      uuid ← entry n.datachannel c
      if uuid == 0 then some [] else (do lines ← rest; some ((c, uuid) ∷ lines))

unfoldable pub print_routing_table : Node → Option (List (ℕ × ℕ))
print_routing_table n = print_from (clients_max + 1) 1 n
