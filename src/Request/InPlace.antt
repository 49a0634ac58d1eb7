-- ===== src/Request/InPlace.antt =====
-- A packet that stands in the packet buffer itself is sent as if it stood elsewhere.
use ch32fun_wi_not_ap.Prelude.{
  Bool-cases, List, [], append_assoc, arith, cong, drop, drop-set, get_or, inl, inr, length,
  length-set, length-take, ltb, set, some, suc, sym, take, take-append-drop, take-set, take-suc,
  zero, ℕ, ◌++◌, ◌+◌, ◌∙◌, ◌∷◌, ◌≡◌, ◌≤◌,
}
use ch32fun_wi_not_ap.Memory.{overwrite, write_at}
use ch32fun_wi_not_ap.Memory.Laws.{write_at-runs}
use ch32fun_wi_not_ap.Node.{Node, data_buf_size, fragment_size}
use ch32fun_wi_not_ap.Node.Invariant.{Sizes}
use ch32fun_wi_not_ap.Request.{
  fill_buf, move_up, outside, own, place_payload, request, request_channel, request_with_payload,
}
use ch32fun_wi_not_ap.Request.Safety.{IsBuf}

overwrite_nil : (buf : List ℕ) → 0 + 8 ≤ length buf → overwrite buf 8 (take 0 buf) ≡ buf
unfolding overwrite take
overwrite_nil buf h = take-append-drop 8 buf

-- A step of the loop leaves the bytes above its place alone.
overwrite-set :
    (i : ℕ) (buf : List ℕ)
    → suc i + 8 ≤ length buf
    → overwrite (set buf (i + 8) (get_or buf i 0)) 8 (take i buf)
      ≡ overwrite buf 8 (take (suc i) buf)
unfolding overwrite
overwrite-set i buf h =
    let v = get_or buf i 0 in
    let l : 8 + length (take i buf) ≡ i + 8 = omega (arith, length-take i buf) in
    let l' : 8 + length (take (suc i) buf) ≡ suc (i + 8) = omega (arith, length-take (suc i) buf) in
    let low : take 8 (set buf (i + 8) v) ≡ take 8 buf = take-set 8 (i + 8) v buf (omega arith) in
    let high : drop (i + 8) (set buf (i + 8) v) ≡ v ∷ drop (suc (i + 8)) buf =
      drop-set (i + 8) v buf (omega arith) in
    let top : take (suc i) buf ≡ take i buf ++ (v ∷ []) = take-suc i 0 buf (omega arith) in
    let whole : take i buf ++ (v ∷ drop (suc (i + 8)) buf)
        ≡ take (suc i) buf ++ drop (suc (i + 8)) buf =
      rw top (sym (append_assoc (take i buf) (v ∷ []) (drop (suc (i + 8)) buf))) in
    rw (l, l', low, high) (cong (λ (bytes : List ℕ). take 8 buf ++ bytes) whole)

-- The loop copies the bytes 8 places up, although the two places overlap.
move_up-overwrite :
    (i : ℕ) (buf : List ℕ) → i + 8 ≤ length buf → move_up i buf ≡ overwrite buf 8 (take i buf)
unfolding move_up
move_up-overwrite zero buf h = sym (overwrite_nil buf h)
move_up-overwrite (suc i) buf h =
    let buf' = set buf (i + 8) (get_or buf i 0) in
    let l : length buf' ≡ length buf = length-set buf (i + 8) (get_or buf i 0) in
    let kept : take i buf' ≡ take i buf = take-set i (i + 8) (get_or buf i 0) buf (omega arith) in
    let step : move_up i buf' ≡ overwrite buf' 8 (take i buf') =
      move_up-overwrite i buf' (omega (arith, l)) in
    step ∙ cong (overwrite buf' 8) kept ∙ overwrite-set i buf h

overwrite_self : (len : ℕ) (buf : List ℕ) → len ≤ length buf → overwrite buf 0 (take len buf) ≡ buf
unfolding overwrite take
overwrite_self len buf h =
    let e : 0 + length (take len buf) ≡ len = omega (arith, length-take len buf) in
    rw e (take-append-drop len buf)

channel-in_place :
    (len : ℕ) (n : Node)
    → Sizes n
    → len ≤ data_buf_size
    → request_channel (own len) n ≡ request_channel (outside (take len n.data_buf)) n
unfolding request_channel fill_buf
channel-in_place len n z h =
    let l : length (take len n.data_buf) ≡ len = omega (arith, length-take len n.data_buf) in
    let runs : write_at data_buf_size n.data_buf 0 (take len n.data_buf) ≡ some n.data_buf =
      write_at-runs data_buf_size n.data_buf 0 (take len n.data_buf) (omega arith)
      ∙ cong some (overwrite_self len n.data_buf (omega arith)) in
    rw (runs, l)

place_payload-in_place :
    (len : ℕ) (buf : List ℕ)
    → 8 + len ≤ data_buf_size
    → IsBuf buf
    → place_payload (own len) buf ≡ place_payload (outside (take len buf)) buf
unfolding place_payload
place_payload-in_place len buf h e =
    let l : length (take len buf) ≡ len = omega (arith, length-take len buf) in
    let runs : write_at data_buf_size buf 8 (take len buf) ≡ some (overwrite buf 8 (take len buf)) =
      write_at-runs data_buf_size buf 8 (take len buf) (omega arith) in
    cong some (move_up-overwrite len buf (omega arith)) ∙ sym runs

payload-in_place :
    (len : ℕ) (n : Node)
    → Sizes n
    → len ≤ fragment_size
    → request_with_payload (own len) n ≡ request_with_payload (outside (take len n.data_buf)) n
unfolding request_with_payload
payload-in_place len n z h =
    let l : length (take len n.data_buf) ≡ len = omega (arith, length-take len n.data_buf) in
    let placed = place_payload-in_place len n.data_buf (omega arith) z.buf_size in rw (l, placed)

-- On a node whose variables have their sizes, a request with a packet of at most 1715 bytes that
-- stands in the packet buffer itself gives the same node and the same calls of the radio as a
-- request with a copy of that packet: moving it up by eight places with overlapping ranges loses
-- no byte.
pub request-in_place :
    (len : ℕ) (n : Node)
    → Sizes n
    → len ≤ data_buf_size
    → request (own len) n ≡ request (outside (take len n.data_buf)) n
unfolding request
request-in_place len n z h =
    let l : length (take len n.data_buf) ≡ len = omega (arith, length-take len n.data_buf) in
    elim (Bool-cases (ltb fragment_size len)) [
      | inl big ↦ rw (l, big, channel-in_place len n z h)
      | inr small ↦ rw (l, small, payload-in_place len n z (ground arith))
    ]
