-- ===== src/Usb/Out/Whole.antt =====
-- A packet reaches the host whole when the driver is never busy twice in a row.
use ch32fun_wi_not_ap.Prelude.{
  ℕ, [], some, refl, zero, suc, ◌∷◌, List, Option, ◌≡◌, ◌<◌, true, ◌++◌, false, ◌≤◌, ◌+◌,
  Bool-cases, length, Ensures, inr, join, inl, take, ◌-◌, drop, append-nil, if◌then◌else◌, arith,
  ltb, ltb→lt, take-add, join-append, drop-drop, Ensures-mono, ◌∙◌, append_assoc,
}
use ch32fun_wi_not_ap.Usb.Out.{
  send_loop, Driver, is_busy, Wire, send_part, send_endpoint, usb_send_packet,
}
use ch32fun_wi_not_ap.Memory.Laws.{slice-runs}

-- After a refusal the driver takes what comes next.
abbrev pub Recovers : Driver → Type 0
Recovers answers = (n : ℕ) → is_busy (answers n) ≡ true → is_busy (answers (n + 1)) ≡ false

-- A part that goes out: one more is taken, and a result that was not -1 stays so.
record Went (part : List ℕ) (w : Wire) (r : Option ℕ × Wire) : Type 0 where
  took : r.1.taken ≡ w.taken ++ (part ∷ [])
  fine : is_busy r.0 ≡ false

take_none : (xs : List ℕ) → take 0 xs ≡ []
unfolding take
take_none xs = refl

join_one : (xs : List ℕ) → join (xs ∷ []) ≡ xs
unfolding join
join_one xs = append-nil xs

-- The size of the next part.
abbrev part_size : ℕ → ℕ → ℕ
part_size packet_size left = if ltb packet_size left then packet_size else left

part_size-le : (packet_size left : ℕ) → part_size packet_size left ≤ left
part_size-le packet_size left = ground arith

part_rest :
    (k : ℕ) (bytes : List ℕ) (len i : ℕ)
    → take (part_size k (len - i)) (drop i bytes) ++ take (len - (i + k)) (drop (i + k) bytes)
      ≡ take (len - i) (drop i bytes)
part_rest k bytes len i = elim (Bool-cases (ltb k (len - i))) [
  | inl more ↦
      let less : k < len - i = ltb→lt k (len - i) more in
      let e : len - i ≡ k + (len - (i + k)) = omega arith in
      rw (more, e, take-add k (len - (i + k)) (drop i bytes), drop-drop i k bytes)
  | inr last ↦
      let all : len - i ≤ k = ground arith in
      let e : len - (i + k) ≡ 0 = omega arith in
      rw (last, e, take_none (drop (i + k) bytes), append-nil (take (len - i) (drop i bytes)))
]

module _ (answers : Driver) (recovers : Recovers answers) where
  send_part-Went :
      (part : List ℕ) (res : Option ℕ) (w : Wire)
      → is_busy res ≡ false
      → Went part w (send_part answers part res w)
  unfolding send_part send_endpoint
  send_part-Went part res w fine = elim (Bool-cases (is_busy (answers w.attempts))) [
    | inr free ↦ rw free (record { took = refl; fine = fine })
    | inl busy ↦
        let next : is_busy (answers (w.attempts + 1)) ≡ false = recovers w.attempts busy in
        rw (busy, next) (record { took = refl; fine = next })
  ]

  -- What is left to send, from byte `i` on.
  send_loop-whole :
      (packet_size fuel : ℕ) (bytes : List ℕ) (len i : ℕ) (res : Option ℕ) (w : Wire)
      → 0 < packet_size
      → len ≤ length bytes
      → len ≤ i + fuel
      → is_busy res ≡ false
      → Ensures
          (λ r.
            (join r.1.taken ≡ join w.taken ++ take (len - i) (drop i bytes))
            × (is_busy r.0 ≡ false))
          (send_loop packet_size answers fuel bytes len i res w)
  unfolding send_loop
  send_loop-whole packet_size zero bytes len i res w k l f fine =
      let e : len - i ≡ 0 = omega arith in
      let nothing : take (len - i) (drop i bytes) ≡ [] = rw e (take_none (drop i bytes)) in
      (rw (nothing, append-nil (join w.taken)), fine)
  send_loop-whole packet_size (suc fuel) bytes len i res w k l f fine =
      elim (Bool-cases (ltb i len)) [
        | inr end ↦
            let past : len ≤ i = ground arith in
            let e : len - i ≡ 0 = omega arith in
            let nothing : take (len - i) (drop i bytes) ≡ [] = rw e (take_none (drop i bytes)) in
            rw end (rw (nothing, append-nil (join w.taken)), fine)
        | inl more ↦
            let m = part_size packet_size (len - i) in
            let part = take m (drop i bytes) in
            let small : m ≤ len - i = part_size-le packet_size (len - i) in
            let w' = (send_part answers part res w).1 in
            let went = send_part-Went part res w fine in
            let below : i < len = ltb→lt i len more in
            let so_far : join w'.taken ≡ join w.taken ++ part =
              rw (went.took, join-append w.taken (part ∷ []), join_one part) in
            rw (more, slice-runs bytes i m (omega arith))
              (Ensures-mono
                (λ r.
                  (join r.1.taken
                    ≡ join w'.taken
                      ++ take (len - (i + packet_size)) (drop (i + packet_size) bytes))
                  × (is_busy r.0 ≡ false))
                _ _
                (λ r h. (
                  h.0
                      ∙ rw (
                        so_far,
                        append_assoc (join w.taken) part
                            (take (len - (i + packet_size)) (drop (i + packet_size) bytes)),
                        part_rest packet_size bytes len i,
                      ),
                  h.1,
                ))
                (send_loop-whole packet_size fuel bytes len (i + packet_size)
                  (send_part answers part res w).0 w' k l (omega arith) went.fine))
      ]

  -- With a driver that is not busy twice in a row and parts of at least a byte, sending the first
  -- len bytes of a buffer to the host returns, the parts that the driver took make up these bytes
  -- in order with none twice, and the result is not -1.
  pub usb_send_packet-whole :
      (packet_size : ℕ) (bytes : List ℕ) (len : ℕ) (w : Wire)
      → 0 < packet_size
      → len ≤ length bytes
      → Ensures
          (λ r. (join r.1.taken ≡ join w.taken ++ take len bytes) × (is_busy r.0 ≡ false))
          (usb_send_packet packet_size answers bytes len w)
  unfolding usb_send_packet drop
  usb_send_packet-whole packet_size bytes len w k l =
      let e : len - 0 ≡ len = omega arith in
      rw e at (send_loop-whole packet_size len bytes len 0 (some len) w k l (omega arith) refl)
