-- ===== src/Receive/Kept.antt =====
-- What one fragment of a burst leaves of a node, and the frames of a burst one by one.
use ch32fun_wi_not_ap.Prelude.{
  refl, true, false, [], ◌∷◌, inl, inr, suc, List, ℕ, take, ◌*◌, ◌<◌, ◌≤◌, ◌≡◌, ◌^◌, length, ◌-◌,
  drop, ◌+◌, arith, not, ltb, length-take, ◌&&◌, Bool-cases, length-drop, ◌==◌, Ensures, ◌∙◌, sym,
  bit_and, Ensures-mono, Ensures-both,
}
use native.Mathlib.Nat.{mod-eq_of_lt}
use ch32fun_wi_not_ap.Node.{Node, fragment_size, communicating, is_newrx, fragmented, emit}
use ch32fun_wi_not_ap.Fragment.Burst.{frames_of, Sent, communicate-Sent}
use ch32fun_wi_not_ap.Node.Invariant.{Inv}
use ch32fun_wi_not_ap.Memory.{Frame}
use ch32fun_wi_not_ap.Radio.Delivery.{Delivers}
use ch32fun_wi_not_ap.Fragment.{chunk_size, tx_frame, finish_fragment, pdu_of}
use ch32fun_wi_not_ap.Receive.Reassembly.{
  stored, fragment, communicating-Inv, rx-fragment, no_overflow,
}
use ch32fun_wi_not_ap.Fragment.Marks.{
  marked, marked-high, lost-Missing, marked-low, marks-lt, pdu_lem,
}
use ch32fun_wi_not_ap.Receive.RoundTrip.{frames_of-done}
use ch32fun_wi_not_ap.Receive.{process_rx}
use ch32fun_wi_not_ap.Radio.{report_missing}
use ch32fun_wi_not_ap.Receive.Safety.{process_rx-Inv}

-- A node on its data channel, ready for more.
abbrev pub Ready : Node → Type 0
Ready m = Inv m × (m.state ≡ communicating)

module _ (deliver : List ℕ → Frame) (ok : Delivers deliver) where
  -- A fragment that is not the last, or the last while one is missing.
  pub kept-Ready :
      (len left idx : ℕ) (chunk : List ℕ) (n : Node)
      → Inv n
      → n.state ≡ communicating
      → length chunk ≤ fragment_size
      → idx < 7
      → (not (ltb fragment_size left) && (marked n.fragments_received idx == 2 ^ (idx + 1) - 1))
        ≡ false
      → Ensures
          (λ m. Ready m × (m.fragments_received ≡ marked n.fragments_received idx))
          (process_rx (fragment deliver ok len left idx chunk) n)
  unfolding stored finish_fragment
  kept-Ready len left idx chunk n v e h hi unfinished =
      let f = fragment deliver ok len left idx chunk in
      let m₀ = stored deliver ok idx chunk n in
      let not_new : is_newrx n.state ≡ false = rw e in
      let peer = communicating-Inv n v e in
      let pdu = pdu_lem left idx (omega arith) in
      let rest : Ensures
          (λ m.
            (m.state ≡ communicating) × (m.fragments_received ≡ marked n.fragments_received idx))
          (process_rx f n) =
        elim (Bool-cases (ltb fragment_size left)) [
          | inl more ↦
              let goes_on : (bit_and (pdu_of left idx) fragmented == 0) ≡ false =
                pdu.1 ∙ rw more refl in
              rw
                (
                  rx-fragment deliver ok len left idx chunk n e h hi,
                  finish_fragment,
                  goes_on,
                  not_new,
                )
                (Ensures-mono (λ m. Sent [] m₀ m × (m.state ≡ communicating)) _ _
                  (λ m g. (g.1, g.0.received_kept)) (communicate-Sent m₀ peer))
          | inr last ↦
              let ends : (bit_and (pdu_of left idx) fragmented == 0) ≡ true =
                pdu.1 ∙ rw last refl in
              let some_missing : (marked n.fragments_received idx == 2 ^ (idx + 1) - 1) ≡ false =
                rw last at unfinished in
              let m₁ = emit (report_missing (marked n.fragments_received idx)) m₀ in
              rw
                (
                  rx-fragment deliver ok len left idx chunk n e h hi,
                  finish_fragment,
                  ends,
                  some_missing,
                  not_new,
                )
                (Ensures-mono (λ m. Sent [] m₁ m × (m.state ≡ communicating)) _ _
                  (λ m g. (g.1, g.0.received_kept)) (communicate-Sent m₁ peer))
        ] in
      Ensures-mono
        (λ m.
          Inv m
          × ((m.state ≡ communicating) × (m.fragments_received ≡ marked n.fragments_received idx)))
        _ (process_rx f n) (λ m g. ((g.0, g.1.0), g.1.1))
        (Ensures-both Inv _ (process_rx f n) (process_rx-Inv f n v (no_overflow f n e)) rest)

abbrev pub chunk_at : List ℕ → ℕ → ℕ → List ℕ
chunk_at bytes len idx =
    take (chunk_size (len - idx * fragment_size)) (drop (idx * fragment_size) bytes)

-- The frame of fragment `idx`, and those behind it.
pub frames-step :
    (fuel : ℕ) (bytes : List ℕ) (len idx : ℕ)
    → idx * fragment_size < len
    → frames_of (suc fuel) bytes len (idx * fragment_size) idx
      ≡ tx_frame len (len - idx * fragment_size) idx (chunk_at bytes len idx)
        ∷ frames_of fuel bytes len ((idx + 1) * fragment_size) (idx + 1)
unfolding frames_of
frames-step fuel bytes len idx h =
    let go : ltb (idx * fragment_size) len ≡ true = ground arith in
    elim (Bool-cases (ltb fragment_size (len - idx * fragment_size))) [
      | inl more ↦
          let next : idx * fragment_size + fragment_size ≡ (idx + 1) * fragment_size =
            omega arith in
          rw (go, more, next) refl
      | inr last ↦
          let left = len - idx * fragment_size in
          let small : left ≤ fragment_size = ground arith in
          rw
            (
              go,
              last,
              frames_of-done fuel bytes len (idx * fragment_size + left) (idx + 1) (omega arith),
              frames_of-done fuel bytes len ((idx + 1) * fragment_size) (idx + 1) (omega arith),
            )
            refl
    ]

-- With all marks so far and its own, all marks are there.
pub all_marked :
    (idx r : ℕ)
    → idx < 7
    → (r < 2 ^ idx) × (r ≡ 2 ^ idx - 1)
    → (marked r idx < 2 ^ (idx + 1)) × (marked r idx ≡ 2 ^ (idx + 1) - 1)
all_marked idx r h a =
    let high =
      marked-high (idx + 1) idx r (omega arith) (omega arith) (lost-Missing idx r h a.0).0 in
    let low = marked-low idx r h (marks-lt idx r (omega arith) a.0) (mod-eq_of_lt a.0 ∙ a.1) in
    (high, sym (mod-eq_of_lt high) ∙ low)

pub length-chunk_at :
    (bytes : List ℕ) (len idx : ℕ)
    → len ≤ length bytes
    → length (chunk_at bytes len idx) ≤ fragment_size
length-chunk_at bytes len idx hb =
    let left = len - idx * fragment_size in
    let small : chunk_size left ≤ fragment_size = ground arith in
    let inside : chunk_size left ≤ left = ground arith in
    omega (
      arith,
      length-take (chunk_size left) (drop (idx * fragment_size) bytes),
      length-drop (idx * fragment_size) bytes,
      small,
      inside,
    )
