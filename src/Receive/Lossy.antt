-- ===== src/Receive/Lossy.antt =====
-- A burst of which the radio loses frames.
use mathlib.Core.Bool.{false≢true}
use ch32fun_wi_not_ap.Prelude.{
  zero, suc, refl, true, false, [], ◌∷◌, inl, inr, List, Bool, ℕ, ◌≡◌, length, ◌≤◌, ◌<◌, not, ltb,
  ◌&&◌, ◌==◌, ◌^◌, ◌+◌, ◌-◌, Ensures, arith, Bool-cases, ◌∙◌, ◌*◌, map, Ensures->>=, ==_iff, sym,
}
use ch32fun_wi_not_ap.Node.{Node, communicating, fragment_size, data_buf_size}
use ch32fun_wi_not_ap.Node.Invariant.{Inv}
use ch32fun_wi_not_ap.Memory.{Frame}
use ch32fun_wi_not_ap.Radio.Delivery.{Delivers}
use ch32fun_wi_not_ap.Receive.Reassembly.{fragment}
use ch32fun_wi_not_ap.Fragment.{tx_frame}
use ch32fun_wi_not_ap.Fragment.Marks.{marked, Missing, come-Missing, lost-Missing}
use ch32fun_wi_not_ap.Receive.{process_rx}
use ch32fun_wi_not_ap.Fragment.Burst.{frames_of, frames}
use ch32fun_wi_not_ap.Receive.RoundTrip.{receive_all, frames_of-done}
use ch32fun_wi_not_ap.Receive.Kept.{
  Ready, chunk_at, kept-Ready, frames-step, all_marked, length-chunk_at,
}

-- The frames that arrive: a `false` for each that is lost, and nothing for those behind the list.
unfoldable pub arrived : List Bool → List (List ℕ) → List (List ℕ)
arrived [] fs = fs
arrived (k ∷ ks) [] = []
arrived (true ∷ ks) (f ∷ fs) = f ∷ arrived ks fs
arrived (false ∷ ks) (f ∷ fs) = arrived ks fs

unfoldable pub is_lossy : List Bool → List (List ℕ) → Bool
is_lossy [] fs = false
is_lossy (k ∷ ks) [] = false
is_lossy (true ∷ ks) (f ∷ fs) = is_lossy ks fs
is_lossy (false ∷ ks) (f ∷ fs) = true

arrived-nil : (ks : List Bool) → arrived ks [] ≡ []
unfolding arrived
arrived-nil [] = refl
arrived-nil (k ∷ ks) = refl

nothing_lost : (ks : List Bool) → is_lossy ks [] ≡ false
unfolding is_lossy
nothing_lost [] = refl
nothing_lost (k ∷ ks) = refl

module _ (deliver : List ℕ → Frame) (ok : Delivers deliver) (bytes : List ℕ) (len : ℕ)
    (hb : len ≤ length bytes) (fits : len ≤ data_buf_size) where
  abbrev rest_after : ℕ → ℕ → List (List ℕ)
  rest_after fuel idx = frames_of fuel bytes len (idx * fragment_size) idx

  -- The fragments that have come are not all.
  pub NotAll : ℕ → ℕ → Type 0
  NotAll idx r =
      (not (ltb fragment_size (len - idx * fragment_size)) && (marked r idx == 2 ^ (idx + 1) - 1))
      ≡ false

  pub come-NotAll : (idx r : ℕ) → idx < 7 → Missing idx r → NotAll idx r
  unfolding NotAll
  come-NotAll idx r h m =
      let other : (marked r idx == 2 ^ (idx + 1) - 1) ≡ false =
        elim (Bool-cases (marked r idx == 2 ^ (idx + 1) - 1)) [
          | inr e ↦ e
          | inl e ↦
              absurd ((come-Missing idx r h m).1 ((==_iff (marked r idx) (2 ^ (idx + 1) - 1)).0 e))
        ] in
      rw other (ground arith)

  more_to_come : (idx r : ℕ) → ltb fragment_size (len - idx * fragment_size) ≡ true → NotAll idx r
  unfolding NotAll
  more_to_come idx r e = rw e refl

  pub one :
      (idx : ℕ) (n : Node)
      → idx * fragment_size < len
      → Ready n
      → NotAll idx n.fragments_received
      → Ensures
          (λ m. Ready m × (m.fragments_received ≡ marked n.fragments_received idx))
          (process_rx
            (deliver (tx_frame len (len - idx * fragment_size) idx (chunk_at bytes len idx)))
            n)
  unfolding fragment NotAll
  one idx n h v c =
      kept-Ready deliver ok len (len - idx * fragment_size) idx (chunk_at bytes len idx) n v.0 v.1
        (length-chunk_at bytes len idx hb) (omega arith) c

  -- With a fragment missing no later one completes the packet.
  incomplete-Ready :
      (fuel : ℕ) (ks : List Bool) (idx : ℕ) (n : Node)
      → Ready n
      → Missing idx n.fragments_received
      → Ensures Ready (receive_all (map deliver (arrived ks (rest_after fuel idx))) n)
  unfolding frames_of arrived receive_all fragment
  incomplete-Ready zero ks idx n v m = rw (arrived-nil ks) v
  incomplete-Ready (suc fuel) ks idx n v m = elim (Bool-cases (ltb (idx * fragment_size) len)) [
    | inr done ↦
        rw
          (
            frames_of-done (suc fuel) bytes len (idx * fragment_size) idx (ground arith),
            arrived-nil ks,
          )
          v
    | inl go ↦
        rw (frames-step fuel bytes len idx (ground arith))
          (next (λ ks' q. incomplete-Ready fuel ks' (idx + 1) q) ks (ground arith))
  ]
    where
      next :
          ((ks' : List Bool) (q : Node)
            → Ready q
            → Missing (idx + 1) q.fragments_received
            → Ensures Ready (receive_all (map deliver (arrived ks' (rest_after fuel (idx + 1)))) q))
          → (ks : List Bool) → idx * fragment_size < len
          → Ensures Ready (
              receive_all
                (map deliver (
                  arrived ks (
                    tx_frame len (len - idx * fragment_size) idx (chunk_at bytes len idx)
                    ∷ rest_after fuel (idx + 1))))
                n)
      next again [] h =
          Ensures->>= (λ q. Ready q × (q.fragments_received ≡ marked n.fragments_received idx))
            Ready _ _ (one idx n h v (come-NotAll idx n.fragments_received (omega arith) m))
            λ q g. again [] q g.0 (rw g.1 (come-Missing idx n.fragments_received (omega arith) m))
      next again (true ∷ ks) h =
          Ensures->>= (λ q. Ready q × (q.fragments_received ≡ marked n.fragments_received idx))
            Ready _ _ (one idx n h v (come-NotAll idx n.fragments_received (omega arith) m))
            λ q g. again ks q g.0 (rw g.1 (come-Missing idx n.fragments_received (omega arith) m))
      next again (false ∷ ks) h =
          again ks n v (lost-Missing idx n.fragments_received (omega arith) m.0)

  -- All fragments so far have come.
  lossy-Ready :
      (fuel : ℕ) (ks : List Bool) (idx : ℕ) (n : Node)
      → Ready n
      → (n.fragments_received < 2 ^ idx) × (n.fragments_received ≡ 2 ^ idx - 1)
      → is_lossy ks (rest_after fuel idx) ≡ true
      → Ensures Ready (receive_all (map deliver (arrived ks (rest_after fuel idx))) n)
  unfolding frames_of arrived receive_all fragment is_lossy
  lossy-Ready zero ks idx n v a l = absurd (false≢true (sym (nothing_lost ks) ∙ l))
  lossy-Ready (suc fuel) ks idx n v a l = elim (Bool-cases (ltb (idx * fragment_size) len)) [
    | inr done ↦
        let e : rest_after (suc fuel) idx ≡ [] =
          frames_of-done (suc fuel) bytes len (idx * fragment_size) idx (ground arith) in
        absurd (false≢true (sym (nothing_lost ks) ∙ (rw e at l)))
    | inl go ↦
        let e = frames-step fuel bytes len idx (ground arith) in
        rw e (next (λ ks' q. lossy-Ready fuel ks' (idx + 1) q) ks (ground arith) (rw e at l))
  ]
    where
      frame : List ℕ
      frame = tx_frame len (len - idx * fragment_size) idx (chunk_at bytes len idx)

      next :
          ((ks' : List Bool) (q : Node)
            → Ready q
            → (q.fragments_received < 2 ^ (idx + 1)) × (q.fragments_received ≡ 2 ^ (idx + 1) - 1)
            → is_lossy ks' (rest_after fuel (idx + 1)) ≡ true
            → Ensures Ready (receive_all (map deliver (arrived ks' (rest_after fuel (idx + 1)))) q))
          → (ks : List Bool) → idx * fragment_size < len
          → is_lossy ks (frame ∷ rest_after fuel (idx + 1)) ≡ true
          → Ensures Ready
              (receive_all (map deliver (arrived ks (frame ∷ rest_after fuel (idx + 1)))) n)
      next again [] h l = absurd (false≢true l)
      next again (true ∷ ks) h l =
          elim (Bool-cases (ltb fragment_size (len - idx * fragment_size))) [
            | inr last ↦
                let e : rest_after fuel (idx + 1) ≡ [] =
                  frames_of-done fuel bytes len ((idx + 1) * fragment_size) (idx + 1)
                    (ground arith) in
                absurd (false≢true (sym (nothing_lost ks) ∙ (rw e at l)))
            | inl more ↦
                Ensures->>=
                  (λ q. Ready q × (q.fragments_received ≡ marked n.fragments_received idx)) Ready _
                  _ (one idx n h v (more_to_come idx n.fragments_received more))
                  λ q g.
                    again ks q g.0 (rw g.1 (all_marked idx n.fragments_received (omega arith) a)) l
          ]
      next again (false ∷ ks) h l =
          incomplete-Ready fuel ks (idx + 1) n v
            (lost-Missing idx n.fragments_received (omega arith) a.0)

  -- A packet of at most 1715 bytes of which a frame was lost is not taken for complete: where a
  -- communicating node with the invariant, with no marks of fragments, handles the frames of the
  -- burst that arrive, in order, and at least one of them is missing, whichever and however many,
  -- the handler returns each time and the node communicates still, with the invariant and without
  -- a new packet.
  pub receive_all-lossy :
      (ks : List Bool) (r : Node)
      → Inv r
      → r.state ≡ communicating
      → r.fragments_received ≡ 0
      → is_lossy ks (frames bytes len) ≡ true
      → Ensures Ready (receive_all (map deliver (arrived ks (frames bytes len))) r)
  unfolding frames
  receive_all-lossy ks r v e none_yet l =
      lossy-Ready (len + 1) ks 0 r (v, e) (rw none_yet (omega arith, refl)) l
