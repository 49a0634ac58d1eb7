-- ===== src/Receive/Late.antt =====
-- A packet of which the first frames are gone.
use native.Mathlib.Nat.{pow-suc, one-le-pow}
use ch32fun_wi_not_ap.Prelude.{
  drop, Ensures-mono, zero, suc, refl, inl, inr, List, ℕ, ◌≡◌, length, ◌≤◌, ◌<◌, ltb, ◌+◌, ◌-◌,
  Ensures, arith, Bool-cases, ◌*◌, map, Ensures->>=, Option,
}
use ch32fun_wi_not_ap.Node.{Node, fragment_size, data_buf_size}
use ch32fun_wi_not_ap.Node.Invariant.{advance-Inv}
use ch32fun_wi_not_ap.Memory.{Frame}
use ch32fun_wi_not_ap.Radio.Delivery.{Delivers}
use ch32fun_wi_not_ap.Fragment.{tx_frame}
use ch32fun_wi_not_ap.Fragment.Marks.{marked, Missing, come-Missing}
use ch32fun_wi_not_ap.Fragment.Burst.{frames_of, frames}
use ch32fun_wi_not_ap.Receive.RoundTrip.{frames_of-done, Lifts, each}
use ch32fun_wi_not_ap.Receive.Kept.{Ready, chunk_at, frames-step}
use ch32fun_wi_not_ap.Receive.Lossy.{come-NotAll, one}

none_marked : (k : ℕ) → 0 < k → Missing k 0
none_marked zero h = absurd (omega arith)
none_marked (suc k) h = (
  omega (arith, pow-suc 2 k, one-le-pow k 2 (omega arith)),
  λ e. omega (arith, e, pow-suc 2 k, one-le-pow k 2 (omega arith)),
)

module _ (deliver : List ℕ → Frame) (ok : Delivers deliver) (bytes : List ℕ) (len : ℕ)
    (hb : len ≤ length bytes) (fits : len ≤ data_buf_size) where
  abbrev rest_after : ℕ → ℕ → List (List ℕ)
  rest_after fuel idx = frames_of fuel bytes len (idx * fragment_size) idx

  module _ (P : Node → Type 0) (step : Frame → Node → Option Node) (lifts : Lifts P step) where
    Late : ℕ → Node → Type 0
    Late idx n = Ready n × Missing idx n.fragments_received

    each-Late :
        (idx : ℕ) (n : Node)
        → idx * fragment_size < len
        → Late idx n
        → P n
        → Ensures
            (λ m. Late (idx + 1) m × P m)
            (step
              (deliver (tx_frame len (len - idx * fragment_size) idx (chunk_at bytes len idx)))
              n)
    unfolding Late
    each-Late idx n h l p =
        lifts (Late (idx + 1)) _ n (λ dt m q. ((advance-Inv dt m q.0.0, q.0.1), q.1)) l.0.1 p
          (Ensures-mono (λ m. Ready m × (m.fragments_received ≡ marked n.fragments_received idx))
            (Late (idx + 1)) _
            (λ m q. (q.0, rw q.1 (come-Missing idx n.fragments_received (omega arith) l.1)))
            (one deliver ok bytes len hb fits idx n h l.0 (
              come-NotAll deliver ok bytes len hb fits idx n.fragments_received (omega arith) l.1)))

    -- The frames from the one with index `idx` on, with one before missing.
    pub each-late :
        (fuel idx : ℕ) (n : Node)
        → Ready n
        → Missing idx n.fragments_received
        → P n
        → Ensures (λ m. Ready m × P m) (each step (map deliver (rest_after fuel idx)) n)
    unfolding frames_of each Late
    each-late zero idx n v m p = (v, p)
    each-late (suc fuel) idx n v m p = elim (Bool-cases (ltb (idx * fragment_size) len)) [
      | inr done ↦
          rw (frames_of-done (suc fuel) bytes len (idx * fragment_size) idx (ground arith)) (v, p)
      | inl go ↦ rw (frames-step fuel bytes len idx (ground arith)) (
          Ensures->>= (λ q. Late (idx + 1) q × P q) (λ q. Ready q × P q) _ _
            (each-Late idx n (ground arith) (v, m) p)
            λ q l. each-late fuel (idx + 1) q l.0.0 l.0.1 l.1)
    ]

    -- What is left of the frames when `k` are gone.
    drop-rest : (k fuel idx : ℕ) → (j : ℕ) × (drop k (rest_after fuel idx) ≡ rest_after j (idx + k))
    unfolding frames_of drop
    drop-rest zero fuel idx = let same : idx + 0 ≡ idx = omega arith in (fuel, rw same refl)
    drop-rest (suc k) zero idx = (0, refl)
    drop-rest (suc k) (suc fuel) idx = elim (Bool-cases (ltb (idx * fragment_size) len)) [
      | inr done ↦ (
        0,
        rw (frames_of-done (suc fuel) bytes len (idx * fragment_size) idx (ground arith)) refl,
      )
      | inl go ↦
          let again = drop-rest k fuel (idx + 1) in
          let place : idx + suc k ≡ idx + 1 + k = omega arith in
          (again.0, rw (frames-step fuel bytes len idx (ground arith), place) again.1)
    ]

    -- The first frames of a packet are gone.
    pub each-cut :
        (k : ℕ) (n : Node)
        → 0 < k
        → Ready n
        → n.fragments_received ≡ 0
        → P n
        → Ensures (λ m. Ready m × P m) (each step (map deliver (drop k (frames bytes len))) n)
    unfolding frames
    each-cut k n pos v none_yet p =
        let left = drop-rest k (len + 1) 0 in
        let start : 0 + k ≡ k = omega arith in
        rw (left.1, start) (each-late left.0 k n v (rw none_yet (none_marked k pos)) p)
