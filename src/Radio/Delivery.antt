-- ===== src/Radio/Delivery.antt =====
-- The radio between two nodes: what a receiver finds in LLE_BUF of a frame that was transmitted. The
-- drivers are not part of the repository; README.md (section "Request channel communication", 5) says
-- that the length byte is the length of the sent buffer less 2.
use ch32fun_wi_not_ap.Prelude.{
  List, [], arith, get_or, if◌then◌else◌, length, refl, suc, ℕ, ◌+◌, ◌-◌, ◌<◌, ◌==◌, ◌∷◌, ◌≡◌, ◌≢◌,
  ◌≤◌,
}
use ch32fun_wi_not_ap.Memory.{Frame, copy}

-- A radio that delivers: the bytes arrive, and byte 1 holds the length less 2.
pub record Delivers (deliver : List ℕ → Frame) : Type 0 where
  pub counted : (b : List ℕ) → 2 ≤ length b → length b ≤ 257 → deliver b 1 ≡ length b - 2
  pub carried : (b : List ℕ) (i : ℕ) → i ≢ 1 → i < length b → deliver b i ≡ get_or b i 0

-- The bytes from `off` on are those of a list that the frame shows there.
pub copy-eq :
    (f : Frame) (off : ℕ) (xs : List ℕ)
    → ((i : ℕ) → i < length xs → f (off + i) ≡ get_or xs i 0)
    → copy f off (length xs) ≡ xs
unfolding copy get_or
copy-eq f off [] h = refl
copy-eq f off (x ∷ xs) h =
    let e : off + 0 ≡ off = omega arith in
    let first : f off ≡ x = rw e at (h 0 (omega arith)) in
    rw (
      first,
      copy-eq f (off + 1) xs (λ i hi.
          let s : off + 1 + i ≡ off + suc i = omega arith in rw s (h (suc i) (omega arith))),
    )

module _ (deliver : List ℕ → Frame) (ok : Delivers deliver) where
  pub payload-delivered :
      (a b c d : ℕ) (chunk : List ℕ)
      → copy (deliver (a ∷ b ∷ c ∷ d ∷ chunk)) 4 (length chunk) ≡ chunk
  unfolding get_or
  payload-delivered a b c d chunk = copy-eq (deliver (a ∷ b ∷ c ∷ d ∷ chunk)) 4 chunk λ i h.
      let s : 4 + i ≡ suc (suc (suc (suc i))) = omega arith in
      rw s
        (ok.carried (a ∷ b ∷ c ∷ d ∷ chunk) (suc (suc (suc (suc i)))) (omega arith) (omega arith))

-- A radio that copies the buffer and puts in the length.
abbrev pub plain_radio : List ℕ → Frame
plain_radio b i = if i == 1 then length b - 2 else get_or b i 0

pub plain_radio-Delivers : Delivers plain_radio
plain_radio-Delivers = record { counted = λ b lo hi. refl; carried = λ b i ne h. ground arith }
