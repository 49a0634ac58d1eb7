-- ===== src/Node/Destination.antt =====
-- The destination of a packet, in its first six bytes.
use ch32fun_wi_not_ap.Prelude.{
  refl, zero, suc, [], ◌∷◌, List, ℕ, ◌<◌, ◌≤◌, ◌≡◌, get_or, take, arith, sym, ◌∙◌, cong,
}
use ch32fun_wi_not_ap.Node.{dest_uuid}
use ch32fun_wi_not_ap.Memory.{load_word}

get_or-take : (xs : List ℕ) (n i : ℕ) → i < n → get_or (take n xs) i 0 ≡ get_or xs i 0
unfolding get_or take
get_or-take xs zero i h = absurd (omega arith)
get_or-take [] (suc n) i h = refl
get_or-take (x ∷ xs) (suc n) zero h = refl
get_or-take (x ∷ xs) (suc n) (suc i) h = get_or-take xs n i (omega arith)

-- The destination stands in the first six bytes.
pub dest_uuid-take : (xs : List ℕ) (n : ℕ) → 6 ≤ n → dest_uuid (take n xs) ≡ dest_uuid xs
unfolding dest_uuid load_word
dest_uuid-take xs n h = omega (
  arith,
  get_or-take xs n 2 (omega arith),
  get_or-take xs n 3 (omega arith),
  get_or-take xs n 4 (omega arith),
  get_or-take xs n 5 (omega arith),
)

-- Packets with the same bytes have the same destination.
pub dest_uuid-same :
    (xs ys : List ℕ) (n : ℕ) → 6 ≤ n → take n xs ≡ take n ys → dest_uuid xs ≡ dest_uuid ys
dest_uuid-same xs ys n h e = sym (dest_uuid-take xs n h) ∙ cong dest_uuid e ∙ dest_uuid-take ys n h
