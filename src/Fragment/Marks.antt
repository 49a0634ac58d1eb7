-- ===== src/Fragment/Marks.antt =====
-- The marks of the fragments received, one bit for each, and the PDU byte of a fragment.
use ch32fun_wi_not_ap.Prelude.{
  Bool, arith, bit_and, bit_or, ltb, ltb→lt, not, passes_at, passes_below, refl, true, ℕ, ◌%◌, ◌&&◌,
  ◌+◌, ◌-◌, ◌<◌, ◌==◌, ◌^◌, ◌||◌, ◌≡◌, ◌≢◌, ◌≢◌,
}
use ch32fun_wi_not_ap.Fragment.{pdu_of}
use ch32fun_wi_not_ap.Node.{fragment_size, fragmented}

-- The marks when fragment `k` has come.
abbrev pub marked : ℕ → ℕ → ℕ
marked received k = bit_or received (2 ^ k) % 2 ^ 8

abbrev low_test : ℕ → ℕ → Bool
low_test k r = not (r % 2 ^ k == 2 ^ k - 1) || (marked r k % 2 ^ (k + 1) == 2 ^ (k + 1) - 1)

abbrev low_tests : ℕ → Bool
low_tests k = passes_below (low_test k) 256

low_table : passes_below low_tests 7 ≡ true
unfolding passes_below
low_table = refl

-- With the marks of all earlier fragments and its own, the marks of all fragments up to `k` are there.
pub marked-low :
    (k r : ℕ) → k < 7 → r < 256 → r % 2 ^ k ≡ 2 ^ k - 1 → marked r k % 2 ^ (k + 1) ≡ 2 ^ (k + 1) - 1
marked-low k r hk hr h =
    let t : low_test k r ≡ true =
      passes_at (low_test k) 256 (passes_at low_tests 7 low_table k hk) r hr in
    ground arith

abbrev high_test : ℕ → ℕ → ℕ → Bool
high_test n k r = ltb (marked r k) (2 ^ n)

abbrev high_row : ℕ → ℕ → Bool
high_row n k = passes_below (high_test n k) (2 ^ n)

abbrev high_tests : ℕ → Bool
high_tests n = passes_below (high_row n) n

high_table : passes_below high_tests 8 ≡ true
unfolding passes_below
high_table = refl

-- No mark at `n` or above appears by marking a fragment below `n`.
pub marked-high : (n k r : ℕ) → n < 8 → k < n → r < 2 ^ n → marked r k < 2 ^ n
marked-high n k r hn hk hr =
    let row : high_row n k ≡ true =
      passes_at (high_row n) n (passes_at high_tests 8 high_table n hn) k hk in
    ltb→lt _ _ (passes_at (high_test n k) (2 ^ n) row r hr)

abbrev pdu_test : ℕ → Bool
pdu_test k =
    (bit_or (k % 8) fragmented % 8 == k)
    && (not (bit_and (bit_or (k % 8) fragmented) fragmented == 0)
        && bit_and (k % 8) fragmented == 0)

pdu_table : passes_below pdu_test 8 ≡ true
unfolding passes_below
pdu_table = refl

-- The receiver reads from the PDU the fragment's index, and whether more follow.
pub pdu_lem :
    (left k : ℕ)
    → k < 8
    → (pdu_of left k % 8 ≡ k)
      × ((bit_and (pdu_of left k) fragmented == 0) ≡ not (ltb fragment_size left))
pdu_lem left k hk = let t : pdu_test k ≡ true = passes_at pdu_test 8 pdu_table k hk in ground arith

abbrev byte_test : ℕ → Bool
byte_test n = ltb (2 ^ n) 256

byte_table : passes_below byte_test 8 ≡ true
unfolding passes_below
byte_table = refl

-- Marks below fragment `n` fit the byte.
pub marks-lt : (n r : ℕ) → n < 8 → r < 2 ^ n → r < 256
marks-lt n r hn hr = omega (arith, ltb→lt (2 ^ n) 256 (passes_at byte_test 8 byte_table n hn))

-- Marks of fragments below `k`, not of all of them.
abbrev pub Missing : ℕ → ℕ → Type 0
Missing k r = (r < 2 ^ k) × (r ≢ 2 ^ k - 1)

abbrev lost_test : ℕ → ℕ → Bool
lost_test k r = ltb r (2 ^ (k + 1)) && not (r == 2 ^ (k + 1) - 1)

abbrev come_test : ℕ → ℕ → Bool
come_test k r =
    r == 2 ^ k - 1 || (ltb (marked r k) (2 ^ (k + 1)) && not (marked r k == 2 ^ (k + 1) - 1))

abbrev lost_row : ℕ → Bool
lost_row k = passes_below (lost_test k) (2 ^ k)

lost_table : passes_below lost_row 7 ≡ true
unfolding passes_below
lost_table = refl

abbrev come_row : ℕ → Bool
come_row k = passes_below (come_test k) (2 ^ k)

come_table : passes_below come_row 7 ≡ true
unfolding passes_below
come_table = refl

-- Without the mark of fragment `k` those up to `k` are not complete.
pub lost-Missing : (k r : ℕ) → k < 7 → r < 2 ^ k → Missing (k + 1) r
lost-Missing k r hk hr =
    let t : lost_test k r ≡ true =
      passes_at (lost_test k) (2 ^ k) (passes_at lost_row 7 lost_table k hk) r hr in
    ground arith

-- With it they are not complete either, when an earlier one is missing.
pub come-Missing : (k r : ℕ) → k < 7 → Missing k r → Missing (k + 1) (marked r k)
come-Missing k r hk (hr, hm) =
    let t : come_test k r ≡ true =
      passes_at (come_test k) (2 ^ k) (passes_at come_row 7 come_table k hk) r hr in
    ground arith
