-- ===== src/Clock/CatchUp.antt =====
-- How the loop makes up for time that it has missed, and what happens when the word of the deadline
-- runs over.
use ch32fun_wi_not_ap.Prelude.{
  ℕ, refl, zero, suc, if◌then◌else◌, ◌<◌, ◌+◌, ◌^◌, ◌≤◌, ◌≡◌, false, true, ◌*◌, lt→ltb, arith,
  Bool-cases, inr, inl, ltb→lt, ◌%◌,
}
use ch32fun_wi_not_ap.Clock.{Clock, count_ms, is_due}

-- The loop with the clock of the chip at `now`, until no millisecond is due.
unfoldable pub catch_up : ℕ → ℕ → ℕ → Clock → Clock
catch_up ticks_per_ms now zero c = c
catch_up ticks_per_ms now (suc fuel) c =
    let rest = catch_up ticks_per_ms now fuel (count_ms ticks_per_ms c) in
    if is_due now c then rest else c

-- A loop that is behind ends its rounds that count a millisecond: where the chip's clock stands
-- still, a millisecond is at least a tick, the deadline is less than a millisecond ahead of the
-- clock, and neither the deadline nor the count reaches its word's end, as many rounds as ticks
-- are missing bring the deadline to the clock or past it by less than a millisecond, and the
-- milliseconds counted are the time by which the deadline moved.
pub catch_up_lem :
    (ticks_per_ms now fuel : ℕ) (c : Clock)
    → 0 < ticks_per_ms
    → now + ticks_per_ms ≤ 2 ^ 32
    → now ≤ c.next_ms + fuel
    → c.next_ms < now + ticks_per_ms
    → c.ms_cnt + fuel < 2 ^ 32
    → let c' = catch_up ticks_per_ms now fuel c in
      (is_due now c' ≡ false)
      × (c'.next_ms < now + ticks_per_ms)
      × (c'.next_ms + c.ms_cnt * ticks_per_ms ≡ c.next_ms + c'.ms_cnt * ticks_per_ms)
unfolding catch_up
catch_up_lem t now zero c pos room f start cnt = (ground arith, start, refl)
catch_up_lem t now (suc fuel) c pos room f start cnt = elim (Bool-cases (is_due now c)) [
  | inr early ↦ rw early (early, start, refl)
  | inl due ↦
      let less : c.next_ms < now = ltb→lt c.next_ms now due in
      let n : (c.next_ms + t) % 2 ^ 32 ≡ c.next_ms + t = omega arith in
      let m : (c.ms_cnt + 1) % 2 ^ 32 ≡ c.ms_cnt + 1 = omega arith in
      let c₁ = count_ms t c in
      let ih = catch_up_lem t now fuel c₁ pos room (omega arith) (omega arith) (omega arith) in
      let d : (c.ms_cnt + 1) * t ≡ c.ms_cnt * t + t = grind arith in
      let mt : c₁.ms_cnt * t ≡ c.ms_cnt * t + t = rw m d in rw due (ih.0, ih.1, omega (arith, ih.2))
]

-- When the deadline's word runs over and the clock of the chip has a millisecond or more, the next
-- millisecond is due at once, again without a pause.
pub count_ms-wraps :
    (ticks_per_ms now : ℕ) (c : Clock)
    → c.next_ms < 2 ^ 32
    → ticks_per_ms ≤ now
    → 2 ^ 32 ≤ c.next_ms + ticks_per_ms
    → ticks_per_ms < 2 ^ 32
    → is_due now (count_ms ticks_per_ms c) ≡ true
count_ms-wraps t now c h k e s = lt→ltb _ _ (omega arith)
