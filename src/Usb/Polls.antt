-- ===== src/Usb/Polls.antt =====
-- A packet that stays incomplete is given up.
use ch32fun_wi_not_ap.Prelude.{
  refl, ℕ, zero, suc, Bool, ◌≡◌, ◌+◌, not, true, arith, ◌==◌, ◌≤◌, ◌&&◌, ◌-◌, ◌<◌,
}
use ch32fun_wi_not_ap.Usb.{Usb, at_start, corrupt_chk, equals_short, poll}

-- The main loop polls again and again, and nothing comes from the host.
unfoldable pub polls : ℕ → Usb → Usb
polls zero u = u
polls (suc n) u = polls n (poll u).1

-- Some of a packet is missing.
abbrev pub is_incomplete : Usb → Bool
is_incomplete u = not (u.data_len == 0) && not (equals_short u.write_idx u.data_len)

poll-counts :
    (u : Usb)
    → is_incomplete u ≡ true
    → u.checks ≤ corrupt_chk
    → (poll u).1 ≡ record u { checks = u.checks + 1 }
unfolding poll
poll-counts u i h = ground arith

polls-counts :
    (n : ℕ) (u : Usb)
    → is_incomplete u ≡ true
    → u.checks + n ≤ corrupt_chk + 1
    → polls n u ≡ record u { checks = u.checks + n }
unfolding polls
polls-counts zero u i h = let e : u.checks + 0 ≡ u.checks = omega arith in rw e
polls-counts (suc n) u i h =
    let e : u.checks + suc n ≡ u.checks + 1 + n = omega arith in
    rw (poll-counts u i (omega arith), e)
      (polls-counts n (record u { checks = u.checks + 1 }) i (omega arith))

polls-last : (n : ℕ) (u : Usb) → polls (n + 1) u ≡ (poll (polls n u)).1
unfolding polls
polls-last zero u = refl
polls-last (suc n) u =
    let e : suc n + 1 ≡ suc (n + 1) = omega arith in rw e (polls-last n (poll u).1)

poll-drops :
    (u : Usb)
    → is_incomplete u ≡ true
    → corrupt_chk < u.checks
    → (poll u).1 ≡ record u { write_idx = 0; data_len = 0; checks = u.checks + 1 }
unfolding poll
poll-drops u i h = ground arith

-- A packet that is incomplete is given up when nothing comes from the host: with c checks counted
-- so far, c at most 1000, it is still incomplete after 1001 - c polls, and with the next poll the
-- buffer is ready for the first part of a packet.
pub polls-drops :
    (u : Usb)
    → is_incomplete u ≡ true
    → u.checks ≤ corrupt_chk
    → let n = corrupt_chk + 1 - u.checks in
      (is_incomplete (polls n u) ≡ true) × (at_start (polls (n + 1) u) ≡ true)
polls-drops u i h =
    let n = corrupt_chk + 1 - u.checks in
    let u' = record u { checks = u.checks + n } in
    let e : polls n u ≡ u' = polls-counts n u i (omega arith) in
    let d : (poll u').1 ≡ record u' { write_idx = 0; data_len = 0; checks = u'.checks + 1 } =
      poll-drops u' i (omega arith) in
    rw (polls-last n u, e) (i, rw d)
