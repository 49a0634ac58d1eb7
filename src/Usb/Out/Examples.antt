-- ===== src/Usb/Out/Examples.antt =====
-- The sending of packets to the host at a concrete driver.
use ch32fun_wi_not_ap.Prelude.{
  [], some, none, if◌then◌else◌, arith, Ensures, ◌==◌, join, ◌≡◌, ◌++◌, take, replicate, false,
  length-replicate, ℕ,
}
use ch32fun_wi_not_ap.Usb.Out.{Driver, is_busy, usb_send_packet}
use ch32fun_wi_not_ap.Usb.Out.Whole.{Recovers, usb_send_packet-whole}

-- A driver that is busy at the second attempt only.
abbrev hiccup : Driver
hiccup n = if n == 1 then none else some 0

hiccup-Recovers : Recovers hiccup
hiccup-Recovers n h = ground arith

usb_send_packet-whole_example :
    Ensures
      (λ r. (join r.1.taken ≡ [] ++ take 150 (replicate 150 7)) × (is_busy r.0 ≡ false))
      (usb_send_packet 64 hiccup (replicate 150 7) 150 (record { attempts = 0; taken = [] }))
unfolding take join
usb_send_packet-whole_example =
    usb_send_packet-whole hiccup hiccup-Recovers 64 (replicate 150 7) 150
      (record { attempts = 0; taken = [] }) (omega arith)
      (omega (arith, length-replicate {A = ℕ} 150 7))
