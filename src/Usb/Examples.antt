-- ===== src/Usb/Examples.antt =====
-- The theorems on packets from USB at concrete packets.
use ch32fun_wi_not_ap.Prelude.{
  drop, get_or, refl, List, replicate, ℕ, Ensures, ◌≡◌, some, true, length, take, arith, ◌+◌,
  length-replicate, zero, if◌then◌else◌, ◌==◌,
}
use ch32fun_wi_not_ap.Usb.{Usb, at_start, poll, no_packet, handle_data_out}
use ch32fun_wi_not_ap.Usb.Bounds.{AfterBounded, handle_data_out-Bounded}
use ch32fun_wi_not_ap.Usb.Polls.{is_incomplete, polls, polls-drops}
use ch32fun_wi_not_ap.Usb.Parts.{is_harmless, Runs, receive_parts, parts, transfer}
use ch32fun_wi_not_ap.Memory.{frame_of, load_word, Frame}
use ch32fun_wi_not_ap.Usb.Transfer.{poll-transfer}

-- Ten bytes, in a transfer of twelve: a part of eight and one of four.
abbrev ten : List ℕ
ten = replicate 10 7

poll-transfer_example :
    Ensures
      (Runs
        (λ m. (poll m ≡ (some (length ten, m.data_buf), m)) × (take (length ten) m.data_buf ≡ ten)))
      (receive_parts 8 frame_of (parts 8 (length ten + 3) (transfer ten)) no_packet)
unfolding replicate is_harmless parts take drop load_word get_or
poll-transfer_example =
    poll-transfer frame_of (λ b i h. refl) 8 ten no_packet (omega arith) (omega arith) (omega arith)
      (length-replicate 2048 (zero)) refl refl

-- Of a packet of 300 bytes, 62 have come, and 990 polls were in vain.
abbrev stalled : Usb
stalled = record no_packet { data_len = 300; write_idx = 62; checks = 990 }

polls-drops_example :
    (is_incomplete (polls 11 stalled) ≡ true) × (at_start (polls 12 stalled) ≡ true)
polls-drops_example = polls-drops stalled refl (omega arith)

-- A part of 64 bytes that announces 300.
abbrev announcing : Frame
announcing i = if i == 0 then 44 else 1

handle_data_out-Bounded_example :
    Ensures AfterBounded (handle_data_out 64 6 announcing 64 no_packet)
handle_data_out-Bounded_example =
    handle_data_out-Bounded 64 6 announcing 64 no_packet (omega arith)
      (record { short = omega arith; announced = omega arith })
      (record { size = length-replicate {A = ℕ} 2048 0; fits = omega arith })
