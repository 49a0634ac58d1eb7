-- ===== src/Usb.antt =====
-- The packets that come over USB (usb_sfhip.c): `HandleDataOut`, `usb_poll_packet` and
-- `usb_release_packet`. A transfer of the host starts with the packet's length in two bytes and comes
-- in parts of at most USBFS_PACKET_SIZE bytes, a number of the USB driver that is a parameter here.
pub mod Out
pub mod Parts
pub mod Transfer
pub mod Polls
pub mod Bounds
pub mod Examples
use ch32fun_wi_not_ap.Prelude.{
  ◌>>=◌, ◌-◌, ℕ, List, Bool, Option, replicate, ltb, leb, if◌then◌else◌, ◌==◌, ◌+◌, ◌^◌, ◌&&◌, ◌||◌,
  ◌*◌, some, not, none,
}
use ch32fun_wi_not_ap.Memory.{Frame, load_word, write_at, copy}

abbrev pub usb_buf_size : ℕ
usb_buf_size = 2048

abbrev pub corrupt_chk : ℕ
corrupt_chk = 1000

abbrev pub ep_frame_out : ℕ
ep_frame_out = 6

-- The variables `gs_usb_data_*`, and what the handler sets of the driver's state. `data_len` is the
-- 16-bit word of an `int16_t`.
pub record Usb : Type 0 where
  pub data_buf : List ℕ
  pub data_len : ℕ
  pub write_idx : ℕ
  pub checks : ℕ
  pub setup_req_len : ℕ
  pub frame_out_busy : ℕ

-- The handler returns, or jumps into the boot loader and never does.
pub data After : Type 0 where
  goes_on : Usb → After
  bootloader : After

-- `x == w` for an `int` x that is not negative and an `int16_t` w.
abbrev pub equals_short : ℕ → ℕ → Bool
equals_short x w = ltb w (2 ^ 15) && x == w

-- `x > w`
abbrev pub exceeds_short : ℕ → ℕ → Bool
exceeds_short x w = leb (2 ^ 15) w || ltb w x

-- `x == w + 2`
abbrev pub equals_short_add2 : ℕ → ℕ → Bool
equals_short_add2 x w = if ltb w (2 ^ 15) then x == w + 2 else x + 2 ^ 16 == w + 2

abbrev pub is_command : Frame → ℕ → Bool
is_command part len = len == 4 && load_word part 0 == 0x010001a2

-- No packet is there, or one that is complete.
abbrev pub at_start : Usb → Bool
at_start u = u.data_len == 0 || equals_short u.write_idx u.data_len

-- The first part of a packet. With a part of one byte the size of the copy is (size_t)-1.
unfoldable pub first_part : ℕ → Frame → ℕ → Usb → Option Usb
first_part packet_size part len u =
    let word = part 0 + part 1 * 2 ^ 8 in
    if len == packet_size || equals_short_add2 len word
    then if ltb len 2 then none else (do
      buf ← write_at usb_buf_size u.data_buf 0 (copy part 2 (len - 2))
      some (record u { data_buf = buf; data_len = word; write_idx = len - 2; checks = 0 }))
    else some (record u { data_len = 0; checks = 0 })

unfoldable pub next_part : Frame → ℕ → Usb → Option Usb
next_part part len u = if exceeds_short (u.write_idx + len) u.data_len then some u else (do
  buf ← write_at usb_buf_size u.data_buf u.write_idx (copy part 0 len)
  some (record u { data_buf = buf; write_idx = u.write_idx + len }))

unfoldable pub frame_out : ℕ → Frame → ℕ → Usb → Option After
frame_out packet_size part len u =
    if is_command part len
    then some bootloader
    else if ltb 0 len
    then (do
      u' ← if at_start u then first_part packet_size part len u else next_part part len u
      some (goes_on (record u' { frame_out_busy = 0 })))
    else some (goes_on (record u { frame_out_busy = 0 }))

unfoldable pub handle_data_out : ℕ → ℕ → Frame → ℕ → Usb → Option After
handle_data_out packet_size endp part len u =
    if endp == 0
    then some (goes_on (record u { setup_req_len = 0 }))
    else if endp == ep_frame_out
    then frame_out packet_size part len u
    else some (goes_on u)

-- The packet is given out, or a check of an incomplete packet is counted.
unfoldable pub poll : Usb → Option (ℕ × List ℕ) × Usb
poll u =
    if not (u.data_len == 0) && equals_short u.write_idx u.data_len
    then (some (u.data_len, u.data_buf), u)
    else if u.data_len == 0
    then (none, u)
    else if ltb corrupt_chk u.checks
    then (none, record u { write_idx = 0; data_len = 0; checks = u.checks + 1 })
    else (none, record u { checks = u.checks + 1 })

unfoldable pub release : Usb → Usb
release u = record u { write_idx = 0; data_len = 0 }

abbrev pub no_packet : Usb
no_packet = record {
  data_buf = replicate usb_buf_size 0;
  data_len = 0;
  write_idx = 0;
  checks = 0;
  setup_req_len = 0;
  frame_out_busy = 0;
}
