-- ===== src/Usb/Bounds.antt =====
-- The buffer for the host's packets keeps its bounds, as long as the host announces no more than it holds.
use ch32fun_wi_not_ap.Prelude.{
  inl, inr, length, ℕ, ◌≡◌, ◌≤◌, Ensures, ◌+◌, Bool-cases, ◌*◌, arith, ltb, ◌==◌, ◌^◌, Ensures->>=,
  ◌||◌, if◌then◌else◌, false, ◌-◌,
}
use ch32fun_wi_not_ap.Usb.{
  Usb, After, goes_on, bootloader, first_part, next_part, frame_out, handle_data_out, usb_buf_size,
  equals_short_add2, exceeds_short, ep_frame_out, is_command, at_start,
}
use ch32fun_wi_not_ap.Memory.{Frame, copy}
use ch32fun_wi_not_ap.Memory.Laws.{write_at-size, length-copy}

-- The buffer has its size, and the packet's length fits it.
pub record Bounded (m : Usb) : Type 0 where
  pub size : length m.data_buf ≡ usb_buf_size
  pub fits : m.data_len ≤ usb_buf_size

-- A part that fits the buffer, and does not announce more than it holds.
pub record Modest (part : Frame) (len : ℕ) : Type 0 where
  pub short : len ≤ usb_buf_size
  pub announced : part 0 + part 1 * 2 ^ 8 ≤ usb_buf_size

abbrev pub AfterBounded : After → Type 0
AfterBounded (goes_on m) = Bounded m
AfterBounded bootloader = Unit {0}

first_part-Bounded :
    (packet_size : ℕ) (part : Frame) (len : ℕ) (m : Usb)
    → 2 ≤ packet_size
    → Modest part len
    → Bounded m
    → Ensures Bounded (first_part packet_size part len m)
unfolding first_part
first_part-Bounded packet_size part len m k p b =
    let word = part 0 + part 1 * 2 ^ 8 in
    elim (Bool-cases (len == packet_size || equals_short_add2 len word)) [
      | inr bad ↦ rw bad (record { size = b.size; fits = omega arith })
      | inl good ↦
          let two : ltb len 2 ≡ false = ground (arith, p.announced) in
          rw (good, two)
            (Ensures->>= (λ buf. length buf ≡ usb_buf_size) Bounded _ _
              (write_at-size usb_buf_size m.data_buf 0 (copy part 2 (len - 2)) b.size
                (omega (arith, length-copy part 2 (len - 2), p.short)))
              λ buf z. record { size = z; fits = p.announced })
    ]

next_part-Bounded :
    (part : Frame) (len : ℕ) (m : Usb) → Bounded m → Ensures Bounded (next_part part len m)
unfolding next_part
next_part-Bounded part len m b = elim (Bool-cases (exceeds_short (m.write_idx + len) m.data_len)) [
  | inl over ↦ rw over b
  | inr fits ↦
      let room : m.write_idx + len ≤ m.data_len = ground arith in
      rw fits (
        Ensures->>= (λ buf. length buf ≡ usb_buf_size) Bounded _ _
          (write_at-size usb_buf_size m.data_buf m.write_idx (copy part 0 len) b.size
            (omega (arith, length-copy part 0 len, b.fits)))
          λ buf z. record { size = z; fits = b.fits })
]

frame_out-Bounded :
    (packet_size : ℕ) (part : Frame) (len : ℕ) (m : Usb)
    → 2 ≤ packet_size
    → Modest part len
    → Bounded m
    → Ensures AfterBounded (frame_out packet_size part len m)
unfolding frame_out
frame_out-Bounded packet_size part len m k p b = elim (Bool-cases (is_command part len)) [
  | inl command ↦ rw command tt
  | inr data_part ↦ elim (Bool-cases (ltb 0 len)) [
    | inr empty ↦ rw (data_part, empty) (record { size = b.size; fits = b.fits })
    | inl bytes ↦
        rw (data_part, bytes)
          (Ensures->>= Bounded AfterBounded
            (if at_start m then first_part packet_size part len m else next_part part len m) _
            (elim (Bool-cases (at_start m)) [
              | inl first ↦ rw first (first_part-Bounded packet_size part len m k p b)
              | inr later ↦ rw later (next_part-Bounded part len m b)
            ])
            λ m' b'. record { size = b'.size; fits = b'.fits })
  ]
]

-- Where the buffer for the host's packets has its 2048 bytes and the length of the packet in it is
-- no more, a part of at most 2048 bytes on any endpoint whose first two bytes name no more than
-- 2048 is handled without a write past the buffer, and the length is again no more than 2048, or
-- the boot loader is entered; the driver's parts have at least two bytes when full.
pub handle_data_out-Bounded :
    (packet_size endp : ℕ) (part : Frame) (len : ℕ) (m : Usb)
    → 2 ≤ packet_size
    → Modest part len
    → Bounded m
    → Ensures AfterBounded (handle_data_out packet_size endp part len m)
unfolding handle_data_out
handle_data_out-Bounded packet_size endp part len m k p b = elim (Bool-cases (endp == 0)) [
  | inl setup ↦ rw setup (record { size = b.size; fits = b.fits })
  | inr other ↦ elim (Bool-cases (endp == ep_frame_out)) [
    | inl frames ↦ rw (other, frames) (frame_out-Bounded packet_size part len m k p b)
    | inr none_of_these ↦ rw (other, none_of_these) b
  ]
]
