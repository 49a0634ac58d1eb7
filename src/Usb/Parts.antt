-- ===== src/Usb/Parts.antt =====
-- The transfer of a packet by the host, and what each part of it does to the buffer.
use ch32fun_wi_not_ap.Prelude.{
  ◌>>=◌, refl, zero, suc, [], some, none, ℕ, List, drop, length, if◌then◌else◌, ◌%◌, Bool, ◌≡◌, ◌<◌,
  leb, ◌^◌, true, take, get_or, ◌∷◌, ◌/◌, not, ◌&&◌, Option, ◌≤◌, ◌+◌, Ensures, ◌*◌, ◌++◌, ◌⊎◌,
  false, arith, length-append, ◌∙◌, sym, cong, ◌==◌, ◌||◌, ltb, ◌-◌, Ensures->>=,
}
use ch32fun_wi_not_ap.Usb.{
  After, Usb, at_start, bootloader, ep_frame_out, equals_short_add2, exceeds_short, first_part,
  frame_out, goes_on, handle_data_out, is_command, next_part, usb_buf_size,
}
use ch32fun_wi_not_ap.Memory.{Frame, copy}
use ch32fun_wi_not_ap.Radio.Delivery.{copy-eq}
use ch32fun_wi_not_ap.Memory.Laws.{
  write_at-runs, length-overwrite, take-overwrite, take-overwrite_front,
}

-- The parts of a transfer: full ones, and what is left.
unfoldable pub parts : ℕ → ℕ → List ℕ → List (List ℕ)
parts packet_size zero bytes = []
parts packet_size (suc fuel) bytes =
    let rest = parts packet_size fuel (drop packet_size bytes) in
    if leb (length bytes) packet_size then bytes ∷ [] else take packet_size bytes ∷ rest

-- The host sends the length in two bytes, and the packet.
abbrev pub transfer : List ℕ → List ℕ
transfer packet = length packet % 2 ^ 8 ∷ length packet / 2 ^ 8 % 2 ^ 8 ∷ packet

abbrev pub on_run : (Usb → Option After) → After → Option After
on_run next (goes_on u) = next u
on_run next bootloader = some bootloader

-- The handler gets the parts one by one; what comes after a jump into the boot loader is lost.
unfoldable pub receive_parts : ℕ → (List ℕ → Frame) → List (List ℕ) → Usb → Option After
receive_parts packet_size arrive [] u = some (goes_on u)
receive_parts packet_size arrive (p ∷ ps) u = do
  after ← handle_data_out packet_size ep_frame_out (arrive p) (length p) u
  on_run (receive_parts packet_size arrive ps) after

-- No part reads as the command for the boot loader.
unfoldable pub is_harmless : (List ℕ → Frame) → List (List ℕ) → Bool
is_harmless arrive [] = true
is_harmless arrive (p ∷ ps) = not (is_command (arrive p) (length p)) && is_harmless arrive ps

-- The start of a packet of `total` bytes is in the buffer.
pub record Filling (total : ℕ) (there : List ℕ) (u : Usb) : Type 0 where
  pub buf_size : length u.data_buf ≡ usb_buf_size
  pub announced : u.data_len ≡ total
  pub at_end : u.write_idx ≡ length there
  pub stored : take (length there) u.data_buf ≡ there

-- The handler returned, to a state with the property.
abbrev pub Runs : (Usb → Type 0) → After → Type 0
Runs P (goes_on u) = P u
Runs P bootloader = ⊥

-- USB brings the bytes of a part.
abbrev pub Carries : (List ℕ → Frame) → Type 0
Carries arrive = (b : List ℕ) (i : ℕ) → i < length b → arrive b i ≡ get_or b i 0

pub not_first : (a b : Bool) → (not a && b) ≡ true → a ≡ false
not_first a b h = ground arith

pub not_second : (a b : Bool) → (not a && b) ≡ true → b ≡ true
not_second a b h = ground arith

pub Runs->>= :
    (P Q : Usb → Type 0) (m : Option After) (next : Usb → Option After)
    → Ensures (Runs P) m
    → ((u : Usb) → P u → Ensures (Runs Q) (next u))
    → Ensures (Runs Q) (m >>= on_run next)
Runs->>= P Q none next h k = absurd h
Runs->>= P Q (some (goes_on u)) next h k = k u h
Runs->>= P Q (some bootloader) next h k = absurd h

pub Runs-mono :
    (P Q : Usb → Type 0) (m : Option After)
    → ((u : Usb) → P u → Q u)
    → Ensures (Runs P) m
    → Ensures (Runs Q) m
Runs-mono P Q none k h = absurd h
Runs-mono P Q (some (goes_on u)) k h = k u h
Runs-mono P Q (some bootloader) k h = absurd h

module _ (arrive : List ℕ → Frame) (ok : Carries arrive) where
  next_part-Filling :
      (total : ℕ) (there part : List ℕ) (u : Usb)
      → Filling total there u
      → total ≤ usb_buf_size
      → length there + length part ≤ total
      → Ensures (Filling total (there ++ part)) (next_part (arrive part) (length part) u)
  unfolding next_part
  next_part-Filling total there part u v h fits =
      let inside : exceeds_short (u.write_idx + length part) u.data_len ≡ false =
        rw (v.announced, v.at_end) (ground arith) in
      let c : copy (arrive part) 0 (length part) ≡ part =
        copy-eq (arrive part) 0 part λ i b. let z : 0 + i ≡ i = omega arith in rw z (ok part i b) in
      let l : length (there ++ part) ≡ length there + length part = length-append there part in
      rw
        (
          inside,
          c,
          v.at_end,
          write_at-runs usb_buf_size u.data_buf (length there) part (omega (arith, v.at_end)),
        )
        (record {
          buf_size =
              length-overwrite u.data_buf (length there) part (omega (arith, v.buf_size))
              ∙ v.buf_size;
          announced = v.announced;
          at_end = sym l;
          stored = rw l (
              take-overwrite u.data_buf (length there) part (omega (arith, v.buf_size))
              ∙ cong (λ (x : List ℕ). x ++ part) v.stored);
        })

  carried :
      (lo hi : ℕ) (part : List ℕ) (i : ℕ)
      → i < length part
      → arrive (lo ∷ hi ∷ part) (2 + i) ≡ get_or part i 0
  unfolding get_or
  carried lo hi part i h =
      let place : 2 + i ≡ suc (suc i) = omega arith in
      rw place (ok (lo ∷ hi ∷ part) (suc (suc i)) (omega arith))

  first_part-Filling :
      (packet_size total lo hi : ℕ) (part : List ℕ) (u : Usb)
      → length u.data_buf ≡ usb_buf_size
      → lo + hi * 2 ^ 8 ≡ total
      → total ≤ usb_buf_size
      → length part ≤ total
      → (2 + length part ≡ packet_size) ⊎ (length part ≡ total)
      → Ensures
          (Filling total part)
          (first_part packet_size (arrive (lo ∷ hi ∷ part)) (length (lo ∷ hi ∷ part)) u)
  unfolding first_part get_or
  first_part-Filling packet_size total lo hi part u b w h fits whole =
      let f = arrive (lo ∷ hi ∷ part) in
      let word : f 0 + f 1 * 2 ^ 8 ≡ total =
        rw (ok (lo ∷ hi ∷ part) 0 (omega arith), ok (lo ∷ hi ∷ part) 1 (omega arith), w) in
      let accepted : (suc (suc (length part)) == packet_size
            || equals_short_add2 (suc (suc (length part))) total)
          ≡ true =
        ground arith in
      let more : ltb (suc (suc (length part))) 2 ≡ false = ground arith in
      let l : suc (suc (length part)) - 2 ≡ length part = omega arith in
      let c : copy f 2 (length part) ≡ part = copy-eq f 2 part (carried lo hi part) in
      rw (word, accepted, more, l, c, write_at-runs usb_buf_size u.data_buf 0 part (omega arith))
        (record {
          buf_size = length-overwrite u.data_buf 0 part (omega arith) ∙ b;
          announced = refl;
          at_end = refl;
          stored = take-overwrite_front u.data_buf part (omega arith);
        })

  pub later-Filling :
      (packet_size total : ℕ) (there part : List ℕ) (u : Usb)
      → Filling total there u
      → is_command (arrive part) (length part) ≡ false
      → 0 < length part
      → 0 < length there
      → total ≤ usb_buf_size
      → length there + length part ≤ total
      → Ensures
          (Runs (Filling total (there ++ part)))
          (handle_data_out packet_size ep_frame_out (arrive part) (length part) u)
  unfolding handle_data_out frame_out
  later-Filling packet_size total there part u v quiet some_bytes begun h fits =
      let going : at_start u ≡ false = rw (v.announced, v.at_end) (ground arith) in
      let some_there : ltb 0 (length part) ≡ true = ground arith in
      rw (quiet, some_there, going)
        (Ensures->>= (Filling total (there ++ part)) (Runs (Filling total (there ++ part))) _ _
          (next_part-Filling total there part u v h fits)
          λ m w. record {
            buf_size = w.buf_size;
            announced = w.announced;
            at_end = w.at_end;
            stored = w.stored;
          })

  pub first-Filling :
      (packet_size total lo hi : ℕ) (part : List ℕ) (u : Usb)
      → length u.data_buf ≡ usb_buf_size
      → at_start u ≡ true
      → is_command (arrive (lo ∷ hi ∷ part)) (length (lo ∷ hi ∷ part)) ≡ false
      → lo + hi * 2 ^ 8 ≡ total
      → total ≤ usb_buf_size
      → length part ≤ total
      → (2 + length part ≡ packet_size) ⊎ (length part ≡ total)
      → Ensures (Runs (Filling total part)) (
          handle_data_out packet_size ep_frame_out
            (arrive (lo ∷ hi ∷ part))
            (length (lo ∷ hi ∷ part))
            u)
  unfolding handle_data_out frame_out
  first-Filling packet_size total lo hi part u b start quiet w h fits whole =
      let some_there : ltb 0 (length (lo ∷ hi ∷ part)) ≡ true = ground arith in
      rw (quiet, some_there, start)
        (Ensures->>= (Filling total part) (Runs (Filling total part)) _ _
          (first_part-Filling packet_size total lo hi part u b w h fits whole)
          λ m w. record {
            buf_size = w.buf_size;
            announced = w.announced;
            at_end = w.at_end;
            stored = w.stored;
          })
