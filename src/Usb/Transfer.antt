-- ===== src/Usb/Transfer.antt =====
-- A packet of the host, from its transfer in parts to the buffer and to `usb_poll_packet`.
use ch32fun_wi_not_ap.Usb.Parts.{
  Carries, receive_parts, Filling, is_harmless, parts, Runs, transfer, not_first, Runs-mono,
  Runs->>=, later-Filling, first-Filling, not_second,
}
use ch32fun_wi_not_ap.Prelude.{
  refl, zero, suc, some, ℕ, List, drop, length, ◌%◌, ◌≡◌, ◌<◌, leb, ◌^◌, true, take, ◌∷◌, ◌/◌, not,
  ◌&&◌, ◌≤◌, ◌+◌, Ensures, ◌*◌, ◌++◌, false, arith, length-append, ◌∙◌, cong, ◌==◌, ◌-◌, Bool-cases,
  inl, inr, length-take, length-drop, append_assoc, take-append-drop,
}
use ch32fun_wi_not_ap.Usb.{Usb, at_start, is_command, usb_buf_size, poll, equals_short}
use ch32fun_wi_not_ap.Memory.{Frame}

module _ (arrive : List ℕ → Frame) (ok : Carries arrive) where
  parts-Filling :
      (packet_size fuel total : ℕ) (there rest : List ℕ) (u : Usb)
      → Filling total there u
      → is_harmless arrive (parts packet_size fuel rest) ≡ true
      → 0 < packet_size
      → 0 < length there
      → 0 < length rest
      → length rest < fuel
      → total ≤ usb_buf_size
      → length there + length rest ≡ total
      → Ensures
          (Runs (Filling total (there ++ rest)))
          (receive_parts packet_size arrive (parts packet_size fuel rest) u)
  unfolding receive_parts parts is_harmless
  parts-Filling packet_size zero total there rest u v quiet k begun more f h sum =
      absurd (omega arith)
  parts-Filling packet_size (suc fuel) total there rest u v quiet k begun more f h sum =
      elim (Bool-cases (leb (length rest) packet_size)) [
        | inl last ↦
            let harmless : is_command (arrive rest) (length rest) ≡ false =
              not_first (is_command (arrive rest) (length rest)) true (rw last at quiet) in
            rw last (
              Runs->>= (Filling total (there ++ rest)) (Filling total (there ++ rest)) _ _
                (later-Filling arrive ok packet_size total there rest u v harmless more begun h
                  (omega arith))
                λ m w. w)
        | inr full ↦
            let part = take packet_size rest in
            let l : length part ≡ packet_size = length-take packet_size rest (ground arith) in
            let l' : length (there ++ part) ≡ length there + length part =
              length-append there part in
            let both = rw full at quiet in
            let tail = parts packet_size fuel (drop packet_size rest) in
            let harmless : is_command (arrive part) (length part) ≡ false =
              not_first (is_command (arrive part) (length part)) (is_harmless arrive tail) both in
            let size_left : length (drop packet_size rest) ≡ length rest - packet_size =
              length-drop packet_size rest in
            let e : (there ++ part) ++ drop packet_size rest ≡ there ++ rest =
              append_assoc there part (drop packet_size rest)
              ∙ cong (λ (x : List ℕ). there ++ x) (take-append-drop packet_size rest) in
            let big : packet_size < length rest = ground arith in
            rw full (
              Runs->>= (Filling total (there ++ part)) (Filling total (there ++ rest)) _ _
                (later-Filling arrive ok packet_size total there part u v harmless (omega arith)
                  begun h (omega arith))
                λ m w. rw e at (
                  parts-Filling packet_size fuel total (there ++ part) (drop packet_size rest) m w
                    (not_second (is_command (arrive part) (length part)) (is_harmless arrive tail)
                      both)
                    k (omega arith) (omega arith) (omega arith) h (omega arith)))
      ]

  from-Filling :
      (j : ℕ) (packet : List ℕ) (u : Usb)
      → 0 < j
      → 0 < length packet
      → length packet ≤ usb_buf_size
      → length u.data_buf ≡ usb_buf_size
      → at_start u ≡ true
      → is_harmless arrive (parts (suc (suc j)) (suc (length packet + 2)) (transfer packet)) ≡ true
      → Ensures (Runs (Filling (length packet) packet)) (
          receive_parts
            (suc (suc j))
            arrive
            (parts (suc (suc j)) (suc (length packet + 2)) (transfer packet))
            u)
  unfolding receive_parts parts is_harmless take drop
  from-Filling j packet u pos some_bytes h b start quiet =
      let lo = length packet % 2 ^ 8 in
      let hi = length packet / 2 ^ 8 % 2 ^ 8 in
      let w : lo + hi * 2 ^ 8 ≡ length packet = omega arith in
      elim (Bool-cases (leb (suc (suc (length packet))) (suc (suc j)))) [
        | inl last ↦
            let harmless =
              not_first (is_command (arrive (transfer packet)) (length (transfer packet))) true
                (rw last at quiet) in
            rw last (
              Runs->>= (Filling (length packet) packet) (Filling (length packet) packet) _ _
                (first-Filling arrive ok (suc (suc j)) (length packet) lo hi packet u b start
                  harmless w h (omega arith) (inr refl))
                λ m v. v)
        | inr full ↦
            let part = take j packet in
            let first = lo ∷ hi ∷ part in
            let l : length part ≡ j = length-take j packet (ground arith) in
            let both = rw full at quiet in
            let tail = parts (suc (suc j)) (length packet + 2) (drop j packet) in
            let harmless =
              not_first (is_command (arrive first) (length first)) (is_harmless arrive tail) both in
            let left : length (drop j packet) ≡ length packet - j = length-drop j packet in
            let big : j < length packet = ground arith in
            rw full (
              Runs->>= (Filling (length packet) part) (Filling (length packet) packet) _ _
                (first-Filling arrive ok (suc (suc j)) (length packet) lo hi part u b start harmless
                  w h (omega arith) (inl (omega arith)))
                λ m v. rw (take-append-drop j packet) at (
                  parts-Filling (suc (suc j)) (length packet + 2) (length packet) part
                    (drop j packet) m v
                    (not_second (is_command (arrive first) (length first)) (is_harmless arrive tail)
                      both)
                    (omega arith) (omega arith) (omega arith) (omega arith) h (omega arith)))
      ]

  poll-Filling :
      (packet : List ℕ) (u : Usb)
      → 0 < length packet
      → length packet ≤ usb_buf_size
      → Filling (length packet) packet u
      → (poll u ≡ (some (length packet, u.data_buf), u))
        × (take (length packet) u.data_buf ≡ packet)
  unfolding poll
  poll-Filling packet u some_bytes h v =
      let there : (not (u.data_len == 0) && equals_short u.write_idx u.data_len) ≡ true =
        rw (v.announced, v.at_end) (ground arith) in
      (rw there (cong (λ (x : ℕ). (some (x, u.data_buf), u)) v.announced), v.stored)

  pub receive_parts-Filling :
      (packet_size : ℕ) (packet : List ℕ) (u : Usb)
      → 2 < packet_size
      → 0 < length packet
      → length packet ≤ usb_buf_size
      → length u.data_buf ≡ usb_buf_size
      → at_start u ≡ true
      → is_harmless arrive (parts packet_size (length packet + 3) (transfer packet)) ≡ true
      → Ensures (Runs (Filling (length packet) packet)) (
          receive_parts packet_size arrive
            (parts packet_size (length packet + 3) (transfer packet))
            u)
  receive_parts-Filling packet_size packet u k some_bytes h b start quiet =
      let j = packet_size - 2 in
      let e : packet_size ≡ suc (suc j) = omega arith in
      let f : length packet + 3 ≡ suc (length packet + 2) = omega arith in
      rw (e, f) (from-Filling j packet u (omega arith) some_bytes h b start (rw (e, f) at quiet))

  -- Where no packet or a complete one is in the buffer of 2048 bytes, the host sends a packet of 1
  -- to 2048 bytes behind its length in two bytes, in parts of more than two bytes each but for the
  -- last, USB brings the bytes of the parts, and no part reads as the command for the boot loader:
  -- then the handler of the parts returns each time, and usb_poll_packet gives the length of the
  -- packet and a buffer that starts with its bytes, and changes nothing.
  pub poll-transfer :
      (packet_size : ℕ) (packet : List ℕ) (u : Usb)
      → 2 < packet_size
      → 0 < length packet
      → length packet ≤ usb_buf_size
      → length u.data_buf ≡ usb_buf_size
      → at_start u ≡ true
      → is_harmless arrive (parts packet_size (length packet + 3) (transfer packet)) ≡ true
      → Ensures
          (Runs (λ m.
            (poll m ≡ (some (length packet, m.data_buf), m))
            × (take (length packet) m.data_buf ≡ packet)))
          (receive_parts packet_size arrive
            (parts packet_size (length packet + 3) (transfer packet))
            u)
  poll-transfer packet_size packet u k some_bytes h b start quiet =
      Runs-mono (Filling (length packet) packet) _ _ (λ m v. poll-Filling packet m some_bytes h v)
        (receive_parts-Filling packet_size packet u k some_bytes h b start quiet)
