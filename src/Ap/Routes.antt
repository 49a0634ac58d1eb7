-- ===== src/Ap/Routes.antt =====
-- Packets between the host and the WiNoT nodes, which the access point passes on.
use ch32fun_wi_not_ap.Prelude.{
  some, refl, true, false, ℕ, ◌≡◌, ◌<◌, take, ◌≤◌, List, drop, length, not, ◌==◌, ◌≢◌, ◌&&◌,
  Ensures, ltb, arith, length-take, join, leb, ◌++◌, ◌%◌, ◌^◌, Bool-cases, Ensures-some,
  Ensures->>=, inr, inl, ==_iff, ◌∙◌,
}
use ch32fun_wi_not_ap.Node.{ap, newrx, Node, data_buf_size, dest_uuid, is_newrx}
use ch32fun_wi_not_ap.Ap.{
  AccessPoint, usb_part, usb_taken, usb_routed, winot_part, winot_taken, winot_routed,
}
use ch32fun_wi_not_ap.Usb.{Usb, poll, release, usb_buf_size, equals_short}
use ch32fun_wi_not_ap.Usb.Out.Whole.{Recovers, usb_send_packet-whole}
use ch32fun_wi_not_ap.System.Owned.{Owned, send_packet-Owned}
use ch32fun_wi_not_ap.System.Released.{release_packet-gone}
use ch32fun_wi_not_ap.Request.{send_packet, send_by, fill_buf, poll_packet, outside, release_packet}
use ch32fun_wi_not_ap.Usb.Out.{Driver, usb_send_packet, is_busy}
use ch32fun_wi_not_ap.Sfhip.{Stack}
use ch32fun_wi_not_ap.Memory.{overwrite}
use ch32fun_wi_not_ap.Memory.Laws.{write_at-runs, slice-runs, take-overwrite_front}

-- The host's packet waits for its node, and the buffer for the host's packets is free.
pub record Waits (u : ℕ) (old : AccessPoint) (n : Node) : Type 0 where
  pub owned : Owned ap u n
  pub len : n.data_len ≡ old.usb.data_len
  pub bytes : take n.data_len n.data_buf ≡ take old.usb.data_len old.usb.data_buf
  pub state : n.state ≡ old.node.state
  pub tick_kept : n.tick ≡ old.node.tick
  pub calls_kept : n.calls ≡ old.node.calls

-- Sending from an access point is putting the packet into the buffer.
send_packet-ap :
    (bytes : List ℕ) (n : Node)
    → n.role ≡ ap
    → length n.data_buf ≡ data_buf_size
    → length bytes ≤ data_buf_size
    → send_packet (outside bytes) n
      ≡ some (
        some (length bytes),
        record n { data_buf = overwrite n.data_buf 0 bytes; data_len = length bytes },
      )
unfolding send_packet send_by fill_buf
send_packet-ap bytes n role z h =
    let fits : ltb data_buf_size (length bytes) ≡ false = ground arith in
    rw (fits, role, write_at-runs data_buf_size n.data_buf 0 bytes (omega arith))

complete :
    (m : Usb)
    → m.write_idx ≡ m.data_len
    → 0 < m.data_len
    → m.data_len ≤ data_buf_size
    → poll m ≡ (some (m.data_len, m.data_buf), m)
unfolding poll
complete m e pos fits =
    let test : (not (m.data_len == 0) && equals_short m.write_idx m.data_len) ≡ true =
      ground arith in
    rw test

other_word : (a b u : ℕ) → b ≡ u → a ≢ u → (a == b) ≡ false
other_word a b u e h = elim (Bool-cases (a == b)) [
  | inr f ↦ f
  | inl f ↦ absurd (h ((==_iff a b).0 f ∙ e))
]

module _ (packet_size : ℕ) (answers : Driver) (s : Stack) where
  -- An access point, with the invariant and, in a buffer of 2048 bytes, a complete packet of 1 to
  -- 1715 bytes from the host whose destination is not its own word, passes it on: the part of the
  -- loop for the host's packets returns, the packet waits in WiNoT's buffer with the same length
  -- and bytes, the state of WiNoT and sfhip are as before, nothing goes to the host, and the
  -- buffer for the host's packets is free.
  pub usb_part-Waits :
      (u : ℕ) (hip : s.Hip) (w : AccessPoint)
      → Owned ap u w.node
      → length w.usb.data_buf ≡ usb_buf_size
      → w.usb.write_idx ≡ w.usb.data_len
      → 0 < w.usb.data_len
      → w.usb.data_len ≤ data_buf_size
      → dest_uuid w.usb.data_buf ≢ u
      → Ensures
          (λ r. (r.0 ≡ hip) × Waits u w r.1.node × (r.1.usb.data_len ≡ 0) × (r.1.wire ≡ w.wire))
          (usb_part packet_size answers s hip w)
  unfolding usb_part usb_taken usb_routed release drop
  usb_part-Waits u hip w o z e pos fits other =
      let len = w.usb.data_len in
      let buf = w.usb.data_buf in
      let bytes = take len buf in
      let n : length bytes ≡ len = length-take len buf (omega arith) in
      let elsewhere : (dest_uuid buf == w.node.uuid) ≡ false =
        other_word (dest_uuid buf) w.node.uuid u o.uuid other in
      let short : leb len data_buf_size ≡ true = ground arith in
      let something : ltb 0 len ≡ true = ground arith in
      rw
        (
          complete w.usb e pos fits,
          something,
          elsewhere,
          short,
          slice-runs buf 0 len (omega arith),
          send_packet-ap bytes w.node o.role o.inv.sizes.buf_size (omega arith),
        )
        (
          refl,
          record {
            owned =
                Ensures-some (λ a. Owned ap u a.1) (send_packet (outside bytes) w.node) _
                  (send_packet-Owned (outside bytes) w.node o)
                  (send_packet-ap bytes w.node o.role o.inv.sizes.buf_size (omega arith));
            len = n;
            bytes =
                take-overwrite_front w.node.data_buf bytes (omega (arith, o.inv.sizes.buf_size));
            state = refl;
            tick_kept = refl;
            calls_kept = refl;
          },
          refl,
          refl,
        )

  -- An access point with the invariant that has a new packet of at least a byte from a node, whose
  -- destination is not its own word, passes it to the host: with a driver that is not busy twice
  -- in a row and parts of at least a byte, the part of the loop for WiNoT's packets returns, the
  -- parts that the driver took make up the packet, the packet is released, and sfhip is as before.
  pub winot_part-forwards :
      (u : ℕ) (hip : s.Hip) (w : AccessPoint)
      → 0 < packet_size
      → Recovers answers
      → Owned ap u w.node
      → w.node.state ≡ newrx
      → 0 < w.node.data_len
      → dest_uuid w.node.data_buf ≢ u
      → Ensures
          (λ r.
            (r.0 ≡ hip)
            × (join r.1.wire.taken ≡ join w.wire.taken ++ take w.node.data_len w.node.data_buf)
            × (is_newrx r.1.node.state ≡ false))
          (winot_part packet_size answers s hip w)
  unfolding winot_part winot_taken winot_routed poll_packet
  winot_part-forwards u hip w k recovers o state pos other =
      let word : w.node.data_len % 2 ^ 16 ≡ w.node.data_len = omega (arith, o.inv.sizes.len_fits) in
      let elsewhere : (dest_uuid w.node.data_buf == w.node.uuid) ≡ false =
        other_word (dest_uuid w.node.data_buf) w.node.uuid u o.uuid other in
      let something : ltb 0 w.node.data_len ≡ true = ground arith in
      let full : is_newrx w.node.state ≡ true = rw state refl in
      rw (full, word, something, elsewhere)
        (Ensures->>=
          (λ r.
            (r.0 ≡ hip)
            × (join r.1.wire.taken ≡ join w.wire.taken ++ take w.node.data_len w.node.data_buf)
            × (r.1.node ≡ w.node))
          _ _ _
          (Ensures->>=
            (λ r.
              (join r.1.taken ≡ join w.wire.taken ++ take w.node.data_len w.node.data_buf)
              × (is_busy r.0 ≡ false))
            _ (usb_send_packet packet_size answers w.node.data_buf w.node.data_len w.wire) _
            (usb_send_packet-whole answers recovers packet_size w.node.data_buf w.node.data_len
              w.wire k (omega (arith, o.inv.sizes)))
            λ r h. (refl, h.0, refl))
          λ r h.
            Ensures->>= (λ m. Owned ap u m × (is_newrx m.state ≡ false)) _ (release_packet r.1.node)
              _ (rw h.2 (release_packet-gone ap u w.node o)) λ m g. (h.0, h.1, g.1))
