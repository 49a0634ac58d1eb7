-- ===== src/Ap/Crossing.antt =====
-- A packet from the host and one from a node at the same time.
use ch32fun_wi_not_ap.Prelude.{
  ◌>>=◌, ℕ, take, ◌<◌, ◌≤◌, Option, ◌≡◌, arith, length, ◌≢◌, Ensures, join, ◌++◌, false, sym, ◌∙◌,
  Ensures->>=, Ensures-mono,
}
use ch32fun_wi_not_ap.Node.{ap, newrx, dest_uuid, data_buf_size, is_newrx, Node}
use ch32fun_wi_not_ap.Ap.{AccessPoint, usb_part, winot_part}
use ch32fun_wi_not_ap.Ap.Routes.{Waits, usb_part-Waits, winot_part-forwards}
use ch32fun_wi_not_ap.Usb.Out.{Driver}
use ch32fun_wi_not_ap.Sfhip.{Stack}
use ch32fun_wi_not_ap.Usb.Out.Whole.{Recovers}
use ch32fun_wi_not_ap.System.Owned.{Owned}
use ch32fun_wi_not_ap.Usb.{usb_buf_size}
use ch32fun_wi_not_ap.Node.Destination.{dest_uuid-same}

module _ (packet_size : ℕ) (answers : Driver) (s : Stack) where
  -- The two parts of the loop for packets.
  abbrev pub packet_parts : s.Hip → AccessPoint → Option (s.Hip × AccessPoint)
  packet_parts hip w = do
    (hip', w') ← usb_part packet_size answers s hip w
    winot_part packet_size answers s hip' w'

  -- When an access point with the invariant has a new packet from a node that was not polled yet,
  -- and, in a buffer of 2048 bytes, a complete packet of 6 to 1715 bytes from the host for another
  -- word than its own, the two parts of the loop for packets return, send the host its own packet
  -- back, and leave no new packet: with a driver that is not busy twice in a row and parts of at
  -- least a byte, what the driver took is the host's packet and nothing of the node's.
  pub packet_parts-crossing :
      (u : ℕ) (hip : s.Hip) (w : AccessPoint)
      → 0 < packet_size
      → Recovers answers
      → Owned ap u w.node
      → w.node.state ≡ newrx
      → length w.usb.data_buf ≡ usb_buf_size
      → w.usb.write_idx ≡ w.usb.data_len
      → 6 ≤ w.usb.data_len
      → w.usb.data_len ≤ data_buf_size
      → dest_uuid w.usb.data_buf ≢ u
      → Ensures
          (λ r.
            (join r.1.wire.taken ≡ join w.wire.taken ++ take w.usb.data_len w.usb.data_buf)
            × (is_newrx r.1.node.state ≡ false))
          (packet_parts hip w)
  packet_parts-crossing u hip w k recovers o state z e pos fits other =
      Ensures->>=
        (λ r. (r.0 ≡ hip) × Waits u w r.1.node × (r.1.usb.data_len ≡ 0) × (r.1.wire ≡ w.wire)) _ _ _
        (usb_part-Waits packet_size answers s u hip w o z e (omega arith) fits other)
        λ r h.
          let n = r.1.node in
          let far : dest_uuid n.data_buf ≢ u = λ q. other (sym (same_dest r.1.node h.1) ∙ q) in
          Ensures-mono _
            (λ q.
              (join q.1.wire.taken ≡ join w.wire.taken ++ take w.usb.data_len w.usb.data_buf)
              × (is_newrx q.1.node.state ≡ false))
            _ (λ q g. (rw (h.3, h.1.bytes) at g.1, g.2))
            (winot_part-forwards packet_size answers s u r.0 r.1 k recovers h.1.owned
              (h.1.state ∙ state) (omega (arith, h.1.len)) far)
    where
      same_dest : (n : Node) → Waits u w n → dest_uuid n.data_buf ≡ dest_uuid w.usb.data_buf
      same_dest n v =
          dest_uuid-same n.data_buf w.usb.data_buf w.usb.data_len pos (rw v.len at v.bytes)
