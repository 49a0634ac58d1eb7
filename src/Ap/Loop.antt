-- ===== src/Ap/Loop.antt =====
-- The access point's main loop: every round returns, and keeps what the hooks keep.
use ch32fun_wi_not_ap.Prelude.{
  some, inl, inr, ℕ, List, length, ◌+◌, ◌≤◌, Ensures, arith, Bool-cases, ◌%◌, ◌^◌, ◌==◌, leb, ltb,
  Ensures->>=, take, drop, not, ◌&&◌,
}
use ch32fun_wi_not_ap.System.Owned.{Owned, release_packet-Owned, send_packet-Owned}
use ch32fun_wi_not_ap.Node.{ap, dest_uuid, is_newrx, data_buf_size}
use ch32fun_wi_not_ap.Ap.{
  AccessPoint, Iface, iface_usb, iface_winot, ApBuffer, from_usb, from_winot, ap_hooks,
  http_response_header, usb_routed, usb_taken, usb_part, winot_routed, winot_taken, winot_part,
}
use ch32fun_wi_not_ap.Ap.Keeping.{
  Intact, with_node, with_wire, ap_hooks-Keeps, usb_send_packet-returns,
}
use ch32fun_wi_not_ap.Usb.{poll, release, equals_short, corrupt_chk}
use ch32fun_wi_not_ap.Usb.Out.{Driver, usb_send_packet}
use ch32fun_wi_not_ap.Http.{response_buf_size}
use ch32fun_wi_not_ap.Sfhip.{Stack, Talk, run, mtu}
use ch32fun_wi_not_ap.Sfhip.Polite.{IsPolite, Polite, run-Ensures}
use ch32fun_wi_not_ap.Request.{poll_packet, release_packet, outside}
use ch32fun_wi_not_ap.Memory.Laws.{slice-runs}

module _ (u : ℕ) (name : List ℕ)
    (short : length http_response_header + length name + 2 ≤ response_buf_size) where
  module _ (packet_size : ℕ) (answers : Driver) (s : Stack) (polite : IsPolite s) where
    pub runs-Intact :
        (b : ApBuffer) (t : Talk s.Hip) (w : AccessPoint)
        → Polite t
        → Intact u name w
        → Ensures (λ r. Intact u name r.1) (run (ap_hooks packet_size answers b) t w)
    runs-Intact b t w p v =
        run-Ensures (ap_hooks packet_size answers b) (Intact u name)
          (ap_hooks-Keeps u name short packet_size answers b) t w p v

    -- The interface on which a packet came in.
    came_by :
        (i : Iface) (w : AccessPoint)
        → Intact u name w
        → Intact u name (record w { last_iface = i })
    came_by i w v = record {
      owned = v.owned;
      usb_size = v.usb_size;
      usb_fits = v.usb_fits;
      scratch_size = v.scratch_size;
      named = v.named;
    }

    usb_routed-Intact :
        (len : ℕ) (pkt : List ℕ) (hip : s.Hip) (w : AccessPoint)
        → len ≤ length pkt
        → Intact u name w
        → Ensures (λ r. Intact u name r.1) (usb_routed packet_size answers s len pkt hip w)
    unfolding usb_routed
    usb_routed-Intact len pkt hip w h v = elim (Bool-cases (dest_uuid pkt == w.node.uuid)) [
      | inl own ↦ elim (Bool-cases (leb len mtu)) [
        | inl fits ↦
            rw (own, fits)
              (runs-Intact from_usb (s.accept_packet hip len) (record w { last_iface = iface_usb })
                (polite.accept_polite hip len (ground arith)) (came_by iface_usb w v))
        | inr big ↦ rw (own, big) v
      ]
      | inr other ↦ elim (Bool-cases (leb len data_buf_size)) [
        | inl fits ↦
            rw (other, fits, slice-runs pkt 0 len (omega arith))
              (Ensures->>= (λ a. Owned ap u a.1) (λ r. Intact u name r.1) _ _
                (send_packet-Owned (outside (take len (drop 0 pkt))) w.node v.owned)
                λ a o. with_node u name a.1 w v o)
        | inr big ↦ rw (other, big) v
      ]
    ]

    freed : (w : AccessPoint) → Intact u name w → Intact u name (record w { usb = release w.usb })
    unfolding release
    freed w v = record {
      owned = v.owned;
      usb_size = v.usb_size;
      usb_fits = omega arith;
      scratch_size = v.scratch_size;
      named = v.named;
    }

    usb_taken-Intact :
        (len : ℕ) (pkt : List ℕ) (hip : s.Hip) (w : AccessPoint)
        → len ≤ length pkt
        → Intact u name w
        → Ensures (λ r. Intact u name r.1) (usb_taken packet_size answers s (some (len, pkt)) hip w)
    unfolding usb_taken
    usb_taken-Intact len pkt hip w h v = elim (Bool-cases (ltb 0 len)) [
      | inr empty ↦ rw empty v
      | inl something ↦ rw something (
          Ensures->>= (λ r. Intact u name r.1) (λ r. Intact u name r.1) _ _
            (usb_routed-Intact len pkt hip w h v) λ r v'. freed r.1 v')
    ]

    -- A poll that finds no packet, or gives up one that is incomplete.
    waited :
        (c : ℕ) (w : AccessPoint)
        → Intact u name w
        → Intact u name (record w { usb = record w.usb { checks = c } })
    waited c w v = record {
      owned = v.owned;
      usb_size = v.usb_size;
      usb_fits = v.usb_fits;
      scratch_size = v.scratch_size;
      named = v.named;
    }

    given_up :
        (c : ℕ) (w : AccessPoint)
        → Intact u name w
        → Intact u name
            (record w { usb = record w.usb { write_idx = 0; data_len = 0; checks = c } })
    given_up c w v = record {
      owned = v.owned;
      usb_size = v.usb_size;
      usb_fits = omega arith;
      scratch_size = v.scratch_size;
      named = v.named;
    }

    pub usb_part-Intact :
        (hip : s.Hip) (w : AccessPoint)
        → Intact u name w
        → Ensures (λ r. Intact u name r.1) (usb_part packet_size answers s hip w)
    unfolding usb_part usb_taken poll
    usb_part-Intact hip w v =
        let m = w.usb in
        elim (Bool-cases (not (m.data_len == 0) && equals_short m.write_idx m.data_len)) [
          | inl whole ↦ rw whole (
              usb_taken-Intact m.data_len m.data_buf hip w (omega (arith, v.usb_size, v.usb_fits))
                v)
          | inr part ↦ elim (Bool-cases (m.data_len == 0)) [
            | inl nothing ↦ rw (part, nothing) v
            | inr some_data ↦ elim (Bool-cases (ltb corrupt_chk m.checks)) [
              | inl late ↦ rw (part, some_data, late) (given_up (m.checks + 1) w v)
              | inr early ↦ rw (part, some_data, early) (waited (m.checks + 1) w v)
            ]
          ]
        ]

    winot_routed-Intact :
        (len : ℕ) (pkt : List ℕ) (hip : s.Hip) (w : AccessPoint)
        → len ≤ length pkt
        → Intact u name w
        → Ensures (λ r. Intact u name r.1) (winot_routed packet_size answers s len pkt hip w)
    unfolding winot_routed
    winot_routed-Intact len pkt hip w h v = elim (Bool-cases (dest_uuid pkt == w.node.uuid)) [
      | inl own ↦ elim (Bool-cases (leb len mtu)) [
        | inl fits ↦
            rw (own, fits)
              (runs-Intact from_winot (s.accept_packet hip len)
                (record w { last_iface = iface_winot })
                (polite.accept_polite hip len (ground arith)) (came_by iface_winot w v))
        | inr big ↦ rw (own, big) v
      ]
      | inr other ↦ rw other (
          Ensures->>= (λ r. Unit {0}) (λ r. Intact u name r.1)
            (usb_send_packet packet_size answers pkt len w.wire) _
            (usb_send_packet-returns packet_size answers pkt len w.wire h)
            λ r t. with_wire u name r.1 w v)
    ]

    pub winot_part-Intact :
        (hip : s.Hip) (w : AccessPoint)
        → Intact u name w
        → Ensures (λ r. Intact u name r.1) (winot_part packet_size answers s hip w)
    unfolding winot_part winot_taken poll_packet
    winot_part-Intact hip w v =
        let len = w.node.data_len % 2 ^ 16 in
        elim (Bool-cases (is_newrx w.node.state)) [
          | inr without ↦ rw without v
          | inl full ↦ elim (Bool-cases (ltb 0 len)) [
            | inr empty ↦ rw (full, empty) v
            | inl something ↦
                rw (full, something)
                  (Ensures->>= (λ r. Intact u name r.1) _ _ _
                    (winot_routed-Intact len w.node.data_buf hip w
                      (omega (arith, v.owned.inv.sizes)) v)
                    λ r v'.
                      Ensures->>= (Owned ap u) (λ r. Intact u name r.1) (release_packet r.1.node) _
                        (release_packet-Owned r.1.node v'.owned) λ n o. with_node u name n r.1 v' o)
          ]
        ]
