-- ===== src/Ap/Delivery.antt =====
-- Packets all the way between the USB host and a WiNoT client, through the access point.
use ch32fun_wi_not_ap.Prelude.{
  zero, suc, some, true, false, ◌>>=◌, ℕ, List, Option, ◌<◌, length, ◌+◌, ◌≤◌, ◌≢◌, ◌≡◌, ◌^◌,
  Ensures, join, ◌++◌, Ensures->>=, take, ◌∙◌, take-length, Ensures-mono, arith, sym,
}
use ch32fun_wi_not_ap.Usb.Out.{Driver}
use ch32fun_wi_not_ap.Sfhip.{Stack}
use ch32fun_wi_not_ap.Memory.{Frame}
use ch32fun_wi_not_ap.Ap.{AccessPoint, winot_part, usb_part}
use ch32fun_wi_not_ap.Node.{
  Node, fragment_size, data_buf_size, dest_uuid, client, idle, ap, listening, ap_access_address,
  ap_channel, response_window_ms, is_newrx,
}
use ch32fun_wi_not_ap.Radio.Delivery.{Delivers}
use ch32fun_wi_not_ap.Usb.Parts.{
  Carries, receive_parts, parts, transfer, is_harmless, Filling, Runs,
}
use ch32fun_wi_not_ap.Request.Upload.{upload, Taken, upload-Taken}
use ch32fun_wi_not_ap.Usb.Out.Whole.{Recovers}
use ch32fun_wi_not_ap.Ap.Safety.{left_by}
use ch32fun_wi_not_ap.Request.Download.{download, Downloaded, download-Downloaded, Outcome}
use ch32fun_wi_not_ap.Node.Invariant.{Inv}
use ch32fun_wi_not_ap.Usb.{bootloader, goes_on, usb_buf_size, at_start, Usb, After}
use ch32fun_wi_not_ap.System.Owned.{Owned}
use ch32fun_wi_not_ap.Radio.Tuning.{tuned}
use ch32fun_wi_not_ap.Receive.RoundTrip.{fragment_count}
use ch32fun_wi_not_ap.Ap.Routes.{Waits, winot_part-forwards, usb_part-Waits}
use ch32fun_wi_not_ap.Receive.Reassembly.{Collected}
use ch32fun_wi_not_ap.Node.Destination.{dest_uuid-same}
use ch32fun_wi_not_ap.Usb.Transfer.{receive_parts-Filling}

-- The same bytes collected.
Collected-same :
    (xs ys : List ℕ) (k l : ℕ) (n : Node)
    → k ≡ l
    → take l xs ≡ take l ys
    → Collected xs k n
    → Collected ys l n
Collected-same xs ys k l n e h c = record {
  new_packet = c.new_packet;
  whole_len = c.whole_len ∙ e;
  whole = (rw e at c.whole) ∙ h;
  no_marks = c.no_marks;
}

Outcome-same :
    (i : ℕ) (xs ys : List ℕ) (k l : ℕ) (n : Node)
    → k ≡ l
    → take l xs ≡ take l ys
    → Outcome i xs k n
    → Outcome i ys l n
Outcome-same zero xs ys k l n e h c = Collected-same xs ys k l n e h c
Outcome-same (suc i) xs ys k l n e h c = c

module _ (packet_size : ℕ) (answers : Driver) (s : Stack) (deliver : List ℕ → Frame) where
  -- The host sends a packet in parts, the access point's loop takes it, and the client asks for it.
  abbrev pub host_to_client :
      (List ℕ → Frame) → ℕ → ℕ → List ℕ → s.Hip → AccessPoint → Node → Option (Node × Node)
  host_to_client arrive dt k packet hip w c = do
    after ←
        receive_parts packet_size arrive (parts packet_size (length packet + 3) (transfer packet))
          w.usb
    (hip', w') ← usb_part packet_size answers s hip (record w { usb = left_by after w.usb })
    download deliver dt k c w'.node

  -- The client sends a packet to the access point, whose loop sends it on.
  abbrev pub client_to_host : List ℕ → s.Hip → Node → AccessPoint → Option (s.Hip × AccessPoint)
  client_to_host bytes hip c w = do
    (c', a) ← upload deliver bytes c w.node
    winot_part packet_size answers s hip (record w { node = a })

  module _ (ok : Delivers deliver) where
    -- An idle client with the invariant and a uuid of 32 bits requests with 246 to 1715 bytes
    -- whose destination is not the access point's word; the access point, with the invariant,
    -- listening on the request channel without a packet, has marks of no fragments but those that
    -- the packet has. Each hears what the other transmits to the address and on the channel that
    -- it listens to, over a radio that delivers. Then the request, the handling of what each hears
    -- and the part of the access point's loop for packets from nodes return, and with a driver
    -- that is not busy twice in a row and parts of at least a byte the parts that the driver took
    -- make up the client's bytes, and the packet is released.
    pub client_to_host-forwards :
        (u : ℕ) (bytes : List ℕ) (hip : s.Hip) (c : Node) (w : AccessPoint)
        → 0 < packet_size
        → Recovers answers
        → fragment_size < length bytes
        → length bytes ≤ data_buf_size
        → dest_uuid bytes ≢ u
        → Inv c
        → c.uuid < 2 ^ 32
        → c.role ≡ client
        → c.state ≡ idle
        → Owned ap u w.node
        → w.node.state ≡ listening
        → w.node.data_len ≡ 0
        → tuned w.node.calls ≡ some (ap_access_address, ap_channel)
        → w.node.fragments_received < 2 ^ fragment_count (length bytes)
        → Ensures
            (λ r.
              (join r.1.wire.taken ≡ join w.wire.taken ++ bytes)
              × (is_newrx r.1.node.state ≡ false))
            (client_to_host bytes hip c w)
    client_to_host-forwards u bytes hip c w k recovers big fits far ci cu cr cs o al none_waits
          aired marks =
        Ensures->>= (Taken w.node.uuid bytes) _ _ _
          (upload-Taken deliver ok bytes c w.node big fits ci cu cr cs o.inv o.role al none_waits
            aired marks)
          λ r t.
            let same : take r.1.data_len r.1.data_buf ≡ bytes =
              rw (t.collected.whole_len) (t.collected.whole ∙ take-length bytes) in
            Ensures-mono
              (λ (q : s.Hip × AccessPoint).
                (q.0 ≡ hip)
                × (join q.1.wire.taken ≡ join w.wire.taken ++ take r.1.data_len r.1.data_buf)
                × (is_newrx q.1.node.state ≡ false))
              _ _ (λ q h. (rw same at h.1, h.2))
              (winot_part-forwards packet_size answers s u hip (record w { node = r.1 }) k recovers
                (rw o.uuid at t.owned) t.collected.new_packet (omega (arith, t.collected.whole_len))
                (λ e. far (
                  dest_uuid-same bytes r.1.data_buf (length bytes) (omega arith)
                    (sym t.collected.whole)
                  ∙ e)))

    -- The USB host sends a packet of 246 to 1715 bytes for a client behind its length, in parts of
    -- more than two bytes each but for the last, none of which reads as the command for the boot
    -- loader; the access point, with the invariant, its packet buffer of 2048 bytes at the start
    -- of a packet, and listening on the request channel, goes through the part of its loop for the
    -- host's packets; the client, idle, with the invariant, a uuid of 32 bits that is the packet's
    -- destination and not the access point's word, and no marks of fragments, requests with no
    -- bytes. The clocks of both are 32-bit words, and USB brings the bytes. Each node handles what
    -- it hears of the other, on the address and the channel that it listens to and over a radio
    -- that delivers, in calls of winot_tick, a frame for each, that are at most 20 ms apart; k
    -- fragments are on the air before the client's call that handles the answer has turned to the
    -- data channel. Then all calls return, and the access point has no packet left. When k is zero
    -- the client has a new packet with the host's bytes and no marks; otherwise the host's packet
    -- is lost: the client communicates still, without a packet. In both cases it has its role, its
    -- uuid and the invariant.
    pub host_to_client-Downloaded :
        (arrive : List ℕ → Frame) (dt k u : ℕ) (packet : List ℕ) (hip : s.Hip) (w : AccessPoint)
        (c : Node)
        → Carries arrive
        → 2 < packet_size
        → fragment_size < length packet
        → length packet ≤ data_buf_size
        → is_harmless arrive (parts packet_size (length packet + 3) (transfer packet)) ≡ true
        → length w.usb.data_buf ≡ usb_buf_size
        → at_start w.usb ≡ true
        → Owned ap u w.node
        → w.node.state ≡ listening
        → tuned w.node.calls ≡ some (ap_access_address, ap_channel)
        → w.node.tick < 2 ^ 32
        → dt ≤ response_window_ms
        → dest_uuid packet ≡ c.uuid
        → c.uuid ≢ u
        → c.uuid < 2 ^ 32
        → Inv c
        → c.role ≡ client
        → c.state ≡ idle
        → c.tick < 2 ^ 32
        → c.fragments_received ≡ 0
        → Ensures
            (Downloaded c.uuid k packet (length packet))
            (host_to_client arrive dt k packet hip w c)
    host_to_client-Downloaded arrive dt k u packet hip w c carries parted big fits quiet z start o
          al aired now soon for apart cu ci cr cs ct none_yet =
        Ensures->>= (Runs (Filling (length packet) packet))
          (Downloaded c.uuid k packet (length packet)) _ _
          (receive_parts-Filling arrive carries packet_size packet w.usb parted (omega arith)
            (omega arith) z start quiet)
          taken
      where
        fetched :
            (m : Usb) (n : Node)
            → Filling (length packet) packet m
            → Waits u (record w { usb = m }) n
            → Ensures (Downloaded c.uuid k packet (length packet)) (download deliver dt k c n)
        fetched m n v q =
            let len : n.data_len ≡ length packet = q.len ∙ v.announced in
            let bytes : take (length packet) n.data_buf ≡ packet =
              (rw (len, v.announced) at q.bytes) ∙ v.stored in
            let whole : take (length packet) n.data_buf ≡ take (length packet) packet =
              bytes ∙ sym (take-length packet) in
            Ensures-mono (Downloaded c.uuid k n.data_buf n.data_len)
              (Downloaded c.uuid k packet (length packet)) _
              (λ r f. record {
                owned = f.owned;
                outcome =
                    Outcome-same k n.data_buf packet n.data_len (length packet) r.0 len whole
                      f.outcome;
                given_away = f.given_away;
                on_channel = f.on_channel;
              })
              (download-Downloaded deliver ok dt k c n ci cu cr cs ct none_yet q.owned.inv
                q.owned.role (q.state ∙ al) (rw q.tick_kept now) (omega (arith, len))
                (dest_uuid-same n.data_buf packet (length packet) (omega arith) whole ∙ for)
                (rw q.calls_kept aired) soon)

        taken :
            (after : After)
            → Runs (Filling (length packet) packet) after
            → Ensures (Downloaded c.uuid k packet (length packet)) (do
              (hip', w') ←
                  usb_part packet_size answers s hip (record w { usb = left_by after w.usb })
              download deliver dt k c w'.node)
        taken bootloader v = absurd v
        taken (goes_on m) v =
            Ensures->>=
              (λ (r : s.Hip × AccessPoint).
                (r.0 ≡ hip)
                × Waits u (record w { usb = m }) r.1.node
                × (r.1.usb.data_len ≡ 0)
                × (r.1.wire ≡ w.wire))
              (Downloaded c.uuid k packet (length packet)) _ _
              (usb_part-Waits packet_size answers s u hip (record w { usb = m }) o v.buf_size
                (v.at_end ∙ sym v.announced) (omega (arith, v.announced))
                (omega (arith, v.announced))
                (λ e. apart (
                  sym (
                    dest_uuid-same m.data_buf packet (length packet) (omega arith)
                      (v.stored ∙ sym (take-length packet))
                    ∙ for)
                  ∙ e)))
              λ r h. fetched m r.1.node v h.1
