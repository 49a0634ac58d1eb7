-- ===== src/Ap/Meeting.antt =====
-- A packet of the host and one of a client, each of at most a fragment, in one request and its response.
use ch32fun_wi_not_ap.Prelude.{
  some, true, false, ◌>>=◌, [], ◌∷◌, List, ℕ, ◌<◌, ◌≤◌, length, ◌≡◌, take, Option, arith, join,
  ◌++◌, ◌∙◌, ◌+◌, ◌≢◌, sym, take-length, ◌^◌, Ensures, Ensures-mono, Ensures->>=, inr,
}
use ch32fun_wi_not_ap.Ap.Routes.{Waits, winot_part-forwards, usb_part-Waits}
use ch32fun_wi_not_ap.Usb.{bootloader, goes_on, usb_buf_size, at_start, After}
use ch32fun_wi_not_ap.Ap.Safety.{left_by}
use ch32fun_wi_not_ap.Node.{
  State, Node, newrx, idle, dest_uuid, fragment_size, is_newrx, ap, listening, ap_access_address,
  ap_channel, client,
}
use ch32fun_wi_not_ap.Usb.Out.{Driver}
use ch32fun_wi_not_ap.Sfhip.{Stack}
use ch32fun_wi_not_ap.Memory.{Frame}
use ch32fun_wi_not_ap.Receive.Arrival.{Got}
use ch32fun_wi_not_ap.Ap.{AccessPoint, usb_part, winot_part}
use ch32fun_wi_not_ap.Radio.Delivery.{Delivers}
use ch32fun_wi_not_ap.Usb.Parts.{
  Carries, receive_parts, parts, transfer, is_harmless, Runs, Filling,
}
use ch32fun_wi_not_ap.Usb.Out.Whole.{Recovers}
use ch32fun_wi_not_ap.Node.Destination.{dest_uuid-same}
use ch32fun_wi_not_ap.Request.Turn.{turn, Swapped, turn-Swapped, Addressed, same_dest}
use ch32fun_wi_not_ap.System.Owned.{Owned}
use ch32fun_wi_not_ap.Radio.Tuning.{tuned}
use ch32fun_wi_not_ap.Node.Invariant.{Inv}
use ch32fun_wi_not_ap.Receive.Exchange.{waiting}
use ch32fun_wi_not_ap.Usb.Transfer.{receive_parts-Filling}

Got-bytes :
    (before : State) (bytes : List ℕ) (n : Node)
    → 0 < length bytes
    → Got before bytes n
    → (n.state ≡ newrx) × (n.data_len ≡ length bytes) × (take n.data_len n.data_buf ≡ bytes)
Got-bytes before [] n h got = absurd (omega arith)
Got-bytes before (b ∷ bytes) n h got = got

module _ (packet_size : ℕ) (answers : Driver) (s : Stack) (deliver : List ℕ → Frame) where
  -- The host sends `packet` in parts, the access point's loop takes it, the client requests with
  -- `bytes`, and the access point's loop sends on what it has.
  abbrev pub meeting :
      (List ℕ → Frame)
      → ℕ
      → List ℕ
      → List ℕ
      → s.Hip
      → AccessPoint
      → Node
      → Option (Node × AccessPoint)
  meeting arrive dt packet bytes hip w c = do
    after ←
        receive_parts packet_size arrive (parts packet_size (length packet + 3) (transfer packet))
          w.usb
    (hip', w') ← usb_part packet_size answers s hip (record w { usb = left_by after w.usb })
    (c', a) ← turn deliver dt bytes c w'.node
    (hip'', w'') ← winot_part packet_size answers s hip' (record w' { node = a })
    some (c', w'')

  -- The client has the host's packet, and the host the client's.
  abbrev pub Met : ℕ → AccessPoint → List ℕ → List ℕ → Node × AccessPoint → Type 0
  Met to w packet bytes r =
      Got idle packet r.0
      × Addressed to packet r.0
      × (join r.1.wire.taken ≡ join w.wire.taken ++ bytes)
      × (is_newrx r.1.node.state ≡ false)

  module _ (ok : Delivers deliver) where
    -- A packet of 6 to 245 bytes from the USB host for a client, sent in parts of more than two
    -- bytes each but for the last, none of which reads as the command for the boot loader, and 6
    -- to 245 bytes with which that client, idle, with the invariant and a uuid of 32 bits that is
    -- the packet's destination and not the access point's word, requests, for another word than
    -- that of the access point, change places in one exchange: the access point, with the
    -- invariant, its packet buffer of 2048 bytes at the start of a packet, and listening on the
    -- request channel, takes the host's packet, answers the request, and goes through the part of
    -- its loop for packets from nodes. USB brings the bytes, each node handles what it hears of
    -- the other, on the address and the channel that it listens to and over a radio that delivers,
    -- in a call of winot_tick, however many milliseconds pass, and the driver is not busy twice in
    -- a row. Then all calls return, the client has the host's bytes as a new packet with its own
    -- uuid as the destination, what the driver took is the client's bytes, and the access point
    -- has no new packet left.
    pub meeting-Met :
        (arrive : List ℕ → Frame) (dt u : ℕ) (packet bytes : List ℕ) (hip : s.Hip) (w : AccessPoint)
        (c : Node)
        → Carries arrive
        → Recovers answers
        → 2 < packet_size
        → 6 ≤ length packet
        → length packet ≤ fragment_size
        → dest_uuid packet ≡ c.uuid
        → c.uuid ≢ u
        → is_harmless arrive (parts packet_size (length packet + 3) (transfer packet)) ≡ true
        → length w.usb.data_buf ≡ usb_buf_size
        → at_start w.usb ≡ true
        → Owned ap u w.node
        → w.node.state ≡ listening
        → tuned w.node.calls ≡ some (ap_access_address, ap_channel)
        → 6 ≤ length bytes
        → length bytes ≤ fragment_size
        → dest_uuid bytes ≢ u
        → c.uuid < 2 ^ 32
        → Inv c
        → c.role ≡ client
        → c.state ≡ idle
        → Ensures (Met c.uuid w packet bytes) (meeting arrive dt packet bytes hip w c)
    meeting-Met arrive dt u packet bytes hip w c carries recovers k some_bytes fits for apart quiet
          z start o al aired more short away cu ci cr cs =
        Ensures->>= (Runs (Filling (length packet) packet)) (Met c.uuid w packet bytes) _ _
          (receive_parts-Filling arrive carries packet_size packet w.usb k (omega arith)
            (omega arith) z start quiet)
          taken
      where
        -- What the access point has from the client goes on to the host.
        sent_on :
            (hip' : s.Hip) (w' : AccessPoint) (a : Node)
            → w'.wire ≡ w.wire
            → Owned ap u a
            → Got listening bytes a
            → Ensures
                (λ (q : s.Hip × AccessPoint).
                  (join q.1.wire.taken ≡ join w.wire.taken ++ bytes)
                  × (is_newrx q.1.node.state ≡ false))
                (winot_part packet_size answers s hip' (record w' { node = a }))
        sent_on hip' w' a same own got =
            let full = Got-bytes listening bytes a (omega arith) got in
            Ensures-mono
              (λ (q : s.Hip × AccessPoint).
                (q.0 ≡ hip')
                × (join q.1.wire.taken ≡ join w'.wire.taken ++ take a.data_len a.data_buf)
                × (is_newrx q.1.node.state ≡ false))
              _ _ (λ q h. (rw (same, full.2) at h.1, h.2))
              (winot_part-forwards packet_size answers s u hip' (record w' { node = a })
                (omega arith) recovers own full.0 (omega (arith, full.1))
                (λ e. away (sym (same_dest bytes a more full.1 full.2) ∙ e)))

        taken :
            (after : After)
            → Runs (Filling (length packet) packet) after
            → Ensures (Met c.uuid w packet bytes) (do
              (hip', w') ←
                  usb_part packet_size answers s hip (record w { usb = left_by after w.usb })
              (c', a) ← turn deliver dt bytes c w'.node
              (hip'', w'') ← winot_part packet_size answers s hip' (record w' { node = a })
              some (c', w''))
        taken bootloader v = absurd v
        taken (goes_on m) v =
            Ensures->>=
              (λ (r : s.Hip × AccessPoint).
                (r.0 ≡ hip)
                × Waits u (record w { usb = m }) r.1.node
                × (r.1.usb.data_len ≡ 0)
                × (r.1.wire ≡ w.wire))
              (Met c.uuid w packet bytes) _ _
              (usb_part-Waits packet_size answers s u hip (record w { usb = m }) o v.buf_size
                (v.at_end ∙ sym v.announced) (omega (arith, v.announced))
                (omega (arith, v.announced))
                (λ e. apart (
                  sym (
                    dest_uuid-same m.data_buf packet (length packet) some_bytes
                      (v.stored ∙ sym (take-length packet))
                    ∙ for)
                  ∙ e)))
              λ r h.
                let n = r.1.node in
                let q = h.1 in
                let len : n.data_len ≡ length packet = q.len ∙ v.announced in
                let held : waiting n ≡ packet = (rw v.announced at q.bytes) ∙ v.stored in
                Ensures->>= (Swapped c.uuid u bytes packet) (Met c.uuid w packet bytes) _ _
                  (Ensures-mono (Swapped c.uuid n.uuid bytes (waiting n))
                    (Swapped c.uuid u bytes packet) _ (λ p sw. rw (q.owned.uuid, held) at sw)
                    (turn-Swapped deliver ok dt bytes c n short ci cu cr cs q.owned.inv q.owned.role
                      (q.state ∙ al) (omega (arith, len))
                      (inr (omega (arith, len), same_dest packet n some_bytes len held ∙ for))
                      (rw q.calls_kept aired)))
                  λ p sw.
                    Ensures->>=
                      (λ (k : s.Hip × AccessPoint).
                        (join k.1.wire.taken ≡ join w.wire.taken ++ bytes)
                        × (is_newrx k.1.node.state ≡ false))
                      (Met c.uuid w packet bytes) _ _ (sent_on r.0 r.1 p.1 h.3 sw.owned sw.taken)
                      λ k g. (sw.returned, sw.addressed, g.0, g.1)
