-- ===== src/Request/Collision.antt =====
-- A client asks for a data channel while a packet waits at the access point.
use ch32fun_wi_not_ap.Prelude.{
  some, List, ℕ, ◌<◌, length, ◌≤◌, ◌^◌, ◌≡◌, Ensures, length-take, arith, Ensures->>=, ◌∙◌, ◌+◌,
  ◌/◌,
}
use ch32fun_wi_not_ap.Memory.{Frame}
use ch32fun_wi_not_ap.Radio.Delivery.{Delivers}
use ch32fun_wi_not_ap.Node.{
  Node, fragment_size, data_buf_size, client, idle, ap, listening, ap_access_address, ap_channel,
  active_channel,
}
use ch32fun_wi_not_ap.Node.Invariant.{Inv}
use ch32fun_wi_not_ap.Radio.Tuning.{tuned}
use ch32fun_wi_not_ap.Request.Upload.{Taken, upload, Asking, request-Asking, burst-Taken}
use ch32fun_wi_not_ap.Receive.Exchange.{waiting}
use ch32fun_wi_not_ap.Receive.Laden.{Gave, process_rx-Gave, Echoed, process_rx-Echoed}
use ch32fun_wi_not_ap.Receive.Hears.{hears_one}
use ch32fun_wi_not_ap.Receive.Bare.{bare}
use ch32fun_wi_not_ap.Receive.Arrival.{channel_frame}

module _ (deliver : List ℕ → Frame) (ok : Delivers deliver) (bytes : List ℕ) where
  -- An idle client with the invariant and a uuid of 32 bits requests with 246 to 1715 bytes while
  -- a packet of 1 to 245 bytes waits at a listening access point with the invariant, whose radio
  -- was last told to listen on the request channel and which has no marks but of the first
  -- fragment. Each hears what the other transmits to the address and on the channel that it
  -- listens to, over a radio that delivers. The calls return, and the client's bytes are lost: the
  -- access point ends with a new packet that is its own waiting one, and the client communicates
  -- without a packet.
  pub upload-echoes :
      (c a : Node)
      → fragment_size < length bytes
      → length bytes ≤ data_buf_size
      → Inv c
      → c.uuid < 2 ^ 32
      → c.role ≡ client
      → c.state ≡ idle
      → Inv a
      → a.role ≡ ap
      → a.state ≡ listening
      → 0 < a.data_len
      → a.data_len ≤ fragment_size
      → tuned a.calls ≡ some (ap_access_address, ap_channel)
      → a.fragments_received < 2
      → Ensures (Taken a.uuid (waiting a)) (upload deliver bytes c a)
  upload-echoes c a big fits ci cu cr cs ai ar al pos short aired marks =
      let len : length (waiting a) ≡ a.data_len =
        length-take a.data_len a.data_buf (omega (arith, ai.sizes.len_fits, ai.sizes.buf_size)) in
      let one : (a.data_len + 244) / 245 ≡ 1 = omega arith in
      Ensures->>= (Asking bytes c) (Taken a.uuid (waiting a)) _ _
        (request-Asking bytes c ci.sizes cr cs big fits)
        λ c₁ q.
          Ensures->>= (Gave c.uuid a) (Taken a.uuid (waiting a)) _ _
            (hears_one deliver ap_access_address ap_channel c c₁ a (Gave c.uuid a)
              (bare 8 6 0 c.uuid) aired q.air
              (process_rx-Gave deliver ok c.uuid a ai.sizes cu ar al pos short))
            λ a₁ g.
              Ensures->>= (Echoed (active_channel a₁) (waiting a) c₁) (Taken a.uuid (waiting a)) _ _
                (hears_one deliver c.uuid ap_channel a a₁ c₁
                  (Echoed (active_channel a₁) (waiting a) c₁)
                  (channel_frame 0 (active_channel a₁) a.uuid (waiting a)) q.listens g.answered
                  (process_rx-Echoed deliver ok (active_channel a₁) a.uuid (waiting a) c₁
                    (ground arith) q.inv.sizes (q.role_kept ∙ cr) q.asked (omega (arith, len))
                    (omega (arith, len))))
                λ c₂ e.
                  burst-Taken deliver ok (waiting a) a.uuid c₁.uuid (active_channel a₁) e.buf c₁ c₂
                    a₁ (omega (arith, len)) (omega (arith, len)) e.holds e.buf_size e.air
                    e.given_away e.on_channel g.owned g.on_channel (rw q.uuid_kept g.listens)
                    (rw (len, one, g.marks_kept) marks)
