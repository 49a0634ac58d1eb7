-- ===== src/Request/Exchange.antt =====
-- A request and its response, from `winot_request` of an idle client over the radio to a listening
-- access point and back.
use ch32fun_wi_not_ap.Prelude.{
  List, ℕ, Ensures, length, ◌≤◌, map, ◌≡◌, [], ◌∷◌, Ensures->>=, arith, length-take, ◌∙◌,
  Ensures-mono, ◌+◌, ◌%◌, ◌^◌, Ensures-both,
}
use ch32fun_wi_not_ap.Request.{outside, request}
use ch32fun_wi_not_ap.Memory.{Frame, load_word}
use ch32fun_wi_not_ap.Radio.Delivery.{Delivers}
use ch32fun_wi_not_ap.Node.{
  Node, idle, fragment_size, client, ap, listening, requesting, ap_channel,
}
use ch32fun_wi_not_ap.Receive.RoundTrip.{receive_all}
use ch32fun_wi_not_ap.Receive.Arrival.{Got, channel_frame}
use ch32fun_wi_not_ap.Node.Invariant.{Inv}
use ch32fun_wi_not_ap.Radio.{sent_frames}
use ch32fun_wi_not_ap.Receive.Exchange.{waiting, Answered, process_rx-Got, process_rx-Answered}
use ch32fun_wi_not_ap.Receive.{process_rx}
use ch32fun_wi_not_ap.Request.Reaches.{request_frame, request-sends, Requested}
use ch32fun_wi_not_ap.Request.Calls.{request-Inv}

receive_one :
    (P : Node → Type 0) (f : Frame) (n : Node)
    → Ensures P (process_rx f n)
    → Ensures P (receive_all (f ∷ []) n)
unfolding receive_all
receive_one P f n h = Ensures->>= P P _ _ h λ m p. p

-- The client's end of the exchange: what it takes from the access point's answer.
abbrev Returned : (List ℕ → Frame) → List ℕ → Node → Node → Type 0
Returned deliver answer c a =
    Ensures (Got idle answer) (receive_all (map deliver (sent_frames a.calls)) c)

module _ (deliver : List ℕ → Frame) (ok : Delivers deliver) where
  -- An idle client with the invariant requests with at most 245 bytes, and a listening access
  -- point with the invariant whose waiting packet has at most 245 bytes handles the frame that
  -- comes over a radio that delivers; neither has put anything on the air before. The request and
  -- the handling return; the access point then has the client's bytes as a new packet, or listens
  -- on when there are none, and it has transmitted a response from which the requesting client
  -- gets the access point's packet as a new one, or becomes idle when none waited.
  request-exchange :
      (bytes : List ℕ) (c a : Node)
      → length bytes ≤ fragment_size
      → Inv c
      → c.role ≡ client
      → c.state ≡ idle
      → sent_frames c.calls ≡ []
      → Inv a
      → a.role ≡ ap
      → a.state ≡ listening
      → a.data_len ≤ fragment_size
      → sent_frames a.calls ≡ []
      → Ensures
          (λ c'.
            Ensures
              (λ a'. Got listening bytes a' × Returned deliver (waiting a) c' a')
              (receive_all (map deliver (sent_frames c'.calls)) a))
          (request (outside bytes) c)
  request-exchange bytes c a short ci cr cs cq ai ar al h aq =
      Ensures-mono (λ c'. Inv c' × Requested bytes c c') _ (request (outside bytes) c)
        (λ c' p.
          let air : sent_frames c'.calls ≡ request_frame c.uuid bytes ∷ [] = p.1.frames ∙ rw cq in
          rw air (
            receive_one _ (deliver (request_frame c.uuid bytes)) a (
              Ensures-mono (Answered (load_word (deliver (request_frame c.uuid bytes)) 4) bytes a) _
                _
                (λ a' answered.
                  (answered.got, returned _ c' a' answered p.0 p.1.asked (p.1.role_kept ∙ cr)))
                (process_rx-Answered deliver ok ((length bytes + 6) % 2 ^ 8) c.uuid bytes a ai.sizes
                  ar al h short))))
        (Ensures-both Inv (Requested bytes c) (request (outside bytes) c)
          (request-Inv (outside bytes) c ci) (request-sends bytes c ci.sizes cs short))
    where
      returned :
          (u : ℕ) (c' a' : Node)
          → Answered u bytes a a'
          → Inv c'
          → c'.state ≡ requesting
          → c'.role ≡ client
          → Returned deliver (waiting a) c' a'
      returned u c' a' answered v e r =
          let small : length (waiting a) ≤ fragment_size =
            omega (arith, length-take a.data_len a.data_buf) in
          let air : sent_frames a'.calls ≡ channel_frame 0 ap_channel a.uuid (waiting a) ∷ [] =
            answered.response ∙ rw aq in
          rw air (
            receive_one _ (deliver (channel_frame 0 ap_channel a.uuid (waiting a))) c'
              (process_rx-Got deliver ok 0 a.uuid (waiting a) c' v.sizes r e small))
