-- ===== src/Receive/Exchange.antt =====
-- The answer of a listening access point to a request without a data channel, and the client's next
-- state.
use ch32fun_wi_not_ap.Prelude.{
  refl, take, List, drop, ℕ, ◌≡◌, ◌≤◌, Ensures, false, arith, Bool-cases, not, ◌==◌, ◌++◌, length,
  ◌&&◌, inl, ◌||◌, ◌∷◌, Ensures->>=, inr, true, [], get_or-set_self, set, length-take, length-set,
  Ensures-mono, ◌∙◌,
}
use ch32fun_wi_not_ap.Receive.{
  after_response, answer_request, ap_needs_datachannel, client_needs_datachannel, give_payload,
  request_len, route_request, follow_channel, process_rx, rx_by, ap_request, client_response,
}
use ch32fun_wi_not_ap.Node.{
  Node, fragment_size, active_channel, ap_channel, listening, change_state, State, emit, requesting,
  idle, ap, client, Role,
}
use ch32fun_wi_not_ap.Routing.{store}
use ch32fun_wi_not_ap.Memory.{Frame, load_word, copy}
use ch32fun_wi_not_ap.Node.Invariant.{Sizes}
use ch32fun_wi_not_ap.Radio.{sent_frames, transmit, Call}
use ch32fun_wi_not_ap.Receive.Arrival.{
  Got, channel_frame, take_payload-Got, channel-arrives, len-arrives, pdu-arrives, payload-arrives,
}
use ch32fun_wi_not_ap.Memory.Laws.{slice-runs, into_array-runs}
use ch32fun_wi_not_ap.Radio.Delivery.{Delivers}
use ch32fun_wi_not_ap.Receive.Route.{route_request-Routed}
use ch32fun_wi_not_ap.Radio.Tuning.{sent_to}
use ch32fun_wi_not_ap.Fragment.Address.{sent_to-transmit}

-- The packet that waits at a node.
abbrev pub waiting : Node → List ℕ
waiting n = take n.data_len n.data_buf

no_channel :
    (uuid : ℕ) (n : Node) → n.data_len ≤ fragment_size → ap_needs_datachannel uuid n ≡ false
no_channel uuid n h = ground arith

-- Neither side asks for a data channel, so the request's channel is the request channel.
route_request-stays :
    (f : Frame) (n : Node)
    → Sizes n
    → f 0 ≡ 0
    → n.data_len ≤ fragment_size
    → (active_channel (route_request f n) ≡ ap_channel) × ((route_request f n).calls ≡ n.calls)
unfolding route_request store
route_request-stays f n z e h =
    let uuid = load_word f 4 in
    let n' = (store uuid n).1 in
    let idx = (store uuid n).0 in
    let no_need : ap_needs_datachannel uuid n ≡ false = no_channel uuid n h in
    let stays : ((not (ap_needs_datachannel uuid n) && not (client_needs_datachannel f))
          || not (f 2 == 0))
        ≡ true =
      rw (no_need, e) in
    rw
      (
        stays,
        get_or-set_self (set n'.datachannel 0 idx) 0 ap_channel 0
            (omega (arith, length-set n'.datachannel 0 idx, length-set n.datachannel idx uuid)),
      )
      (refl, refl)

-- The response carries the packet that waits.
record Gives (n : Node) (r : List ℕ × Node) : Type 0 where
  sizes : Sizes r.1
  given : r.0 ≡ waiting n
  state_kept : r.1.state ≡ n.state
  uuid_kept : r.1.uuid ≡ n.uuid
  channel_kept : r.1.datachannel ≡ n.datachannel
  calls_kept : r.1.calls ≡ n.calls

give_payload-Gives :
    (n : Node) → Sizes n → n.data_len ≤ fragment_size → Ensures (Gives n) (give_payload false n)
unfolding give_payload take drop
give_payload-Gives n z h = elim (Bool-cases (n.data_len == 0)) [
  | inl e ↦
      let empty : n.data_len ≡ 0 = ground arith in
      rw (e, give_payload)
        (record {
          sizes = z;
          given = rw empty;
          state_kept = refl;
          uuid_kept = refl;
          channel_kept = refl;
          calls_kept = refl;
        })
  | inr e ↦
      rw
        (
          e,
          give_payload,
          slice-runs n.data_buf 0 n.data_len (omega arith),
          into_array-runs 253 8 (take n.data_len n.data_buf)
              (omega (arith, length-take n.data_len n.data_buf)),
        )
        (record {
          sizes = omega arith;
          given = refl;
          state_kept = refl;
          uuid_kept = refl;
          channel_kept = refl;
          calls_kept = refl;
        })
]

-- A listening access point that answers a request: it gets the client's bytes, and sends its own.
pub record Answered (uuid : ℕ) (payload : List ℕ) (n m : Node) : Type 0 where
  pub got : Got listening payload m
  pub response :
      sent_frames m.calls
      ≡ sent_frames n.calls ++ (channel_frame 0 ap_channel n.uuid (waiting n) ∷ [])
  pub aimed :
      sent_to uuid ap_channel m.calls
      ≡ sent_to uuid ap_channel n.calls ++ (channel_frame 0 ap_channel n.uuid (waiting n) ∷ [])

-- After the response the access point stays with a new packet, or listens on.
after_response-Got :
    (uuid : ℕ) (payload : List ℕ) (before : State) (c : Call) (n : Node)
    → before ≡ listening
    → Got before payload n
    → Ensures
        (λ m.
          Got listening payload m
          × (sent_frames m.calls ≡ sent_frames (c ∷ n.calls))
          × (sent_to uuid ap_channel m.calls ≡ sent_to uuid ap_channel (c ∷ n.calls)))
        (after_response ap_channel (emit c n))
unfolding after_response change_state sent_frames sent_to
after_response-Got uuid [] before c n e got =
    let quiet : n.state ≡ listening = got ∙ e in rw (quiet, after_response) (refl, refl, refl)
after_response-Got uuid (b ∷ bytes) before c n e got =
    rw (got.0, after_response) ((refl, got.1, got.2), refl, refl)

answer_request-Answered :
    (f : Frame) (payload : List ℕ) (uuid : ℕ) (n : Node)
    → Sizes n
    → n.state ≡ listening
    → active_channel n ≡ ap_channel
    → n.data_len ≤ fragment_size
    → request_len f ≡ length payload
    → copy f 8 (length payload) ≡ payload
    → length payload ≤ fragment_size
    → Ensures (Answered uuid payload n) (answer_request f false uuid n)
unfolding answer_request sent_frames
answer_request-Answered f payload uuid n z s on h l c short =
    Ensures->>= (Gives n) (Answered uuid payload n) _ _ (give_payload-Gives n z h) λ g gives.
      Ensures->>= (λ m. Got g.1.state payload m × (m.calls ≡ g.1.calls)) (Answered uuid payload n) _
        _ (take_payload-Got f payload g.1 gives.sizes l c short)
        λ m got. rw on (
          Ensures-mono
            (λ m'.
              Got listening payload m'
              × (sent_frames m'.calls
                  ≡ sent_frames m.calls ++ (channel_frame 0 ap_channel n.uuid g.0 ∷ []))
              × (sent_to uuid ap_channel m'.calls
                  ≡ sent_to uuid ap_channel
                      (transmit uuid (channel_frame 0 ap_channel n.uuid g.0) ap_channel ∷ m.calls)))
            (Answered uuid payload n) _
            (λ m' after. record {
              got = after.0;
              response = rw (got.1, gives.calls_kept, gives.given) at after.1;
              aimed =
                  (rw (got.1, gives.calls_kept, gives.given) at after.2)
                  ∙ sent_to-transmit uuid ap_channel (channel_frame 0 ap_channel n.uuid (waiting n))
                      n.calls;
            })
            (after_response-Got uuid payload g.1.state
              (transmit uuid (channel_frame 0 ap_channel n.uuid g.0) ap_channel) m
              (gives.state_kept ∙ s) got.0))

-- What the client does with the channel of the response: it keeps a packet, or is idle again.
follow_channel-Got :
    (payload : List ℕ) (n : Node)
    → Got requesting payload n
    → Ensures (Got idle payload) (follow_channel ap_channel n)
unfolding follow_channel change_state
follow_channel-Got [] n got = rw (got, follow_channel) refl
follow_channel-Got (b ∷ bytes) n got = rw (got.0, follow_channel) (refl, got.1, got.2)

pub rx_by-request :
    (r : Role) (s : State) (f : Frame) (n : Node)
    → r ≡ ap
    → s ≡ listening
    → rx_by r s f n ≡ ap_request f n
unfolding rx_by
rx_by-request r s f n er es = rw (er, es)

pub rx_by-response :
    (r : Role) (s : State) (f : Frame) (n : Node)
    → r ≡ client
    → s ≡ requesting
    → rx_by r s f n ≡ client_response f n
unfolding rx_by
rx_by-response r s f n er es = rw (er, es)

module _ (deliver : List ℕ → Frame) (ok : Delivers deliver) where
  pub process_rx-Answered :
      (counter uuid : ℕ) (payload : List ℕ) (n : Node)
      → Sizes n
      → n.role ≡ ap
      → n.state ≡ listening
      → n.data_len ≤ fragment_size
      → length payload ≤ fragment_size
      → Ensures
          (Answered (load_word (deliver (channel_frame counter 0 uuid payload)) 4) payload n)
          (process_rx (deliver (channel_frame counter 0 uuid payload)) n)
  unfolding process_rx ap_request
  process_rx-Answered counter uuid payload n z r s h short =
      let f = deliver (channel_frame counter 0 uuid payload) in
      let routed = route_request-Routed f n z in
      let stays = route_request-stays f n z (pdu-arrives deliver ok counter 0 uuid payload) h in
      let to : f 2 ≡ 0 = channel-arrives deliver ok counter 0 uuid payload in
      let no_need : ap_needs_datachannel (load_word f 4) n ≡ false =
        no_channel (load_word f 4) n h in
      rw (rx_by-request n.role n.state f n r s, to, ap_request, no_need)
        (Ensures-mono (Answered (load_word f 4) payload (route_request f n))
          (Answered (load_word f 4) payload n) _
          (λ m a. record {
            got = a.got;
            response =
                rw (stays.1, routed.uuid_kept, routed.len_kept, routed.buf_kept) at a.response;
            aimed = rw (stays.1, routed.uuid_kept, routed.len_kept, routed.buf_kept) at a.aimed;
          })
          (answer_request-Answered f payload (load_word f 4) (route_request f n) routed.sizes
            (routed.state_kept ∙ s) stays.0 (rw routed.len_kept h)
            (len-arrives deliver ok counter 0 uuid payload short)
            (payload-arrives deliver ok counter 0 uuid payload) short))

  pub process_rx-Got :
      (counter uuid : ℕ) (payload : List ℕ) (n : Node)
      → Sizes n
      → n.role ≡ client
      → n.state ≡ requesting
      → length payload ≤ fragment_size
      → Ensures
          (Got idle payload)
          (process_rx (deliver (channel_frame counter ap_channel uuid payload)) n)
  unfolding process_rx client_response
  process_rx-Got counter uuid payload n z r s short =
      let f = deliver (channel_frame counter ap_channel uuid payload) in
      let to : f 2 ≡ ap_channel = channel-arrives deliver ok counter ap_channel uuid payload in
      rw (rx_by-response n.role n.state f n r s, client_response, to)
        (Ensures->>= (λ m. Got n.state payload m × (m.calls ≡ n.calls)) (Got idle payload) _ _
          (take_payload-Got f payload n z
            (len-arrives deliver ok counter ap_channel uuid payload short)
            (payload-arrives deliver ok counter ap_channel uuid payload) short)
          λ m got. follow_channel-Got payload m (rw s at got.0))
