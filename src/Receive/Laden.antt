-- ===== src/Receive/Laden.antt =====
-- A response with a data channel and a payload: the client asked for the channel, and a packet of at
-- most a fragment was waiting.
use ch32fun_wi_not_ap.Prelude.{
  refl, some, true, false, [], ◌∷◌, ℕ, List, drop, ◌≡◌, ◌<◌, length, ◌≤◌, ◌^◌, take, get_or, arith,
  ◌++◌, Ensures, ◌==◌, ◌%◌, length-take, Ensures-mono,
}
use ch32fun_wi_not_ap.Receive.{
  give_payload, answer_request, process_rx, take_payload, after_response, ap_request, request_len,
  client_response, client_needs_datachannel, ap_needs_datachannel,
}
use ch32fun_wi_not_ap.Routing.{store}
use ch32fun_wi_not_ap.Node.{
  Node, change_state, enter, peer_address, communicating, ap, emit, listening, data_buf_size,
  fragment_size, active_channel, newrx, clients_max, ap_channel, client, requesting,
}
use ch32fun_wi_not_ap.Radio.Tuning.{tuned, sent_to}
use ch32fun_wi_not_ap.Memory.{Frame, copy, load_word, overwrite}
use ch32fun_wi_not_ap.Node.Invariant.{Sizes, is_client_channel}
use ch32fun_wi_not_ap.System.Owned.{Owned}
use ch32fun_wi_not_ap.Radio.Delivery.{Delivers}
use ch32fun_wi_not_ap.Receive.Channel.{routed, routed-Placed, entry-place, route_request-routed}
use ch32fun_wi_not_ap.Radio.{listen, transmit}
use ch32fun_wi_not_ap.Receive.Exchange.{waiting, rx_by-request, rx_by-response}
use ch32fun_wi_not_ap.Receive.Arrival.{channel_frame, len-arrives, payload-arrives, channel-arrives}
use ch32fun_wi_not_ap.Fragment.Address.{sent_to-transmit}
use ch32fun_wi_not_ap.Fragment.Burst.{frames}
use ch32fun_wi_not_ap.Receive.Bare.{bare, bare_pdu, bare_word, bare_channel, bare_len}
use ch32fun_wi_not_ap.Memory.Laws.{
  slice-runs, write_at-runs, length-overwrite, into_array-runs, take-overwrite_front,
}
use ch32fun_wi_not_ap.Receive.Follow.{Uploaded, follow_channel-Uploaded}

-- An access point that gives both, and goes to the channel.
abbrev giving : ℕ → Node → Node
giving uuid n = enter communicating (
    emit (listen uuid (active_channel n)) (
      emit (transmit uuid (channel_frame 0 (active_channel n) n.uuid (waiting n)) ap_channel)
        (record n { data_len = 0 })))

give_payload-waiting :
    (n : Node)
    → Sizes n
    → 0 < n.data_len
    → n.data_len ≤ fragment_size
    → give_payload false n ≡ some (waiting n, record n { data_len = 0 })
unfolding give_payload drop
give_payload-waiting n z pos h =
    let full : (n.data_len == 0) ≡ false = ground arith in
    rw
      (
        full,
        slice-runs n.data_buf 0 n.data_len (omega arith),
        into_array-runs 253 8 (take n.data_len n.data_buf)
            (omega (arith, length-take n.data_len n.data_buf)),
      )
      refl

answer_request-giving :
    (f : Frame) (uuid : ℕ) (n : Node)
    → Sizes n
    → n.role ≡ ap
    → n.state ≡ listening
    → is_client_channel (active_channel n) ≡ true
    → get_or n.datachannel (active_channel n) 0 ≡ uuid
    → 0 < n.data_len
    → n.data_len ≤ fragment_size
    → request_len f ≡ 0
    → answer_request f false uuid n ≡ some (giving uuid n)
unfolding answer_request take_payload after_response change_state peer_address
answer_request-giving f uuid n z r s c w pos h l =
    let byte : active_channel n % 256 ≡ active_channel n = ground arith in
    let other : (active_channel n == ap_channel) ≡ false = ground arith in
    rw (give_payload-waiting n z pos h, l, byte, s, r, other, entry-place uuid n c w) refl

-- What the access point is then.
pub record Gave (uuid : ℕ) (n m : Node) : Type 0 where
  pub owned : Owned ap n.uuid m
  pub on_channel : m.state ≡ communicating
  pub marks_kept : m.fragments_received ≡ n.fragments_received
  pub is_place : is_client_channel (active_channel m) ≡ true
  pub listens : tuned m.calls ≡ some (uuid, active_channel m)
  pub answered :
      sent_to uuid ap_channel m.calls
      ≡ sent_to uuid ap_channel n.calls
        ++ (channel_frame 0 (active_channel m) n.uuid (waiting n) ∷ [])

giving-Gave :
    (uuid : ℕ) (n : Node) → Sizes n → n.role ≡ ap → Gave uuid n (giving uuid (routed uuid n))
unfolding store tuned sent_to
giving-Gave uuid n z r =
    let m = routed uuid n in
    let p = routed-Placed uuid n z in
    record {
      owned = record {
        inv = record {
          sizes = record {
            buf_size = p.sizes.buf_size;
            uuids_size = p.sizes.uuids_size;
            times_size = p.sizes.times_size;
            len_fits = omega arith;
          };
          states = rw r p.is_place;
        };
        role = r;
        uuid = refl;
      };
      on_channel = refl;
      marks_kept = refl;
      is_place = p.is_place;
      listens = refl;
      answered =
          sent_to-transmit uuid ap_channel (channel_frame 0 (active_channel m) n.uuid (waiting n))
            n.calls;
    }

process_rx-giving :
    (f : Frame) (uuid : ℕ) (n : Node)
    → Sizes n
    → n.role ≡ ap
    → n.state ≡ listening
    → load_word f 4 ≡ uuid
    → f 2 ≡ 0
    → request_len f ≡ 0
    → client_needs_datachannel f ≡ true
    → 0 < n.data_len
    → n.data_len ≤ fragment_size
    → process_rx f n ≡ some (giving uuid (routed uuid n))
unfolding process_rx ap_request store
process_rx-giving f uuid n z r s w c l asks pos h =
    let m = routed uuid n in
    let p = routed-Placed uuid n z in
    let small : ap_needs_datachannel uuid n ≡ false = ground arith in
    rw
      (
        rx_by-request n.role n.state f n r s,
        ap_request,
        c,
        w,
        route_request-routed f uuid n w c (rw (small, asks) refl),
        small,
      )
      (answer_request-giving f uuid m p.sizes r s p.is_place p.word pos h l)

-- A client that burst what it had just received.
pub record Echoed (idx : ℕ) (payload : List ℕ) (n m : Node) : Type 0 where
  pub on_channel : m.state ≡ communicating
  pub given_away : m.data_len ≡ 0
  pub buf : List ℕ
  pub buf_size : length buf ≡ data_buf_size
  pub holds : take (length payload) buf ≡ payload
  pub air : sent_to n.uuid idx m.calls ≡ sent_to n.uuid idx n.calls ++ frames buf (length payload)

take_payload_eq :
    (f : Frame) (payload : List ℕ) (n : Node)
    → request_len f ≡ length payload
    → copy f 8 (length payload) ≡ payload
    → 0 < length payload
    → length payload ≤ data_buf_size
    → take_payload f n
      ≡ some (
          enter newrx
            (record n { data_buf = overwrite n.data_buf 0 payload; data_len = length payload }))
unfolding take_payload change_state
take_payload_eq f payload n l c pos h =
    let full : (length payload == 0) ≡ false = ground arith in
    rw (l, full, c, write_at-runs data_buf_size n.data_buf 0 payload (omega arith)) refl

module _ (deliver : List ℕ → Frame) (ok : Delivers deliver) where
  pub process_rx-Gave :
      (uuid : ℕ) (n : Node)
      → Sizes n
      → uuid < 2 ^ 32
      → n.role ≡ ap
      → n.state ≡ listening
      → 0 < n.data_len
      → n.data_len ≤ fragment_size
      → Ensures (Gave uuid n) (process_rx (deliver (bare 8 6 0 uuid)) n)
  process_rx-Gave uuid n z small r s pos h =
      let f = deliver (bare 8 6 0 uuid) in
      let asks : client_needs_datachannel f ≡ true = rw (bare_pdu deliver ok 8 6 0 uuid) refl in
      rw
        (process_rx-giving f uuid n z r s (bare_word deliver ok 8 6 0 uuid small)
          (bare_channel deliver ok 8 6 0 uuid) (bare_len deliver ok 8 6 0 uuid) asks pos h)
        (giving-Gave uuid n z r)

  pub process_rx-Echoed :
      (idx uuid : ℕ) (payload : List ℕ) (n : Node)
      → idx ≤ clients_max
      → Sizes n
      → n.role ≡ client
      → n.state ≡ requesting
      → 0 < length payload
      → length payload ≤ fragment_size
      → Ensures (Echoed idx payload n) (process_rx (deliver (channel_frame 0 idx uuid payload)) n)
  unfolding process_rx client_response
  process_rx-Echoed idx uuid payload n h z r s pos short =
      let f = deliver (channel_frame 0 idx uuid payload) in
      let buf = overwrite n.data_buf 0 payload in
      let size : length buf ≡ data_buf_size =
        omega (arith, length-overwrite n.data_buf 0 payload, z.buf_size) in
      let full = enter newrx (record n { data_buf = buf; data_len = length payload }) in
      rw
        (
          rx_by-response n.role n.state f n r s,
          client_response,
          take_payload_eq f payload n (len-arrives deliver ok 0 idx uuid payload short)
              (payload-arrives deliver ok 0 idx uuid payload) pos (omega arith),
          channel-arrives deliver ok 0 idx uuid payload,
        )
        (Ensures-mono (Uploaded idx full) (Echoed idx payload n) _
          (λ m q. record {
            on_channel = q.on_channel;
            given_away = q.given_away;
            buf = buf;
            buf_size = size;
            holds = take-overwrite_front n.data_buf payload (omega (arith, z.buf_size));
            air = q.air;
          })
          (follow_channel-Uploaded idx full h
            (record {
              buf_size = size;
              uuids_size = z.uuids_size;
              times_size = z.times_size;
              len_fits = omega arith;
            })
            r pos))
