-- ===== src/Receive/Channel.antt =====
-- A request for which the access point gives a data channel, and what the client does with it.
use ch32fun_wi_not_ap.Prelude.{
  refl, some, true, false, ℕ, Bool, ◌≡◌, not, ◌==◌, ◌&&◌, ◌%◌, arith, get_or, ◌≤◌, ◌≢◌, ◌<◌, length,
  get_or-set_ne, get_or-set_self, ltb, ◌+◌, ◌++◌, ◌∷◌, [], List, ◌^◌, bit_and, Ensures,
}
use ch32fun_wi_not_ap.Node.{
  Node, ap, listening, communicating, change_state, enter, emit, active_channel, ap_channel, entry,
  set_active_channel, clients_max, fragmented,
}
use ch32fun_wi_not_ap.Receive.{
  answer_request, give_payload, take_payload, after_response, request_len, route_request,
  ap_needs_datachannel, client_needs_datachannel, process_rx, ap_request,
}
use ch32fun_wi_not_ap.Receive.Bare.{bare, bare_pdu, bare_word, bare_channel, bare_len}
use ch32fun_wi_not_ap.Radio.{listen, transmit}
use ch32fun_wi_not_ap.Memory.{word_bytes, Frame, load_word}
use ch32fun_wi_not_ap.Node.Invariant.{
  is_client_channel, Sizes, active-set, set_active_channel-Sizes, Inv,
}
use ch32fun_wi_not_ap.Routing.{store}
use ch32fun_wi_not_ap.Routing.Place.{store_place, store-Sizes}
use ch32fun_wi_not_ap.Radio.Tuning.{tuned, sent_to}
use ch32fun_wi_not_ap.Fragment.Address.{sent_to-transmit}
use ch32fun_wi_not_ap.Receive.Exchange.{rx_by-request}
use ch32fun_wi_not_ap.Radio.Delivery.{Delivers}
use ch32fun_wi_not_ap.Fragment.Elsewhere.{sent_to-other}

-- An access point that answers on the channel of a client, and goes there.
abbrev answering : ℕ → ℕ → Node → Node
answering uuid peer n = enter communicating (
    emit (listen peer (active_channel n))
      (emit (transmit uuid (bare 0 0 (active_channel n) n.uuid) ap_channel) n))

answer_request-answering :
    (f : Frame) (needs : Bool) (uuid peer : ℕ) (n : Node)
    → n.role ≡ ap
    → n.state ≡ listening
    → is_client_channel (active_channel n) ≡ true
    → entry n.datachannel (active_channel n) ≡ some peer
    → (not (n.data_len == 0) && not needs) ≡ false
    → request_len f ≡ 0
    → answer_request f needs uuid n ≡ some (answering uuid peer n)
unfolding answer_request give_payload take_payload after_response change_state word_bytes
answer_request-answering f needs uuid peer n r s c e nothing l =
    let byte : active_channel n % 256 ≡ active_channel n = ground arith in
    let other : (active_channel n == ap_channel) ≡ false = ground arith in
    rw (nothing, l, byte, s, r, other, e) refl

-- The request's channel is the client's place in the table.
abbrev pub routed : ℕ → Node → Node
routed uuid n = let (idx, n') = store uuid n in set_active_channel idx n'

pub route_request-routed :
    (f : Frame) (uuid : ℕ) (n : Node)
    → load_word f 4 ≡ uuid
    → f 2 ≡ 0
    → (not (ap_needs_datachannel uuid n) && not (client_needs_datachannel f)) ≡ false
    → route_request f n ≡ routed uuid n
unfolding route_request
route_request-routed f uuid n w z needed = rw (w, z, needed) refl

-- The place that a client has, and the word in it.
pub record Placed (uuid : ℕ) (n m : Node) : Type 0 where
  pub sizes : Sizes m
  pub is_place : is_client_channel (active_channel m) ≡ true
  pub word : get_or m.datachannel (active_channel m) 0 ≡ uuid

pub routed-Placed : (uuid : ℕ) (n : Node) → Sizes n → Placed uuid n (routed uuid n)
unfolding store
routed-Placed uuid n z =
    let idx = (store uuid n).0 in
    let n' = (store uuid n).1 in
    let place : (1 ≤ idx) × (idx ≤ clients_max) = store_place uuid n in
    let on : active_channel (set_active_channel idx n') ≡ idx =
      active-set n' idx (store-Sizes uuid n z) in
    let apart : 0 ≢ idx = λ e. omega (arith, place.0, e) in
    let inside : idx < length n.datachannel = omega (arith, place.1, z.uuids_size) in
    record {
      sizes = set_active_channel-Sizes n' idx (store-Sizes uuid n z);
      is_place = rw on (ground arith);
      word = rw (
        on,
        get_or-set_ne n'.datachannel 0 idx idx 0 apart,
        get_or-set_self n.datachannel idx uuid 0 inside,
      );
    }

-- A listening access point has given the client with this uuid a data channel, and waits there.
pub record Assigned (uuid : ℕ) (n m : Node) : Type 0 where
  pub inv : Inv m
  pub role_kept : m.role ≡ n.role
  pub uuid_kept : m.uuid ≡ n.uuid
  pub on_channel : m.state ≡ communicating
  pub buf_kept : m.data_buf ≡ n.data_buf
  pub len_kept : m.data_len ≡ n.data_len
  pub marks_kept : m.fragments_received ≡ n.fragments_received
  pub tick_kept : m.tick ≡ n.tick
  pub since : m.last_change ≡ n.tick
  pub is_place : is_client_channel (active_channel m) ≡ true
  pub word : get_or m.datachannel (active_channel m) 0 ≡ uuid
  pub listens : tuned m.calls ≡ some (uuid, active_channel m)
  pub unused : sent_to uuid (active_channel m) m.calls ≡ sent_to uuid (active_channel m) n.calls
  pub answered :
      sent_to uuid ap_channel m.calls
      ≡ sent_to uuid ap_channel n.calls ++ (bare 0 0 (active_channel m) n.uuid ∷ [])

answering-Assigned :
    (uuid : ℕ) (n : Node)
    → Sizes n
    → n.role ≡ ap
    → Assigned uuid n (answering uuid uuid (routed uuid n))
unfolding store tuned sent_to
answering-Assigned uuid n z r =
    let m = routed uuid n in
    let p = routed-Placed uuid n z in
    let place = p.is_place in
    record {
      inv = record {
        sizes = record {
          buf_size = p.sizes.buf_size;
          uuids_size = p.sizes.uuids_size;
          times_size = p.sizes.times_size;
          len_fits = p.sizes.len_fits;
        };
        states = rw r p.is_place;
      };
      role_kept = refl;
      uuid_kept = refl;
      on_channel = refl;
      buf_kept = refl;
      len_kept = refl;
      marks_kept = refl;
      tick_kept = refl;
      since = refl;
      is_place = p.is_place;
      word = p.word;
      listens = refl;
      unused =
          sent_to-other uuid uuid ap_channel (active_channel m) (bare 0 0 (active_channel m) n.uuid)
            n.calls (ground arith);
      answered = sent_to-transmit uuid ap_channel (bare 0 0 (active_channel m) n.uuid) n.calls;
    }

-- The place of a client on an access point is an entry of its table.
pub entry-place :
    (uuid : ℕ) (n : Node)
    → is_client_channel (active_channel n) ≡ true
    → get_or n.datachannel (active_channel n) 0 ≡ uuid
    → entry n.datachannel (active_channel n) ≡ some uuid
entry-place uuid n p w =
    let inside : ltb (active_channel n) (clients_max + 1) ≡ true = ground arith in
    rw (inside, w) refl

-- One side asks for a data channel, and the access point has no packet that goes without one.
pub process_rx-Assigned_eq :
    (f : Frame) (uuid : ℕ) (n : Node)
    → Sizes n
    → n.role ≡ ap
    → n.state ≡ listening
    → load_word f 4 ≡ uuid
    → f 2 ≡ 0
    → request_len f ≡ 0
    → (not (ap_needs_datachannel uuid n) && not (client_needs_datachannel f)) ≡ false
    → (not (n.data_len == 0) && not (ap_needs_datachannel uuid n)) ≡ false
    → process_rx f n ≡ some (answering uuid uuid (routed uuid n))
unfolding process_rx ap_request store
process_rx-Assigned_eq f uuid n z r s w c l needed nothing =
    let m = routed uuid n in
    let p = routed-Placed uuid n z in
    rw
      (
        rx_by-request n.role n.state f n r s,
        ap_request,
        c,
        w,
        route_request-routed f uuid n w c needed,
      )
      (answer_request-answering f (ap_needs_datachannel uuid n) uuid uuid m r s p.is_place
        (entry-place uuid m p.is_place p.word) nothing l)

module _ (deliver : List ℕ → Frame) (ok : Delivers deliver) where
  pub process_rx-Assigned :
      (pdu counter uuid : ℕ) (n : Node)
      → Sizes n
      → uuid < 2 ^ 32
      → n.role ≡ ap
      → n.state ≡ listening
      → (not (ap_needs_datachannel uuid n) && not (not (bit_and pdu fragmented == 0))) ≡ false
      → (not (n.data_len == 0) && not (ap_needs_datachannel uuid n)) ≡ false
      → Ensures (Assigned uuid n) (process_rx (deliver (bare pdu counter 0 uuid)) n)
  process_rx-Assigned pdu counter uuid n z small r s needed nothing =
      let f = deliver (bare pdu counter 0 uuid) in
      let asks : (not (ap_needs_datachannel uuid n) && not (client_needs_datachannel f)) ≡ false =
        rw (bare_pdu deliver ok pdu counter 0 uuid) needed in
      rw
        (process_rx-Assigned_eq f uuid n z r s (bare_word deliver ok pdu counter 0 uuid small)
          (bare_channel deliver ok pdu counter 0 uuid) (bare_len deliver ok pdu counter 0 uuid) asks
          nothing)
        (answering-Assigned uuid n z r)
