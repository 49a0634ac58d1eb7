-- ===== src/System/Same.antt =====
-- No call changes the role of a node or its uuid: the rules, and the parts of the receive handler and of
-- the requests.
pub mod Calls
use ch32fun_wi_not_ap.Prelude.{
  ℕ, zero, suc, some, none, true, false, ◌>>=◌, List, Option, Bool, ◌≡◌, if◌then◌else◌, Bool-cases,
  ◌+◌, ltb, inr, inl, ◌-◌, arith, ◌%◌, length,
}
use ch32fun_wi_not_ap.Node.{
  ap, client, State, idle, listening, requesting, communicating, newrx, Role, Node, change_state,
  peer_address, is_newrx, rest_state, advance, active_channel, data_buf_size,
}
use ch32fun_wi_not_ap.Fragment.{
  burst_loop, burst_tx_and_communicate, defragment, send_fragment, finish_fragment, chunk_size,
}
use ch32fun_wi_not_ap.Memory.{Frame, slice, write_at}
use ch32fun_wi_not_ap.Receive.{
  take_payload, after_response, take_sidechannel, follow_channel, client_response, give_payload,
  answer_request, route_request, ap_request, keep_active, data_frame, rx_by, process_rx,
}
use ch32fun_wi_not_ap.Request.{
  request_channel, request_with_payload, request, release_packet, Packet, send_by, send_packet,
  sidechannel_tx, transmit_sidechannel, memory, size, request_header,
}
use ch32fun_wi_not_ap.Tick.{send_pending, receive, on_time, tick}
use ch32fun_wi_not_ap.Routing.{store}

-- What the code returns, if it returns, has this role and this uuid.
pub data Same (r : Role) (u : ℕ) : Option Node → Type 0 where
  faults : Same r u none
  same : (m : Node) → m.role ≡ r → m.uuid ≡ u → Same r u (some m)

-- The same for a call with a result.
pub data SameLeft {A : Type 0} (r : Role) (u : ℕ) : Option (A × Node) → Type 0 where
  faults_left : SameLeft r u none
  same_left : (a : A) (m : Node) → m.role ≡ r → m.uuid ≡ u → SameLeft r u (some (a, m))

module _ {r : Role} {u : ℕ} where
  -- A part that reads or computes, and one that acts.
  pub after {ℓ} :
      {A : Type ℓ} (m : Option A) (f : A → Option Node)
      → ((a : A) → Same r u (f a))
      → Same r u (m >>= f)
  after none f h = faults
  after (some a) f h = h a

  pub acts :
      (m : Option Node) (f : Node → Option Node)
      → Same r u m
      → ((a : Node) → a.role ≡ r → a.uuid ≡ u → Same r u (f a))
      → Same r u (m >>= f)
  acts none f h k = faults
  acts (some a) f (same _ p q) k = k a p q

  pub either :
      (b : Bool) (x y : Option Node) → Same r u x → Same r u y → Same r u (if b then x else y)
  either true x y h k = h
  either false x y h k = k

  pub left_after {ℓ} :
      {A : Type ℓ} {B : Type 0} (m : Option A) (f : A → Option (B × Node))
      → ((a : A) → SameLeft r u (f a))
      → SameLeft r u (m >>= f)
  left_after none f h = faults_left
  left_after (some a) f h = h a

  pub left_acts :
      {B : Type 0} (m : Option Node) (f : Node → Option (B × Node))
      → Same r u m
      → ((a : Node) → a.role ≡ r → a.uuid ≡ u → SameLeft r u (f a))
      → SameLeft r u (m >>= f)
  left_acts none f h k = faults_left
  left_acts (some a) f (same _ p q) k = k a p q

  pub left_either :
      {B : Type 0} (b : Bool) (x y : Option (B × Node))
      → SameLeft r u x
      → SameLeft r u y
      → SameLeft r u (if b then x else y)
  left_either true x y h k = h
  left_either false x y h k = k

  pub change_state-Same :
      (s : State) (n : Node) → n.role ≡ r → n.uuid ≡ u → Same r u (change_state s n)
  unfolding change_state
  change_state-Same idle n p q = same _ p q
  change_state-Same listening n p q = same _ p q
  change_state-Same requesting n p q = same _ p q
  change_state-Same communicating n p q = after (peer_address n.role n) _ λ a. same _ p q
  change_state-Same newrx n p q = same _ p q

  pub burst_loop-Same :
      (fuel address channel : ℕ) (bytes : List ℕ) (len sent idx : ℕ) (n : Node)
      → n.role ≡ r
      → n.uuid ≡ u
      → Same r u (burst_loop fuel address channel bytes len sent idx n)
  unfolding burst_loop send_fragment
  burst_loop-Same zero address channel bytes len sent idx n p q = faults
  burst_loop-Same (suc fuel) address channel bytes len sent idx n p q =
      elim (Bool-cases (ltb sent len)) [
        | inr end ↦ rw (end, burst_loop) (same n p q)
        | inl more ↦
            rw (more, burst_loop)
              (acts _ _ (after (slice bytes sent (chunk_size (len - sent))) _ λ c. same _ p q)
                λ a p' q'.
                  burst_loop-Same fuel address channel bytes len (sent + chunk_size (len - sent))
                    (idx + 1) a p' q')
      ]

  pub burst-Same :
      (address channel : ℕ) (bytes : List ℕ) (len : ℕ) (n : Node)
      → n.role ≡ r
      → n.uuid ≡ u
      → Same r u (burst_tx_and_communicate address channel bytes len n)
  unfolding burst_tx_and_communicate
  burst-Same address channel bytes len n p q =
      acts _ _ (burst_loop-Same (len + 1) address channel bytes len 0 0 n p q)
        (change_state-Same communicating)

  ruleset acting = (same, faults, after, acts, either, change_state-Same, burst-Same)

  pub defragment-Same : (f : Frame) (n : Node) → n.role ≡ r → n.uuid ≡ u → Same r u (defragment f n)
  unfolding defragment finish_fragment
  defragment-Same f n p q = search acting

  pub take_payload-Same :
      (f : Frame) (n : Node) → n.role ≡ r → n.uuid ≡ u → Same r u (take_payload f n)
  unfolding take_payload
  take_payload-Same f n p q = search (acting)

  pub after_response-Same :
      (channel : ℕ) (n : Node) → n.role ≡ r → n.uuid ≡ u → Same r u (after_response channel n)
  unfolding after_response
  after_response-Same channel n p q = search (acting)

  pub take_sidechannel-Same :
      (f : Frame) (n : Node) → n.role ≡ r → n.uuid ≡ u → Same r u (take_sidechannel f n)
  unfolding take_sidechannel
  take_sidechannel-Same f n p q = search (acting)

  pub follow_channel-Same :
      (channel : ℕ) (n : Node) → n.role ≡ r → n.uuid ≡ u → Same r u (follow_channel channel n)
  unfolding follow_channel
  follow_channel-Same channel n p q = search (acting)

  pub client_response-Same :
      (f : Frame) (n : Node) → n.role ≡ r → n.uuid ≡ u → Same r u (client_response f n)
  unfolding client_response
  client_response-Same f n p q = search (acting, take_payload-Same, follow_channel-Same)

  pub give_payload-Same :
      (needs : Bool) (n : Node) → n.role ≡ r → n.uuid ≡ u → SameLeft r u (give_payload needs n)
  unfolding give_payload
  give_payload-Same needs n p q = search (same_left, left_after, left_either)

  pub gives :
      {A : Type 0} (m : Option (A × Node)) (f : A × Node → Option Node)
      → SameLeft r u m
      → ((a : A × Node) → a.1.role ≡ r → a.1.uuid ≡ u → Same r u (f a))
      → Same r u (m >>= f)
  gives none f h k = faults
  gives (some (a, n)) f (same_left _ _ p q) k = k (a, n) p q

  pub answer_request-Same :
      (f : Frame) (needs : Bool) (uuid : ℕ) (n : Node)
      → n.role ≡ r
      → n.uuid ≡ u
      → Same r u (answer_request f needs uuid n)
  unfolding answer_request
  answer_request-Same f needs uuid n p q =
      search (acting, gives, give_payload-Same, take_payload-Same, after_response-Same)

  pub route_request-Same :
      (f : Frame) (n : Node)
      → n.role ≡ r
      → n.uuid ≡ u
      → ((route_request f n).role ≡ r) × ((route_request f n).uuid ≡ u)
  unfolding route_request store
  route_request-Same f n p q = ground arith

  pub request_channel-Same :
      (pk : Packet) (n : Node) → n.role ≡ r → n.uuid ≡ u → Same r u (request_channel pk n)
  unfolding request_channel
  request_channel-Same pk n p q = search (acting)

  pub request_with_payload-Same :
      (pk : Packet) (n : Node) → n.role ≡ r → n.uuid ≡ u → Same r u (request_with_payload pk n)
  unfolding request_with_payload
  request_with_payload-Same pk n p q = search (acting)

  pub request-Same : (pk : Packet) (n : Node) → n.role ≡ r → n.uuid ≡ u → Same r u (request pk n)
  unfolding request
  request-Same pk n p q = search (acting, request_channel-Same, request_with_payload-Same)

  pub release_packet-Same : (n : Node) → n.role ≡ r → n.uuid ≡ u → Same r u (release_packet n)
  unfolding release_packet
  release_packet-Same n p q = search (acting)

  pub send_pending-Same : (n : Node) → n.role ≡ r → n.uuid ≡ u → Same r u (send_pending n)
  unfolding send_pending
  send_pending-Same n p q = search (acting)
