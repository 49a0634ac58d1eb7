-- ===== src/Receive/Safety.antt =====
-- `winot_process_rx` keeps the invariant, and the one place where it writes outside an array.
use mathlib.Core.Bool.{false≢true}
use ch32fun_wi_not_ap.Prelude.{
  Bool, Bool-cases, Ensures, Ensures->>=, Ensures-mono, arith, bit_and, bit_or, false, inl, inr,
  length, length-set, ltb, none, not, refl, true, ℕ, ◌%◌, ◌&&◌, ◌*◌, ◌+◌, ◌==◌, ◌^◌, ◌↔◌, ◌∙◌, ◌≡◌,
  ◌≤◌, ◌⊎◌,
}
use ch32fun_wi_not_ap.Node.Invariant.{
  Inv, Sizes, change_state-Inv, consistent, set_active_channel-Sizes, is_newrx_eq,
}
use ch32fun_wi_not_ap.Receive.{
  follow_channel, client_response, take_payload, keep_active, data_frame, rx_by, process_rx,
}
use ch32fun_wi_not_ap.Node.{
  Node, Role, State, active_channel, ap, ap_channel, change_state, client, communicating,
  data_buf_size, fragment_size, fragmented, idle, is_newrx, listening, newrx, requesting,
  rest_state, set_active_channel, is_client, is_listening,
}
use ch32fun_wi_not_ap.Fragment.Burst.{burst_away-Inv}
use ch32fun_wi_not_ap.Memory.{Frame, sub8, copy, write_at}
use ch32fun_wi_not_ap.Receive.Payload.{Took, take_payload-Took}
use ch32fun_wi_not_ap.Fragment.{finish_fragment, defragment, has_all_fragments}
use ch32fun_wi_not_ap.Memory.Laws.{length-copy, write_at-size}
use ch32fun_wi_not_ap.Receive.Answer.{response_overflows, ap_request-Inv, ap_request-faults}

follow_channel-Inv :
    (channel : ℕ) (n : Node)
    → Sizes n
    → n.role ≡ client
    → (n.state ≡ newrx) ⊎ (n.state ≡ requesting)
    → Ensures Inv (follow_channel channel n)
unfolding follow_channel
follow_channel-Inv channel n z r s = elim (Bool-cases (channel == ap_channel)) [
  | inl e ↦
      rw (e, follow_channel)
        (elim (Bool-cases (is_newrx n.state)) [
          | inl new ↦ rw (new, follow_channel) (record { sizes = z; states = rw r (ground arith) })
          | inr old ↦ rw (old, follow_channel) (change_state-Inv idle n z (rw r))
        ])
  | inr e ↦
      let n' = set_active_channel channel n in
      let z' = set_active_channel-Sizes n channel z in
      elim (Bool-cases (n.data_len == 0)) [
        | inl empty ↦
            rw (e, follow_channel, empty) (change_state-Inv communicating n' z' (rw (r, empty)))
        | inr full ↦
            rw (e, follow_channel, full)
              (burst_away-Inv n'.uuid (active_channel n' % 256) n' z' (rw r))
      ]
]

client_response-Inv :
    (f : Frame) (n : Node)
    → Sizes n
    → n.role ≡ client
    → n.state ≡ requesting
    → Ensures Inv (client_response f n)
unfolding client_response
client_response-Inv f n z r s =
    Ensures->>= (Took n) Inv (take_payload f n) _ (take_payload-Took f n z) λ m took.
      follow_channel-Inv (f 2) m took.sizes (took.role_kept ∙ r) (ground (arith, took.outcome))

finish_fragment-Took :
    (pdu frag end : ℕ) (n : Node)
    → Sizes n
    → end ≤ data_buf_size
    → Ensures (Took n) (finish_fragment pdu frag end n)
unfolding finish_fragment change_state
finish_fragment-Took pdu frag end n z h = elim (Bool-cases (bit_and pdu fragmented == 0)) [
  | inr e ↦
      rw (e, finish_fragment)
        (record { sizes = z; role_kept = refl; channel_kept = refl; outcome = inr (refl, refl) })
  | inl e ↦ elim (Bool-cases (has_all_fragments n.fragments_received frag)) [
    | inl a ↦
        rw (e, finish_fragment, a)
          (record {
            sizes = omega arith;
            role_kept = refl;
            channel_kept = refl;
            outcome = inl refl;
          })
    | inr a ↦
        rw (e, finish_fragment, a)
          (record {
            sizes = omega arith;
            role_kept = refl;
            channel_kept = refl;
            outcome = inr (refl, refl);
          })
  ]
]

defragment-Took : (f : Frame) (n : Node) → Sizes n → Ensures (Took n) (defragment f n)
unfolding defragment
defragment-Took f n z =
    let frag = f 0 % 8 in
    let len = sub8 (f 1) 2 in
    elim (Bool-cases (ltb data_buf_size (frag * fragment_size + len))) [
      | inl e ↦
          rw (e, defragment)
            (record {
              sizes = z;
              role_kept = refl;
              channel_kept = refl;
              outcome = inr (refl, refl);
            })
      | inr e ↦
          let fits : frag * fragment_size + length (copy f 4 len) ≤ data_buf_size =
            ground (arith, length-copy f 4 len) in
          let fits' : frag * fragment_size + len ≤ data_buf_size = ground arith in
          rw (e, defragment)
            (Ensures->>= (λ buf. length buf ≡ data_buf_size) (Took n)
              (write_at data_buf_size n.data_buf (frag * fragment_size) (copy f 4 len)) _
              (write_at-size data_buf_size n.data_buf (frag * fragment_size) (copy f 4 len)
                z.buf_size fits)
              λ buf size.
                let n' = record n {
                  data_buf = buf;
                  fragments_received = bit_or n.fragments_received (2 ^ frag) % 2 ^ 8;
                } in
                Ensures-mono (Took n') (Took n) _
                  (λ m took. record {
                    sizes = took.sizes;
                    role_kept = took.role_kept;
                    channel_kept = took.channel_kept;
                    outcome = took.outcome;
                  })
                  (finish_fragment-Took (f 0) frag (frag * fragment_size + len) n' (omega arith)
                    fits'))
    ]

keep_active-rest :
    (r : Role) (n : Node)
    → Sizes n
    → Sizes (keep_active r n)
      × ((keep_active r n).role ≡ n.role)
      × ((keep_active r n).state ≡ n.state)
      × ((keep_active r n).datachannel ≡ n.datachannel)
      × ((keep_active r n).data_len ≡ n.data_len)
unfolding keep_active
keep_active-rest client n z = (z, refl, refl, refl, refl)
keep_active-rest ap n z = (
  ground (arith, length-set n.last_activity (active_channel n) n.tick),
  ground arith,
  ground arith,
  ground arith,
  ground arith,
)

consistent-newrx :
    (r : Role) (c l l' : ℕ) → consistent r communicating c l ≡ true → consistent r newrx c l' ≡ true
consistent-newrx ap c l l' h = ground arith
consistent-newrx client c l l' h = refl

data_frame-Inv :
    (f : Frame) (n : Node) → Inv n → n.state ≡ communicating → Ensures Inv (data_frame f n)
unfolding data_frame
data_frame-Inv f n v s =
    let kept = keep_active-rest n.role n v.sizes in
    Ensures->>= (Took (keep_active n.role n)) Inv (defragment f (keep_active n.role n)) _
      (defragment-Took f (keep_active n.role n) kept.0)
      λ m took.
        let role : m.role ≡ n.role = took.role_kept ∙ kept.1 in
        let channel : m.datachannel ≡ n.datachannel = took.channel_kept ∙ kept.3 in
        let c : consistent n.role communicating (active_channel n) n.data_len ≡ true =
          rw (← s) v.states in
        elim (Bool-cases (is_newrx m.state)) [
          | inl new ↦
              rw (new, data_frame)
                (record {
                  sizes = took.sizes;
                  states =
                      rw (role, channel, is_newrx_eq m.state new)
                        (consistent-newrx n.role (active_channel n) n.data_len m.data_len c);
                })
          | inr old ↦
              let len : m.data_len ≡ n.data_len = ground (arith, took.outcome) in
              rw (old, data_frame)
                (change_state-Inv communicating m took.sizes (rw (role, channel, len) c))
        ]

-- The frames at which an access point that listens writes past the end of its response.
abbrev pub rx_overflows : Frame → Node → Bool
rx_overflows f n = not (is_client n.role) && (is_listening n.state && response_overflows f n)

rx_by-Inv :
    (r : Role) (s : State) (f : Frame) (n : Node)
    → n.role ≡ r
    → n.state ≡ s
    → Inv n
    → rx_overflows f n ≡ false
    → Ensures Inv (rx_by r s f n)
unfolding rx_by
rx_by-Inv ap listening f n er es v h = ap_request-Inv f n v.sizes er (rw (er, es) at h)
rx_by-Inv client requesting f n er es v h = client_response-Inv f n v.sizes er es
rx_by-Inv ap communicating f n er es v h = data_frame-Inv f n v es
rx_by-Inv client communicating f n er es v h = data_frame-Inv f n v es
rx_by-Inv ap s f n er es v h = change_state-Inv (rest_state ap) n v.sizes (rw er)
rx_by-Inv client s f n er es v h = change_state-Inv (rest_state client) n v.sizes (rw er)

-- On a node with the invariant the handler of a received frame that does not overflow the response
-- of an access point returns a node with the invariant.
pub process_rx-Inv :
    (f : Frame) (n : Node) → Inv n → rx_overflows f n ≡ false → Ensures Inv (process_rx f n)
unfolding process_rx
process_rx-Inv f n v h = rx_by-Inv n.role n.state f n refl refl v h

rx_by-faults :
    (r : Role) (s : State) (f : Frame) (n : Node)
    → n.role ≡ r
    → n.state ≡ s
    → Inv n
    → rx_overflows f n ≡ true
    → rx_by r s f n ≡ none
unfolding rx_by
rx_by-faults ap listening f n er es v h = ap_request-faults f n v.sizes (rw (er, es) at h)
rx_by-faults ap s f n er es v h = absurd (false≢true (rw (er, es) at h))
rx_by-faults client s f n er es v h = absurd (false≢true (rw er at h))

-- On a node with the invariant the handler of received frames makes an access outside an array
-- exactly when the node is a listening access point whose waiting packet is larger than a fragment
-- and for another client than the one that asks, and the request has no side channel.
pub process_rx-faults_iff :
    (f : Frame) (n : Node) → Inv n → (process_rx f n ≡ none) ↔ (rx_overflows f n ≡ true)
unfolding process_rx
process_rx-faults_iff f n v = (down, λ h. rx_by-faults n.role n.state f n refl refl v h)
  where
    down : process_rx f n ≡ none → rx_overflows f n ≡ true
    down e = elim (Bool-cases (rx_overflows f n)) [
      | inl over ↦ over
      | inr fine ↦ absurd (rw e at (process_rx-Inv f n v fine))
    ]
