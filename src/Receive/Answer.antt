-- ===== src/Receive/Answer.antt =====
-- The access point's answer to a request: it faults only where its packet does not fit the response.
use ch32fun_wi_not_ap.Prelude.{
  Bool, Bool-cases, Ensures, Ensures->>=, List, arith, drop, false, inl, inr, length-drop,
  length-take, ltb, none, not, refl, take, true, ℕ, ◌%◌, ◌&&◌, ◌+◌, ◌<◌, ◌==◌, ◌||◌, ◌∙◌, ◌≡◌, ◌≤◌,
}
use ch32fun_wi_not_ap.Receive.{
  give_payload, after_response, answer_request, ap_needs_datachannel, ap_request, route_request,
}
use ch32fun_wi_not_ap.Node.{
  Node, ap, active_channel, ap_channel, fragment_size, is_newrx, listening, communicating,
  dest_uuid,
}
use ch32fun_wi_not_ap.Memory.{Frame, load_word}
use ch32fun_wi_not_ap.Node.Invariant.{Sizes, Inv, change_state-Inv, is_client_channel}
use ch32fun_wi_not_ap.Memory.Laws.{slice-runs, into_array-runs, into_array-faults}
use ch32fun_wi_not_ap.Receive.Route.{route_request-Routed}
use ch32fun_wi_not_ap.Receive.Payload.{Took, take_sidechannel-Inv, take_payload-Took}

-- The access point's packet leaves it, or stays; the rest is left alone.
record Gave (n : Node) (r : List ℕ × Node) : Type 0 where
  sizes : Sizes r.1
  role_kept : r.1.role ≡ n.role
  state_kept : r.1.state ≡ n.state
  channel_kept : r.1.datachannel ≡ n.datachannel

-- The packet goes into the response, and the response has no room for it.
abbrev pub overflows : Bool → Node → Bool
overflows needs n = not needs && ltb fragment_size n.data_len

give_payload-Gave :
    (needs : Bool) (n : Node)
    → Sizes n
    → overflows needs n ≡ false
    → Ensures (Gave n) (give_payload needs n)
unfolding give_payload
give_payload-Gave needs n z h = elim (Bool-cases (not (n.data_len == 0) && not needs)) [
  | inr e ↦
      rw (e, give_payload)
        (record { sizes = z; role_kept = refl; state_kept = refl; channel_kept = refl })
  | inl e ↦
      let small : 8 + n.data_len ≤ 253 = ground arith in
      rw
        (
          e,
          give_payload,
          slice-runs n.data_buf 0 n.data_len (omega arith),
          into_array-runs 253 8 (take n.data_len (drop 0 n.data_buf))
              (omega (arith, length-take n.data_len (drop 0 n.data_buf), length-drop 0 n.data_buf)),
        )
        (record { sizes = omega arith; role_kept = refl; state_kept = refl; channel_kept = refl })
]

give_payload-faults :
    (needs : Bool) (n : Node) → Sizes n → overflows needs n ≡ true → give_payload needs n ≡ none
unfolding give_payload
give_payload-faults needs n z h =
    let go : (not (n.data_len == 0) && not needs) ≡ true = ground arith in
    let big : 245 < n.data_len = ground arith in
    rw (
      go,
      give_payload,
      slice-runs n.data_buf 0 n.data_len (omega arith),
      into_array-faults 253 8 (take n.data_len (drop 0 n.data_buf))
          (omega (arith, length-take n.data_len (drop 0 n.data_buf), length-drop 0 n.data_buf)),
    )

after_response-Inv :
    (channel : ℕ) (n : Node)
    → channel ≡ active_channel n % 256
    → Sizes n
    → n.role ≡ ap
    → ((active_channel n == ap_channel) || is_client_channel (active_channel n)) ≡ true
    → Ensures Inv (after_response channel n)
unfolding after_response
after_response-Inv channel n same z r c = elim (Bool-cases (is_newrx n.state)) [
  | inl e ↦ rw (e, after_response) (record { sizes = z; states = rw r (ground arith) })
  | inr e ↦ elim (Bool-cases (channel == ap_channel)) [
    | inl on ↦ rw (e, after_response, on) (change_state-Inv listening n z (rw r))
    | inr off ↦
        rw (e, after_response, off) (change_state-Inv communicating n z (rw r (ground arith)))
  ]
]

answer_request-Inv :
    (f : Frame) (needs : Bool) (uuid : ℕ) (n : Node)
    → Sizes n
    → n.role ≡ ap
    → ((active_channel n == ap_channel) || is_client_channel (active_channel n)) ≡ true
    → overflows needs n ≡ false
    → Ensures Inv (answer_request f needs uuid n)
unfolding answer_request
answer_request-Inv f needs uuid n z r c h =
    Ensures->>= (Gave n) Inv _ _ (give_payload-Gave needs n z h) λ g gave.
      Ensures->>= (Took g.1) Inv _ _ (take_payload-Took f g.1 gave.sizes) λ m took.
        let kept : m.datachannel ≡ n.datachannel = took.channel_kept ∙ gave.channel_kept in
        after_response-Inv (active_channel n % 256) _ (rw kept) (omega arith)
          (took.role_kept ∙ gave.role_kept ∙ r) (rw kept c)

-- The requests at which the access point writes past the end of its response: no side channel,
-- and a packet of more than a fragment for another client.
abbrev pub response_overflows : Frame → Node → Bool
response_overflows f n =
    f 2 == 0 && (ltb fragment_size n.data_len && not (load_word f 4 == dest_uuid n.data_buf))

pub ap_request-Inv :
    (f : Frame) (n : Node)
    → Sizes n
    → n.role ≡ ap
    → response_overflows f n ≡ false
    → Ensures Inv (ap_request f n)
unfolding ap_request
ap_request-Inv f n z r h =
    let routed = route_request-Routed f n z in
    elim (Bool-cases (f 2 == 0)) [
      | inl e ↦
          rw (e, ap_request)
            (answer_request-Inv f _ _ _ routed.sizes (routed.role_kept ∙ r) routed.channel
              (ground arith))
      | inr e ↦
          rw (e, ap_request)
            (take_sidechannel-Inv f _ routed.sizes (routed.role_kept ∙ r)
              (routed.sidechannel (ground arith)))
    ]

pub ap_request-faults :
    (f : Frame) (n : Node) → Sizes n → response_overflows f n ≡ true → ap_request f n ≡ none
unfolding ap_request answer_request
ap_request-faults f n z h =
    let routed = route_request-Routed f n z in
    let e : (f 2 == 0) ≡ true = ground arith in
    rw (
      e,
      ap_request,
      give_payload-faults (ap_needs_datachannel (load_word f 4) n) (route_request f n) routed.sizes
          (ground arith),
    )
