-- ===== src/Receive/Arrival.antt =====
-- The payload of a frame of the request channel, as it arrives over a radio that delivers.
use ch32fun_wi_not_ap.Prelude.{
  [], refl, ℕ, List, take, ◌∷◌, ◌++◌, ◌≡◌, get_or, length, ◌≤◌, arith, suc, ◌-◌, Ensures, ◌+◌, ◌==◌,
  false, ◌<◌, ◌^◌,
}
use ch32fun_wi_not_ap.Receive.{request_len, take_payload}
use ch32fun_wi_not_ap.Node.{State, change_state, Node, newrx, fragment_size, data_buf_size}
use ch32fun_wi_not_ap.Memory.{Frame, word_bytes, sub8, copy, load_word}
use ch32fun_wi_not_ap.Radio.Delivery.{Delivers, copy-eq}
use ch32fun_wi_not_ap.Node.Invariant.{Sizes}
use ch32fun_wi_not_ap.Memory.Laws.{write_at-runs, take-overwrite_front}

-- A frame of the request channel without flags.
abbrev pub channel_frame : ℕ → ℕ → ℕ → List ℕ → List ℕ
channel_frame counter channel uuid payload =
    0 ∷ counter ∷ channel ∷ 0 ∷ (word_bytes uuid ++ payload)

module _ (deliver : List ℕ → Frame) (ok : Delivers deliver) where
  module _ (counter channel uuid : ℕ) (payload : List ℕ) where
    pub payload-arrives :
        copy (deliver (channel_frame counter channel uuid payload)) 8 (length payload) ≡ payload
    unfolding get_or word_bytes
    payload-arrives =
        copy-eq (deliver (channel_frame counter channel uuid payload)) 8 payload λ i h.
          let place = suc (suc (suc (suc (suc (suc (suc (suc i))))))) in
          let s : 8 + i ≡ place = omega arith in
          rw s (
            ok.carried (channel_frame counter channel uuid payload) place (omega arith)
              (omega arith))

    pub len-arrives :
        length payload ≤ fragment_size
        → request_len (deliver (channel_frame counter channel uuid payload)) ≡ length payload
    unfolding sub8 word_bytes
    len-arrives h =
        let frame = channel_frame counter channel uuid payload in
        let c : deliver frame 1 ≡ length frame - 2 = ok.counted frame (omega arith) (omega arith) in
        rw c (omega arith)

    pub channel-arrives : deliver (channel_frame counter channel uuid payload) 2 ≡ channel
    unfolding get_or word_bytes
    channel-arrives =
        ok.carried (channel_frame counter channel uuid payload) 2 (omega arith) (omega arith)

    pub word-arrives :
        uuid < 2 ^ 32 → load_word (deliver (channel_frame counter channel uuid payload)) 4 ≡ uuid
    unfolding get_or word_bytes load_word
    word-arrives h =
        let frame = channel_frame counter channel uuid payload in
        omega (
          arith,
          ok.carried frame 4 (omega arith) (omega arith),
          ok.carried frame 5 (omega arith) (omega arith),
          ok.carried frame 6 (omega arith) (omega arith),
          ok.carried frame 7 (omega arith) (omega arith),
        )

    pub pdu-arrives : deliver (channel_frame counter channel uuid payload) 0 ≡ 0
    unfolding get_or word_bytes
    pdu-arrives =
        ok.carried (channel_frame counter channel uuid payload) 0 (omega arith) (omega arith)

-- A node got these bytes as a new packet; no bytes leave it in the state it had.
abbrev pub Got : State → List ℕ → Node → Type 0
Got before [] m = m.state ≡ before
Got before (b ∷ bytes) m =
    (m.state ≡ newrx) × (m.data_len ≡ length (b ∷ bytes)) × (take m.data_len m.data_buf ≡ b ∷ bytes)

pub take_payload-Got :
    (f : Frame) (payload : List ℕ) (n : Node)
    → Sizes n
    → request_len f ≡ length payload
    → copy f 8 (length payload) ≡ payload
    → length payload ≤ fragment_size
    → Ensures (λ m. Got n.state payload m × (m.calls ≡ n.calls)) (take_payload f n)
unfolding take_payload change_state
take_payload-Got f [] n z l c h = rw (l, take_payload) (refl, refl)
take_payload-Got f (b ∷ bytes) n z l c h =
    let payload = b ∷ bytes in
    let ne : (length payload == 0) ≡ false = ground arith in
    rw (l, take_payload, ne, c, write_at-runs data_buf_size n.data_buf 0 payload (omega arith))
      ((refl, refl, take-overwrite_front n.data_buf payload (omega arith)), refl)
