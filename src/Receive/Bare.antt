-- ===== src/Receive/Bare.antt =====
-- The frames of the request channel without a payload: what a receiver reads of them.
use ch32fun_wi_not_ap.Prelude.{refl, ◌∷◌, ℕ, List, get_or, ◌≡◌, arith, ◌<◌, ◌^◌}
use ch32fun_wi_not_ap.Radio.Delivery.{Delivers}
use ch32fun_wi_not_ap.Memory.{word_bytes, Frame, sub8, load_word}
use ch32fun_wi_not_ap.Receive.{request_len}

-- Flags, length byte, channel and word.
abbrev pub bare : ℕ → ℕ → ℕ → ℕ → List ℕ
bare pdu counter channel uuid = pdu ∷ counter ∷ channel ∷ 0 ∷ word_bytes uuid

module _ (deliver : List ℕ → Frame) (ok : Delivers deliver) (pdu counter channel uuid : ℕ) where
  pub bare_pdu : deliver (bare pdu counter channel uuid) 0 ≡ pdu
  unfolding word_bytes get_or
  bare_pdu = ok.carried (bare pdu counter channel uuid) 0 (omega arith) (omega arith)

  pub bare_channel : deliver (bare pdu counter channel uuid) 2 ≡ channel
  unfolding word_bytes get_or
  bare_channel = ok.carried (bare pdu counter channel uuid) 2 (omega arith) (omega arith)

  pub bare_len : request_len (deliver (bare pdu counter channel uuid)) ≡ 0
  unfolding word_bytes sub8
  bare_len =
      let c : deliver (bare pdu counter channel uuid) 1 ≡ 6 =
        ok.counted (bare pdu counter channel uuid) (omega arith) (omega arith) in
      rw c refl

  pub bare_word : uuid < 2 ^ 32 → load_word (deliver (bare pdu counter channel uuid)) 4 ≡ uuid
  unfolding word_bytes get_or load_word
  bare_word h =
      let frame = bare pdu counter channel uuid in
      omega (
        arith,
        ok.carried frame 4 (omega arith) (omega arith),
        ok.carried frame 5 (omega arith) (omega arith),
        ok.carried frame 6 (omega arith) (omega arith),
        ok.carried frame 7 (omega arith) (omega arith),
      )
