-- ===== src/Receive/Payload.antt =====
-- Storing a received payload in the packet buffer.
use ch32fun_wi_not_ap.Prelude.{
  Bool-cases, Ensures, Ensures->>=, [], arith, inl, inr, length, length-replicate, refl, replicate,
  zero, ℕ, ◌+◌, ◌<◌, ◌==◌, ◌∷◌, ◌≡◌, ◌≤◌, ◌⊎◌,
}
use ch32fun_wi_not_ap.Receive.{take_payload, request_len, take_sidechannel}
use ch32fun_wi_not_ap.Node.{
  Node, change_state, newrx, data_buf_size, ap, active_channel, ap_channel,
}
use ch32fun_wi_not_ap.Memory.{Frame, sub8, copy}
use ch32fun_wi_not_ap.Node.Invariant.{Sizes, Inv, change_state-Inv}
use ch32fun_wi_not_ap.Memory.Laws.{sub8-lt, length-copy, write_at-size}

-- What a step of the handler keeps: all but the packet, and the state it may have changed to.
pub record Took (n m : Node) : Type 0 where
  pub sizes : Sizes m
  pub role_kept : m.role ≡ n.role
  pub channel_kept : m.datachannel ≡ n.datachannel
  pub outcome : (m.state ≡ newrx) ⊎ ((m.state ≡ n.state) × (m.data_len ≡ n.data_len))

pub request_len-lt : (f : Frame) → request_len f < 256
request_len-lt f = sub8-lt (sub8 (f 1) 2) 4

-- What the handlers copy from a frame fits the packet buffer.
pub copy-fits :
    (f : Frame) (from off : ℕ)
    → off ≤ 245
    → off + length (copy f from (request_len f)) ≤ data_buf_size
copy-fits f from off h = omega (arith, length-copy f from (request_len f), request_len-lt f)

pub take_payload-Took : (f : Frame) (n : Node) → Sizes n → Ensures (Took n) (take_payload f n)
unfolding take_payload change_state
take_payload-Took f n z = elim (Bool-cases (request_len f == 0)) [
  | inl e ↦
      rw (e, take_payload)
        (record { sizes = z; role_kept = refl; channel_kept = refl; outcome = inr (refl, refl) })
  | inr e ↦
      rw (e, take_payload)
        (Ensures->>= (λ buf. length buf ≡ data_buf_size) (Took n) _ _
          (write_at-size data_buf_size n.data_buf 0 (copy f 8 (request_len f)) z.buf_size
            (copy-fits f 8 0 (omega arith)))
          λ buf size. record {
            sizes = omega (arith, request_len-lt f);
            role_kept = refl;
            channel_kept = refl;
            outcome = inl refl;
          })
]

pub take_sidechannel-Inv :
    (f : Frame) (n : Node)
    → Sizes n
    → n.role ≡ ap
    → active_channel n ≡ ap_channel
    → Ensures Inv (take_sidechannel f n)
unfolding take_sidechannel
take_sidechannel-Inv f n z r c =
    Ensures->>= (λ buf. length buf ≡ data_buf_size) Inv _ _
      (write_at-size data_buf_size n.data_buf 0 (replicate 6 0) z.buf_size
        (omega (arith, length-replicate 6 (zero))))
      λ b₁ s₁.
        Ensures->>= (λ buf. length buf ≡ data_buf_size) Inv _ _
          (write_at-size data_buf_size b₁ 6 (f 2 ∷ []) s₁ (omega arith))
          λ b₂ s₂.
            Ensures->>= (λ buf. length buf ≡ data_buf_size) Inv _ _
              (write_at-size data_buf_size b₂ 7 (copy f 8 (request_len f)) s₂
                (copy-fits f 8 7 (omega arith)))
              λ b₃ s₃. change_state-Inv newrx _ (omega (arith, request_len-lt f)) (rw (r, c))
