-- ===== src/Fragment/Elsewhere.antt =====
-- A burst is on the air on its own channel only.
use ch32fun_wi_not_ap.Prelude.{
  refl, zero, suc, inl, inr, ℕ, List, ◌≡◌, ◌==◌, ◌+◌, ◌-◌, false, ltb, Bool-cases, arith, ◌∙◌, ◌∷◌,
  some,
}
use ch32fun_wi_not_ap.Fragment.{
  send_fragment, burst_loop, burst_tx_and_communicate, chunk_size, tx_frame,
}
use ch32fun_wi_not_ap.System.Released.{Leaves, Leaves-after, Leaves->>=, Leaves-mono}
use ch32fun_wi_not_ap.Radio.Tuning.{sent_to}
use ch32fun_wi_not_ap.Node.{
  Node, change_state, peer_address, advance, enter, emit, communicating, active_channel,
}
use ch32fun_wi_not_ap.Radio.{Call, transmit, delay, listen}
use ch32fun_wi_not_ap.Memory.{slice}

pub sent_to-other :
    (a b c d : ℕ) (frame : List ℕ) (calls : List Call)
    → (c == d) ≡ false
    → sent_to a d (transmit b frame c ∷ calls) ≡ sent_to a d calls
unfolding sent_to
sent_to-other a b c d frame calls h = ground arith

module _ (a c d : ℕ) (h : (c == d) ≡ false) where
  Quiet : Node → Node → Type 0
  Quiet n m = sent_to a d m.calls ≡ sent_to a d n.calls

  send_fragment-Quiet :
      (bytes : List ℕ) (len sent idx : ℕ) (n : Node)
      → Leaves (Quiet n) (send_fragment a c bytes len sent idx n)
  unfolding send_fragment Quiet sent_to
  send_fragment-Quiet bytes len sent idx n =
      Leaves-after (Quiet n) (slice bytes sent (chunk_size (len - sent)))
        (λ chunk. some (
          advance 1 (emit (delay 1) (emit (transmit a (tx_frame len (len - sent) idx chunk) c) n))))
        λ chunk. sent_to-other a a c d (tx_frame len (len - sent) idx chunk) n.calls h

  burst_loop-Quiet :
      (fuel : ℕ) (bytes : List ℕ) (len sent idx : ℕ) (n : Node)
      → Leaves (Quiet n) (burst_loop fuel a c bytes len sent idx n)
  unfolding burst_loop Quiet
  burst_loop-Quiet zero bytes len sent idx n = ground arith
  burst_loop-Quiet (suc fuel) bytes len sent idx n = elim (Bool-cases (ltb sent len)) [
    | inr done ↦ rw (done, burst_loop) refl
    | inl go ↦
        rw (go, burst_loop)
          (Leaves->>= (Quiet n) (Quiet n) _ _ (send_fragment-Quiet bytes len sent idx n) λ m q.
            Leaves-mono (Quiet m) (Quiet n) _ (λ k r. r ∙ q)
              (burst_loop-Quiet fuel bytes len (sent + chunk_size (len - sent)) (idx + 1) m))
  ]

  pub burst-quiet :
      (bytes : List ℕ) (len : ℕ) (n : Node)
      → Leaves
          (λ m. sent_to a d m.calls ≡ sent_to a d n.calls)
          (burst_tx_and_communicate a c bytes len n)
  unfolding burst_tx_and_communicate Quiet change_state sent_to
  burst-quiet bytes len n =
      Leaves->>= (Quiet n) (Quiet n) _ _ (burst_loop-Quiet (len + 1) bytes len 0 0 n) λ m q.
        Leaves-after (Quiet n) (peer_address m.role m)
          (λ p. some (enter communicating (emit (listen p (active_channel m)) m))) λ p. q
