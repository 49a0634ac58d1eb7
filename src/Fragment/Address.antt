-- ===== src/Fragment/Address.antt =====
-- To whom a burst is transmitted.
use ch32fun_wi_not_ap.Prelude.{
  refl, [], ◌∷◌, some, zero, suc, inl, inr, ℕ, ◌==◌, List, ◌≡◌, true, ◌++◌, ◌+◌, ◌≤◌, Ensures,
  ==_iff, ◌-◌, length, take, ◌<◌, drop, arith, Bool-cases, ltb, sym, append-nil, Ensures->>=,
  Ensures-mono, ◌∙◌, append_assoc, Option-cases, Ensures-ne-none, Ensures-both,
}
use ch32fun_wi_not_ap.Fragment.{
  send_fragment, burst_loop, burst_tx_and_communicate, chunk_size, tx_frame,
}
use ch32fun_wi_not_ap.Fragment.Burst.{frames_of, frames, Sent, burst-Sent, burst_loop-Sent}
use ch32fun_wi_not_ap.Radio.Tuning.{sent_to, tuned}
use ch32fun_wi_not_ap.Node.{Node, change_state, communicating, peer_address, active_channel}
use ch32fun_wi_not_ap.Radio.{Call, transmit}
use ch32fun_wi_not_ap.Memory.Laws.{slice-runs}
use ch32fun_wi_not_ap.Node.Invariant.{consistent, peer_address-runs}

self_eq : (a : ℕ) → (a == a) ≡ true
self_eq a = (==_iff a a).1 refl

-- Transmitted to an address on a channel, it is found there.
pub sent_to-transmit :
    (a c : ℕ) (frame : List ℕ) (calls : List Call)
    → sent_to a c (transmit a frame c ∷ calls) ≡ sent_to a c calls ++ (frame ∷ [])
unfolding sent_to
sent_to-transmit a c frame calls = rw (self_eq a, self_eq c)

-- What goes to an address on a channel, and nothing else changes of the node but the clock.
record Aimed (a c : ℕ) (fs : List (List ℕ)) (n m : Node) : Type 0 where
  aimed : sent_to a c m.calls ≡ sent_to a c n.calls ++ fs

send_fragment-Aimed :
    (a c : ℕ) (bytes : List ℕ) (len sent idx : ℕ) (n : Node)
    → sent + chunk_size (len - sent) ≤ length bytes
    → Ensures
        (Aimed a c
          (tx_frame len (len - sent) idx (take (chunk_size (len - sent)) (drop sent bytes)) ∷ [])
          n)
        (send_fragment a c bytes len sent idx n)
unfolding send_fragment sent_to
send_fragment-Aimed a c bytes len sent idx n h =
    let chunk = take (chunk_size (len - sent)) (drop sent bytes) in
    rw (slice-runs bytes sent (chunk_size (len - sent)) h)
      (record { aimed = sent_to-transmit a c (tx_frame len (len - sent) idx chunk) n.calls })

burst_loop-Aimed :
    (fuel a c : ℕ) (bytes : List ℕ) (len sent idx : ℕ) (n : Node)
    → len ≤ length bytes
    → sent ≤ len
    → len - sent < fuel
    → Ensures
        (Aimed a c (frames_of fuel bytes len sent idx) n)
        (burst_loop fuel a c bytes len sent idx n)
unfolding burst_loop frames_of
burst_loop-Aimed zero a c bytes len sent idx n h s f = absurd (omega arith)
burst_loop-Aimed (suc fuel) a c bytes len sent idx n h s f =
    let k = chunk_size (len - sent) in
    let fst_ok : sent + k ≤ length bytes = ground arith in
    let le : sent + k ≤ len = ground arith in
    elim (Bool-cases (ltb sent len)) [
      | inr done ↦ rw (done, burst_loop) (record { aimed = sym (append-nil _) })
      | inl go ↦
          let less : len - (sent + k) < fuel = ground arith in
          let fst = tx_frame len (len - sent) idx (take k (drop sent bytes)) ∷ [] in
          rw (go, burst_loop)
            (Ensures->>= (Aimed a c fst n) (Aimed a c _ n) (send_fragment a c bytes len sent idx n)
              _ (send_fragment-Aimed a c bytes len sent idx n fst_ok)
              λ m f.
                Ensures-mono (Aimed a c (frames_of fuel bytes len (sent + k) (idx + 1)) m)
                  (Aimed a c _ n) _
                  (λ q rest. record {
                    aimed =
                        rest.aimed
                        ∙ rw f.aimed (
                            append_assoc (sent_to a c n.calls) fst
                              (frames_of fuel bytes len (sent + k) (idx + 1)));
                  })
                  (burst_loop-Aimed fuel a c bytes len (sent + k) (idx + 1) m h le less))
    ]

-- A change to the data channel transmits nothing, and tunes the radio to the peer.
pub record Tunes (a c : ℕ) (peer : ℕ) (n m : Node) : Type 0 where
  pub aimed : sent_to a c m.calls ≡ sent_to a c n.calls
  pub listens : tuned m.calls ≡ some (peer, active_channel n)

pub communicate-Tunes :
    (a c peer : ℕ) (n : Node)
    → peer_address n.role n ≡ some peer
    → Ensures (Tunes a c peer n) (change_state communicating n)
unfolding change_state sent_to tuned
communicate-Tunes a c peer n e = rw e (record { aimed = refl; listens = refl })

-- A burst: its frames go to the address on the channel, and the node communicates.
pub record Bursts (a c : ℕ) (fs : List (List ℕ)) (n m : Node) : Type 0 where
  pub sent : Sent fs n m
  pub on_channel : m.state ≡ communicating
  pub aimed : sent_to a c m.calls ≡ sent_to a c n.calls ++ fs

pub burst-Bursts :
    (a c : ℕ) (bytes : List ℕ) (len : ℕ) (n : Node)
    → len ≤ length bytes
    → consistent n.role communicating (active_channel n) 0 ≡ true
    → Ensures (Bursts a c (frames bytes len) n) (burst_tx_and_communicate a c bytes len n)
unfolding frames burst_tx_and_communicate
burst-Bursts a c bytes len n h peer =
    Ensures-mono
      (λ m.
        (Sent (frames bytes len) n m × (m.state ≡ communicating))
        × Aimed a c (frames bytes len) n m)
      (Bursts a c (frames bytes len) n) (burst_tx_and_communicate a c bytes len n)
      (λ m b. record { sent = b.0.0; on_channel = b.0.1; aimed = b.1.aimed })
      (Ensures-both (λ m. Sent (frames bytes len) n m × (m.state ≡ communicating))
        (Aimed a c (frames bytes len) n) (burst_tx_and_communicate a c bytes len n)
        (burst-Sent a c bytes len n h peer)
        (Ensures->>= (λ m. Sent (frames bytes len) n m × Aimed a c (frames bytes len) n m)
          (Aimed a c (frames bytes len) n) _ _
          (Ensures-both (Sent (frames bytes len) n) (Aimed a c (frames bytes len) n) _
            (burst_loop-Sent (len + 1) a c bytes len 0 0 n h (omega arith) (omega arith))
            (burst_loop-Aimed (len + 1) a c bytes len 0 0 n h (omega arith) (omega arith)))
          λ m f. quiet m f.1 (rw (f.0.role_kept, f.0.uuids_kept) peer)))
  where
    quiet :
        (m : Node)
        → Aimed a c (frames bytes len) n m
        → consistent m.role communicating (active_channel m) 0 ≡ true
        → Ensures (Aimed a c (frames bytes len) n) (change_state communicating m)
    quiet m f k = elim (Option-cases (peer_address m.role m)) [
      | inl e ↦ absurd (Ensures-ne-none (λ (x : ℕ). Unit {0}) _ (peer_address-runs m.role m 0 k) e)
      | inr (p, e) ↦
          Ensures-mono (Tunes a c p m) (Aimed a c (frames bytes len) n) _
            (λ q t. record { aimed = t.aimed ∙ f.aimed }) (communicate-Tunes a c p m e)
    ]
