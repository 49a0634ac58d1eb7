-- ===== src/Fragment/Burst.antt =====
-- What `winot_burst_tx_and_communicate` transmits, and that its loop ends within its fuel.
use ch32fun_wi_not_ap.Prelude.{
  Bool-cases, Ensures, Ensures->>=, Ensures-mono, List, [], append-nil, append_assoc, arith, drop,
  if◌then◌else◌, inl, inr, length, ltb, refl, some, suc, sym, take, true, zero, ℕ, ◌++◌, ◌+◌, ◌-◌,
  ◌<◌, ◌>>=◌, ◌∙◌, ◌∷◌, ◌≡◌, ◌≤◌,
}
use ch32fun_wi_not_ap.Fragment.{
  burst_loop, burst_tx_and_communicate, chunk_size, tx_frame, send_fragment,
}
use ch32fun_wi_not_ap.Node.{Node, active_channel, change_state, communicating, peer_address}
use ch32fun_wi_not_ap.Node.Invariant.{Inv, Sizes, consistent, consistent-empty, peer_address-runs}
use ch32fun_wi_not_ap.Memory.Laws.{slice-runs}
use ch32fun_wi_not_ap.Radio.{sent_frames}

-- The frames for a packet of `len` bytes from byte `sent`, that of fragment `idx`, on.
unfoldable pub frames_of : ℕ → List ℕ → ℕ → ℕ → ℕ → List (List ℕ)
frames_of zero bytes len sent idx = []
frames_of (suc fuel) bytes len sent idx =
    let c = chunk_size (len - sent) in
    let more = frames_of fuel bytes len (sent + c) (idx + 1) in
    if ltb sent len then tx_frame len (len - sent) idx (take c (drop sent bytes)) ∷ more else []

-- What sending leaves alone, and the frames that it has put on the air.
pub record Sent (fs : List (List ℕ)) (n m : Node) : Type 0 where
  pub role_kept : m.role ≡ n.role
  pub uuid_kept : m.uuid ≡ n.uuid
  pub buf_kept : m.data_buf ≡ n.data_buf
  pub len_kept : m.data_len ≡ n.data_len
  pub received_kept : m.fragments_received ≡ n.fragments_received
  pub uuids_kept : m.datachannel ≡ n.datachannel
  pub times_kept : m.last_activity ≡ n.last_activity
  pub on_air : sent_frames m.calls ≡ sent_frames n.calls ++ fs

send_fragment-Sent :
    (address channel : ℕ) (bytes : List ℕ) (len sent idx : ℕ) (n : Node)
    → sent + chunk_size (len - sent) ≤ length bytes
    → Ensures
        (Sent
          (tx_frame len (len - sent) idx (take (chunk_size (len - sent)) (drop sent bytes)) ∷ [])
          n)
        (send_fragment address channel bytes len sent idx n)
unfolding send_fragment sent_frames
send_fragment-Sent address channel bytes len sent idx n h =
    rw (slice-runs bytes sent (chunk_size (len - sent)) h) (record {
      role_kept = refl;
      uuid_kept = refl;
      buf_kept = refl;
      len_kept = refl;
      received_kept = refl;
      uuids_kept = refl;
      times_kept = refl;
      on_air = refl;
    })

Sent-trans :
    (fs gs : List (List ℕ)) (n m k : Node) → Sent fs n m → Sent gs m k → Sent (fs ++ gs) n k
Sent-trans fs gs n m k a b = record {
  role_kept = b.role_kept ∙ a.role_kept;
  uuid_kept = b.uuid_kept ∙ a.uuid_kept;
  buf_kept = b.buf_kept ∙ a.buf_kept;
  len_kept = b.len_kept ∙ a.len_kept;
  received_kept = b.received_kept ∙ a.received_kept;
  uuids_kept = b.uuids_kept ∙ a.uuids_kept;
  times_kept = b.times_kept ∙ a.times_kept;
  on_air = b.on_air ∙ rw (a.on_air) (append_assoc (sent_frames n.calls) fs gs);
}

Sent-refl : (n : Node) → Sent [] n n
Sent-refl n = record {
  role_kept = refl;
  uuid_kept = refl;
  buf_kept = refl;
  len_kept = refl;
  received_kept = refl;
  uuids_kept = refl;
  times_kept = refl;
  on_air = sym (append-nil _);
}

-- From byte `sent` on the loop puts the frames of the rest on the air, and ends within its fuel.
pub burst_loop-Sent :
    (fuel address channel : ℕ) (bytes : List ℕ) (len sent idx : ℕ) (n : Node)
    → len ≤ length bytes
    → sent ≤ len
    → len - sent < fuel
    → Ensures
        (Sent (frames_of fuel bytes len sent idx) n)
        (burst_loop fuel address channel bytes len sent idx n)
unfolding burst_loop frames_of
burst_loop-Sent zero address channel bytes len sent idx n h s f = absurd (omega arith)
burst_loop-Sent (suc fuel) address channel bytes len sent idx n h s f =
    let c = chunk_size (len - sent) in
    let fst_ok : sent + c ≤ length bytes = ground arith in
    let le : sent + c ≤ len = ground arith in
    elim (Bool-cases (ltb sent len)) [
      | inr done ↦ rw (done, burst_loop) (Sent-refl n)
      | inl go ↦
          let less : len - (sent + c) < fuel = ground arith in
          rw (go, burst_loop)
            (Ensures->>= (Sent (tx_frame len (len - sent) idx (take c (drop sent bytes)) ∷ []) n)
              (Sent _ n) (send_fragment address channel bytes len sent idx n) _
              (send_fragment-Sent address channel bytes len sent idx n fst_ok)
              λ m fst.
                Ensures-mono (Sent (frames_of fuel bytes len (sent + c) (idx + 1)) m) (Sent _ n) _
                  (λ k rest. Sent-trans _ _ n m k fst rest)
                  (burst_loop-Sent fuel address channel bytes len (sent + c) (idx + 1) m h le less))
    ]

-- The peer of a node that may communicate is found, and listening to it puts nothing on the air.
pub communicate-Sent :
    (n : Node)
    → consistent n.role communicating (active_channel n) 0 ≡ true
    → Ensures (λ m. Sent [] n m × (m.state ≡ communicating)) (change_state communicating n)
unfolding change_state sent_frames
communicate-Sent n h =
    Ensures->>= (λ a. Unit {0}) _ (peer_address n.role n) _ (peer_address-runs n.role n 0 h)
      λ a _. (
        record {
          role_kept = refl;
          uuid_kept = refl;
          buf_kept = refl;
          len_kept = refl;
          received_kept = refl;
          uuids_kept = refl;
          times_kept = refl;
          on_air = sym (append-nil _);
        },
        refl,
      )

unfoldable pub frames : List ℕ → ℕ → List (List ℕ)
frames bytes len = frames_of (len + 1) bytes len 0 0

-- The burst returns, communicating, with all frames of the packet on the air and nothing else changed.
pub burst-Sent :
    (address channel : ℕ) (bytes : List ℕ) (len : ℕ) (n : Node)
    → len ≤ length bytes
    → consistent n.role communicating (active_channel n) 0 ≡ true
    → Ensures
        (λ m. Sent (frames bytes len) n m × (m.state ≡ communicating))
        (burst_tx_and_communicate address channel bytes len n)
unfolding burst_tx_and_communicate frames
burst-Sent address channel bytes len n h c =
    Ensures->>= (Sent (frames_of (len + 1) bytes len 0 0) n) _ _ _
      (burst_loop-Sent (len + 1) address channel bytes len 0 0 n h (omega arith) (omega arith))
      λ m fst.
        Ensures-mono (λ k. Sent [] m k × (k.state ≡ communicating)) _ _
          (λ k rest. (
            let all : Sent (frames_of (len + 1) bytes len 0 0 ++ []) n k =
                  Sent-trans _ [] n m k fst rest.0 in
                rw append-nil at all,
            rest.1,
          ))
          (communicate-Sent m (rw (fst.role_kept, fst.uuids_kept) c))

-- After a burst without a packet left the invariant holds.
pub Sent-Inv :
    (fs : List (List ℕ)) (n m : Node)
    → Sizes n
    → consistent n.role communicating (active_channel n) 0 ≡ true
    → Sent fs n m × (m.state ≡ communicating)
    → Inv (record m { data_len = 0 })
Sent-Inv fs n m z c (s, e) = record {
  sizes = rw (s.buf_kept, s.uuids_kept, s.times_kept) (omega arith);
  states = rw (s.role_kept, s.uuids_kept, e) c;
}

pub burst-Inv :
    (address channel : ℕ) (bytes : List ℕ) (len : ℕ) (n : Node)
    → len ≤ length bytes
    → Inv n
    → n.state ≡ communicating
    → Ensures Inv (burst_tx_and_communicate address channel bytes len n)
burst-Inv address channel bytes len n h v e =
    let c : consistent n.role communicating (active_channel n) n.data_len ≡ true =
      rw (← e) v.states in
    Ensures-mono (λ m. Sent (frames bytes len) n m × (m.state ≡ communicating)) Inv
      (burst_tx_and_communicate address channel bytes len n)
      (λ m done. record {
        sizes =
            rw (done.0.buf_kept, done.0.uuids_kept, done.0.times_kept, done.0.len_kept)
              (omega (arith, v.sizes.len_fits));
        states = rw (done.0.role_kept, done.0.uuids_kept, done.0.len_kept, done.1) c;
      })
      (burst-Sent address channel bytes len n h
        (consistent-empty n.role communicating (active_channel n) n.data_len c))

-- A burst that gives the packet away leaves the invariant.
pub burst_away-Inv :
    (address channel : ℕ) (n : Node)
    → Sizes n
    → consistent n.role communicating (active_channel n) 0 ≡ true
    → Ensures Inv (do
      m ← burst_tx_and_communicate address channel n.data_buf n.data_len n
      some (record m { data_len = 0 }))
burst_away-Inv address channel n z c =
    Ensures->>= (λ m. Sent (frames n.data_buf n.data_len) n m × (m.state ≡ communicating)) Inv
      (burst_tx_and_communicate address channel n.data_buf n.data_len n) _
      (burst-Sent address channel n.data_buf n.data_len n (omega arith) c)
      λ m done. Sent-Inv (frames n.data_buf n.data_len) n m z c done
