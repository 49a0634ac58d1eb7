-- ===== src/Receive/RoundTrip.antt =====
-- From the packet of one node to the packet of another: a burst, the radio, and the handler of
-- received frames.
use ch32fun_wi_not_ap.Prelude.{
  none, Bool-cases, Ensures, Ensures->>=, Ensures-mono, List, Option, [], arith, false, inl, inr,
  length, ltb, ltb→lt, map, refl, some, suc, take, true, zero, ℕ, ◌*◌, ◌+◌, ◌-◌, ◌/◌, ◌<◌, ◌>>=◌,
  ◌^◌, ◌∙◌, ◌∷◌, ◌≡◌, ◌≤◌, Ensures-with,
}
use ch32fun_wi_not_ap.Memory.{Frame}
use ch32fun_wi_not_ap.Node.{
  Node, active_channel, communicating, data_buf_size, fragment_size, advance,
}
use ch32fun_wi_not_ap.Receive.{process_rx}
use ch32fun_wi_not_ap.Receive.Reassembly.{
  Collected, Collecting, fragment, last-Collected, middle-Collecting, advance-Collecting,
  advance-Collected,
}
use ch32fun_wi_not_ap.Fragment.Burst.{Sent, burst-Sent, frames, frames_of}
use ch32fun_wi_not_ap.Radio.Delivery.{Delivers}
use ch32fun_wi_not_ap.Node.Invariant.{consistent, Inv}
use ch32fun_wi_not_ap.Radio.{sent_frames}
use ch32fun_wi_not_ap.Fragment.{burst_tx_and_communicate}

-- Each frame is handled when it comes.
unfoldable pub receive_all : List Frame → Node → Option Node
receive_all [] n = some n
receive_all (f ∷ fs) n = do m ← process_rx f n; receive_all fs m

-- How many fragments a packet of `len` bytes has.
abbrev pub fragment_count : ℕ → ℕ
fragment_count len = (len + 244) / 245

pub frames_of-done :
    (fuel : ℕ) (bytes : List ℕ) (len sent idx : ℕ)
    → len ≤ sent
    → frames_of fuel bytes len sent idx ≡ []
unfolding frames_of
frames_of-done zero bytes len sent idx h = refl
frames_of-done (suc fuel) bytes len sent idx h = let e : ltb sent len ≡ false = ground arith in rw e

-- Each frame is handled by `step` when it comes.
unfoldable pub each : (Frame → Node → Option Node) → List Frame → Node → Option Node
each step [] n = some n
each step (f ∷ fs) n = do m ← step f n; each step fs m

next_same :
    (m : Option Node) (f g : Node → Option Node) → ((n : Node) → f n ≡ g n) → (m >>= f) ≡ (m >>= g)
next_same none f g h = refl
next_same (some n) f g h = h n

receive_all-each : (fs : List Frame) (n : Node) → receive_all fs n ≡ each process_rx fs n
unfolding receive_all each
receive_all-each [] n = refl
receive_all-each (f ∷ fs) n = next_same (process_rx f n) _ _ (receive_all-each fs)

-- `step` keeps what the handler makes of a frame on a data channel, as far as time does, and keeps `P`.
abbrev pub Lifts : (Node → Type 0) → (Frame → Node → Option Node) → Type 1
Lifts P step =
    (Q : Node → Type 0) (f : Frame) (n : Node)
    → ((dt : ℕ) (m : Node) → Q m → Q (advance dt m))
    → n.state ≡ communicating
    → P n
    → Ensures Q (process_rx f n)
    → Ensures (λ m. Q m × P m) (step f n)

module _ (deliver : List ℕ → Frame) (ok : Delivers deliver) (P : Node → Type 0)
    (step : Frame → Node → Option Node) (lifts : Lifts P step) where
  collect-frames :
      (fuel : ℕ) (bytes : List ℕ) (len idx : ℕ) (n : Node)
      → len ≤ length bytes
      → len ≤ data_buf_size
      → idx * fragment_size < len
      → len - idx * fragment_size < fuel
      → Collecting bytes (fragment_count len) idx n
      → P n
      → Ensures
          (λ m. Collected bytes len m × P m)
          (each step (map deliver (frames_of fuel bytes len (idx * fragment_size) idx)) n)
  unfolding each frames_of fragment
  collect-frames zero bytes len idx n hb hl hi hf c p = absurd (omega arith)
  collect-frames (suc fuel) bytes len idx n hb hl hi hf c p =
      let go : ltb (idx * fragment_size) len ≡ true = ground arith in
      let left = len - idx * fragment_size in
      elim (Bool-cases (ltb fragment_size left)) [
        | inl more ↦
            let next : idx * fragment_size + fragment_size ≡ (idx + 1) * fragment_size =
              omega arith in
            let big : fragment_size < left = ltb→lt fragment_size left more in
            rw (go, more, next)
              (Ensures->>= (λ m. Collecting bytes (fragment_count len) (idx + 1) m × P m)
                (λ m. Collected bytes len m × P m) _ _
                (lifts (Collecting bytes (fragment_count len) (idx + 1)) _ n
                  (λ dt. advance-Collecting dt bytes (fragment_count len) (idx + 1)) c.on_channel p
                  (rw (fragment, more) at
                    (middle-Collecting deliver ok bytes len (fragment_count len) idx left n c big
                      (omega arith) (omega arith) (omega arith) (omega arith))))
                λ m c'.
                  collect-frames fuel bytes len (idx + 1) m hb hl (omega arith) (omega arith) c'.0
                    c'.1)
        | inr last ↦
            let small : left ≤ fragment_size = ground arith in
            let e : idx * fragment_size + left ≡ len = omega arith in
            rw
              (
                go,
                last,
                frames_of-done fuel bytes len (idx * fragment_size + left) (idx + 1) (omega arith),
              )
              (Ensures->>= (λ m. Collected bytes len m × P m) (λ m. Collected bytes len m × P m) _ _
                (lifts (Collected bytes len) _ n (λ dt. advance-Collected dt bytes len) c.on_channel
                  p
                  (rw (fragment, last, e) at
                    (last-Collected deliver ok bytes len (fragment_count len) idx left n c small
                      (omega arith) (omega arith) (omega arith))))
                λ m c'. c')
      ]

  -- All frames of a packet, handled in order, keep what each frame keeps.
  pub each-frames :
      (bytes : List ℕ) (len : ℕ) (r : Node)
      → 0 < len
      → len ≤ length bytes
      → len ≤ data_buf_size
      → Inv r
      → r.state ≡ communicating
      → r.fragments_received < 2 ^ fragment_count len
      → P r
      → Ensures (λ m. Collected bytes len m × P m) (each step (map deliver (frames bytes len)) r)
  unfolding frames take
  each-frames bytes len r pos hb hl v e marks p =
      collect-frames (len + 1) bytes len 0 r hb hl (omega arith) (omega arith)
        (record {
          inv = v;
          on_channel = e;
          so_far = refl;
          low_marks = omega arith;
          high_marks = marks;
        })
        p

module _ (deliver : List ℕ → Frame) (ok : Delivers deliver) (P : Node → Type 0)
    (keep : (f : Frame) (n m : Node)
      → n.state ≡ communicating
      → P n
      → process_rx f n ≡ some m
      → P m) where
  pub receive_all-frames :
      (bytes : List ℕ) (len : ℕ) (r : Node)
      → 0 < len
      → len ≤ length bytes
      → len ≤ data_buf_size
      → Inv r
      → r.state ≡ communicating
      → r.fragments_received < 2 ^ fragment_count len
      → P r
      → Ensures (λ m. Collected bytes len m × P m) (receive_all (map deliver (frames bytes len)) r)
  receive_all-frames bytes len r pos hb hl v e marks p =
      rw (receive_all-each (map deliver (frames bytes len)) r) (
        each-frames deliver ok P process_rx
          (λ Q f n stable c q h. Ensures-with Q P _ h λ m. keep f n m c q) bytes len r pos hb hl v e
          marks p)

module _ (deliver : List ℕ → Frame) (ok : Delivers deliver) where
  -- A packet of 1 to 1715 bytes that a node bursts on its data channel, whose peer is known and
  -- which has put nothing on the air before, is put together by a communicating node with the
  -- invariant that handles the transmitted frames in order over a radio that delivers: the burst
  -- returns, and the receiver then has a new packet of the same length with the same bytes and no
  -- marks left; the receiver may start with marks of any fragments that the packet itself has.
  pub receive_all-burst :
      (address channel : ℕ) (bytes : List ℕ) (len : ℕ) (n r : Node)
      → 0 < len
      → len ≤ length bytes
      → len ≤ data_buf_size
      → consistent n.role communicating (active_channel n) 0 ≡ true
      → sent_frames n.calls ≡ []
      → Inv r
      → r.state ≡ communicating
      → r.fragments_received < 2 ^ fragment_count len
      → Ensures
          (λ m. Ensures (Collected bytes len) (receive_all (map deliver (sent_frames m.calls)) r))
          (burst_tx_and_communicate address channel bytes len n)
  receive_all-burst address channel bytes len n r pos hb hl peer quiet v e marks =
      Ensures-mono (λ m. Sent (frames bytes len) n m × (m.state ≡ communicating))
        (λ m. Ensures (Collected bytes len) (receive_all (map deliver (sent_frames m.calls)) r))
        (burst_tx_and_communicate address channel bytes len n)
        (λ m done.
          let air : sent_frames m.calls ≡ frames bytes len = done.0.on_air ∙ rw quiet in
          rw air (
            Ensures-mono (λ q. Collected bytes len q × Unit {0}) (Collected bytes len) _
              (λ q g. g.0)
              (receive_all-frames deliver ok (λ q. Unit {0}) (λ f q m c t e. tt) bytes len r pos hb
                hl v e marks tt)))
        (burst-Sent address channel bytes len n hb peer)
