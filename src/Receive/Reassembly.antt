-- ===== src/Receive/Reassembly.antt =====
-- A communicating node that gets the fragments of a packet in order puts the packet together.
use native.Mathlib.Nat.{mod-eq_of_lt}
use ch32fun_wi_not_ap.Prelude.{
  ==_iff, Ensures, Ensures-both, Ensures-mono, List, [], arith, bit_and, cong, drop, false, get_or,
  if◌then◌else◌, length, length-drop, length-take, ltb, refl, some, sym, take, take-add, true, ℕ,
  ◌%◌, ◌*◌, ◌++◌, ◌+◌, ◌-◌, ◌<◌, ◌==◌, ◌>>=◌, ◌^◌, ◌∙◌, ◌≡◌, ◌≤◌,
}
use ch32fun_wi_not_ap.Memory.{Frame, copy, overwrite, sub8}
use ch32fun_wi_not_ap.Node.{
  Node, Role, State, active_channel, ap, change_state, client, communicating, data_buf_size,
  fragment_size, fragmented, is_newrx, newrx, advance,
}
use ch32fun_wi_not_ap.Node.Invariant.{Inv, consistent, consistent-empty, advance-Inv}
use ch32fun_wi_not_ap.Fragment.{tx_frame, pdu_of, defragment, finish_fragment}
use ch32fun_wi_not_ap.Fragment.Marks.{marked, marked-high, marked-low, marks-lt, pdu_lem}
use ch32fun_wi_not_ap.Memory.Laws.{take-overwrite, write_at-runs}
use ch32fun_wi_not_ap.Receive.Safety.{rx_overflows, process_rx-Inv}
use ch32fun_wi_not_ap.Fragment.Burst.{Sent, communicate-Sent}
use ch32fun_wi_not_ap.Radio.Delivery.{Delivers, payload-delivered}
use ch32fun_wi_not_ap.Receive.{keep_active, rx_by, process_rx, data_frame}

-- The node communicates, and holds the first `idx` fragments of `bytes`; no other fragment is marked
-- but those of a packet of `count` fragments.
pub record Collecting (bytes : List ℕ) (count idx : ℕ) (n : Node) : Type 0 where
  pub inv : Inv n
  pub on_channel : n.state ≡ communicating
  pub so_far : take (idx * fragment_size) n.data_buf ≡ take (idx * fragment_size) bytes
  pub low_marks : n.fragments_received % 2 ^ idx ≡ 2 ^ idx - 1
  pub high_marks : n.fragments_received < 2 ^ count

-- The node holds the packet, and is ready for the next one.
pub record Collected (bytes : List ℕ) (len : ℕ) (n : Node) : Type 0 where
  pub new_packet : n.state ≡ newrx
  pub whole_len : n.data_len ≡ len
  pub whole : take len n.data_buf ≡ take len bytes
  pub no_marks : n.fragments_received ≡ 0

-- Time passes without a trace on what was put together.
pub advance-Collecting :
    (dt : ℕ) (bytes : List ℕ) (count idx : ℕ) (n : Node)
    → Collecting bytes count idx n
    → Collecting bytes count idx (advance dt n)
advance-Collecting dt bytes count idx n c = record {
  inv = advance-Inv dt n c.inv;
  on_channel = c.on_channel;
  so_far = c.so_far;
  low_marks = c.low_marks;
  high_marks = c.high_marks;
}

pub advance-Collected :
    (dt : ℕ) (bytes : List ℕ) (len : ℕ) (n : Node)
    → Collected bytes len n
    → Collected bytes len (advance dt n)
advance-Collected dt bytes len n c = record {
  new_packet = c.new_packet;
  whole_len = c.whole_len;
  whole = c.whole;
  no_marks = c.no_marks;
}

-- A chunk of `bytes` put behind a prefix of `bytes` gives a longer prefix.
overwrite-prefix :
    (bytes buf : List ℕ) (off c : ℕ)
    → length buf ≡ data_buf_size
    → off + c ≤ data_buf_size
    → off + c ≤ length bytes
    → take off buf ≡ take off bytes
    → take (off + c) (overwrite buf off (take c (drop off bytes))) ≡ take (off + c) bytes
overwrite-prefix bytes buf off c e fits room same =
    let chunk = take c (drop off bytes) in
    let size : length chunk ≡ c =
      omega (arith, length-take c (drop off bytes), length-drop off bytes) in
    let w : take (off + length chunk) (overwrite buf off chunk) ≡ take off buf ++ chunk =
      take-overwrite buf off chunk (omega arith) in
    rw (size, same) at w ∙ sym (take-add off c bytes)

-- Keeping the client active changes the times only.
keep_active-times :
    (r : Role) (n : Node)
    → keep_active r n ≡ record n { last_activity = (keep_active r n).last_activity }
unfolding keep_active
keep_active-times client n = refl
keep_active-times ap n = ground arith

rx_by-communicating :
    (r : Role) (s : State) (f : Frame) (n : Node)
    → s ≡ communicating
    → rx_by r s f n ≡ data_frame f n
unfolding rx_by
rx_by-communicating ap communicating f n e = refl
rx_by-communicating client communicating f n e = refl
rx_by-communicating r s f n e = cc

pub process_rx-communicating :
    (f : Frame) (n : Node) → n.state ≡ communicating → process_rx f n ≡ data_frame f n
unfolding process_rx
process_rx-communicating f n e = rx_by-communicating n.role n.state f n e

-- A communicating node has no frame that overflows its response.
pub no_overflow : (f : Frame) (n : Node) → n.state ≡ communicating → rx_overflows f n ≡ false
no_overflow f n e = rw e (ground arith)

pub communicating-Inv :
    (n : Node)
    → Inv n
    → n.state ≡ communicating
    → consistent n.role communicating (active_channel n) 0 ≡ true
communicating-Inv n v e =
    consistent-empty n.role communicating (active_channel n) n.data_len (rw (← e) v.states)

module _ (deliver : List ℕ → Frame) (ok : Delivers deliver) where
  unfoldable pub fragment : ℕ → ℕ → ℕ → List ℕ → Frame
  fragment len left idx chunk = deliver (tx_frame len left idx chunk)

  fragment-pdu :
      (len left idx : ℕ) (chunk : List ℕ) → fragment len left idx chunk 0 ≡ pdu_of left idx
  unfolding fragment get_or
  fragment-pdu len left idx chunk =
      ok.carried (tx_frame len left idx chunk) 0 (omega arith) (omega arith)

  fragment-len :
      (len left idx : ℕ) (chunk : List ℕ)
      → length chunk ≤ fragment_size
      → sub8 (fragment len left idx chunk 1) 2 ≡ length chunk
  unfolding fragment sub8
  fragment-len len left idx chunk h =
      omega (arith, ok.counted (tx_frame len left idx chunk) (omega arith) (omega arith))

  fragment-payload :
      (len left idx : ℕ) (chunk : List ℕ)
      → copy (fragment len left idx chunk) 4 (length chunk) ≡ chunk
  unfolding fragment
  fragment-payload len left idx chunk = payload-delivered deliver ok _ _ _ _ chunk

  -- What `winot_defragment` does with a fragment: it stores the chunk in its place and marks it.
  defragment-fragment :
      (len left idx : ℕ) (chunk : List ℕ) (n : Node)
      → length chunk ≤ fragment_size
      → idx < 7
      → defragment (fragment len left idx chunk) n
        ≡ finish_fragment (pdu_of left idx) idx (idx * fragment_size + length chunk) (record n {
          data_buf = overwrite n.data_buf (idx * fragment_size) chunk;
          fragments_received = marked n.fragments_received idx;
        })
  unfolding defragment
  defragment-fragment len left idx chunk n h hi =
      let p = fragment-pdu len left idx chunk in
      let l = fragment-len len left idx chunk h in
      let k = (pdu_lem left idx (omega arith)).0 in
      let fits : ltb data_buf_size (idx * fragment_size + length chunk) ≡ false = ground arith in
      let w = write_at-runs data_buf_size n.data_buf (idx * fragment_size) chunk (omega arith) in
      rw (p, l, k, fits, fragment-payload len left idx chunk, w)

  -- The node when the fragment has been stored and marked.
  unfoldable pub stored : ℕ → List ℕ → Node → Node
  stored idx chunk n = record n {
    last_activity = (keep_active n.role n).last_activity;
    data_buf = overwrite n.data_buf (idx * fragment_size) chunk;
    fragments_received = marked n.fragments_received idx;
  }

  pub rx-fragment :
      (len left idx : ℕ) (chunk : List ℕ) (n : Node)
      → n.state ≡ communicating
      → length chunk ≤ fragment_size
      → idx < 7
      → process_rx (fragment len left idx chunk) n ≡ (do
        m ←
            finish_fragment
              (pdu_of left idx)
              idx
              (idx * fragment_size + length chunk)
              (stored idx chunk n)
        if is_newrx m.state then some m else change_state communicating m)
  unfolding stored data_frame
  rx-fragment len left idx chunk n e h hi = rw (
    process_rx-communicating (fragment len left idx chunk) n e,
    data_frame,
    keep_active-times n.role n,
    defragment-fragment len left idx chunk _ h hi,
  )

  -- A fragment that is not the last.
  pub middle-Collecting :
      (bytes : List ℕ) (len count idx left : ℕ) (n : Node)
      → Collecting bytes count idx n
      → fragment_size < left
      → idx * fragment_size + left ≤ length bytes
      → idx < 7
      → idx < count
      → count < 8
      → Ensures (Collecting bytes count (idx + 1)) (
          process_rx
            (fragment len left idx (take fragment_size (drop (idx * fragment_size) bytes)))
            n)
  unfolding stored finish_fragment
  middle-Collecting bytes len count idx left n c more room hi hc h8 =
      let chunk = take fragment_size (drop (idx * fragment_size) bytes) in
      let size : length chunk ≡ fragment_size =
        omega (arith, length-take 245 (drop (idx * 245) bytes), length-drop (idx * 245) bytes) in
      let next : (idx + 1) * fragment_size ≡ idx * fragment_size + fragment_size = omega arith in
      let prefix =
        overwrite-prefix bytes n.data_buf (idx * fragment_size) fragment_size c.inv.sizes.buf_size
          (omega arith) (omega arith) c.so_far in
      let f = fragment len left idx chunk in
      let goes_on : (bit_and (pdu_of left idx) fragmented == 0) ≡ false =
        ground (arith, pdu_lem left idx) in
      let not_new : is_newrx n.state ≡ false = rw c.on_channel in
      let rest : Ensures (λ m. Sent [] (stored idx chunk n) m × (m.state ≡ communicating))
          (process_rx f n) =
        rw
          (
            rx-fragment len left idx chunk n c.on_channel (omega arith) hi,
            finish_fragment,
            goes_on,
            not_new,
          )
          (communicate-Sent (stored idx chunk n) (communicating-Inv n c.inv c.on_channel)) in
      Ensures-mono (λ m. Inv m × (Sent [] (stored idx chunk n) m × (m.state ≡ communicating)))
        (Collecting bytes count (idx + 1)) (process_rx f n)
        (λ m both. record {
          inv = both.0;
          on_channel = both.1.1;
          so_far = rw (next, both.1.0.buf_kept) prefix;
          low_marks = rw both.1.0.received_kept (
              marked-low idx n.fragments_received hi
                (marks-lt count n.fragments_received h8 c.high_marks) c.low_marks);
          high_marks =
              rw both.1.0.received_kept
                (marked-high count idx n.fragments_received h8 hc c.high_marks);
        })
        (Ensures-both Inv _ (process_rx f n)
          (process_rx-Inv f n c.inv (no_overflow f n c.on_channel)) rest)

  -- The last fragment, when all others have come.
  pub last-Collected :
      (bytes : List ℕ) (len count idx left : ℕ) (n : Node)
      → Collecting bytes count idx n
      → left ≤ fragment_size
      → idx * fragment_size + left ≤ length bytes
      → idx < 7
      → idx + 1 ≡ count
      → Ensures
          (Collected bytes (idx * fragment_size + left))
          (process_rx (fragment len left idx (take left (drop (idx * fragment_size) bytes))) n)
  unfolding stored finish_fragment change_state
  last-Collected bytes len count idx left n c last room hi hc =
      let chunk = take left (drop (idx * fragment_size) bytes) in
      let size : length chunk ≡ left =
        omega (arith, length-take left (drop (idx * 245) bytes), length-drop (idx * 245) bytes) in
      let prefix =
        overwrite-prefix bytes n.data_buf (idx * fragment_size) left c.inv.sizes.buf_size
          (omega arith) room c.so_far in
      let ends : (bit_and (pdu_of left idx) fragmented == 0) ≡ true =
        ground (arith, pdu_lem left idx) in
      let e : 2 ^ (idx + 1) ≡ 2 ^ count = cong (λ (k : ℕ). 2 ^ k) hc in
      let small = marks-lt count n.fragments_received (omega arith) c.high_marks in
      let low = marked-low idx n.fragments_received hi small c.low_marks in
      let high =
        marked-high count idx n.fragments_received (omega arith) (omega arith) c.high_marks in
      let all : (marked n.fragments_received idx == 2 ^ (idx + 1) - 1) ≡ true =
        (==_iff (marked n.fragments_received idx) (2 ^ (idx + 1) - 1)).1
          (sym (mod-eq_of_lt (rw e high)) ∙ low) in
      rw
        (rx-fragment len left idx chunk n c.on_channel (omega arith) hi, finish_fragment, ends, all)
        (record {
          new_packet = refl;
          whole_len = omega (arith, size);
          whole = prefix;
          no_marks = refl;
        })
