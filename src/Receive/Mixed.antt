-- ===== src/Receive/Mixed.antt =====
-- A packet of which a fragment was lost, and the next one.
use ch32fun_wi_not_ap.Prelude.{
  refl, [], ◌∷◌, List, ℕ, take, ◌++◌, drop, ◌<◌, length, ◌≡◌, ◌≤◌, ◌*◌, Ensures, ◌-◌, arith,
  Ensures->>=, length-take, take-append_at, drop-append_at, length-drop, take-length, ◌+◌, ◌∙◌, sym,
  length-append,
}
use ch32fun_wi_not_ap.Memory.{Frame}
use ch32fun_wi_not_ap.Radio.Delivery.{Delivers}
use ch32fun_wi_not_ap.Receive.RoundTrip.{receive_all}
use ch32fun_wi_not_ap.Node.{fragment_size, Node, communicating}
use ch32fun_wi_not_ap.Receive.Reassembly.{
  fragment, Collected, Collecting, middle-Collecting, last-Collected,
}
use ch32fun_wi_not_ap.Node.Invariant.{Inv}
use ch32fun_wi_not_ap.Fragment.{tx_frame}
use ch32fun_wi_not_ap.Receive.{process_rx}

-- The bytes of the one behind those of the other.
abbrev pub mixed : List ℕ → List ℕ → List ℕ
mixed old new = take fragment_size old ++ drop fragment_size new

module _ (deliver : List ℕ → Frame) (ok : Delivers deliver) where
  -- Where of two packets that follow each other the first one's second fragment and the second
  -- one's first fragment are lost, the receiver makes one packet of the rest: a communicating node
  -- with the invariant and no marks that handles the first frame of a packet of more than 245
  -- bytes, and then the second frame of one of 246 to 490 bytes, over a radio that delivers,
  -- returns each time and has a new packet of the second one's length, with the first 245 bytes of
  -- the one and the bytes from 245 on of the other.
  pub receive_all-mixes :
      (old new : List ℕ) (len : ℕ) (r : Node)
      → fragment_size < length old
      → length new ≡ len
      → fragment_size < len
      → len ≤ 2 * fragment_size
      → Inv r
      → r.state ≡ communicating
      → r.fragments_received ≡ 0
      → Ensures (Collected (mixed old new) len) (
          receive_all
            (deliver (tx_frame (length old) (length old) 0 (take fragment_size old))
              ∷ deliver (tx_frame len (len - fragment_size) 1 (drop fragment_size new))
              ∷ [])
            r)
  unfolding receive_all fragment take drop
  receive_all-mixes old new len r ho hn big two v e none_yet =
      let left = len - fragment_size in
      let first : Ensures (Collecting old 2 1)
          (process_rx (deliver (tx_frame (length old) (length old) 0 (take fragment_size old))) r) =
        middle-Collecting deliver ok old (length old) 2 0 (length old) r
          (record {
            inv = v;
            on_channel = e;
            so_far = refl;
            low_marks = omega arith;
            high_marks = rw none_yet (omega arith);
          })
          ho (omega arith) (omega arith) (omega arith) (omega arith) in
      let whole = mixed old new in
      let l : fragment_size ≡ length (take fragment_size old) =
        omega (arith, length-take fragment_size old) in
      let front : take fragment_size whole ≡ take fragment_size old =
        take-append_at fragment_size (take fragment_size old) (drop fragment_size new) l in
      let back : drop fragment_size whole ≡ drop fragment_size new =
        drop-append_at fragment_size (take fragment_size old) (drop fragment_size new) l in
      let size : length (drop fragment_size new) ≡ left =
        omega (arith, length-drop fragment_size new) in
      let all : take left (drop fragment_size new) ≡ drop fragment_size new =
        rw (← size) (take-length (drop fragment_size new)) in
      let total : 1 * fragment_size + left ≡ len = omega arith in
      Ensures->>= (Collecting old 2 1) (Collected (mixed old new) len) _ _ first λ m c.
        Ensures->>= (Collected (mixed old new) len) (Collected (mixed old new) len) _ _
          (rw (total, back, all) at
            (last-Collected deliver ok whole len 2 1 left m
              (record {
                inv = c.inv;
                on_channel = c.on_channel;
                so_far = c.so_far ∙ sym front;
                low_marks = c.low_marks;
                high_marks = c.high_marks;
              })
              (omega arith)
              (omega
                (arith, length-append (take fragment_size old) (drop fragment_size new), size, l))
              (omega arith) refl))
          λ q g. g
