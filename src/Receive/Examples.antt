-- ===== src/Receive/Examples.antt =====
-- The theorems on received frames at concrete frames.
use ch32fun_wi_not_ap.Prelude.{
  Ensures, List, [], arith, get_or, length-append, length-replicate, map, none, refl, replicate,
  true, zero, ℕ, ◌++◌, ◌↔◌, ◌∷◌, ◌≡◌, false, length, take, drop,
}
use ch32fun_wi_not_ap.Node.{Node, ap, ap_channel, communicating, dest_uuid, listening, power_on}
use ch32fun_wi_not_ap.Node.Invariant.{Inv, power_on-Sizes}
use ch32fun_wi_not_ap.Receive.RoundTrip.{receive_all, receive_all-burst}
use ch32fun_wi_not_ap.Receive.Reassembly.{Collected}
use ch32fun_wi_not_ap.Radio.Delivery.{plain_radio, plain_radio-Delivers}
use ch32fun_wi_not_ap.Radio.{sent_frames}
use ch32fun_wi_not_ap.Fragment.{burst_tx_and_communicate, tx_frame}
use ch32fun_wi_not_ap.Memory.{Frame, load_word, frame_of}
use ch32fun_wi_not_ap.Receive.{process_rx}
use ch32fun_wi_not_ap.Receive.Safety.{rx_overflows, process_rx-Inv, process_rx-faults_iff}
use ch32fun_wi_not_ap.Fragment.Burst.{frames, frames_of}
use ch32fun_wi_not_ap.Receive.Kept.{Ready}
use ch32fun_wi_not_ap.Receive.Lossy.{is_lossy, arrived, receive_all-lossy}
use ch32fun_wi_not_ap.Receive.Mixed.{mixed, receive_all-mixes}

-- A client on a data channel, with nothing received yet.
abbrev talking : Node
talking = record (power_on 7) { state = communicating }

talking-Inv : Inv talking
talking-Inv = record {
  sizes =
      let z = power_on-Sizes 7 in
      record {
        buf_size = z.buf_size;
        uuids_size = z.uuids_size;
        times_size = z.times_size;
        len_fits = z.len_fits;
      };
  states = refl;
}

-- 300 bytes, so two fragments, from one client's state to the other's.
receive_all-burst_example :
    Ensures
      (λ m.
        Ensures
          (Collected (replicate 300 5) 300)
          (receive_all (map plain_radio (sent_frames m.calls)) talking))
      (burst_tx_and_communicate 9 3 (replicate 300 5) 300 talking)
unfolding sent_frames replicate
receive_all-burst_example =
    receive_all-burst plain_radio plain_radio-Delivers 9 3 (replicate 300 5) 300 talking talking
      (omega arith) (omega arith) (omega arith) refl refl talking-Inv refl (omega arith)

abbrev mac_start : List ℕ
mac_start = 0 ∷ 0 ∷ 1 ∷ 2 ∷ 3 ∷ 4 ∷ []

-- An access point that listens, with 300 bytes for client 0x04030201.
abbrev serving : Node
serving = record (power_on 7) {
  role = ap;
  state = listening;
  data_buf = mac_start ++ replicate 1709 0;
  data_len = 300;
  datachannel = ap_channel ∷ replicate 32 0;
}

serving-Inv : Inv serving
unfolding get_or
serving-Inv = record {
  sizes =
      let z = power_on-Sizes 7 in
      omega (
        arith,
        z.times_size,
        length-append mac_start (replicate 1709 0),
        length-replicate 1709 (zero),
        length-replicate 32 (zero),
        length-replicate 33 (zero),
      );
  states = refl;
}

-- Client 0x09080706 asks whether there is data for it.
abbrev stranger : Frame
stranger = frame_of (0 ∷ 6 ∷ 0 ∷ 0 ∷ 6 ∷ 7 ∷ 8 ∷ 9 ∷ [])

-- The client for which the packet waits asks.
abbrev owner : Frame
owner = frame_of (0 ∷ 6 ∷ 0 ∷ 0 ∷ 1 ∷ 2 ∷ 3 ∷ 4 ∷ [])

process_rx-faults_iff_example :
    (process_rx stranger serving ≡ none) ↔ (rx_overflows stranger serving ≡ true)
process_rx-faults_iff_example = process_rx-faults_iff stranger serving serving-Inv

stranger_faults : process_rx stranger serving ≡ none
unfolding get_or load_word dest_uuid
stranger_faults = process_rx-faults_iff_example.1 refl

process_rx-Inv_example : Ensures Inv (process_rx owner serving)
unfolding get_or load_word dest_uuid
process_rx-Inv_example = process_rx-Inv owner serving serving-Inv refl

-- Of the two frames of 300 bytes the first one is lost.
receive_all-lossy_example :
    Ensures Ready
      (receive_all (map plain_radio (arrived (false ∷ []) (frames (replicate 300 5) 300))) talking)
unfolding frames frames_of is_lossy replicate
receive_all-lossy_example =
    receive_all-lossy plain_radio plain_radio-Delivers (replicate 300 5) 300 (omega arith)
      (omega arith) (false ∷ []) talking talking-Inv refl refl refl

-- The first half of one packet, and the second half of the next.
receive_all-mixes_example :
    let old = replicate {A = ℕ} 300 1 in
    let new = replicate {A = ℕ} 300 2 in
    Ensures (Collected (mixed old new) 300) (
      receive_all
        (plain_radio (tx_frame (length old) (length old) 0 (take 245 old))
          ∷ plain_radio (tx_frame 300 55 1 (drop 245 new))
          ∷ [])
        talking)
receive_all-mixes_example =
    receive_all-mixes plain_radio plain_radio-Delivers (replicate 300 1) (replicate 300 2) 300
      talking (omega (arith, length-replicate {A = ℕ} 300 1)) (length-replicate {A = ℕ} 300 2)
      (omega arith) (omega arith) talking-Inv refl refl
