-- ===== src/Ap/Examples.antt =====
-- The theorems on the USB access point at concrete packets.
use ch32fun_wi_not_ap.Prelude.{
  none, some, [], ◌∷◌, refl, ◌≢◌, replicate, arith, false, length-replicate, Ensures, join, ℕ, ◌≡◌,
  ◌++◌, take, get_or, Option, if◌then◌else◌, List, ◌==◌, drop, ◌↔◌, ◌⊎◌,
}
use ch32fun_wi_not_ap.Node.{
  ap, newrx, power_on, dest_uuid, is_newrx, listening, ap_access_address, ap_channel,
}
use ch32fun_wi_not_ap.Sfhip.Echo.{echo, echo-IsPolite}
use ch32fun_wi_not_ap.Ap.{AccessPoint, iface_usb, usb_part, winot_part, boot}
use ch32fun_wi_not_ap.Ap.Routes.{Waits, usb_part-Waits, winot_part-forwards}
use ch32fun_wi_not_ap.Ap.Safety.{Event, part_came, round, happen, boot-happen, Overflows}
use ch32fun_wi_not_ap.Ap.Start.{name_of}
use ch32fun_wi_not_ap.Ap.Crossing.{packet_parts, packet_parts-crossing}
use ch32fun_wi_not_ap.Usb.{no_packet}
use ch32fun_wi_not_ap.Usb.Out.{Driver}
use ch32fun_wi_not_ap.System.Owned.{Owned}
use ch32fun_wi_not_ap.Memory.{load_word, Frame, frame_of}
use ch32fun_wi_not_ap.Ap.Keeping.{Intact}
use ch32fun_wi_not_ap.Node.Invariant.{Inv, power_on-Sizes}
use ch32fun_wi_not_ap.Radio.Tuning.{tuned}
use ch32fun_wi_not_ap.Radio.{listen}
use ch32fun_wi_not_ap.Ap.Delivery.{
  client_to_host, client_to_host-forwards, host_to_client, host_to_client-Downloaded,
}
use ch32fun_wi_not_ap.Usb.Parts.{is_harmless, parts}
use ch32fun_wi_not_ap.Radio.Delivery.{plain_radio, plain_radio-Delivers}
use ch32fun_wi_not_ap.Request.Download.{Downloaded}
use ch32fun_wi_not_ap.Ap.Meeting.{Met, meeting, meeting-Met}

-- An access point with ROM word 77, and 300 bytes in both buffers, for the node 0.
abbrev busy : AccessPoint
busy = record {
  node = record (power_on 77) {
    role = ap;
    state = newrx;
    data_len = 300;
    datachannel = 35 ∷ replicate 32 0;
  };
  usb = record no_packet { data_len = 300; write_idx = 300 };
  wire = record { attempts = 0; taken = [] };
  scratch = replicate 1536 0;
  hname = 87 ∷ 0 ∷ [];
  response_sent = replicate 16 false;
  last_iface = iface_usb;
  clock = record { next_ms = 0; ms_cnt = 0 };
}

busy-Owned : Owned ap 77 busy.node
unfolding get_or
busy-Owned = record {
  inv = record {
    sizes = omega (
      arith,
      length-replicate {A = ℕ} 1715 0,
      length-replicate {A = ℕ} 33 0,
      length-replicate {A = ℕ} 32 0,
    );
    states = refl;
  };
  role = refl;
  uuid = refl;
}

abbrev ready : Driver
ready n = some 0

other : dest_uuid busy.node.data_buf ≢ 77
unfolding dest_uuid load_word replicate get_or
other = λ e. omega arith

usb_part-Waits_example :
    Ensures
      (λ r. (r.0 ≡ 5) × Waits 77 busy r.1.node × (r.1.usb.data_len ≡ 0) × (r.1.wire ≡ busy.wire))
      (usb_part 64 ready echo 5 busy)
unfolding dest_uuid load_word replicate get_or
usb_part-Waits_example =
    usb_part-Waits 64 ready echo 77 5 busy busy-Owned (length-replicate {A = ℕ} 2048 0) refl
      (omega arith) (omega arith) other

winot_part-forwards_example :
    Ensures
      (λ r.
        (r.0 ≡ 5)
        × (join r.1.wire.taken ≡ [] ++ take 300 busy.node.data_buf)
        × (is_newrx r.1.node.state ≡ false))
      (winot_part 64 ready echo 5 busy)
unfolding dest_uuid load_word replicate get_or join
winot_part-forwards_example =
    winot_part-forwards 64 ready echo 77 5 busy (omega arith) (λ n e. refl) busy-Owned refl
      (omega arith) other

packet_parts-crossing_example :
    Ensures
      (λ r.
        (join r.1.wire.taken ≡ [] ++ take 300 busy.usb.data_buf)
        × (is_newrx r.1.node.state ≡ false))
      (packet_parts 64 ready echo 5 busy)
unfolding dest_uuid load_word replicate get_or join
packet_parts-crossing_example =
    packet_parts-crossing 64 ready echo 77 5 busy (omega arith) (λ n e. refl) busy-Owned refl
      (length-replicate {A = ℕ} 2048 0) refl (omega arith) (omega arith) other

-- The request of node 0x09080706 with three bytes.
abbrev message : Option Frame
message = some (frame_of (0 ∷ 9 ∷ 0 ∷ 0 ∷ 6 ∷ 7 ∷ 8 ∷ 9 ∷ 1 ∷ 2 ∷ 3 ∷ []))

-- A part that announces 300 bytes, a round, another part, and a round in which a request comes.
abbrev first_part : Frame
first_part i = if i == 0 then 44 else 1

abbrev happenings : List Event
happenings =
    part_came 6 first_part 64 ∷ round 7000 none ∷ part_came 6 (λ i. 7) 64 ∷ round 13000 message ∷ []

boot-happen_example :
    Ensures
      (λ w.
        ((happen 64 ready echo 6000 happenings 0 w ≡ none)
          ↔ Overflows 64 ready echo 6000 happenings 0 w)
        × (Ensures (λ r. Intact 77 (name_of 77) r.1) (happen 64 ready echo 6000 happenings 0 w)
            ⊎ Overflows 64 ready echo 6000 happenings 0 w))
      (boot 77 0 6000 0)
boot-happen_example =
    boot-happen 64 ready echo 77 0 6000 0 happenings 0 (omega arith) echo-IsPolite (
      record { short = omega arith; announced = omega arith },
      (tt, (record { short = omega arith; announced = omega arith }, (tt, tt))),
    )

-- An access point on the request channel, and a client.
abbrev open_ap : AccessPoint
open_ap = record busy {
  node = record busy.node {
    state = listening;
    data_len = 0;
    calls = listen ap_access_address ap_channel ∷ [];
  };
  usb = no_packet;
}

open_ap-Owned : Owned ap 77 open_ap.node
unfolding get_or
open_ap-Owned = record {
  inv = record {
    sizes = record {
      buf_size = busy-Owned.inv.sizes.buf_size;
      uuids_size = busy-Owned.inv.sizes.uuids_size;
      times_size = busy-Owned.inv.sizes.times_size;
      len_fits = omega arith;
    };
    states = refl;
  };
  role = refl;
  uuid = refl;
}

asker-Inv : Inv (power_on 7)
asker-Inv = record { sizes = power_on-Sizes 7; states = refl }

-- 300 bytes for the node with uuid `u`.
abbrev bytes_for : ℕ → List ℕ
bytes_for u = 0 ∷ 0 ∷ u ∷ 0 ∷ 0 ∷ 0 ∷ replicate 294 5

client_to_host-forwards_example :
    Ensures
      (λ r.
        (join r.1.wire.taken ≡ join open_ap.wire.taken ++ bytes_for 9)
        × (is_newrx r.1.node.state ≡ false))
      (client_to_host 64 ready echo plain_radio (bytes_for 9) 5 (power_on 7) open_ap)
unfolding dest_uuid load_word replicate get_or tuned
client_to_host-forwards_example =
    client_to_host-forwards 64 ready echo plain_radio plain_radio-Delivers 77 (bytes_for 9) 5
      (power_on 7) open_ap (omega arith) (λ n e. refl) (omega arith) (omega arith)
      (λ e. omega arith) asker-Inv (omega arith) refl refl open_ap-Owned refl refl refl
      (omega arith)

host_to_client-Downloaded_example :
    Ensures
      (Downloaded 7 1 (bytes_for 7) 300)
      (host_to_client 64 ready echo plain_radio frame_of 20 1 (bytes_for 7) 5 open_ap (power_on 7))
unfolding dest_uuid load_word replicate get_or tuned is_harmless parts take drop
host_to_client-Downloaded_example =
    host_to_client-Downloaded 64 ready echo plain_radio plain_radio-Delivers frame_of 20 1 77
      (bytes_for 7) 5 open_ap (power_on 7) (λ b i h. refl) (omega arith) (omega arith) (omega arith)
      refl (length-replicate {A = ℕ} 2048 0) refl open_ap-Owned refl refl (omega arith)
      (omega arith) refl (λ e. omega arith) (omega arith) asker-Inv refl refl (omega arith) refl

-- A short packet for the node with uuid `u`.
abbrev few_for : ℕ → List ℕ
few_for u = 0 ∷ 0 ∷ u ∷ 0 ∷ 0 ∷ 0 ∷ 1 ∷ 2 ∷ []

meeting-Met_example :
    Ensures
      (Met 64 ready echo plain_radio 7 open_ap (few_for 7) (few_for 9))
      (meeting 64 ready echo plain_radio frame_of 1 (few_for 7) (few_for 9) 5 open_ap (power_on 7))
unfolding dest_uuid load_word replicate get_or tuned is_harmless parts take drop
meeting-Met_example =
    meeting-Met 64 ready echo plain_radio plain_radio-Delivers frame_of 1 77 (few_for 7) (few_for 9)
      5 open_ap (power_on 7) (λ b i h. refl) (λ n e. refl) (omega arith) (omega arith) (omega arith)
      refl (λ e. omega arith) refl (length-replicate {A = ℕ} 2048 0) refl open_ap-Owned refl refl
      (omega arith) (omega arith) (λ e. omega arith) (omega arith) asker-Inv refl refl
