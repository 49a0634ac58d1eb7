-- ===== src/Request/Examples.antt =====
-- The theorems on requests at concrete packets.
use ch32fun_wi_not_ap.Prelude.{
  inr, refl, ◌≡◌, Ensures, take, arith, ◌∷◌, [], replicate, get_or, ◌++◌, ℕ, List, length-append,
  length-replicate, zero,
}
use ch32fun_wi_not_ap.Request.{outside, own, request}
use ch32fun_wi_not_ap.Node.{Node, power_on, ap, listening, ap_access_address, dest_uuid, ap_channel}
use ch32fun_wi_not_ap.Node.Invariant.{Inv, power_on-Sizes}
use ch32fun_wi_not_ap.Radio.{listen}
use ch32fun_wi_not_ap.Request.InPlace.{request-in_place}
use ch32fun_wi_not_ap.Radio.Delivery.{plain_radio, plain_radio-Delivers}
use ch32fun_wi_not_ap.Receive.Exchange.{waiting}
use ch32fun_wi_not_ap.Radio.Tuning.{tuned}
use ch32fun_wi_not_ap.Request.Upload.{Taken, upload, upload-Taken}
use ch32fun_wi_not_ap.Memory.{load_word}
use ch32fun_wi_not_ap.Request.Download.{Downloaded, download, download-Downloaded}
use ch32fun_wi_not_ap.Request.Collision.{upload-echoes}
use ch32fun_wi_not_ap.Request.Turn.{Swapped, turn, turn-Swapped}

abbrev asker : Node
asker = power_on 7

-- An access point on its channel, for which a packet of two bytes waits.
abbrev answerer : Node
answerer = record (power_on 9) {
  role = ap;
  state = listening;
  data_len = 2;
  datachannel = 35 ∷ replicate 32 0;
}

asker-Inv : Inv asker
asker-Inv = record { sizes = power_on-Sizes 7; states = refl }

answerer-Inv : Inv answerer
unfolding get_or
answerer-Inv = record {
  sizes =
      let z = power_on-Sizes 9 in
      record {
        buf_size = z.buf_size;
        uuids_size = omega (arith, length-replicate 32 (zero));
        times_size = z.times_size;
        len_fits = omega arith;
      };
  states = refl;
}

request-in_place_example :
    request (own 300) asker ≡ request (outside (take 300 asker.data_buf)) asker
request-in_place_example = request-in_place 300 asker asker-Inv.sizes (omega arith)

-- An access point on its channel, without a packet.
abbrev free_ap : Node
free_ap = record (power_on 9) {
  role = ap;
  state = listening;
  datachannel = 35 ∷ replicate 32 0;
  calls = listen ap_access_address ap_channel ∷ [];
}

free_ap-Inv : Inv free_ap
unfolding get_or
free_ap-Inv = record {
  sizes =
      let z = power_on-Sizes 9 in
      record {
        buf_size = z.buf_size;
        uuids_size = omega (arith, length-replicate 32 (zero));
        times_size = z.times_size;
        len_fits = omega arith;
      };
  states = refl;
}

upload-Taken_example :
    Ensures (Taken 9 (replicate 300 5)) (upload plain_radio (replicate 300 5) asker free_ap)
unfolding replicate tuned
upload-Taken_example =
    upload-Taken plain_radio plain_radio-Delivers (replicate 300 5) asker free_ap (omega arith)
      (omega arith) asker-Inv (omega arith) refl refl free_ap-Inv refl refl refl refl (omega arith)

abbrev for_asker : List ℕ
for_asker = 0 ∷ 0 ∷ 7 ∷ 0 ∷ 0 ∷ 0 ∷ []

-- The access point with 300 bytes for the client with uuid 7.
abbrev loaded_ap : Node
loaded_ap = record free_ap { data_buf = for_asker ++ replicate 1709 0; data_len = 300 }

loaded_ap-Inv : Inv loaded_ap
unfolding get_or
loaded_ap-Inv = record {
  sizes = record {
    buf_size =
        omega (arith, length-append for_asker (replicate 1709 0), length-replicate 1709 (zero));
    uuids_size = free_ap-Inv.sizes.uuids_size;
    times_size = free_ap-Inv.sizes.times_size;
    len_fits = omega arith;
  };
  states = refl;
}

download-Downloaded_example :
    Ensures (Downloaded 7 1 loaded_ap.data_buf 300) (download plain_radio 20 1 asker loaded_ap)
unfolding tuned dest_uuid load_word get_or
download-Downloaded_example =
    download-Downloaded plain_radio plain_radio-Delivers 20 1 asker loaded_ap asker-Inv
      (omega arith) refl refl (omega arith) refl loaded_ap-Inv refl refl (omega arith) (omega arith)
      refl refl (omega arith)

-- The access point with two bytes waiting, on its channel.
abbrev small_ap : Node
small_ap = record answerer { calls = listen ap_access_address ap_channel ∷ [] }

small_ap-Inv : Inv small_ap
small_ap-Inv = record {
  sizes = record {
    buf_size = answerer-Inv.sizes.buf_size;
    uuids_size = answerer-Inv.sizes.uuids_size;
    times_size = answerer-Inv.sizes.times_size;
    len_fits = answerer-Inv.sizes.len_fits;
  };
  states = answerer-Inv.states;
}

upload-echoes_example :
    Ensures (Taken 9 (waiting small_ap)) (upload plain_radio (replicate 300 5) asker small_ap)
unfolding replicate tuned
upload-echoes_example =
    upload-echoes plain_radio plain_radio-Delivers (replicate 300 5) asker small_ap (omega arith)
      (omega arith) asker-Inv (omega arith) refl refl small_ap-Inv refl refl (omega arith)
      (omega arith) refl (omega arith)

-- The access point with a packet of eight bytes for the client with uuid 7.
abbrev short_ap : Node
short_ap = record loaded_ap { data_len = 8 }

short_ap-Inv : Inv short_ap
short_ap-Inv = record {
  sizes = record {
    buf_size = loaded_ap-Inv.sizes.buf_size;
    uuids_size = loaded_ap-Inv.sizes.uuids_size;
    times_size = loaded_ap-Inv.sizes.times_size;
    len_fits = omega arith;
  };
  states = loaded_ap-Inv.states;
}

turn-Swapped_example :
    Ensures
      (Swapped 7 9 (1 ∷ 2 ∷ 3 ∷ []) (waiting short_ap))
      (turn plain_radio 20 (1 ∷ 2 ∷ 3 ∷ []) asker short_ap)
unfolding tuned dest_uuid load_word get_or
turn-Swapped_example =
    turn-Swapped plain_radio plain_radio-Delivers 20 (1 ∷ 2 ∷ 3 ∷ []) asker short_ap (omega arith)
      asker-Inv (omega arith) refl refl short_ap-Inv refl refl (omega arith)
      (inr (omega arith, refl)) refl
