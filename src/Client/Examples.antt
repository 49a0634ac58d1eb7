-- ===== src/Client/Examples.antt =====
-- The theorems on the client firmware at concrete inputs.
use ch32fun_wi_not_ap.Prelude.{
  some, none, [], ◌∷◌, refl, ◌>>=◌, List, Ensures, arith, ℕ, replicate, length-replicate, Option,
  false, ◌≡◌, true, ◌++◌,
}
use ch32fun_wi_not_ap.Node.{newrx, power_on, is_newrx, client}
use ch32fun_wi_not_ap.Sfhip.Echo.{echo, echo-IsPolite}
use ch32fun_wi_not_ap.Client.{
  Client, boot, packet_part, sidechannel_mqtt, sidechannel_ntfy_sh, announce_up,
}
use ch32fun_wi_not_ap.Client.Announce.{announcement, mqtt, ntfy, announce_up-says}
use ch32fun_wi_not_ap.Client.Keeping.{Fine}
use ch32fun_wi_not_ap.Client.Loop.{packet_part-Fine}
use ch32fun_wi_not_ap.Client.Safety.{name_of, rounds, boot-rounds}
use ch32fun_wi_not_ap.Memory.{Frame}
use ch32fun_wi_not_ap.System.Owned.{Owned}
use ch32fun_wi_not_ap.Radio.{sent_frames}

-- A millisecond without a frame, one with a frame, and a round too early for the next.
abbrev times : List (ℕ × Option Frame)
times = (7000, none) ∷ (13000, some (λ i. 3)) ∷ (13001, none) ∷ []

boot-rounds_example :
    Ensures (λ r. Fine 77 (name_of 77) r.1) (do w ← boot 77 0 6000 0; rounds echo 6000 times 0 w)
boot-rounds_example = boot-rounds echo 77 0 6000 0 times 0 echo-IsPolite

-- A client with a packet of 60 bytes, whose name has one letter.
abbrev holding : Client
holding = record {
  node = record (power_on 77) { state = newrx; data_len = 60 };
  scratch = replicate 1536 0;
  hname = 87 ∷ 0 ∷ [];
  response_sent = replicate 16 false;
  has_ip = true;
  has_announced = false;
  clock = record { next_ms = 0; ms_cnt = 0 };
}

holding-Fine : Fine 77 (87 ∷ []) holding
holding-Fine = record {
  owned = record {
    inv = record {
      sizes = omega (arith, length-replicate {A = ℕ} 1715 0, length-replicate {A = ℕ} 33 0);
      states = refl;
    };
    role = refl;
    uuid = refl;
  };
  scratch_size = length-replicate {A = ℕ} 1536 0;
  named = refl;
}

packet_part-Fine_example :
    Ensures
      (λ r. Fine 77 (87 ∷ []) r.1 × (is_newrx r.1.node.state ≡ false))
      (packet_part echo 0 holding)
packet_part-Fine_example =
    packet_part-Fine 77 (87 ∷ []) (omega arith) echo echo-IsPolite 0 holding holding-Fine

resting : Owned client 77 (power_on 77)
resting = record {
  inv = record {
    sizes = omega (arith, length-replicate {A = ℕ} 1715 0, length-replicate {A = ℕ} 33 0);
    states = refl;
  };
  role = refl;
  uuid = refl;
}

announce_up-says_example :
    Ensures
      (λ r.
        (r.0 ≡ some 29)
        × (sent_frames r.1.calls
            ≡ []
              ++ (announcement 77 sidechannel_mqtt mqtt
                  ∷ announcement 77 sidechannel_ntfy_sh ntfy
                  ∷ [])))
      (announce_up (power_on 77))
unfolding sent_frames
announce_up-says_example = announce_up-says 77 (power_on 77) resting refl
