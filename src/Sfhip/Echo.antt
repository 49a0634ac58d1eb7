-- ===== src/Sfhip/Echo.antt =====
-- A small stack for the tests of the firmwares.
use ch32fun_wi_not_ap.Prelude.{[], ◌∷◌, ℕ, arith, ◌+◌}
use ch32fun_wi_not_ap.Sfhip.{Stack, done, sends, scribbles}
use ch32fun_wi_not_ap.Sfhip.Polite.{IsPolite}

-- A stack that writes two bytes into a packet and sends it back, and counts the packets.
abbrev pub echo : Stack
echo = record {
  Hip = ℕ;
  accept_packet = λ h len. scribbles 0 (1 ∷ 2 ∷ []) (sends len λ r. done (h + 1));
  ticks = λ h dt_ms. done h;
}

pub echo-IsPolite : IsPolite echo
echo-IsPolite = record {
  accept_polite = λ h len fits. (omega arith, (fits, λ r. tt));
  ticks_polite = λ h dt_ms. tt;
}
