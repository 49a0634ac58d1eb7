-- ===== src/Eth/Examples.antt =====
-- The theorems on the Ethernet access point at concrete inputs.
use ch32fun_wi_not_ap.Prelude.{
  [], ◌∷◌, none, some, Ensures, ℕ, arith, List, replicate, Option, false, length-replicate,
}
use ch32fun_wi_not_ap.Sfhip.Echo.{echo, echo-IsPolite}
use ch32fun_wi_not_ap.Eth.{http_response, eth_tcp_event, set_up}
use ch32fun_wi_not_ap.Eth.Server.{Honest, eth_tcp_event-Honest}
use ch32fun_wi_not_ap.Eth.Run.{Inputs, Served, run_from, set_up-Served}

eth_tcp_event-Honest_example :
    Ensures (Honest http_response 50) (eth_tcp_event 2 10 50 0 (replicate 16 false))
eth_tcp_event-Honest_example = eth_tcp_event-Honest 2 10 50 0 (replicate 16 false) (omega arith)

abbrev accepted : List ℕ → Option ℕ
accepted bytes = some 0

-- A round with a packet, one without, and one with a packet of no bytes.
abbrev inputs : Inputs
inputs =
    (7000, some (replicate 1536 9, 60)) ∷ (8000, none) ∷ (14000, some (replicate 1536 0, 0)) ∷ []

set_up-Served_example : Ensures (Served accepted echo false 2) (
    run_from accepted echo 6000 inputs
      (set_up ℕ (λ cfg. 0) (1 ∷ 2 ∷ 3 ∷ 4 ∷ 5 ∷ 6 ∷ []) (λ mac hip. hip) 6000 0 0))
set_up-Served_example =
    set_up-Served accepted echo (λ cfg. 0) (1 ∷ 2 ∷ 3 ∷ 4 ∷ 5 ∷ 6 ∷ []) (λ mac hip. hip) 6000 0
      inputs 0 echo-IsPolite
      (length-replicate {A = ℕ} 1536 9, (tt, (length-replicate {A = ℕ} 1536 0, tt)))
