-- ===== src/Eth/Run.antt =====
-- The Ethernet access point from its set-up on.
use ch32fun_wi_not_ap.Eth.{
  EthPoint, EthConfig, Started, stuck, ready, eth_config, set_up, boot, loop_round,
}
use ch32fun_wi_not_ap.Eth.Buffers.{Holds, Sized, polled, loop_round-Holds, releases}
use ch32fun_wi_not_ap.Prelude.{
  refl, some, ◌>>=◌, [], ◌∷◌, inl, inr, ℕ, List, Option, Bool, ◌+◌, ◌≡◌, true, Ensures, false,
  arith, Ensures->>=, not, ◌==◌, Bool-cases, length-replicate,
}
use ch32fun_wi_not_ap.Sfhip.{Stack}
use ch32fun_wi_not_ap.Sfhip.Polite.{IsPolite}

-- The time and the packet that the driver has ready, at each round.
abbrev pub Inputs : Type 0
Inputs = List (ℕ × Option (List ℕ × ℕ))

module _ (sends_eth : List ℕ → Option ℕ) (s : Stack) where
  unfoldable pub rounds : ℕ → Inputs → s.Hip → EthPoint → Option (s.Hip × EthPoint)
  rounds t [] hip w = some (hip, w)
  rounds t ((now, rx) ∷ rs) hip w = do
    (hip', w') ← loop_round sends_eth s t now rx hip w
    rounds t rs hip' w'

  -- The rounds behind the set-up: none where it does not end.
  unfoldable pub run_from : ℕ → Inputs → Started s.Hip → Option (Started s.Hip)
  run_from t rs stuck = some stuck
  run_from t rs (ready hip w) = do (hip', w') ← rounds t rs hip w; some (ready hip' w')

  abbrev pub packets : Inputs → ℕ
  packets [] = 0
  packets ((now, rx) ∷ rs) = packets rs + polled sends_eth s rx

  abbrev pub AllSized : Inputs → Type 0
  AllSized [] = Unit {0}
  AllSized ((now, rx) ∷ rs) = Sized sends_eth s rx × AllSized rs

  rounds-Holds :
      (n t : ℕ) (rs : Inputs) (hip : s.Hip) (w : EthPoint)
      → IsPolite s
      → AllSized rs
      → Holds n w
      → Ensures (λ r. Holds (packets rs + n) r.1) (rounds t rs hip w)
  unfolding rounds
  rounds-Holds n t [] hip w polite z v = let e : 0 + n ≡ n = omega arith in rw e v
  rounds-Holds n t ((now, rx) ∷ rs) hip w polite z v =
      let k = polled sends_eth s rx in
      let e : packets rs + k + n ≡ packets rs + (k + n) = omega arith in
      rw e (
        Ensures->>= (λ r. Holds (k + n) r.1) (λ r. Holds (packets rs + (k + n)) r.1) _ _
          (loop_round-Holds sends_eth s n t now rx hip w polite z.0 v)
          λ r v'. rounds-Holds (k + n) t rs r.0 r.1 polite z.1 v')

  -- The device does not enter the loop, as `eth_init` failed, or is in it and has given back every
  -- packet that it polled.
  abbrev pub Served : Bool → ℕ → Started s.Hip → Type 0
  Served failed n stuck = failed ≡ true
  Served failed n (ready hip w) = (failed ≡ false) × Holds n w

  -- The Ethernet access point, for any driver, any MAC address and any rounds of its loop: for a
  -- stack that writes and sends within the buffer that it is given and names only sockets there
  -- are, and a driver whose buffers have their size, the set-up and the rounds behind it return;
  -- where eth_init gives other than 0 the device never enters its loop, and otherwise it has given
  -- back exactly as many buffers as packets were polled, of whatever length, and the scratch
  -- buffer has its size.
  pub set_up-Served :
      (eth_init : EthConfig → ℕ) (mac : List ℕ) (set_self_mac : List ℕ → s.Hip → s.Hip)
      (t start_time : ℕ) (rs : Inputs) (hip : s.Hip)
      → IsPolite s
      → AllSized rs
      → Ensures
          (Served (not (eth_init eth_config == 0)) (packets rs))
          (run_from t rs (set_up s.Hip eth_init mac set_self_mac t start_time hip))
  unfolding set_up run_from boot releases
  set_up-Served eth_init mac set_self_mac t start_time rs hip polite z =
      elim (Bool-cases (not (eth_init eth_config == 0))) [
        | inl failed ↦ rw failed refl
        | inr fine ↦
            let e : packets rs + 0 ≡ packets rs = omega arith in
            rw fine (
              Ensures->>= (λ r. Holds (packets rs + 0) r.1) (Served false (packets rs)) _ _
                (rounds-Holds 0 t rs (set_self_mac mac hip) (boot t start_time) polite z
                  (record { scratch_size = length-replicate {A = ℕ} 1536 0; given_back = refl }))
                λ r v. (refl, rw e at v))
      ]
