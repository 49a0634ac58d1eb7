-- ===== src/Descriptor/Endpoints.antt =====
-- The endpoints of the configuration, and the directions that the driver is told.
use ch32fun_wi_not_ap.Prelude.{
  ℕ, [], refl, zero, suc, ◌∷◌, List, get_or, if◌then◌else◌, ◌<◌, ◌==◌, ◌&&◌, ◌+◌, ◌≡◌, arith,
}
use ch32fun_wi_not_ap.Descriptor.{
  ep_mode, Mode, mode_none, config_eps, config_parts, mode_in, mode_out,
}

-- An endpoint descriptor has type 5, and its third byte is the number, with 0x80 for IN.
unfoldable described_mode : ℕ → List (List ℕ) → Mode
described_mode e [] = mode_none
described_mode e (d ∷ ds) =
    let rest = described_mode e ds in
    if get_or d 1 0 == 5 && get_or d 2 0 == e + 0x80
    then mode_in
    else if get_or d 1 0 == 5 && get_or d 2 0 == e
    then mode_out
    else rest

-- Each of the seven endpoints has in the configuration descriptor the direction that its
-- FUSB_EPn_MODE tells the driver, and none where it tells none.
described_mode-ep_mode : (e : ℕ) → e < config_eps → described_mode e config_parts ≡ ep_mode e
unfolding described_mode get_or
described_mode-ep_mode zero h = refl
described_mode-ep_mode (suc zero) h = refl
described_mode-ep_mode (suc (suc zero)) h = refl
described_mode-ep_mode (suc (suc (suc zero))) h = refl
described_mode-ep_mode (suc (suc (suc (suc zero)))) h = refl
described_mode-ep_mode (suc (suc (suc (suc (suc zero))))) h = refl
described_mode-ep_mode (suc (suc (suc (suc (suc (suc zero)))))) h = refl
described_mode-ep_mode (suc (suc (suc (suc (suc (suc (suc e))))))) h = absurd (omega arith)
