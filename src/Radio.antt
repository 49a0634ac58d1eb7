-- ===== src/Radio.antt =====
-- The calls of the iSLER radio driver and of the timer, which are not part of this repository: the
-- model records each with its arguments. The PHY is always PHY_1M.
pub mod Delivery
pub mod Tuning
use ch32fun_wi_not_ap.Prelude.{ℕ, List, [], ◌∷◌, ◌++◌}

pub data Call : Type 0 where
  -- `iSLERRX(access_address, channel, PHY_1M)`
  listen : ℕ → ℕ → Call
  -- `iSLERTX(access_address, bytes, length, channel, PHY_1M)`
  transmit : ℕ → List ℕ → ℕ → Call
  -- `Delay_Ms(ms)`
  delay : ℕ → Call
  -- `Delay_Us(us)`
  delay_us : ℕ → Call
  -- `iSLERInit(tx_power)`
  init : ℕ → Call
  -- `printf("missing fragments: …", received)`
  report_missing : ℕ → Call

-- The frames that were transmitted, the first one first.
unfoldable pub sent_frames : List Call → List (List ℕ)
sent_frames [] = []
sent_frames (transmit address frame channel ∷ calls) = sent_frames calls ++ (frame ∷ [])
sent_frames (listen address channel ∷ calls) = sent_frames calls
sent_frames (delay ms ∷ calls) = sent_frames calls
sent_frames (delay_us us ∷ calls) = sent_frames calls
sent_frames (init power ∷ calls) = sent_frames calls
sent_frames (report_missing received ∷ calls) = sent_frames calls
