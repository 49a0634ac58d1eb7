-- ===== src/Radio/Tuning.antt =====
-- Who hears whom: a node hears the frames that are transmitted to the address and on the channel that it
-- listens to.
use ch32fun_wi_not_ap.Prelude.{
  refl, [], ◌∷◌, some, none, List, ℕ, Option, if◌then◌else◌, drop, ◌≡◌, ◌==◌, length, ◌++◌, ◌&&◌,
  drop-append_at,
}
use ch32fun_wi_not_ap.Radio.{Call, listen, transmit, delay, delay_us, init, report_missing}

-- The address and the channel that the radio was last told to listen to.
unfoldable pub tuned : List Call → Option (ℕ × ℕ)
tuned [] = none
tuned (listen address channel ∷ calls) = some (address, channel)
tuned (transmit address frame channel ∷ calls) = tuned calls
tuned (delay ms ∷ calls) = tuned calls
tuned (delay_us us ∷ calls) = tuned calls
tuned (init power ∷ calls) = tuned calls
tuned (report_missing received ∷ calls) = tuned calls

-- The frames that were transmitted to an address on a channel, the first one first.
unfoldable pub sent_to : ℕ → ℕ → List Call → List (List ℕ)
sent_to a c [] = []
sent_to a c (transmit address frame channel ∷ calls) =
    if address == a && channel == c then sent_to a c calls ++ (frame ∷ []) else sent_to a c calls
sent_to a c (listen address channel ∷ calls) = sent_to a c calls
sent_to a c (delay ms ∷ calls) = sent_to a c calls
sent_to a c (delay_us us ∷ calls) = sent_to a c calls
sent_to a c (init power ∷ calls) = sent_to a c calls
sent_to a c (report_missing received ∷ calls) = sent_to a c calls

-- What was added behind a list.
abbrev pub added : List (List ℕ) → List (List ℕ) → List (List ℕ)
added before after = drop (length before) after

pub added_lem : (before fs after : List (List ℕ)) → after ≡ before ++ fs → added before after ≡ fs
added_lem before fs after e = rw e (drop-append_at (length before) before fs refl)

-- The frames that a listener hears of what was transmitted between two moments.
unfoldable pub heard : Option (ℕ × ℕ) → List Call → List Call → List (List ℕ)
heard none before after = []
heard (some (a, c)) before after = added (sent_to a c before) (sent_to a c after)
