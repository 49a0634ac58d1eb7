-- ===== src/Descriptor/Layout.antt =====
-- How a host takes the configuration apart.
use ch32fun_wi_not_ap.Prelude.{
  ◌>>=◌, ℕ, [], some, none, refl, zero, suc, ◌∷◌, List, Option, Bool, ◌≡◌, true, get_or, length,
  ◌==◌, ◌≤◌, ◌&&◌, leb, drop, arith, ◌+◌, take, ==_iff, ◌*◌, ◌++◌, if◌then◌else◌, length-append,
  ◌^◌, ltb, take-append, ◌||◌, false, take-append_at, drop-append_at, join,
}
use ch32fun_wi_not_ap.Descriptor.{config_descriptor, config_parts}

-- A host reads descriptors by their first bytes; one without a length ends the reading.
unfoldable pub split : ℕ → List ℕ → Option (List (List ℕ))
split fuel [] = some []
split zero (b ∷ bytes) = none
split (suc fuel) (b ∷ bytes) =
    let rest = (do ds ← split fuel (drop b (b ∷ bytes)); some (take b (b ∷ bytes) ∷ ds)) in
    if ltb b 2 || ltb (length (b ∷ bytes)) b then none else rest

-- Each part starts with its length, and has a type.
unfoldable pub are_sized : List (List ℕ) → Bool
are_sized [] = true
are_sized (p ∷ ps) = get_or p 0 0 == length p && (leb 2 (length p) && are_sized ps)

pub split-join :
    (ps : List (List ℕ)) (fuel : ℕ)
    → are_sized ps ≡ true
    → length ps ≤ fuel
    → split fuel (join ps) ≡ some ps
unfolding split are_sized join get_or
split-join [] fuel h k = refl
split-join (p ∷ ps) zero h k = absurd (omega arith)
split-join ([] ∷ ps) (suc fuel) h k = absurd (ground arith)
split-join ((b ∷ q) ∷ ps) (suc fuel) h k =
    let e : b ≡ length (b ∷ q) = (==_iff b (length (b ∷ q))).0 (ground arith) in
    let left : are_sized ps ≡ true = ground arith in
    let two : leb 2 (length (b ∷ q)) ≡ true = ground arith in
    let whole : length ((b ∷ q) ++ join ps) ≡ length (b ∷ q) + length (join ps) =
      length-append (b ∷ q) (join ps) in
    let fits : (ltb b 2 || ltb (length ((b ∷ q) ++ join ps)) b) ≡ false = ground arith in
    let front : take b ((b ∷ q) ++ join ps) ≡ b ∷ q = take-append_at b (b ∷ q) (join ps) e in
    let behind : drop b ((b ∷ q) ++ join ps) ≡ join ps = drop-append_at b (b ∷ q) (join ps) e in
    rw (fits, front, behind, split-join ps fuel left (omega arith))

-- `wTotalLength`
abbrev pub total_length : List ℕ → ℕ
total_length bytes = get_or bytes 2 0 + get_or bytes 3 0 * 2 ^ 8

total-config_descriptor :
    (rest : List ℕ) → total_length (config_descriptor ++ rest) ≡ length config_descriptor
unfolding config_descriptor get_or
total-config_descriptor rest = refl

config_parts_sized : are_sized config_parts ≡ true
unfolding are_sized get_or
config_parts_sized = refl

-- A host that takes wTotalLength bytes of the configuration, whatever stands behind them in
-- memory, and cuts them at the length that each descriptor starts with, gets the fourteen
-- descriptors of usb_config.h, and no byte is left over; the bound on the rounds is at least 14.
pub split-config_descriptor :
    (rest : List ℕ) (fuel : ℕ)
    → 14 ≤ fuel
    → let bytes = config_descriptor ++ rest in
      split fuel (take (total_length bytes) bytes) ≡ some config_parts
unfolding config_descriptor
split-config_descriptor rest fuel h =
    rw (total-config_descriptor rest, take-append config_descriptor rest)
      (split-join config_parts fuel config_parts_sized (omega arith))
