-- ===== src/Http/Names.antt =====
-- The names and addresses that are made of the ROM word.
use ch32fun_wi_not_ap.Prelude.{
  refl, [], some, ◌∷◌, List, ℕ, length, ◌/◌, ◌≡◌, ◌^◌, ◌+◌, get_or, ◌++◌, ◌<◌, arith, length-append,
  drop, ◌≤◌, append_assoc, sym, drop-drop, ◌∙◌, cong, drop-append_at, take-append_at,
}
use ch32fun_wi_not_ap.Http.{put_hex, mac_address, hex_digit}
use ch32fun_wi_not_ap.Node.{dest_uuid}
use ch32fun_wi_not_ap.Memory.{word_bytes, load_word, overwrite, write_at}
use ch32fun_wi_not_ap.Memory.Laws.{write_at-runs}

-- Two digits for each byte, the high one first.
unfoldable pub hex_text : List ℕ → List ℕ
hex_text [] = []
hex_text (b ∷ bytes) = hex_digit (b / 2 ^ 4) ∷ hex_digit b ∷ hex_text bytes

-- A byte in the middle is replaced.
write_middle :
    (front rest : List ℕ) (old new place size : ℕ)
    → place ≡ length front
    → place + 1 ≤ size
    → write_at size (front ++ (old ∷ rest)) place (new ∷ []) ≡ some (front ++ (new ∷ rest))
unfolding overwrite drop
write_middle front rest old new place size e h =
    let behind : drop (place + 1) (front ++ (old ∷ rest)) ≡ rest =
      sym (drop-drop place 1 (front ++ (old ∷ rest)))
      ∙ cong (drop 1) (drop-append_at place front (old ∷ rest) e) in
    write_at-runs size (front ++ (old ∷ rest)) place (new ∷ []) h
    ∙ rw (take-append_at place front (old ∷ rest) e, behind)

-- The digits take the place of as many letters of the name.
pub put_hex_lem :
    (bytes front back : List ℕ) (tail : List ℕ)
    → length back ≡ length bytes + length bytes
    → put_hex bytes (front ++ (back ++ tail)) (length front)
      ≡ some (front ++ (hex_text bytes ++ tail))
unfolding put_hex hex_text
put_hex_lem [] front [] tail h = refl
put_hex_lem [] front (x ∷ back) tail h = absurd (omega arith)
put_hex_lem (b ∷ bytes) front [] tail h = absurd (omega arith)
put_hex_lem (b ∷ bytes) front (x ∷ []) tail h = absurd (omega arith)
put_hex_lem (b ∷ bytes) front (x ∷ y ∷ back) tail h =
    let hi = hex_digit (b / 2 ^ 4) in
    let lo = hex_digit b in
    let rest = back ++ tail in
    let total : length (front ++ (x ∷ y ∷ rest)) ≡ length front + length (x ∷ y ∷ rest) =
      length-append front (x ∷ y ∷ rest) in
    let size = length (front ++ (x ∷ y ∷ rest)) in
    let first : write_at size (front ++ (x ∷ y ∷ rest)) (length front) (hi ∷ [])
        ≡ some (front ++ (hi ∷ y ∷ rest)) =
      write_middle front (y ∷ rest) x hi (length front) size refl (omega arith) in
    let one : length (front ++ (hi ∷ [])) ≡ length front + 1 =
      omega (arith, length-append front (hi ∷ [])) in
    let two : length (front ++ (hi ∷ lo ∷ [])) ≡ length front + 2 =
      omega (arith, length-append front (hi ∷ lo ∷ [])) in
    let second : write_at size (front ++ (hi ∷ y ∷ rest)) (length front + 1) (lo ∷ [])
        ≡ some (front ++ (hi ∷ lo ∷ rest)) =
      rw (append_assoc front (hi ∷ []) (y ∷ rest), append_assoc front (hi ∷ []) (lo ∷ rest)) at
        (write_middle (front ++ (hi ∷ [])) rest y lo (length front + 1) size (sym one)
          (omega arith)) in
    let ih = put_hex_lem bytes (front ++ (hi ∷ lo ∷ [])) back tail (omega arith) in
    rw (first, second)
      (rw
        (
          append_assoc front (hi ∷ lo ∷ []) rest,
          append_assoc front (hi ∷ lo ∷ []) (hex_text bytes ++ tail),
          two,
        )
        at ih)

-- A frame whose destination is the MAC address made of a ROM word of 32 bits has that word as its
-- WiNoT destination, whatever follows.
dest_uuid-mac_address :
    (rom : ℕ) (rest : List ℕ) → rom < 2 ^ 32 → dest_uuid (mac_address rom ++ rest) ≡ rom
unfolding dest_uuid mac_address word_bytes load_word get_or
dest_uuid-mac_address rom rest h = omega arith
