-- ===== src/Descriptor/Strings.antt =====
-- What the host gets of a string descriptor.
use ch32fun_wi_not_ap.Prelude.{
  ℕ, [], refl, suc, ◌∷◌, get_or, List, take, length, ◌++◌, ◌≡◌, ◌<◌, ◌*◌, arith, ◌+◌, ◌%◌, ◌^◌,
  take-append_at, sym,
}
use ch32fun_wi_not_ap.Descriptor.{string_entry, Entry, utf16}

-- The bytes that answer a request.
abbrev sent : Entry → List ℕ
sent e = take e.size e.addr

length-utf16 : (text : List ℕ) → length (utf16 text) ≡ 2 * length text
unfolding utf16
length-utf16 [] = refl
length-utf16 (c ∷ text) = omega (arith, length-utf16 text)

utf16-append : (xs ys : List ℕ) → utf16 (xs ++ ys) ≡ utf16 xs ++ utf16 ys
unfolding utf16
utf16-append [] ys = refl
utf16-append (x ∷ xs) ys = rw (utf16-append xs ys)

-- What the host gets of a string descriptor with a text of less than 127 characters is its length,
-- its type and the text without the zero behind it, as bLength counts the zero in place of the two
-- bytes before the text.
sent-string_entry :
    (index_value : ℕ) (text : List ℕ)
    → length text < 127
    → sent (string_entry index_value text) ≡ (2 * length text + 2) ∷ 3 ∷ utf16 text
unfolding string_entry get_or take
sent-string_entry index_value text h =
    let n = 2 * length text + 2 in
    let size : (2 * (length text + 1)) % 2 ^ 8 ≡ suc (suc (2 * length text)) = omega arith in
    let e : 2 * length text + 2 ≡ suc (suc (2 * length text)) = omega arith in
    rw (
      size,
      e,
      utf16-append text (0 ∷ []),
      take-append_at (2 * length text) (utf16 text) (utf16 (0 ∷ [])) (sym (length-utf16 text)),
    )
