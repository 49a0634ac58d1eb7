-- ===== src/Ap/Start.antt =====
-- The access point as its start leaves it.
use ch32fun_wi_not_ap.Prelude.{
  some, [], ◌∷◌, refl, zero, ℕ, List, Ensures, ◌≡◌, length, Ensures->>=, ◌++◌, ◌+◌,
  length-replicate, ◌≤◌, arith, append_assoc,
}
use ch32fun_wi_not_ap.Node.{ap}
use ch32fun_wi_not_ap.Ap.{boot, hname_blank, http_response_header}
use ch32fun_wi_not_ap.Ap.Keeping.{Intact}
use ch32fun_wi_not_ap.System.Owned.{Owned, start-Owned}
use ch32fun_wi_not_ap.Memory.{word_bytes}
use ch32fun_wi_not_ap.Http.{put_hex, codes, response_buf_size}
use ch32fun_wi_not_ap.Http.Names.{hex_text, put_hex_lem}
use ch32fun_wi_not_ap.Usb.{usb_buf_size}
use ch32fun_wi_not_ap.Sfhip.{mtu}

-- The name that is made of the ROM word.
abbrev pub name_of : ℕ → List ℕ
name_of rom = codes "WiNotAP_" ++ hex_text (word_bytes rom)

named :
    (rom : ℕ)
    → put_hex (word_bytes rom) hname_blank 8
      ≡ some (codes "WiNotAP_" ++ (hex_text (word_bytes rom) ++ (0 ∷ [])))
unfolding word_bytes
named rom = put_hex_lem (word_bytes rom) (codes "WiNotAP_") (codes "XXXXXXXX") (0 ∷ []) refl

-- The name leaves room for the header and the end of the line.
pub name_fits :
    (rom : ℕ) → length http_response_header + length (name_of rom) + 2 ≤ response_buf_size
unfolding word_bytes hex_text
name_fits rom = omega arith

pub boot-Intact :
    (rom tx_power ticks_per_ms now : ℕ)
    → Ensures (Intact rom (name_of rom)) (boot rom tx_power ticks_per_ms now)
unfolding boot
boot-Intact rom tx_power t now = rw (named rom) (
    Ensures->>= (Owned ap rom) (Intact rom (name_of rom)) _ _ (start-Owned ap tx_power rom) λ n o.
      record {
        owned = o;
        usb_size = length-replicate usb_buf_size (zero);
        usb_fits = omega arith;
        scratch_size = length-replicate mtu (zero);
        named = append_assoc (codes "WiNotAP_") (hex_text (word_bytes rom)) (0 ∷ []);
      })
