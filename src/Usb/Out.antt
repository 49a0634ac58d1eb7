-- ===== src/Usb/Out.antt =====
-- What goes to the USB host (usb_sfhip.c): packets by `usb_send_packet`, text by `_write` and
-- `putchar`, and the answers to the host's set-up requests. The driver's send function is not part of
-- the repository: it takes the bytes or is busy, and which of the two is a parameter.
pub mod Whole
pub mod Examples
use ch32fun_wi_not_ap.Prelude.{
  zero, suc, ℕ, some, none, [], ◌∷◌, ◌>>=◌, List, Option, ◌%◌, Bool, true, ◌+◌, if◌then◌else◌,
  length, ◌^◌, suc, false, ◌++◌, ltb, ◌==◌, ◌-◌,
}
use ch32fun_wi_not_ap.Memory.{slice}

-- The sends that the driver was asked for so far, and those that it took, the first one first.
pub record Wire : Type 0 where
  pub attempts : ℕ
  pub taken : List (List ℕ)

-- The driver's answer to each send: what it returns, `none` for -1.
abbrev pub Driver : Type 0
Driver = ℕ → Option ℕ

abbrev pub is_busy : Option ℕ → Bool
is_busy none = true
is_busy (some r) = false

-- `USBFS_SendEndpointNEW(ep, bytes, len, copy)`
unfoldable pub send_endpoint : Driver → List ℕ → Wire → Option ℕ × Wire
send_endpoint answers bytes w =
    let res = answers w.attempts in
    (
      res,
      record {
        attempts = w.attempts + 1;
        taken = if is_busy res then w.taken else w.taken ++ (bytes ∷ []);
      },
    )

-- A part is sent, and once more after a pause if the driver was busy: then the result is the new one.
unfoldable pub send_part : Driver → List ℕ → Option ℕ → Wire → Option ℕ × Wire
send_part answers bytes res w =
    let (first, w₁) = send_endpoint answers bytes w in
    if is_busy first then send_endpoint answers bytes w₁ else (res, w₁)

-- The loop of `usb_send_packet` from byte `i` on. Each round sends at least a byte, so `length` rounds
-- are enough.
unfoldable pub send_loop :
    ℕ → Driver → ℕ → List ℕ → ℕ → ℕ → Option ℕ → Wire → Option (Option ℕ × Wire)
send_loop packet_size answers zero bytes len i res w = some (res, w)
send_loop packet_size answers (suc fuel) bytes len i res w =
    let rest = (do
      part ← slice bytes i (if ltb packet_size (len - i) then packet_size else len - i)
      (res', w') ← some (send_part answers part res w)
      send_loop packet_size answers fuel bytes len (i + packet_size) res' w') in
    if ltb i len then rest else some (res, w)

unfoldable pub usb_send_packet : ℕ → Driver → List ℕ → ℕ → Wire → Option (Option ℕ × Wire)
usb_send_packet packet_size answers bytes len w =
    send_loop packet_size answers len bytes len 0 (some len) w

-- `_write` returns the size whether or not the driver took the text.
unfoldable pub write_text : Driver → List ℕ → Wire → ℕ × Wire
write_text answers text w = (length text, (send_part answers text (some 0) w).1)

-- `putchar` sends one byte.
unfoldable pub put_char : Driver → ℕ → Wire → ℕ × Wire
put_char answers c w = (1, (send_part answers (c % 2 ^ 8 ∷ []) (some 0) w).1)

pub data SetupCode : Type 0 where
  set_line_coding set_line_ctlste send_break get_line_coding other_code : SetupCode

-- `HandleSetupCustom` for a request of the class type, or another one; `none` stands for -1.
unfoldable pub class_setup : SetupCode → ℕ → Option ℕ
class_setup get_line_coding setup_req_len = some setup_req_len
class_setup other_code setup_req_len = some 0
class_setup _ setup_req_len = if setup_req_len == 0 then none else some setup_req_len

unfoldable pub handle_setup_custom : Bool → SetupCode → ℕ → Option ℕ
unfolding class_setup
handle_setup_custom is_class code setup_req_len =
    if is_class then class_setup code setup_req_len else some 0

-- `HandleInRequest`
abbrev pub handle_in_request : ℕ → List ℕ → ℕ
handle_in_request endp bytes = 0
