-- ===== src/Descriptor.antt =====
-- The USB descriptors of the access point (usb_config.h): the bytes of each array, and the table that
-- says which of them answers which request.
pub mod Layout
pub mod Strings
pub mod Endpoints
pub mod Examples
use ch32fun_wi_not_ap.Prelude.{
  ℕ, [], ◌∷◌, List, if◌then◌else◌, ◌%◌, ◌==◌, ◌++◌, ◌*◌, get_or, length, ◌^◌, ◌||◌, ◌+◌, ◌/◌, join,
}
use ch32fun_wi_not_ap.Http.{codes}

abbrev pub vendor_id : ℕ
vendor_id = 0x1209

abbrev pub product_id : ℕ
product_id = 0xd035

abbrev pub revision : ℕ
revision = 0x0007

-- The low byte of a word, and the high one.
abbrev pub word16 : ℕ → List ℕ
word16 w = w % 2 ^ 8 ∷ w / 2 ^ 8 % 2 ^ 8 ∷ []

-- FUSB_CONFIG_EPS, and the direction of each endpoint: FUSB_EPn_MODE is 1 for IN, -1 for OUT.
abbrev pub config_eps : ℕ
config_eps = 7

pub data Mode : Type 0 where
  mode_in mode_out mode_none : Mode

abbrev pub ep_mode : ℕ → Mode
ep_mode e =
    if e == 1 || (e == 3 || e == 5)
    then mode_in
    else if e == 2 || e == 6
    then mode_out
    else mode_none

unfoldable pub device_descriptor : List ℕ
device_descriptor =
    0x12
    ∷ 0x01
    ∷ 0x10
    ∷ 0x01
    ∷ 0xEF
    ∷ 0x02
    ∷ 0x01
    ∷ 0x40
    ∷ (word16 vendor_id
        ++ (word16 product_id ++ (word16 revision ++ (0x01 ∷ 0x02 ∷ 0x03 ∷ 0x01 ∷ []))))

-- The parts of `config_descriptor`, in order.
abbrev pub configuration : List ℕ
configuration = 0x09 ∷ 0x02 ∷ 0x62 ∷ 0x00 ∷ 0x03 ∷ 0x01 ∷ 0x00 ∷ 0x80 ∷ 0x32 ∷ []

abbrev pub association : List ℕ
association = 0x08 ∷ 0x0B ∷ 0x00 ∷ 0x02 ∷ 0x02 ∷ 0x02 ∷ 0x01 ∷ 0x00 ∷ []

abbrev pub interface_0 : List ℕ
interface_0 = 0x09 ∷ 0x04 ∷ 0x00 ∷ 0x00 ∷ 0x01 ∷ 0x02 ∷ 0x02 ∷ 0x01 ∷ 0x00 ∷ []

abbrev pub cdc_header : List ℕ
cdc_header = 0x05 ∷ 0x24 ∷ 0x00 ∷ 0x10 ∷ 0x01 ∷ []

abbrev pub cdc_call_management : List ℕ
cdc_call_management = 0x05 ∷ 0x24 ∷ 0x01 ∷ 0x00 ∷ 0x01 ∷ []

abbrev pub cdc_acm : List ℕ
cdc_acm = 0x04 ∷ 0x24 ∷ 0x02 ∷ 0x02 ∷ []

abbrev pub cdc_union : List ℕ
cdc_union = 0x05 ∷ 0x24 ∷ 0x06 ∷ 0x00 ∷ 0x01 ∷ []

abbrev pub endpoint_1 : List ℕ
endpoint_1 = 0x07 ∷ 0x05 ∷ 0x81 ∷ 0x03 ∷ 0x08 ∷ 0x00 ∷ 0xFF ∷ []

abbrev pub interface_1 : List ℕ
interface_1 = 0x09 ∷ 0x04 ∷ 0x01 ∷ 0x00 ∷ 0x02 ∷ 0x0A ∷ 0x00 ∷ 0x00 ∷ 0x00 ∷ []

abbrev pub endpoint_2 : List ℕ
endpoint_2 = 0x07 ∷ 0x05 ∷ 0x02 ∷ 0x02 ∷ 0x40 ∷ 0x00 ∷ 0x01 ∷ []

abbrev pub endpoint_3 : List ℕ
endpoint_3 = 0x07 ∷ 0x05 ∷ 0x83 ∷ 0x02 ∷ 0x40 ∷ 0x00 ∷ 0x01 ∷ []

abbrev pub interface_2 : List ℕ
interface_2 = 0x09 ∷ 0x04 ∷ 0x02 ∷ 0x00 ∷ 0x02 ∷ 0xff ∷ 0xff ∷ 0xff ∷ 0x00 ∷ []

abbrev pub endpoint_6 : List ℕ
endpoint_6 = 0x07 ∷ 0x05 ∷ 0x06 ∷ 0x02 ∷ 0x40 ∷ 0x00 ∷ 0x01 ∷ []

abbrev pub endpoint_5 : List ℕ
endpoint_5 = 0x07 ∷ 0x05 ∷ 0x85 ∷ 0x02 ∷ 0x40 ∷ 0x00 ∷ 0x01 ∷ []

abbrev pub config_parts : List (List ℕ)
config_parts =
    configuration ∷ association ∷ interface_0 ∷ cdc_header ∷ cdc_call_management ∷ cdc_acm
    ∷ cdc_union ∷ endpoint_1 ∷ interface_1 ∷ endpoint_2 ∷ endpoint_3 ∷ interface_2 ∷ endpoint_6
    ∷ endpoint_5 ∷ []

unfoldable pub config_descriptor : List ℕ
unfolding join
config_descriptor = join config_parts

-- A text of 16-bit characters in memory.
unfoldable pub utf16 : List ℕ → List ℕ
utf16 [] = []
utf16 (c ∷ text) = c % 2 ^ 8 ∷ c / 2 ^ 8 % 2 ^ 8 ∷ utf16 text

-- A `usb_string_descriptor_struct` with a text and the zero behind it. `bLength` is the size of the
-- text with that zero.
unfoldable pub string_descriptor : List ℕ → List ℕ
string_descriptor text = (2 * (length text + 1)) % 2 ^ 8 ∷ 3 ∷ utf16 (text ++ (0 ∷ []))

unfoldable pub language : List ℕ
language = 4 ∷ 3 ∷ word16 0x0409

-- A row of `descriptor_list`.
pub record Entry : Type 0 where
  pub index_value : ℕ
  pub addr : List ℕ
  pub size : ℕ

-- `{0x0409030n, &stringn, stringn.bLength}`
unfoldable pub string_entry : ℕ → List ℕ → Entry
unfolding string_descriptor
string_entry index_value text = record {
  index_value = index_value;
  addr = string_descriptor text;
  size = get_or (string_descriptor text) 0 0;
}

unfoldable pub descriptor_list : List Entry
unfolding string_entry device_descriptor config_descriptor language
descriptor_list =
    record { index_value = 0x00000100; addr = device_descriptor; size = length device_descriptor }
    ∷ record { index_value = 0x00000200; addr = config_descriptor; size = length config_descriptor }
    ∷ record { index_value = 0x00000300; addr = language; size = 4 }
    ∷ string_entry 0x04090301 (codes "ch32fun")
    ∷ string_entry 0x04090302 (codes "WiNot AP")
    ∷ string_entry 0x04090303 (codes "001")
    ∷ []
