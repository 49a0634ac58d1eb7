-- ===== src/Memory.antt =====
-- C memory: byte arrays as lists with their declared sizes, and what the driver's buffer holds.
-- An access outside a declared size is a fault.
pub mod Laws
use ch32fun_wi_not_ap.Prelude.{
  ℕ, zero, suc, ◌+◌, ◌*◌, ◌^◌, ◌%◌, ◌/◌, ◌-◌, List, [], ◌∷◌, ◌++◌, Option, none, some, leb, length,
  if◌then◌else◌, take, drop, get_or,
}

-- The memory from a pointer on whose extent another component answers for (`LLE_BUF`).
abbrev pub Frame : Type 0
Frame = ℕ → ℕ

-- `n` bytes from offset `off`.
unfoldable pub copy : Frame → ℕ → ℕ → List ℕ
copy f off zero = []
copy f off (suc n) = f off ∷ copy f (off + 1) n

-- A frame that holds these bytes, and zeros behind them.
abbrev pub frame_of : List ℕ → Frame
frame_of xs i = get_or xs i 0

-- `memcpy(dst, &src[off], n)` as a read: a fault beyond the end of `src`.
unfoldable pub slice : List ℕ → ℕ → ℕ → Option (List ℕ)
slice src off n = if leb (off + n) (length src) then some (take n (drop off src)) else none

unfoldable pub overwrite : List ℕ → ℕ → List ℕ → List ℕ
overwrite dst off bytes = take off dst ++ (bytes ++ drop (off + length bytes) dst)

-- `memcpy(&dst[off], bytes, …)` into an array of `size` bytes.
unfoldable pub write_at : ℕ → List ℕ → ℕ → List ℕ → Option (List ℕ)
write_at size dst off bytes =
    if leb (off + length bytes) size then some (overwrite dst off bytes) else none

-- A `memcpy` to offset `off` of a local array of `size` bytes, of which only what is copied matters.
unfoldable pub into_array : ℕ → ℕ → List ℕ → Option (List ℕ)
into_array size off bytes = if leb (off + length bytes) size then some bytes else none

-- The value of `*(uint32_t*)&p[off]`, on a little-endian machine.
unfoldable pub load_word : Frame → ℕ → ℕ
load_word f off = f off + f (off + 1) * 2 ^ 8 + f (off + 2) * 2 ^ 16 + f (off + 3) * 2 ^ 24

-- The bytes that `*(uint32_t*)p = w` stores.
unfoldable pub word_bytes : ℕ → List ℕ
word_bytes w = w % 2 ^ 8 ∷ w / 2 ^ 8 % 2 ^ 8 ∷ w / 2 ^ 16 % 2 ^ 8 ∷ w / 2 ^ 24 % 2 ^ 8 ∷ []

-- `(uint8_t)(a - b)` for bytes.
unfoldable pub sub8 : ℕ → ℕ → ℕ
sub8 a b = (a + 2 ^ 8 - b) % 2 ^ 8
