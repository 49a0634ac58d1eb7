-- ===== src/Memory/Laws.antt =====
-- Laws of the memory model: lengths, what a write leaves, what a read finds.
use ch32fun_wi_not_ap.Prelude.{
  Ensures, List, append_assoc, arith, cong, drop, length, length-append, length-drop, length-take,
  none, refl, some, suc, take, take-append_at, zero, ℕ, ◌++◌, ◌+◌, ◌<◌, ◌≡◌, ◌≤◌, sym, take-take,
  ◌∙◌, take-add, drop-append_at,
}
use ch32fun_wi_not_ap.Memory.{Frame, copy, slice, overwrite, write_at, into_array, sub8}

pub length-copy : (f : Frame) (off n : ℕ) → length (copy f off n) ≡ n
unfolding copy
length-copy f off zero = refl
length-copy f off (suc n) = cong suc (length-copy f (off + 1) n)

pub length-overwrite :
    (dst : List ℕ) (off : ℕ) (bytes : List ℕ)
    → off + length bytes ≤ length dst
    → length (overwrite dst off bytes) ≡ length dst
unfolding overwrite
length-overwrite dst off bytes h = omega (
  arith,
  length-append (take off dst) (bytes ++ drop (off + length bytes) dst),
  length-append bytes (drop (off + length bytes) dst),
  length-take off dst,
  length-drop (off + length bytes) dst,
)

-- A write inside the array returns, and changes no length.
pub write_at-runs :
    (size : ℕ) (dst : List ℕ) (off : ℕ) (bytes : List ℕ)
    → off + length bytes ≤ size
    → write_at size dst off bytes ≡ some (overwrite dst off bytes)
unfolding write_at
write_at-runs size dst off bytes h = ground arith

pub slice-runs :
    (src : List ℕ) (off n : ℕ)
    → off + n ≤ length src
    → slice src off n ≡ some (take n (drop off src))
unfolding slice
slice-runs src off n h = ground arith

pub into_array-runs :
    (size off : ℕ) (bytes : List ℕ)
    → off + length bytes ≤ size
    → into_array size off bytes ≡ some bytes
unfolding into_array
into_array-runs size off bytes h = ground arith

pub into_array-faults :
    (size off : ℕ) (bytes : List ℕ) → size < off + length bytes → into_array size off bytes ≡ none
unfolding into_array
into_array-faults size off bytes h = ground arith

pub sub8-lt : (a b : ℕ) → sub8 a b < 256
unfolding sub8
sub8-lt a b = omega arith

-- A write inside an array returns an array of the same size.
pub write_at-size :
    (size : ℕ) (dst : List ℕ) (off : ℕ) (bytes : List ℕ)
    → length dst ≡ size
    → off + length bytes ≤ size
    → Ensures (λ buf. length buf ≡ size) (write_at size dst off bytes)
write_at-size size dst off bytes e h =
    rw (write_at-runs size dst off bytes h) (omega (arith, length-overwrite dst off bytes))

-- What stands up to the end of a write: what stood before it, and the bytes written.
pub take-overwrite :
    (dst : List ℕ) (off : ℕ) (bytes : List ℕ)
    → off + length bytes ≤ length dst
    → take (off + length bytes) (overwrite dst off bytes) ≡ take off dst ++ bytes
unfolding overwrite
take-overwrite dst off bytes h =
    let front = take off dst ++ bytes in
    let behind = drop (off + length bytes) dst in
    let e : off + length bytes ≡ length front =
      omega (arith, length-append (take off dst) bytes, length-take off dst) in
    rw (← append_assoc (take off dst) bytes behind)
      (take-append_at (off + length bytes) front behind e)

-- A write at the front stands there.
pub take-overwrite_front :
    (dst bytes : List ℕ)
    → length bytes ≤ length dst
    → take (length bytes) (overwrite dst 0 bytes) ≡ bytes
unfolding take
take-overwrite_front dst bytes h =
    let e : 0 + length bytes ≡ length bytes = omega arith in
    rw e at (take-overwrite dst 0 bytes (omega arith))

-- What stands before the end of a write: what stood before it, and the start of the bytes written.
pub take-overwrite_part :
    (dst : List ℕ) (off k : ℕ) (bytes : List ℕ)
    → off + length bytes ≤ length dst
    → k ≤ length bytes
    → take (off + k) (overwrite dst off bytes) ≡ take off dst ++ take k bytes
take-overwrite_part dst off k bytes h small =
    let front : take (off + length bytes) (overwrite dst off bytes) ≡ take off dst ++ bytes =
      take-overwrite dst off bytes h in
    let l : length (take off dst) ≡ off = length-take off dst (omega arith) in
    let e : take (off + k) (overwrite dst off bytes) ≡ take (off + k) (take off dst ++ bytes) =
      rw front at
        (sym (take-take (off + k) (off + length bytes) (overwrite dst off bytes) (omega arith))) in
    e
    ∙ take-add off k (take off dst ++ bytes)
    ∙ rw (
      take-append_at off (take off dst) bytes (sym l),
      drop-append_at off (take off dst) bytes (sym l),
    )
