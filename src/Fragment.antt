-- ===== src/Fragment.antt =====
-- A frame in fragments: `winot_burst_tx_and_communicate` sends them, `winot_defragment` collects them.
pub mod Burst
pub mod Marks
pub mod Address
pub mod Elsewhere
use ch32fun_wi_not_ap.Prelude.{
  ℕ, zero, suc, ◌+◌, ◌-◌, ◌*◌, ◌^◌, ◌%◌, Bool, true, false, List, ◌∷◌, Option, none, some, ltb,
  ◌==◌, if◌then◌else◌, ◌>>=◌, bit_or, bit_and,
}
use ch32fun_wi_not_ap.Memory.{Frame, copy, slice, write_at, sub8}
use ch32fun_wi_not_ap.Radio.{transmit, delay, report_missing}
use ch32fun_wi_not_ap.Node.{
  Node, communicating, newrx, fragment_size, fragmented, data_buf_size, emit, advance, change_state,
}

-- How many bytes the next fragment carries.
abbrev pub chunk_size : ℕ → ℕ
chunk_size left = if ltb fragment_size left then fragment_size else left

-- The PDU byte: the fragment's index, with the mark when more follow.
abbrev pub pdu_of : ℕ → ℕ → ℕ
pdu_of left idx = if ltb fragment_size left then bit_or (idx % 8) fragmented else idx % 8

-- What `tx_buf` holds when a fragment is sent. The length byte is made from the whole length.
abbrev pub tx_frame : ℕ → ℕ → ℕ → List ℕ → List ℕ
tx_frame len left idx chunk = pdu_of left idx ∷ (len + 2) % 2 ^ 8 ∷ 0 ∷ 0 ∷ chunk

-- One round of the loop.
unfoldable pub send_fragment : ℕ → ℕ → List ℕ → ℕ → ℕ → ℕ → Node → Option Node
send_fragment address channel bytes len sent idx n = do
  chunk ← slice bytes sent (chunk_size (len - sent))
  some (
      advance 1
        (emit (delay 1) (emit (transmit address (tx_frame len (len - sent) idx chunk) channel) n)))

-- `while(sent < len)`, with fuel; without fuel left the loop has not returned.
unfoldable pub burst_loop : ℕ → ℕ → ℕ → List ℕ → ℕ → ℕ → ℕ → Node → Option Node
burst_loop zero address channel bytes len sent idx n = none
burst_loop (suc fuel) address channel bytes len sent idx n = elim (ltb sent len) [
  | true ↦ do
    n' ← send_fragment address channel bytes len sent idx n
    burst_loop fuel address channel bytes len (sent + chunk_size (len - sent)) (idx + 1) n'
  | false ↦ some n
]

-- `bytes` is the memory at `data`.
unfoldable pub burst_tx_and_communicate : ℕ → ℕ → List ℕ → ℕ → Node → Option Node
burst_tx_and_communicate address channel bytes len n = do
  n' ← burst_loop (len + 1) address channel bytes len 0 0 n
  change_state communicating n'

-- WINOT_HAS_ALL_FRAGMENTS(f)
abbrev pub has_all_fragments : ℕ → ℕ → Bool
has_all_fragments received f = received == 2 ^ (f + 1) - 1

-- What follows the store of a fragment.
unfoldable pub finish_fragment : ℕ → ℕ → ℕ → Node → Option Node
finish_fragment pdu frag end n =
    if bit_and pdu fragmented == 0
    then (if has_all_fragments n.fragments_received frag
        then change_state newrx (record n { data_len = end; fragments_received = 0 })
        else some (emit (report_missing n.fragments_received) n))
    else some n

unfoldable pub defragment : Frame → Node → Option Node
defragment f n =
    let pdu = f 0 in
    let len = sub8 (f 1) 2 in
    let frag = pdu % 8 in
    let write_idx = frag * fragment_size in
    if ltb data_buf_size (write_idx + len) then some n else (do
      buf ← write_at data_buf_size n.data_buf write_idx (copy f 4 len)
      finish_fragment pdu frag (write_idx + len) (record n {
        data_buf = buf;
        fragments_received = bit_or n.fragments_received (2 ^ frag) % 2 ^ 8;
      }))
