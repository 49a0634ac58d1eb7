-- ===== src/Request/Safety.antt =====
-- The calls of the firmware keep the invariant and never fault.
use ch32fun_wi_not_ap.Prelude.{
  Bool-cases, Ensures, Ensures->>=, List, arith, get_or, if◌then◌else◌, inl, inr, length,
  length-set, refl, set, some, suc, zero, ℕ, ◌+◌, ◌==◌, ◌∙◌, ◌≡◌, ◌≤◌,
}
use ch32fun_wi_not_ap.Node.{Node, data_buf_size, fragment_size}
use ch32fun_wi_not_ap.Request.{
  Packet, fill_buf, move_up, outside, own, place_payload, request_channel, request_header,
  request_with_payload, size,
}
use ch32fun_wi_not_ap.Node.Invariant.{Sizes}
use ch32fun_wi_not_ap.Memory.Laws.{write_at-size, slice-runs}
use ch32fun_wi_not_ap.Memory.{word_bytes, write_at}

pub length-move_up : (i : ℕ) (buf : List ℕ) → length (move_up i buf) ≡ length buf
unfolding move_up
length-move_up zero buf = refl
length-move_up (suc i) buf =
    length-move_up i (set buf (i + 8) (get_or buf i 0)) ∙ length-set buf (i + 8) (get_or buf i 0)

abbrev pub IsBuf : List ℕ → Type 0
IsBuf buf = length buf ≡ data_buf_size

pub fill_buf-size :
    (p : Packet) (buf : List ℕ)
    → IsBuf buf
    → size p ≤ data_buf_size
    → Ensures IsBuf (fill_buf p buf)
unfolding fill_buf
fill_buf-size (own len) buf e h = e
fill_buf-size (outside bytes) buf e h = write_at-size data_buf_size buf 0 bytes e (omega arith)

place_payload-size :
    (p : Packet) (buf : List ℕ)
    → IsBuf buf
    → 8 + size p ≤ data_buf_size
    → Ensures IsBuf (place_payload p buf)
unfolding place_payload
place_payload-size (own len) buf e h = length-move_up len buf ∙ e
place_payload-size (outside bytes) buf e h = write_at-size data_buf_size buf 8 bytes e h

-- A call that sends on the request channel changes the packet, and neither role, state nor tables.
pub record Asked (n m : Node) : Type 0 where
  pub sizes : Sizes m
  pub role_kept : m.role ≡ n.role
  pub state_kept : m.state ≡ n.state
  pub channel_kept : m.datachannel ≡ n.datachannel

pub request_channel-Asked :
    (p : Packet) (n : Node)
    → Sizes n
    → size p ≤ data_buf_size
    → Ensures (Asked n) (request_channel p n)
unfolding request_channel
request_channel-Asked p n z h =
    Ensures->>= IsBuf (Asked n) (fill_buf p n.data_buf) _ (fill_buf-size p n.data_buf z.buf_size h)
      λ buf e. record {
        sizes = omega arith;
        role_kept = refl;
        state_kept = refl;
        channel_kept = refl;
      }

pub request_with_payload-Asked :
    (p : Packet) (n : Node)
    → Sizes n
    → size p ≤ fragment_size
    → Ensures (Asked n) (request_with_payload p n)
unfolding request_with_payload word_bytes
request_with_payload-Asked p n z h =
    Ensures->>= IsBuf (Asked n)
      (if size p == 0 then some n.data_buf else place_payload p n.data_buf) _ placed
      λ b₁ e₁.
        Ensures->>= IsBuf (Asked n)
          (write_at data_buf_size b₁ 0 (request_header 0 (size p) 0 n.uuid)) _
          (write_at-size data_buf_size b₁ 0 (request_header 0 (size p) 0 n.uuid) e₁ (omega arith))
          λ b₂ e₂. rw (slice-runs b₂ 0 (8 + size p) (omega arith)) (record {
            sizes = omega arith;
            role_kept = refl;
            state_kept = refl;
            channel_kept = refl;
          })
  where
    placed : Ensures IsBuf (if size p == 0 then some n.data_buf else place_payload p n.data_buf)
    placed = elim (Bool-cases (size p == 0)) [
      | inl e ↦ rw e z.buf_size
      | inr e ↦ rw e (place_payload-size p n.data_buf z.buf_size (omega arith))
    ]
