-- ===== src/Request/Reaches.antt =====
-- A request with a payload, from `winot_request` of the client to `winot_process_rx` of the access point.
use ch32fun_wi_not_ap.Request.{
  outside, place_payload, request, request_header, request_with_payload, is_idle,
}
use ch32fun_wi_not_ap.Prelude.{
  refl, ℕ, List, length, ◌++◌, ◌+◌, ◌≤◌, Ensures, ◌≡◌, take, drop, if◌then◌else◌, ◌==◌, some, ◌∷◌,
  arith, [], length-take, take-add, suc, drop-append_at, take-append_at, ltb, take-append, false,
  leb, true, Ensures->>=, cong,
}
use ch32fun_wi_not_ap.Request.Safety.{IsBuf}
use ch32fun_wi_not_ap.Node.{
  data_buf_size, Node, idle, fragment_size, requesting, change_state, ap_access_address, ap_channel,
}
use ch32fun_wi_not_ap.Memory.{overwrite, word_bytes}
use ch32fun_wi_not_ap.Memory.Laws.{write_at-runs, length-overwrite, slice-runs}
use ch32fun_wi_not_ap.Node.Invariant.{Sizes}
use ch32fun_wi_not_ap.Radio.{sent_frames}
use ch32fun_wi_not_ap.Radio.Tuning.{sent_to, tuned}

-- The bytes of a request.
abbrev pub request_frame : ℕ → List ℕ → List ℕ
request_frame uuid bytes = request_header 0 (length bytes) 0 uuid ++ bytes

-- The payload stands in the buffer behind the place of the header.
record Behind (bytes buf : List ℕ) : Type 0 where
  buf_size : length buf ≡ data_buf_size
  placed : take (length bytes) (drop 8 buf) ≡ bytes

overwritten-Behind :
    (bytes buf : List ℕ)
    → IsBuf buf
    → 8 + length bytes ≤ data_buf_size
    → Behind bytes (overwrite buf 8 bytes)
unfolding overwrite
overwritten-Behind bytes buf e h = record {
  buf_size = omega (arith, length-overwrite buf 8 bytes);
  placed =
      let l : 8 ≡ length (take 8 buf) = omega (arith, length-take 8 buf) in
      rw (drop-append_at 8 (take 8 buf) (bytes ++ drop (8 + length bytes) buf) l)
        (take-append bytes (drop (8 + length bytes) buf));
}

payload-Behind :
    (bytes buf : List ℕ)
    → IsBuf buf
    → 8 + length bytes ≤ data_buf_size
    → Ensures
        (Behind bytes)
        (if length bytes == 0 then some buf else place_payload (outside bytes) buf)
unfolding place_payload take
payload-Behind [] buf e h = record { buf_size = e; placed = refl }
payload-Behind (b ∷ bytes) buf e h =
    let ne : (suc (length bytes) == 0) ≡ false = ground arith in
    rw (ne, write_at-runs data_buf_size buf 8 (b ∷ bytes) h)
      (overwritten-Behind (b ∷ bytes) buf e h)

header_size : (len uuid : ℕ) → 8 ≡ length (request_header 0 len 0 uuid)
unfolding word_bytes
header_size len uuid = refl

header_first :
    (len uuid : ℕ) (buf : List ℕ)
    → overwrite buf 0 (request_header 0 len 0 uuid) ≡ request_header 0 len 0 uuid ++ drop 8 buf
unfolding overwrite take word_bytes
header_first len uuid buf = refl

-- With the header in front, the buffer starts with the bytes of the request.
headed :
    (uuid : ℕ) (bytes buf : List ℕ)
    → Behind bytes buf
    → 8 + length bytes ≤ data_buf_size
    → take (8 + length bytes) (overwrite buf 0 (request_header 0 (length bytes) 0 uuid))
      ≡ request_frame uuid bytes
headed uuid bytes buf b h =
    let header = request_header 0 (length bytes) 0 uuid in
    let l : 8 ≡ length header = header_size (length bytes) uuid in
    rw (
      header_first (length bytes) uuid buf,
      take-add 8 (length bytes) (header ++ drop 8 buf),
      take-append_at 8 header (drop 8 buf) l,
      drop-append_at 8 header (drop 8 buf) l,
      b.placed,
    )

-- The request is on the air.
record Aired (bytes : List ℕ) (n m : Node) : Type 0 where
  role_kept : m.role ≡ n.role
  uuid_kept : m.uuid ≡ n.uuid
  frames : sent_frames m.calls ≡ sent_frames n.calls ++ (request_frame n.uuid bytes ∷ [])
  aimed :
      sent_to ap_access_address ap_channel m.calls
      ≡ sent_to ap_access_address ap_channel n.calls ++ (request_frame n.uuid bytes ∷ [])

-- A client that waits for the response.
pub record Requested (bytes : List ℕ) (n m : Node) : Type 0 where
  pub asked : m.state ≡ requesting
  pub role_kept : m.role ≡ n.role
  pub uuid_kept : m.uuid ≡ n.uuid
  pub listens : tuned m.calls ≡ some (n.uuid, ap_channel)
  pub frames : sent_frames m.calls ≡ sent_frames n.calls ++ (request_frame n.uuid bytes ∷ [])
  pub aimed :
      sent_to ap_access_address ap_channel m.calls
      ≡ sent_to ap_access_address ap_channel n.calls ++ (request_frame n.uuid bytes ∷ [])

-- The client's request goes out with the payload.
pub request-sends :
    (bytes : List ℕ) (n : Node)
    → Sizes n
    → n.state ≡ idle
    → length bytes ≤ fragment_size
    → Ensures (Requested bytes n) (request (outside bytes) n)
unfolding request request_with_payload change_state sent_frames drop sent_to tuned
request-sends bytes n z e h =
    let small : ltb fragment_size (length bytes) ≡ false = ground arith in
    let fits : leb (length bytes) data_buf_size ≡ true = ground arith in
    let header = request_header 0 (length bytes) 0 n.uuid in
    let l : 8 ≡ length header = header_size (length bytes) n.uuid in
    let idles : is_idle n.state ≡ true = rw e refl in
    rw (idles, small, fits)
      (Ensures->>= (Aired bytes n) (Requested bytes n) _ _
        (Ensures->>= (Behind bytes) (Aired bytes n) _ _
          (payload-Behind bytes n.data_buf z.buf_size (omega arith))
          λ buf b.
            let sent = headed n.uuid bytes buf b (omega arith) in
            rw
              (
                write_at-runs data_buf_size buf 0 header (omega arith),
                slice-runs (overwrite buf 0 header) 0 (8 + length bytes)
                    (omega (arith, length-overwrite buf 0 header, b.buf_size)),
              )
              (record {
                role_kept = refl;
                uuid_kept = refl;
                frames = cong (λ (bs : List ℕ). sent_frames n.calls ++ (bs ∷ [])) sent;
                aimed =
                    cong
                      (λ (bs : List ℕ). sent_to ap_access_address ap_channel n.calls ++ (bs ∷ []))
                      sent;
              }))
        λ m aired. record {
          asked = refl;
          role_kept = aired.role_kept;
          uuid_kept = aired.uuid_kept;
          listens = cong (λ (u : ℕ). some (u, ap_channel)) aired.uuid_kept;
          frames = aired.frames;
          aimed = aired.aimed;
        })
