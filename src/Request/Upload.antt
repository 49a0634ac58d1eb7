-- ===== src/Request/Upload.antt =====
-- A packet that is too long for a request: the client asks for a data channel, the access point gives
-- it one, and the client bursts the packet there.
use ch32fun_wi_not_ap.Prelude.{
  ◌>>=◌, refl, some, true, List, ℕ, Option, ◌≡◌, length, take, ◌++◌, ◌<◌, ◌∷◌, ◌≤◌, [], Ensures,
  ltb, arith, leb, ◌^◌, Ensures->>=, ◌∙◌, sym, take-length,
}
use ch32fun_wi_not_ap.Request.{request, request_channel, fill_buf, outside}
use ch32fun_wi_not_ap.Node.{
  Node, change_state, requesting, communicating, ap_channel, client, ap_access_address, idle,
  fragment_size, data_buf_size, Role, active_channel, ap, listening,
}
use ch32fun_wi_not_ap.Memory.{Frame}
use ch32fun_wi_not_ap.Node.Invariant.{Inv, Sizes, consistent}
use ch32fun_wi_not_ap.Receive.Reassembly.{Collected}
use ch32fun_wi_not_ap.Radio.Tuning.{tuned, sent_to}
use ch32fun_wi_not_ap.Receive.Bare.{bare}
use ch32fun_wi_not_ap.Memory.Laws.{write_at-runs, take-overwrite_front, length-overwrite}
use ch32fun_wi_not_ap.Receive.Hears.{hears, hears_lem, hears_one}
use ch32fun_wi_not_ap.Radio.Delivery.{Delivers}
use ch32fun_wi_not_ap.Receive.RoundTrip.{fragment_count, receive_all-frames}
use ch32fun_wi_not_ap.Receive.Channel.{Assigned, process_rx-Assigned}
use ch32fun_wi_not_ap.Receive.Follow.{Uploaded, process_rx-Uploaded}
use ch32fun_wi_not_ap.Fragment.Burst.{frames}
use ch32fun_wi_not_ap.System.Owned.{Owned, data_frame-keeps}

-- A client that has asked for a data channel, with the packet in its buffer.
pub record Asking (bytes : List ℕ) (n m : Node) : Type 0 where
  pub inv : Inv m
  pub role_kept : m.role ≡ n.role
  pub uuid_kept : m.uuid ≡ n.uuid
  pub asked : m.state ≡ requesting
  pub whole_len : m.data_len ≡ length bytes
  pub whole : take (length bytes) m.data_buf ≡ bytes
  pub listens : tuned m.calls ≡ some (n.uuid, ap_channel)
  pub air :
      sent_to ap_access_address ap_channel m.calls
      ≡ sent_to ap_access_address ap_channel n.calls ++ (bare 8 6 0 n.uuid ∷ [])

requesting_client : (r : Role) (c l : ℕ) → r ≡ client → consistent r requesting c l ≡ true
requesting_client r c l e = rw e refl

pub request-Asking :
    (bytes : List ℕ) (n : Node)
    → Sizes n
    → n.role ≡ client
    → n.state ≡ idle
    → fragment_size < length bytes
    → length bytes ≤ data_buf_size
    → Ensures (Asking bytes n) (request (outside bytes) n)
unfolding request request_channel fill_buf change_state tuned sent_to
request-Asking bytes n z r s big fits =
    let large : ltb fragment_size (length bytes) ≡ true = ground arith in
    let allowed : leb (length bytes) data_buf_size ≡ true = ground arith in
    rw (s, large, allowed, write_at-runs data_buf_size n.data_buf 0 bytes (omega arith))
      (record {
        inv = record {
          sizes = record {
            buf_size = omega (arith, length-overwrite n.data_buf 0 bytes, z.buf_size);
            uuids_size = z.uuids_size;
            times_size = z.times_size;
            len_fits = fits;
          };
          states = requesting_client n.role (active_channel n) (length bytes) r;
        };
        role_kept = refl;
        uuid_kept = refl;
        asked = refl;
        whole_len = refl;
        whole = take-overwrite_front n.data_buf bytes (omega arith);
        listens = refl;
        air = refl;
      })

-- The packet's way: what the client and the access point do in turn.
abbrev pub upload : (List ℕ → Frame) → List ℕ → Node → Node → Option (Node × Node)
upload deliver bytes c a = do
  c₁ ← request (outside bytes) c
  a₁ ← hears deliver c c₁ a
  c₂ ← hears deliver a a₁ c₁
  a₂ ← hears deliver c₁ c₂ a₁
  some (c₂, a₂)

-- The access point has the packet, and the client has none left.
pub record Taken (u : ℕ) (bytes : List ℕ) (r : Node × Node) : Type 0 where
  pub owned : Owned ap u r.1
  pub collected : Collected bytes (length bytes) r.1
  pub given_away : r.0.data_len ≡ 0
  pub on_channel : r.0.state ≡ communicating

module _ (deliver : List ℕ → Frame) (ok : Delivers deliver) (bytes : List ℕ) where
  -- What the access point hears of the client's burst is the packet.
  pub burst-Taken :
      (u uuid channel : ℕ) (buf : List ℕ) (c₁ c₂ a₁ : Node)
      → 0 < length bytes
      → length bytes ≤ data_buf_size
      → take (length bytes) buf ≡ bytes
      → length buf ≡ data_buf_size
      → sent_to uuid channel c₂.calls ≡ sent_to uuid channel c₁.calls ++ frames buf (length bytes)
      → c₂.data_len ≡ 0
      → c₂.state ≡ communicating
      → Owned ap u a₁
      → a₁.state ≡ communicating
      → tuned a₁.calls ≡ some (uuid, channel)
      → a₁.fragments_received < 2 ^ fragment_count (length bytes)
      → Ensures (Taken u bytes) (do a₂ ← hears deliver c₁ c₂ a₁; some (c₂, a₂))
  burst-Taken u uuid channel buf c₁ c₂ a₁ pos fits w z air gone on o e listens marks =
      rw (hears_lem deliver uuid channel c₁ c₂ a₁ (frames buf (length bytes)) listens air) (
        Ensures->>= (λ m. Collected buf (length bytes) m × Owned ap u m) (Taken u bytes) _ _
          (receive_all-frames deliver ok (Owned ap u) data_frame-keeps buf (length bytes) a₁ pos
            (omega arith) fits o.inv e marks o)
          λ a₂ got. record {
            owned = got.1;
            collected = record {
              new_packet = got.0.new_packet;
              whole_len = got.0.whole_len;
              whole = got.0.whole ∙ w ∙ sym (take-length bytes);
              no_marks = got.0.no_marks;
            };
            given_away = gone;
            on_channel = on;
          })

  -- An idle client with the invariant and a uuid of 32 bits requests with 246 to 1715 bytes; a
  -- listening access point with the invariant, without a packet, whose radio was last told to
  -- listen on the request channel, has marks of no fragments but those that the packet has. Each
  -- hears what the other transmits to the address and on the channel that it listens to, over a
  -- radio that delivers. The calls return; the access point then has a new packet with the
  -- client's bytes and no marks, and still its role, uuid and the invariant, and the client
  -- communicates without a packet.
  pub upload-Taken :
      (c a : Node)
      → fragment_size < length bytes
      → length bytes ≤ data_buf_size
      → Inv c
      → c.uuid < 2 ^ 32
      → c.role ≡ client
      → c.state ≡ idle
      → Inv a
      → a.role ≡ ap
      → a.state ≡ listening
      → a.data_len ≡ 0
      → tuned a.calls ≡ some (ap_access_address, ap_channel)
      → a.fragments_received < 2 ^ fragment_count (length bytes)
      → Ensures (Taken a.uuid bytes) (upload deliver bytes c a)
  upload-Taken c a big fits ci cu cr cs ai ar al none_waits aired marks =
      Ensures->>= (Asking bytes c) (Taken a.uuid bytes) _ _
        (request-Asking bytes c ci.sizes cr cs big fits)
        λ c₁ q.
          Ensures->>= (Assigned c.uuid a) (Taken a.uuid bytes) _ _
            (hears_one deliver ap_access_address ap_channel c c₁ a (Assigned c.uuid a)
              (bare 8 6 0 c.uuid) aired q.air
              (process_rx-Assigned deliver ok 8 6 c.uuid a ai.sizes cu ar al (ground arith)
                (ground arith)))
            λ a₁ g.
              Ensures->>= (Uploaded (active_channel a₁) c₁) (Taken a.uuid bytes) _ _
                (hears_one deliver c.uuid ap_channel a a₁ c₁ (Uploaded (active_channel a₁) c₁)
                  (bare 0 0 (active_channel a₁) a.uuid) q.listens g.answered
                  (process_rx-Uploaded deliver ok 0 (active_channel a₁) a.uuid c₁ (ground arith)
                    q.inv.sizes (q.role_kept ∙ cr) q.asked (omega arith)))
                λ c₂ u.
                  burst-Taken a.uuid c₁.uuid (active_channel a₁) c₁.data_buf c₁ c₂ a₁ (omega arith)
                    fits q.whole q.inv.sizes.buf_size (rw (← q.whole_len) u.air) u.given_away
                    u.on_channel
                    (record { inv = g.inv; role = g.role_kept ∙ ar; uuid = g.uuid_kept })
                    g.on_channel (rw q.uuid_kept g.listens) (rw g.marks_kept marks)
