-- ===== src/Receive/Follow.antt =====
-- The client that is given a data channel: it bursts the packet that it has there, or waits there.
use ch32fun_wi_not_ap.Prelude.{
  refl, some, true, false, ℕ, List, ◌≤◌, ◌≡◌, ◌==◌, ◌<◌, Ensures, ◌++◌, arith, ◌%◌, Ensures->>=,
}
use ch32fun_wi_not_ap.Receive.{
  follow_channel, process_rx, client_response, take_payload, request_len,
}
use ch32fun_wi_not_ap.Node.{
  Node, change_state, clients_max, peer_address, communicating, client, ap_channel, requesting,
  set_active_channel, Role, active_channel,
}
use ch32fun_wi_not_ap.Memory.{Frame}
use ch32fun_wi_not_ap.Node.Invariant.{Inv, Sizes, set_active_channel-Sizes, active-set, consistent}
use ch32fun_wi_not_ap.Radio.Delivery.{Delivers}
use ch32fun_wi_not_ap.Radio.Tuning.{tuned, sent_to}
use ch32fun_wi_not_ap.Receive.Bare.{bare, bare_channel, bare_len}
use ch32fun_wi_not_ap.Fragment.Burst.{frames}
use ch32fun_wi_not_ap.Receive.Exchange.{rx_by-response}
use ch32fun_wi_not_ap.Fragment.Address.{Bursts, burst-Bursts}

-- On its data channel, with its packet on the air.
pub record Uploaded (idx : ℕ) (n m : Node) : Type 0 where
  pub on_channel : m.state ≡ communicating
  pub role_kept : m.role ≡ n.role
  pub given_away : m.data_len ≡ 0
  pub air : sent_to n.uuid idx m.calls ≡ sent_to n.uuid idx n.calls ++ frames n.data_buf n.data_len

pub record Awaits (idx : ℕ) (n m : Node) : Type 0 where
  pub inv : Inv m
  pub on_channel : m.state ≡ communicating
  pub role_kept : m.role ≡ n.role
  pub uuid_kept : m.uuid ≡ n.uuid
  pub marks_kept : m.fragments_received ≡ n.fragments_received
  pub tick_kept : m.tick ≡ n.tick
  pub since : m.last_change ≡ n.tick
  pub listens : tuned m.calls ≡ some (n.uuid, idx)

other_channel : (idx : ℕ) → idx ≤ clients_max → (idx == ap_channel) ≡ false
other_channel idx h = ground arith

pub follow_channel-Uploaded :
    (idx : ℕ) (n : Node)
    → idx ≤ clients_max
    → Sizes n
    → n.role ≡ client
    → 0 < n.data_len
    → Ensures (Uploaded idx n) (follow_channel idx n)
unfolding follow_channel
follow_channel-Uploaded idx n h z r more =
    let n' = set_active_channel idx n in
    let full : (n.data_len == 0) ≡ false = ground arith in
    let byte : idx % 256 ≡ idx = omega arith in
    rw (other_channel idx h, full, active-set n idx z, byte)
      (Ensures->>= (Bursts n.uuid idx (frames n.data_buf n.data_len) n') (Uploaded idx n) _ _
        (burst-Bursts n.uuid idx n.data_buf n.data_len n' (omega (arith, z.len_fits, z.buf_size))
          (rw r refl))
        λ m b. record {
          on_channel = b.on_channel;
          role_kept = b.sent.role_kept;
          given_away = refl;
          air = b.aimed;
        })

client_peer : (r : Role) (n : Node) → r ≡ client → peer_address r n ≡ some n.uuid
unfolding peer_address
client_peer r n e = rw e refl

consistent_without :
    (r : Role) (c l : ℕ) → r ≡ client → (l == 0) ≡ true → consistent r communicating c l ≡ true
consistent_without r c l e h = rw e h

follow_channel-Awaits :
    (idx : ℕ) (n : Node)
    → idx ≤ clients_max
    → Sizes n
    → n.role ≡ client
    → n.data_len ≡ 0
    → Ensures (Awaits idx n) (follow_channel idx n)
unfolding follow_channel change_state tuned
follow_channel-Awaits idx n h z r e =
    let n' = set_active_channel idx n in
    let none_left : (n.data_len == 0) ≡ true = ground arith in
    let kept = set_active_channel-Sizes n idx z in
    rw (other_channel idx h, none_left, client_peer n.role n' r)
      (record {
        inv = record {
          sizes = record {
            buf_size = kept.buf_size;
            uuids_size = kept.uuids_size;
            times_size = kept.times_size;
            len_fits = kept.len_fits;
          };
          states = consistent_without n.role (active_channel n') n.data_len r none_left;
        };
        on_channel = refl;
        role_kept = refl;
        uuid_kept = refl;
        marks_kept = refl;
        tick_kept = refl;
        since = refl;
        listens = rw (active-set n idx z) refl;
      })

pub client_follows :
    (f : Frame) (idx : ℕ) (n : Node)
    → n.role ≡ client
    → n.state ≡ requesting
    → f 2 ≡ idx
    → request_len f ≡ 0
    → process_rx f n ≡ follow_channel idx n
unfolding process_rx client_response take_payload
client_follows f idx n r s c l =
    rw (rx_by-response n.role n.state f n r s, client_response, l, c) refl

module _ (deliver : List ℕ → Frame) (ok : Delivers deliver) where
  pub process_rx-Uploaded :
      (counter idx uuid : ℕ) (n : Node)
      → idx ≤ clients_max
      → Sizes n
      → n.role ≡ client
      → n.state ≡ requesting
      → 0 < n.data_len
      → Ensures (Uploaded idx n) (process_rx (deliver (bare 0 counter idx uuid)) n)
  process_rx-Uploaded counter idx uuid n h z r s more =
      rw
        (client_follows (deliver (bare 0 counter idx uuid)) idx n r s
          (bare_channel deliver ok 0 counter idx uuid) (bare_len deliver ok 0 counter idx uuid))
        (follow_channel-Uploaded idx n h z r more)

  pub process_rx-Awaits :
      (counter idx uuid : ℕ) (n : Node)
      → idx ≤ clients_max
      → Sizes n
      → n.role ≡ client
      → n.state ≡ requesting
      → n.data_len ≡ 0
      → Ensures (Awaits idx n) (process_rx (deliver (bare 0 counter idx uuid)) n)
  process_rx-Awaits counter idx uuid n h z r s e =
      rw
        (client_follows (deliver (bare 0 counter idx uuid)) idx n r s
          (bare_channel deliver ok 0 counter idx uuid) (bare_len deliver ok 0 counter idx uuid))
        (follow_channel-Awaits idx n h z r e)
