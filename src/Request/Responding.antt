-- ===== src/Request/Responding.antt =====
-- An access point's call of `winot_tick` that answers a request with a data channel, and sends the packet
-- that waits there.
use ch32fun_wi_not_ap.Prelude.{
  sym, cong, refl, some, true, false, [], ◌∷◌, ℕ, ◌≡◌, Ensures, ◌++◌, get_or, ◌%◌, ◌<◌, arith, ◌^◌,
  ◌==◌, ◌≤◌, Ensures->>=, Ensures-mono, ◌∙◌,
}
use ch32fun_wi_not_ap.Node.{
  Node, communicating, ap, ap_channel, active_channel, dest_uuid, response_window_ms, advance,
  State, Role,
}
use ch32fun_wi_not_ap.Tick.{send_pending, tick, receive, on_time, window_over}
use ch32fun_wi_not_ap.Node.Invariant.{Sizes, is_client_channel, consistent}
use ch32fun_wi_not_ap.Radio.Tuning.{sent_to}
use ch32fun_wi_not_ap.Receive.Bare.{bare}
use ch32fun_wi_not_ap.Fragment.Burst.{frames}
use ch32fun_wi_not_ap.Receive.Channel.{entry-place, Assigned}
use ch32fun_wi_not_ap.Memory.{Frame}
use ch32fun_wi_not_ap.Fragment.Address.{Bursts, burst-Bursts}
use ch32fun_wi_not_ap.Receive.{process_rx}
use ch32fun_wi_not_ap.System.Released.{Leaves-both}
use ch32fun_wi_not_ap.Tick.Window.{window_open}
use ch32fun_wi_not_ap.Fragment.Elsewhere.{burst-quiet}

-- The packet is on the air for the client and nothing else, and the access point has none left.
record Released (uuid : ℕ) (n m : Node) : Type 0 where
  given_away : m.data_len ≡ 0
  on_channel : m.state ≡ communicating
  place_kept : active_channel m ≡ active_channel n
  quiet : sent_to uuid ap_channel m.calls ≡ sent_to uuid ap_channel n.calls
  air :
      sent_to uuid (active_channel n) m.calls
      ≡ sent_to uuid (active_channel n) n.calls ++ frames n.data_buf n.data_len

ap_channel_open :
    (r : Role) (c : ℕ) → r ≡ ap → is_client_channel c ≡ true → consistent r communicating c 0 ≡ true
ap_channel_open r c e h = rw e h

send_pending-Released :
    (uuid : ℕ) (n : Node)
    → Sizes n
    → n.role ≡ ap
    → is_client_channel (active_channel n) ≡ true
    → get_or n.datachannel (active_channel n) 0 ≡ uuid
    → dest_uuid n.data_buf ≡ uuid
    → Ensures (Released uuid n) (send_pending n)
unfolding send_pending
send_pending-Released uuid n z r p w d =
    let byte : active_channel n % 256 ≡ active_channel n = ground arith in
    let same : (uuid == uuid) ≡ true = ground arith in
    rw (entry-place uuid n p w, d, same, byte)
      (Ensures->>=
        (λ m.
          Bursts uuid (active_channel n) (frames n.data_buf n.data_len) n m
          × (sent_to uuid ap_channel m.calls ≡ sent_to uuid ap_channel n.calls))
        (Released uuid n) _ _
        (Leaves-both (Bursts uuid (active_channel n) (frames n.data_buf n.data_len) n)
          (λ m. sent_to uuid ap_channel m.calls ≡ sent_to uuid ap_channel n.calls) _
          (burst-Bursts uuid (active_channel n) n.data_buf n.data_len n
            (omega (arith, z.len_fits, z.buf_size)) (ap_channel_open n.role (active_channel n) r p))
          (burst-quiet uuid (active_channel n) ap_channel (ground arith) n.data_buf n.data_len n))
        λ m b. record {
          given_away = refl;
          on_channel = b.0.on_channel;
          place_kept = cong (λ places. get_or places 0 0) b.0.sent.uuids_kept;
          quiet = b.1;
          air = b.0.aimed;
        })

-- Within the response window a node on its data channel sends what waits.
on_time-sends :
    (s : State) (n : Node)
    → s ≡ communicating
    → window_over n ≡ false
    → (n.data_len == 0) ≡ false
    → on_time s n ≡ send_pending n
unfolding on_time
on_time-sends s n e w l = rw (e, w, l) refl

-- What comes of a node on its data channel within the response window.
on_time-Released :
    (dt uuid : ℕ) (n : Node)
    → Sizes n
    → n.role ≡ ap
    → n.state ≡ communicating
    → is_client_channel (active_channel n) ≡ true
    → get_or n.datachannel (active_channel n) 0 ≡ uuid
    → dest_uuid n.data_buf ≡ uuid
    → 0 < n.data_len
    → n.tick < 2 ^ 32
    → n.last_change ≡ n.tick
    → dt ≤ response_window_ms
    → Ensures (Released uuid n) (on_time n.state (advance dt n))
on_time-Released dt uuid n z r s p w d full now since h =
    let later = advance dt n in
    let more : (n.data_len == 0) ≡ false = ground arith in
    rw (on_time-sends later.state later s (window_open dt n now since h) more) (
      Ensures-mono (Released uuid later) (Released uuid n) _
        (λ m q. record {
          given_away = q.given_away;
          on_channel = q.on_channel;
          place_kept = q.place_kept;
          quiet = q.quiet;
          air = q.air;
        })
        (send_pending-Released uuid later
          (record {
            buf_size = z.buf_size;
            uuids_size = z.uuids_size;
            times_size = z.times_size;
            len_fits = z.len_fits;
          })
          r p w d))

-- A call that answers a request with a data channel, and sends the packet there at once.
pub record Responded (uuid : ℕ) (n m : Node) : Type 0 where
  pub given_away : m.data_len ≡ 0
  pub on_channel : m.state ≡ communicating
  pub is_place : is_client_channel (active_channel m) ≡ true
  pub answer :
      sent_to uuid ap_channel m.calls
      ≡ sent_to uuid ap_channel n.calls ++ (bare 0 0 (active_channel m) n.uuid ∷ [])
  pub air :
      sent_to uuid (active_channel m) m.calls
      ≡ sent_to uuid (active_channel m) n.calls ++ frames n.data_buf n.data_len

pub tick-Responded :
    (dt uuid : ℕ) (f : Frame) (n : Node)
    → n.role ≡ ap
    → dest_uuid n.data_buf ≡ uuid
    → 0 < n.data_len
    → n.tick < 2 ^ 32
    → dt ≤ response_window_ms
    → Ensures (Assigned uuid n) (process_rx f n)
    → Ensures (Responded uuid n) (tick dt (some f) n)
unfolding tick receive
tick-Responded dt uuid f n r d full now h assigned =
    Ensures->>= (Assigned uuid n) (Responded uuid n) _ _ assigned λ m g.
      Ensures-mono (Released uuid m) (Responded uuid n) _
        (λ k q. record {
          given_away = q.given_away;
          on_channel = q.on_channel;
          is_place = rw q.place_kept g.is_place;
          answer = rw q.place_kept (q.quiet ∙ g.answered);
          air = rw (q.place_kept, ← g.buf_kept, ← g.len_kept, ← g.unused) q.air;
        })
        (on_time-Released dt uuid m g.inv.sizes (g.role_kept ∙ r) g.on_channel g.is_place g.word
          (rw g.buf_kept d) (rw g.len_kept full) (rw g.tick_kept now) (g.since ∙ sym g.tick_kept) h)
