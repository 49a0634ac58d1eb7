-- ===== src/Request/Download.antt =====
-- A packet of the access point that is too long for a response: a client asks whether there is data
-- for it, the access point gives it a data channel and bursts the packet there in the same call.
use native.Mathlib.Nat.{one-le-pow}
use ch32fun_wi_not_ap.Receive.Kept.{Ready}
use ch32fun_wi_not_ap.Prelude.{
  zero, suc, length, map, sym, refl, some, true, ◌>>=◌, [], ◌∷◌, ℕ, ◌≡◌, Ensures, ◌++◌, ◌<◌, arith,
  ◌^◌, ◌≤◌, Ensures->>=, Ensures-mono, List, Option, ◌∙◌, take, drop,
}
use ch32fun_wi_not_ap.Node.{
  Node, requesting, change_state, communicating, ap, ap_channel, idle, active_channel,
  ap_access_address, dest_uuid, data_buf_size, response_window_ms, client, listening, fragment_size,
}
use ch32fun_wi_not_ap.Request.{request, request_with_payload, outside, request_header}
use ch32fun_wi_not_ap.Tick.{tick, receive}
use ch32fun_wi_not_ap.Node.Invariant.{Sizes, Inv}
use ch32fun_wi_not_ap.Radio.Tuning.{tuned, sent_to, heard}
use ch32fun_wi_not_ap.Receive.Bare.{bare}
use ch32fun_wi_not_ap.Fragment.Burst.{frames}
use ch32fun_wi_not_ap.Memory.Laws.{write_at-runs, slice-runs, length-overwrite}
use ch32fun_wi_not_ap.Receive.Channel.{process_rx-Assigned}
use ch32fun_wi_not_ap.Memory.{overwrite, word_bytes, Frame}
use ch32fun_wi_not_ap.Receive.Reassembly.{Collected}
use ch32fun_wi_not_ap.Radio.Delivery.{Delivers}
use ch32fun_wi_not_ap.Receive.RoundTrip.{fragment_count, each-frames}
use ch32fun_wi_not_ap.Receive.Follow.{Awaits, process_rx-Awaits}
use ch32fun_wi_not_ap.Receive.{ap_needs_datachannel, process_rx}
use ch32fun_wi_not_ap.System.Owned.{Owned}
use ch32fun_wi_not_ap.Tick.Hears.{
  ticked, Timed, advance-Timed, client_waits, tick-Lifts, ticked_one, client_empty, heard_lem,
  tick_each,
}
use ch32fun_wi_not_ap.Receive.Late.{each-cut}
use ch32fun_wi_not_ap.Request.Responding.{Responded, tick-Responded}

-- A client that has asked whether there is data for it.
record Polling (n m : Node) : Type 0 where
  sizes : Sizes m
  role_kept : m.role ≡ n.role
  uuid_kept : m.uuid ≡ n.uuid
  asked : m.state ≡ requesting
  no_packet : m.data_len ≡ 0
  marks_kept : m.fragments_received ≡ n.fragments_received
  tick_kept : m.tick ≡ n.tick
  listens : tuned m.calls ≡ some (n.uuid, ap_channel)
  air :
      sent_to ap_access_address ap_channel m.calls
      ≡ sent_to ap_access_address ap_channel n.calls ++ (bare 0 6 0 n.uuid ∷ [])

request-Polling :
    (n : Node) → Sizes n → n.state ≡ idle → Ensures (Polling n) (request (outside []) n)
unfolding request request_with_payload change_state tuned sent_to word_bytes overwrite take drop
request-Polling n z s =
    let header = request_header 0 0 0 n.uuid in
    rw
      (
        s,
        write_at-runs data_buf_size n.data_buf 0 header (omega arith),
        slice-runs (overwrite n.data_buf 0 header) 0 8
            (omega (arith, length-overwrite n.data_buf 0 header, z.buf_size)),
      )
      (record {
        sizes = record {
          buf_size = omega (arith, length-overwrite n.data_buf 0 header, z.buf_size);
          uuids_size = z.uuids_size;
          times_size = z.times_size;
          len_fits = omega arith;
        };
        role_kept = refl;
        uuid_kept = refl;
        asked = refl;
        no_packet = refl;
        marks_kept = refl;
        tick_kept = refl;
        listens = refl;
        air = refl;
      })

-- A client's call that takes the data channel of the response, and waits there.
tick-Awaits :
    (dt u idx : ℕ) (f : Frame) (n : Node)
    → n.role ≡ client
    → n.uuid ≡ u
    → n.tick < 2 ^ 32
    → dt ≤ response_window_ms
    → Ensures (Awaits idx n) (process_rx f n)
    → Ensures
        (λ m.
          Ready m
          × Timed u m
          × (m.fragments_received ≡ n.fragments_received)
          × (tuned m.calls ≡ some (u, idx)))
        (tick dt (some f) n)
unfolding tick receive
tick-Awaits dt u idx f n r e now h awaits = Ensures->>= (Awaits idx n) _ _ _ awaits λ m g.
    let own : Owned client u m = record {
      inv = g.inv;
      role = g.role_kept ∙ r;
      uuid = g.uuid_kept ∙ e;
    } in
    let timed = advance-Timed dt u m own in
    rw (client_waits dt u m h own (rw g.tick_kept now) g.on_channel (g.since ∙ sym g.tick_kept))
      ((timed.0.inv, g.on_channel), timed, g.marks_kept, g.listens ∙ rw e refl)

-- The packet's way: the client's request, and the calls of `winot_tick` that handle what is heard, `dt`
-- milliseconds apart. The access point sends the packet in the call that answers, and `k` of its
-- fragments are on the air before the client has taken the data channel.
abbrev pub download : (List ℕ → Frame) → ℕ → ℕ → Node → Node → Option (Node × Node)
download deliver dt k c a = do
  c₁ ← request (outside []) c
  a₁ ← ticked deliver dt c c₁ a
  c₂ ← ticked deliver dt a a₁ c₁
  c₃ ← tick_each dt (map deliver (drop k (heard (tuned c₂.calls) a.calls a₁.calls))) c₂
  some (c₃, a₁)

-- With no fragment on the air too early the client has the packet, and otherwise none.
abbrev pub Outcome : ℕ → List ℕ → ℕ → Node → Type 0
Outcome zero bytes len m = Collected bytes len m
Outcome (suc k) bytes len m = (m.state ≡ communicating) × (m.data_len ≡ 0)

-- The access point has no packet left.
pub record Downloaded (u k : ℕ) (bytes : List ℕ) (len : ℕ) (r : Node × Node) : Type 0 where
  pub owned : Owned client u r.0
  pub outcome : Outcome k bytes len r.0
  pub given_away : r.1.data_len ≡ 0
  pub on_channel : r.1.state ≡ communicating

module _ (deliver : List ℕ → Frame) (ok : Delivers deliver) where
  from :
      (dt u k : ℕ) (bytes : List ℕ) (len : ℕ) (n : Node)
      → dt ≤ response_window_ms
      → 0 < len
      → len ≤ length bytes
      → len ≤ data_buf_size
      → Ready n
      → Timed u n
      → n.fragments_received ≡ 0
      → Ensures
          (λ m. Outcome k bytes len m × Timed u m)
          (tick_each dt (map deliver (drop k (frames bytes len))) n)
  unfolding drop
  from dt u zero bytes len n h full hb fits v t none_yet =
      each-frames deliver ok (Timed u) (λ f. tick dt (some f)) (tick-Lifts dt u h) bytes len n full
        hb fits v.0 v.1 (omega (arith, none_yet, one-le-pow (fragment_count len) 2 (omega arith))) t
  from dt u (suc k) bytes len n h full hb fits v t none_yet =
      Ensures-mono (λ m. Ready m × Timed u m) (λ m. Outcome (suc k) bytes len m × Timed u m) _
        (λ m q. ((q.0.1, client_empty u m q.1.0 q.0.1), q.1))
        (each-cut deliver ok bytes len hb fits (Timed u) (λ f. tick dt (some f)) (tick-Lifts dt u h)
          (suc k) n (omega arith) v none_yet t)

  -- An idle client with the invariant, a uuid of 32 bits and no marks of fragments requests with
  -- no bytes, and a listening access point with the invariant holds a packet of more than 245
  -- bytes whose destination is that uuid; its radio was last told to listen on the request
  -- channel. The clocks of both are 32-bit words. Each handles what it hears of the other, on the
  -- address and the channel that it listens to and over a radio that delivers, in calls of
  -- winot_tick, a frame for each, that are at most 20 ms apart. The access point's call that
  -- handles the request answers it and sends the packet at once, and k fragments are on the air
  -- before the client's call that handles the answer has turned to the data channel. All calls
  -- return, and the access point communicates and has no packet left. When k is zero the client
  -- then has a new packet of the same length with the same bytes and no marks; otherwise the
  -- packet is lost: the client communicates still, without a packet. In both cases it has its
  -- role, its uuid and the invariant.
  pub download-Downloaded :
      (dt k : ℕ) (c a : Node)
      → Inv c
      → c.uuid < 2 ^ 32
      → c.role ≡ client
      → c.state ≡ idle
      → c.tick < 2 ^ 32
      → c.fragments_received ≡ 0
      → Inv a
      → a.role ≡ ap
      → a.state ≡ listening
      → a.tick < 2 ^ 32
      → fragment_size < a.data_len
      → dest_uuid a.data_buf ≡ c.uuid
      → tuned a.calls ≡ some (ap_access_address, ap_channel)
      → dt ≤ response_window_ms
      → Ensures (Downloaded c.uuid k a.data_buf a.data_len) (download deliver dt k c a)
  download-Downloaded dt k c a ci cu cr cs ct none_yet ai ar al now big for aired soon =
      let wanted : ap_needs_datachannel c.uuid a ≡ true = ground arith in
      Ensures->>= (Polling c) (Downloaded c.uuid k a.data_buf a.data_len) _ _
        (request-Polling c ci.sizes cs)
        λ c₁ q.
          Ensures->>= (Responded c.uuid a) (Downloaded c.uuid k a.data_buf a.data_len) _ _
            (ticked_one deliver dt ap_access_address ap_channel c c₁ a (Responded c.uuid a)
              (bare 0 6 0 c.uuid) aired q.air
              (tick-Responded dt c.uuid (deliver (bare 0 6 0 c.uuid)) a ar for (omega arith) now
                soon
                (process_rx-Assigned deliver ok 0 6 c.uuid a ai.sizes cu ar al (rw wanted refl)
                  (rw wanted (ground arith)))))
            λ a₁ g. answered c₁ a₁ q g
    where
      answered :
          (c₁ a₁ : Node)
          → Polling c c₁
          → Responded c.uuid a a₁
          → Ensures (Downloaded c.uuid k a.data_buf a.data_len) (do
            c₂ ← ticked deliver dt a a₁ c₁
            c₃ ← tick_each dt (map deliver (drop k (heard (tuned c₂.calls) a.calls a₁.calls))) c₂
            some (c₃, a₁))
      answered c₁ a₁ q g =
          let place = g.is_place in
          Ensures->>=
            (λ m.
              Ready m
              × Timed c.uuid m
              × (m.fragments_received ≡ c₁.fragments_received)
              × (tuned m.calls ≡ some (c.uuid, active_channel a₁)))
            (Downloaded c.uuid k a.data_buf a.data_len) _ _
            (ticked_one deliver dt c.uuid ap_channel a a₁ c₁ _ (bare 0 0 (active_channel a₁) a.uuid)
              q.listens g.answer
              (tick-Awaits dt c.uuid (active_channel a₁)
                (deliver (bare 0 0 (active_channel a₁) a.uuid)) c₁ (q.role_kept ∙ cr) q.uuid_kept
                (rw q.tick_kept ct) soon
                (process_rx-Awaits deliver ok 0 (active_channel a₁) a.uuid c₁ (ground arith) q.sizes
                  (q.role_kept ∙ cr) q.asked q.no_packet)))
            λ c₂ w.
              rw
                (heard_lem c.uuid (active_channel a₁) a a₁ c₂ (frames a.data_buf a.data_len) w.3
                  g.air)
                (Ensures->>= (λ m. Outcome k a.data_buf a.data_len m × Timed c.uuid m)
                  (Downloaded c.uuid k a.data_buf a.data_len) _ _
                  (from dt c.uuid k a.data_buf a.data_len c₂ soon (omega arith)
                    (omega (arith, ai.sizes.buf_size, ai.sizes.len_fits)) ai.sizes.len_fits w.0 w.1
                    (w.2 ∙ q.marks_kept ∙ none_yet))
                  λ c₃ o. record {
                    owned = o.1.0;
                    outcome = o.0;
                    given_away = g.given_away;
                    on_channel = g.on_channel;
                  })
