-- ===== src/Request/Turn.antt =====
-- A request and its response, each heard on the address and the channel that a node listens to.
use ch32fun_wi_not_ap.Prelude.{
  [], refl, some, ◌>>=◌, List, ℕ, Option, length, ◌≤◌, ◌<◌, ◌^◌, ◌≡◌, Ensures, ◌+◌, ◌%◌,
  Ensures->>=, Ensures-both, ◌∙◌, arith, length-take, take, ◌∷◌, ◌⊎◌, inl, sym, inr, take-length,
}
use ch32fun_wi_not_ap.Memory.{Frame, load_word}
use ch32fun_wi_not_ap.Node.{
  Node, idle, listening, fragment_size, ap, client, ap_access_address, ap_channel, dest_uuid, State,
  advance, Role,
}
use ch32fun_wi_not_ap.Receive.Arrival.{Got, channel_frame, word-arrives}
use ch32fun_wi_not_ap.Radio.Delivery.{Delivers}
use ch32fun_wi_not_ap.Request.{request, outside}
use ch32fun_wi_not_ap.System.Owned.{Owned, short-Owned}
use ch32fun_wi_not_ap.Node.Invariant.{Inv, Sizes, advance-Inv}
use ch32fun_wi_not_ap.Radio.Tuning.{tuned}
use ch32fun_wi_not_ap.Receive.Exchange.{waiting, Answered, process_rx-Answered, process_rx-Got}
use ch32fun_wi_not_ap.Request.Reaches.{request_frame, Requested, request-sends}
use ch32fun_wi_not_ap.Request.Calls.{request-Inv}
use ch32fun_wi_not_ap.Node.Destination.{dest_uuid-same, dest_uuid-take}
use ch32fun_wi_not_ap.Tick.Hears.{ticked, ticked_one, IsSettled, tick-IsSettled}

Got-IsSettled :
    (before : State) (bytes : List ℕ) (n : Node)
    → (before ≡ idle) ⊎ (before ≡ listening)
    → Got before bytes n
    → IsSettled n.state
Got-IsSettled before [] n (inl e) got = inr (inl (got ∙ e))
Got-IsSettled before [] n (inr e) got = inr (inr (got ∙ e))
Got-IsSettled before (b ∷ bytes) n h got = inl got.0

advance-Got :
    (dt : ℕ) (before : State) (bytes : List ℕ) (n : Node)
    → Got before bytes n
    → Got before bytes (advance dt n)
advance-Got dt before [] n got = got
advance-Got dt before (b ∷ bytes) n got = got

advance-Answered :
    (dt uuid : ℕ) (bytes : List ℕ) (n m : Node)
    → Answered uuid bytes n m
    → Answered uuid bytes n (advance dt m)
advance-Answered dt uuid bytes n m h = record {
  got = advance-Got dt listening bytes m h.got;
  response = h.response;
  aimed = h.aimed;
}

advance-Owned : {r : Role} {u : ℕ} (dt : ℕ) (n : Node) → Owned r u n → Owned r u (advance dt n)
advance-Owned dt n o = record { inv = advance-Inv dt n o.inv; role = o.role; uuid = o.uuid }

-- The client asks, the access point answers, and the client takes the answer; `dt` milliseconds pass in
-- each call that handles a frame.
abbrev pub turn : (List ℕ → Frame) → ℕ → List ℕ → Node → Node → Option (Node × Node)
turn deliver dt bytes c a = do
  c₁ ← request (outside bytes) c
  a₁ ← ticked deliver dt c c₁ a
  c₂ ← ticked deliver dt a a₁ c₁
  some (c₂, a₁)

-- A packet of its own length has the destination of its bytes.
pub same_dest :
    (bytes : List ℕ) (n : Node)
    → 6 ≤ length bytes
    → n.data_len ≡ length bytes
    → take n.data_len n.data_buf ≡ bytes
    → dest_uuid n.data_buf ≡ dest_uuid bytes
same_dest bytes n h len e =
    dest_uuid-same n.data_buf bytes (length bytes) h ((rw len at e) ∙ sym (take-length bytes))

-- A packet of a node, if there is one, is for the node with uuid `u`.
abbrev pub Addressed : ℕ → List ℕ → Node → Type 0
Addressed u [] n = Unit {0}
Addressed u (b ∷ bytes) n = dest_uuid n.data_buf ≡ u

Got-Addressed :
    (u : ℕ) (bytes : List ℕ) (n : Node)
    → (length bytes ≡ 0) ⊎ ((6 ≤ length bytes) × (dest_uuid bytes ≡ u))
    → Got idle bytes n
    → Addressed u bytes n
Got-Addressed u [] n h got = tt
Got-Addressed u (b ∷ bytes) n (inl e) got = absurd (omega arith)
Got-Addressed u (b ∷ bytes) n (inr (h, e)) got = same_dest (b ∷ bytes) n h got.1 got.2 ∙ e

-- The packet that waits at a node, if there is one, is for the node with uuid `u`.
abbrev pub WaitsFor : ℕ → Node → Type 0
WaitsFor u n = (n.data_len ≡ 0) ⊎ ((6 ≤ n.data_len) × (dest_uuid n.data_buf ≡ u))

waiting_for :
    (u : ℕ) (n : Node)
    → Sizes n
    → WaitsFor u n
    → (length (waiting n) ≡ 0) ⊎ ((6 ≤ length (waiting n)) × (dest_uuid (waiting n) ≡ u))
waiting_for u n z (inl e) = inl (omega (arith, length-take n.data_len n.data_buf))
waiting_for u n z (inr (h, e)) = inr (
  omega (arith, length-take n.data_len n.data_buf, z.len_fits, z.buf_size),
  dest_uuid-take n.data_buf n.data_len h ∙ e,
)

-- Each has the other's bytes as a new packet; no bytes leave the client idle, and the access point
-- listening.
pub record Swapped (to u : ℕ) (bytes answer : List ℕ) (r : Node × Node) : Type 0 where
  pub returned : Got idle answer r.0
  pub addressed : Addressed to answer r.0
  pub taken : Got listening bytes r.1
  pub owned : Owned ap u r.1

module _ (deliver : List ℕ → Frame) (ok : Delivers deliver) where
  -- An idle client with the invariant and a uuid of 32 bits requests with at most 245 bytes; a
  -- listening access point with the invariant, whose radio was last told to listen on the request
  -- channel, has a waiting packet of 6 to 245 bytes whose destination is that uuid, or none. Each
  -- handles what it hears of the other, on the address and the channel that it listens to and over
  -- a radio that delivers, in a call of winot_tick, however many milliseconds pass. The calls
  -- return; the access point then has the client's bytes as a new packet, or listens on when there
  -- are none, and still its role, uuid and the invariant, and the client has the access point's
  -- packet as a new one, with its own uuid as the destination, or is idle when none waited.
  pub turn-Swapped :
      (dt : ℕ) (bytes : List ℕ) (c a : Node)
      → length bytes ≤ fragment_size
      → Inv c
      → c.uuid < 2 ^ 32
      → c.role ≡ client
      → c.state ≡ idle
      → Inv a
      → a.role ≡ ap
      → a.state ≡ listening
      → a.data_len ≤ fragment_size
      → WaitsFor c.uuid a
      → tuned a.calls ≡ some (ap_access_address, ap_channel)
      → Ensures (Swapped c.uuid a.uuid bytes (waiting a)) (turn deliver dt bytes c a)
  turn-Swapped dt bytes c a short ci cu cr cs ai ar al h for aired =
      let counter = (length bytes + 6) % 2 ^ 8 in
      let f = deliver (request_frame c.uuid bytes) in
      Ensures->>= (λ c₁. Inv c₁ × Requested bytes c c₁) (Swapped c.uuid a.uuid bytes (waiting a)) _
        _
        (Ensures-both Inv (Requested bytes c) (request (outside bytes) c)
          (request-Inv (outside bytes) c ci) (request-sends bytes c ci.sizes cs short))
        λ c₁ p.
          Ensures->>= (λ a₁. Answered (load_word f 4) bytes a a₁ × Owned ap a.uuid a₁)
            (Swapped c.uuid a.uuid bytes (waiting a)) _ _
            (ticked_one deliver dt ap_access_address ap_channel c c₁ a
              (λ a₁. Answered (load_word f 4) bytes a a₁ × Owned ap a.uuid a₁)
              (request_frame c.uuid bytes) aired p.1.aimed
              (tick-IsSettled dt (λ a₁. Answered (load_word f 4) bytes a a₁ × Owned ap a.uuid a₁) f
                a (λ m q. Got-IsSettled listening bytes m (inr refl) q.0.got)
                (λ m q. (advance-Answered dt (load_word f 4) bytes a m q.0, advance-Owned dt m q.1))
                (Ensures-both (Answered (load_word f 4) bytes a) (Owned ap a.uuid) _
                  (process_rx-Answered deliver ok counter c.uuid bytes a ai.sizes ar al h short)
                  (short-Owned f a h (record { inv = ai; role = ar; uuid = refl })))))
            λ a₁ g.
              Ensures->>= (Got idle (waiting a)) (Swapped c.uuid a.uuid bytes (waiting a)) _ _
                (ticked_one deliver dt c.uuid ap_channel a a₁ c₁ (Got idle (waiting a))
                  (channel_frame 0 ap_channel a.uuid (waiting a)) p.1.listens
                  (rw (word-arrives deliver ok counter 0 c.uuid bytes cu) at g.0.aimed)
                  (tick-IsSettled dt (Got idle (waiting a))
                    (deliver (channel_frame 0 ap_channel a.uuid (waiting a))) c₁
                    (λ m q. Got-IsSettled idle (waiting a) m (inl refl) q)
                    (advance-Got dt idle (waiting a))
                    (process_rx-Got deliver ok 0 a.uuid (waiting a) c₁ p.0.sizes
                      (p.1.role_kept ∙ cr) p.1.asked
                      (omega (arith, length-take a.data_len a.data_buf)))))
                λ c₂ got. record {
                  returned = got;
                  addressed =
                      Got-Addressed c.uuid (waiting a) c₂ (waiting_for c.uuid a ai.sizes for) got;
                  taken = g.0.got;
                  owned = g.1;
                }
