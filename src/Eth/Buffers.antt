-- ===== src/Eth/Buffers.antt =====
-- The driver's buffers: each packet that is polled goes back exactly once, whatever sfhip does with it.
use ch32fun_wi_not_ap.Prelude.{
  true, false, inl, inr, ℕ, [], some, none, refl, ◌∷◌, List, Option, length, suc, ◌≡◌, ◌+◌, Bool,
  ◌≤◌, ◌<◌, Ensures, Ensures->>=, ltb, arith, set, take, drop, cong, ◌∙◌, Bool-cases, sym, ◌&&◌,
  leb, if◌then◌else◌, ◌%◌, ◌==◌,
}
use ch32fun_wi_not_ap.Eth.{
  clock_part, loop_round, from_eth, eth_scratch, rx_part, eth_send, eth_release, eth_poll_link,
  EthPoint, EthCall, eth_memory, eth_rx_buf_size, eth_hooks, EthBuffer, eth_write, eth_event,
  eth_close, eth_send_packet, rx_memory, put_rx, http_response, release_rx,
}
use ch32fun_wi_not_ap.Sfhip.Polite.{Keeps, IsPolite, run-Ensures}
use ch32fun_wi_not_ap.Sfhip.{mtu, Stack}
use ch32fun_wi_not_ap.Http.{socket_closed, tcp_sockets}
use ch32fun_wi_not_ap.Memory.Laws.{slice-runs, write_at-size}
use ch32fun_wi_not_ap.Eth.Server.{Honest, eth_tcp_event-Honest}
use ch32fun_wi_not_ap.Clock.{is_due, count_ms}

-- How many buffers were given back.
unfoldable pub releases : List EthCall → ℕ
releases [] = 0
releases (eth_release ∷ calls) = suc (releases calls)
releases (eth_send bytes ∷ calls) = releases calls
releases (eth_poll_link ∷ calls) = releases calls

-- The buffers have their sizes, and `n` were given back.
pub record Holds (n : ℕ) (w : EthPoint) : Type 0 where
  pub scratch_size : length w.scratch ≡ mtu
  pub given_back : releases w.calls ≡ n

pub record Ready (b : EthBuffer) (n : ℕ) (w : EthPoint) : Type 0 where
  pub holds : Holds n w
  pub has_memory : length (eth_memory b w) ≡ mtu

put_rx-size :
    (off : ℕ) (bytes : List ℕ) (rx : Option (List ℕ × ℕ))
    → off + length bytes ≤ mtu
    → length (rx_memory rx) ≡ mtu
    → Ensures (λ r. length (rx_memory r) ≡ mtu) (put_rx off bytes rx)
put_rx-size off bytes none h e = absurd (omega arith)
put_rx-size off bytes (some (buf, len)) h e =
    Ensures->>= (λ b. length b ≡ mtu) (λ r. length (rx_memory r) ≡ mtu) _ _
      (write_at-size eth_rx_buf_size buf off bytes e h) λ b z. z

eth_write-Ready :
    (b : EthBuffer) (n off : ℕ) (bytes : List ℕ) (w : EthPoint)
    → off + length bytes ≤ mtu
    → Ready b n w
    → Ensures (Ready b n) (eth_write b off bytes w)
unfolding eth_write eth_memory
eth_write-Ready from_eth n off bytes w h v =
    Ensures->>= (λ r. length (rx_memory r) ≡ mtu) (Ready from_eth n) _ _
      (put_rx-size off bytes w.rx h v.has_memory)
      λ r z. record {
        holds = record { scratch_size = v.holds.scratch_size; given_back = v.holds.given_back };
        has_memory = z;
      }
eth_write-Ready eth_scratch n off bytes w h v =
    Ensures->>= (λ b. length b ≡ mtu) (Ready eth_scratch n) _ _
      (write_at-size mtu w.scratch off bytes v.has_memory h)
      λ b z. record {
        holds = record { scratch_size = z; given_back = v.holds.given_back };
        has_memory = z;
      }

-- What an event and a closed socket leave alone.
same_memory :
    (b : EthBuffer) (n : ℕ) (sent : List Bool) (w : EthPoint)
    → Ready b n w
    → Ready b n (record w { response_sent = sent })
unfolding eth_memory
same_memory from_eth n sent w v = record {
  holds = record { scratch_size = v.holds.scratch_size; given_back = v.holds.given_back };
  has_memory = v.has_memory;
}
same_memory eth_scratch n sent w v = record {
  holds = record { scratch_size = v.holds.scratch_size; given_back = v.holds.given_back };
  has_memory = v.has_memory;
}

sent-Ready :
    (b : EthBuffer) (n : ℕ) (bytes : List ℕ) (w : EthPoint)
    → Ready b n w
    → Ready b n (record w { calls = eth_send bytes ∷ w.calls })
unfolding eth_memory releases
sent-Ready from_eth n bytes w v = record {
  holds = record { scratch_size = v.holds.scratch_size; given_back = v.holds.given_back };
  has_memory = v.has_memory;
}
sent-Ready eth_scratch n bytes w v = record {
  holds = record { scratch_size = v.holds.scratch_size; given_back = v.holds.given_back };
  has_memory = v.has_memory;
}

eth_event-Ready :
    (b : EthBuffer) (n sockno arrived room acked : ℕ) (w : EthPoint)
    → sockno < tcp_sockets
    → Ready b n w
    → Ensures (λ r. (length r.1 ≤ room) × Ready b n r.2) (eth_event sockno arrived room acked w)
unfolding eth_event
eth_event-Ready b n sockno arrived room acked w s v =
    Ensures->>= (Honest http_response room) (λ r. (length r.1 ≤ room) × Ready b n r.2) _ _
      (eth_tcp_event-Honest sockno arrived room acked w.response_sent s)
      λ e h. (h.room, same_memory b n e.sent w v)

eth_close-Ready :
    (b : EthBuffer) (n sockno : ℕ) (w : EthPoint)
    → sockno < tcp_sockets
    → Ready b n w
    → Ensures (Ready b n) (eth_close sockno w)
unfolding eth_close socket_closed
eth_close-Ready b n sockno w s v =
    let inside : ltb sockno tcp_sockets ≡ true = ground arith in
    rw inside (same_memory b n (set w.response_sent sockno false) w v)

given : (w : EthPoint) (n : ℕ) → Holds n w → Holds (suc n) (release_rx w)
unfolding releases
given w n v = record { scratch_size = v.scratch_size; given_back = cong suc v.given_back }

link_polled :
    (b : Bool) (n : ℕ) (w : EthPoint)
    → Holds n w
    → Holds n (if b then record w { calls = eth_poll_link ∷ w.calls } else w)
unfolding releases
link_polled true n w v = record { scratch_size = v.scratch_size; given_back = v.given_back }
link_polled false n w v = v

module _ (sends_eth : List ℕ → Option ℕ) where
  eth_send_packet-Ready :
      (b : EthBuffer) (n len : ℕ) (w : EthPoint)
      → len ≤ mtu
      → Ready b n w
      → Ensures (λ r. Ready b n r.1) (eth_send_packet sends_eth b len w)
  unfolding eth_send_packet
  eth_send_packet-Ready b n len w h v =
      rw (slice-runs (eth_memory b w) 0 len (omega (arith, v.has_memory)))
        (sent-Ready b n (take len (drop 0 (eth_memory b w))) w v)

  hooks-Keeps : (b : EthBuffer) (n : ℕ) → Keeps (eth_hooks sends_eth b) (Ready b n)
  hooks-Keeps b n = record {
    write_keeps = eth_write-Ready b n;
    send_keeps = eth_send_packet-Ready b n;
    lease_keeps = λ address w v. v;
    event_keeps = eth_event-Ready b n;
    close_keeps = eth_close-Ready b n;
  }

  module _ (s : Stack) where
    -- The packet in a buffer of the driver's size.
    abbrev pub Sized : Option (List ℕ × ℕ) → Type 0
    Sized none = Unit {0}
    Sized (some (buf, len)) = length buf ≡ eth_rx_buf_size

    abbrev pub polled : Option (List ℕ × ℕ) → ℕ
    polled none = 0
    polled (some p) = 1

    rx_part-Holds :
        (n : ℕ) (rx : Option (List ℕ × ℕ)) (hip : s.Hip) (w : EthPoint)
        → IsPolite s
        → Sized rx
        → Holds n w
        → Ensures
            (λ r. Holds (polled rx + n) r.1 × (r.1.rx ≡ none))
            (rx_part sends_eth s hip (record w { rx = rx }))
    unfolding rx_part eth_memory
    rx_part-Holds n none hip w polite z v = (
      let e : 0 + n ≡ n = omega arith in
          record { scratch_size = v.scratch_size; given_back = v.given_back ∙ sym e },
      refl,
    )
    rx_part-Holds n (some (buf, len)) hip w polite z v =
        let e : 1 + n ≡ suc n = omega arith in
        elim (Bool-cases (ltb 0 len && leb len mtu)) [
          | inr bad ↦
              let w' = record w { rx = some (buf, len) } in
              rw (bad, e)
                (
                  given w' n (record { scratch_size = v.scratch_size; given_back = v.given_back }),
                  refl,
                )
          | inl good ↦
              let w' = record w { rx = some (buf, len) } in
              rw (good, e)
                (Ensures->>= (λ r. Ready from_eth n r.1) _ _ _
                  (run-Ensures (eth_hooks sends_eth from_eth) (Ready from_eth n)
                    (hooks-Keeps from_eth n) (s.accept_packet hip len) w'
                    (polite.accept_polite hip len (ground arith))
                    (record {
                      holds = record { scratch_size = v.scratch_size; given_back = v.given_back };
                      has_memory = z;
                    }))
                  λ r ready. (given r.1 n ready.holds, refl))
        ]

    clock_part-Holds :
        (n ticks_per_ms now : ℕ) (hip : s.Hip) (w : EthPoint)
        → IsPolite s
        → Holds n w
        → Ensures (λ r. Holds n r.1) (clock_part sends_eth s ticks_per_ms now hip w)
    unfolding clock_part eth_memory
    clock_part-Holds n t now hip w polite v = elim (Bool-cases (is_due now w.clock)) [
      | inr early ↦ rw early v
      | inl due ↦ rw due (
          Ensures->>= (λ r. Ready eth_scratch n r.1) _ _ _
            (run-Ensures (eth_hooks sends_eth eth_scratch) (Ready eth_scratch n)
              (hooks-Keeps eth_scratch n) (s.ticks hip 1) (record w { clock = count_ms t w.clock })
              (polite.ticks_polite hip 1)
              (record {
                holds = record { scratch_size = v.scratch_size; given_back = v.given_back };
                has_memory = v.scratch_size;
              }))
            λ r ready. link_polled (r.1.clock.ms_cnt % 100 == 0) n r.1 ready.holds)
    ]

    -- For a stack that writes and sends within the buffer that it is given and names only sockets
    -- there are, and a driver whose buffers have their size, a round of the Ethernet access
    -- point's loop returns, gives the driver's buffer back exactly once if a packet was polled, of
    -- whatever length, and not at all otherwise, and keeps the size of the scratch buffer.
    pub loop_round-Holds :
        (n ticks_per_ms now : ℕ) (rx : Option (List ℕ × ℕ)) (hip : s.Hip) (w : EthPoint)
        → IsPolite s
        → Sized rx
        → Holds n w
        → Ensures
            (λ r. Holds (polled rx + n) r.1)
            (loop_round sends_eth s ticks_per_ms now rx hip w)
    unfolding loop_round
    loop_round-Holds n t now rx hip w polite z v =
        Ensures->>= (λ r. Holds (polled rx + n) r.1 × (r.1.rx ≡ none))
          (λ r. Holds (polled rx + n) r.1) _ _ (rx_part-Holds n rx hip w polite z v)
          λ r h. clock_part-Holds (polled rx + n) t now r.0 r.1 polite h.0
