-- ===== src/Client/Loop.antt =====
-- The client's main loop: every round returns, and keeps what the hooks keep.
use ch32fun_wi_not_ap.Prelude.{
  [], ◌∷◌, refl, drop, ℕ, List, Ensures, length, ◌≡◌, ◌≤◌, ◌++◌, ◌<◌, Ensures->>=, ◌-◌, arith, take,
  ◌+◌, Bool-cases, Option, not, false, ◌&&◌, inl, inr, if◌then◌else◌, ◌%◌, some, ◌^◌, ltb, leb,
}
use ch32fun_wi_not_ap.Client.{
  announce_on, announce_up, http_response_header, Client, task, tasks, task_if_due, ClientBuffer,
  accept, packet_part, packet_taken, clock_part, received, client_hooks, client_scratch, loop_round,
}
use ch32fun_wi_not_ap.System.Owned.{
  Owned, sidechannel_tx-Owned, pause-Owned, request-Owned, tick-Owned, client-Harmless,
}
use ch32fun_wi_not_ap.Memory.{word_bytes, Frame}
use ch32fun_wi_not_ap.Node.{Node, client, emit, is_newrx}
use ch32fun_wi_not_ap.Http.Names.{hex_text, put_hex_lem}
use ch32fun_wi_not_ap.Http.{codes, response_buf_size}
use ch32fun_wi_not_ap.Memory.Laws.{write_at-size, slice-runs}
use ch32fun_wi_not_ap.Radio.{delay_us}
use ch32fun_wi_not_ap.Clock.{
  Task, task_10ms, task_100ms, is_run, task_1s, task_10s, is_due, task_100s, count_ms,
}
use ch32fun_wi_not_ap.Sfhip.{Stack, Talk, mtu, run}
use ch32fun_wi_not_ap.Client.Keeping.{Fine, client_hooks-Keeps}
use ch32fun_wi_not_ap.Sfhip.Polite.{IsPolite, Polite, run-Ensures}
use ch32fun_wi_not_ap.Request.{outside, poll_packet, release_packet}
use ch32fun_wi_not_ap.System.Released.{release_packet-gone}

-- A message with room for the server's address, and one that comes out with its length.
announce_on-Owned :
    (u channel : ℕ) (server msg : List ℕ) (n : Node)
    → length server ≤ length msg
    → 0 < length msg
    → Owned client u n
    → Ensures
        (λ r. (length r.0 ≡ length msg) × Owned client u r.2)
        (announce_on channel server msg n)
unfolding announce_on drop
announce_on-Owned u channel server msg n h k o =
    Ensures->>= (λ a. length a ≡ length msg) (λ r. (length r.0 ≡ length msg) × Owned client u r.2) _
      _ (write_at-size (length msg) msg 0 server refl (omega arith))
      λ addressed z. rw (slice-runs addressed 0 (length msg - 1) (omega arith)) (
        Ensures->>= (λ a. Owned client u a.1) (λ r. (length r.0 ≡ length msg) × Owned client u r.2)
          _ _ (sidechannel_tx-Owned channel (take (length msg - 1) addressed) n o) λ a o'. (z, o'))

announce_up-Owned :
    (u : ℕ) (n : Node) → Owned client u n → Ensures (λ r. Owned client u r.1) (announce_up n)
unfolding announce_up word_bytes hex_text
announce_up-Owned u n o =
    let front = codes "XXXXch32fun/Hi from " in
    let tail = codes "!" ++ (0 ∷ []) in
    let msg = front ++ (hex_text (word_bytes n.uuid) ++ tail) in
    rw (put_hex_lem (word_bytes n.uuid) front (codes "UUUUUUUU") tail refl) (
      Ensures->>= (λ r. (length r.0 ≡ length msg) × Owned client u r.2) (λ r. Owned client u r.1) _
        _ (announce_on-Owned u 1 (192 ∷ 168 ∷ 1 ∷ 12 ∷ []) msg n (omega arith) (omega arith) o)
        λ r h.
          Ensures->>= (λ r'. (length r'.0 ≡ length r.0) × Owned client u r'.2)
            (λ r'. Owned client u r'.1) _ _
            (announce_on-Owned u 2 (159 ∷ 203 ∷ 148 ∷ 75 ∷ []) r.0 (emit (delay_us 500) r.2)
              (omega (arith, h.0)) (omega (arith, h.0)) (pause-Owned (delay_us 500) r.2 h.1))
            λ r' h'. h'.1)

module _ (u : ℕ) (name : List ℕ)
    (short : length http_response_header + length name + 2 ≤ response_buf_size) where
  -- A node that the firmware's own variables are put around again.
  with_node :
      (n : Node) (w : Client)
      → Fine u name w
      → Owned client u n
      → Fine u name (record w { node = n })
  with_node n w v o = record { owned = o; scratch_size = v.scratch_size; named = v.named }

  task-Fine : (t : Task) (w : Client) → Fine u name w → Ensures (Fine u name) (task t w)
  unfolding task
  task-Fine task_100ms w v =
      Ensures->>= (Owned client u) (Fine u name) _ _ (request-Owned (outside []) w.node v.owned)
        λ n o. with_node n w v o
  task-Fine task_1s w v = elim (Bool-cases (not w.has_announced && w.has_ip)) [
    | inr other ↦ rw other v
    | inl due ↦ rw due (
        Ensures->>= (λ r. Owned client u r.1) (Fine u name) _ _ (announce_up-Owned u w.node v.owned)
          λ r o. record { owned = o; scratch_size = v.scratch_size; named = v.named })
  ]
  task-Fine task_10ms w v = v
  task-Fine task_10s w v = v
  task-Fine task_100s w v = v

  task_if_due-Fine :
      (t : Task) (w : Client) → Fine u name w → Ensures (Fine u name) (task_if_due t w)
  task_if_due-Fine t w v = elim (Bool-cases (is_run t w.clock.ms_cnt)) [
    | inl due ↦ rw due (task-Fine t w v)
    | inr early ↦ rw early v
  ]

  tasks-Fine : (w : Client) → Fine u name w → Ensures (Fine u name) (tasks w)
  unfolding tasks
  tasks-Fine w v =
      Ensures->>= (Fine u name) (Fine u name) _ _ (task_if_due-Fine task_10ms w v) λ w₁ v₁.
        Ensures->>= (Fine u name) (Fine u name) _ _ (task_if_due-Fine task_100ms w₁ v₁) λ w₂ v₂.
          Ensures->>= (Fine u name) (Fine u name) _ _ (task_if_due-Fine task_1s w₂ v₂) λ w₃ v₃.
            Ensures->>= (Fine u name) (Fine u name) _ _ (task_if_due-Fine task_10s w₃ v₃)
              λ w₄ v₄. task_if_due-Fine task_100s w₄ v₄

  module _ (s : Stack) (polite : IsPolite s) where
    runs-Fine :
        (b : ClientBuffer) (t : Talk s.Hip) (w : Client)
        → Polite t
        → Fine u name w
        → Ensures (λ r. Fine u name r.1) (run (client_hooks b) t w)
    runs-Fine b t w p v =
        run-Ensures (client_hooks b) (Fine u name) (client_hooks-Keeps u name short b) t w p v

    accept-Fine :
        (pkt_len : ℕ) (hip : s.Hip) (w : Client)
        → pkt_len ≤ mtu
        → Fine u name w
        → Ensures
            (λ r. Fine u name r.1 × (is_newrx r.1.node.state ≡ false))
            (accept s pkt_len hip w)
    unfolding accept
    accept-Fine pkt_len hip w h v =
        Ensures->>= (λ r. Fine u name r.1) _ _ _
          (runs-Fine received (s.accept_packet hip pkt_len) w (polite.accept_polite hip pkt_len h)
            v)
          λ r v'.
            Ensures->>= (λ m. Owned client u m × (is_newrx m.state ≡ false)) _
              (if is_newrx r.1.node.state then release_packet r.1.node else some r.1.node) _
              (elim (Bool-cases (is_newrx r.1.node.state)) [
                | inl full ↦ rw full (release_packet-gone client u r.1.node v'.owned)
                | inr gone ↦ rw gone (v'.owned, gone)
              ])
              λ n o. (with_node n r.1 v' o.0, o.1)

    -- After the part of the client's loop for packets there is no new packet left, whether sfhip
    -- took it, answered it or was not given it; it returns, and keeps the role, the uuid and the
    -- invariant of the node, the sizes of the arrays and the name, for a stack that writes and
    -- sends within its buffer and names only sockets there are.
    pub packet_part-Fine :
        (hip : s.Hip) (w : Client)
        → Fine u name w
        → Ensures (λ r. Fine u name r.1 × (is_newrx r.1.node.state ≡ false)) (packet_part s hip w)
    unfolding packet_part packet_taken poll_packet
    packet_part-Fine hip w v = elim (Bool-cases (is_newrx w.node.state)) [
      | inr without ↦ rw without (v, without)
      | inl full ↦
          let len = w.node.data_len % 2 ^ 16 in
          elim (Bool-cases (ltb 0 len && leb len mtu)) [
            | inl good ↦ rw (full, good) (accept-Fine len hip w (ground arith) v)
            | inr bad ↦
                rw (full, bad)
                  (Ensures->>= (λ m. Owned client u m × (is_newrx m.state ≡ false)) _ _ _
                    (release_packet-gone client u w.node v.owned) λ n o. (with_node n w v o.0, o.1))
          ]
    ]

    clock_part-Fine :
        (ticks_per_ms now : ℕ) (rx : Option Frame) (hip : s.Hip) (w : Client)
        → Fine u name w
        → Ensures (λ r. Fine u name r.1) (clock_part s ticks_per_ms now rx hip w)
    unfolding clock_part
    clock_part-Fine ticks_per_ms now rx hip w v = elim (Bool-cases (is_due now w.clock)) [
      | inr early ↦ rw early v
      | inl due ↦ rw due (
          Ensures->>= (λ r. Fine u name r.1) (λ r. Fine u name r.1) _ _
            (runs-Fine client_scratch (s.ticks hip 1)
              (record w { clock = count_ms ticks_per_ms w.clock }) (polite.ticks_polite hip 1)
              (record { owned = v.owned; scratch_size = v.scratch_size; named = v.named }))
            λ r v₁.
              Ensures->>= (Owned client u) (λ r. Fine u name r.1) _ _
                (tick-Owned 1 rx r.1.node v₁.owned (client-Harmless u rx r.1.node v₁.owned))
                λ n o.
                  Ensures->>= (Fine u name) (λ r. Fine u name r.1) _ _
                    (tasks-Fine (record r.1 { node = n }) (with_node n r.1 v₁ o)) λ w₂ v₂. v₂)
    ]

    pub loop_round-Fine :
        (ticks_per_ms now : ℕ) (rx : Option Frame) (hip : s.Hip) (w : Client)
        → Fine u name w
        → Ensures (λ r. Fine u name r.1) (loop_round s ticks_per_ms now rx hip w)
    unfolding loop_round
    loop_round-Fine ticks_per_ms now rx hip w v =
        Ensures->>= (λ r. Fine u name r.1 × (is_newrx r.1.node.state ≡ false))
          (λ r. Fine u name r.1) _ _ (packet_part-Fine hip w v)
          λ r h. clock_part-Fine ticks_per_ms now rx r.0 r.1 h.0
