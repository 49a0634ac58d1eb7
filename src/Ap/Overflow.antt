-- ===== src/Ap/Overflow.antt =====
-- The one way in which a round of the access point's loop leaves an array: the answer to a request.
use ch32fun_wi_not_ap.Prelude.{
  ◌⊎◌, Ensures, Ensures->>=, Ensures-some, Option-cases, Bool-cases, List, length, ◌+◌, ◌≤◌, refl,
  some, none, true, inl, inr, ℕ, Option, ◌≡◌,
}
use ch32fun_wi_not_ap.Usb.Out.{Driver}
use ch32fun_wi_not_ap.Sfhip.{Stack, run}
use ch32fun_wi_not_ap.Ap.{
  loop_round, http_response_header, clock_part, AccessPoint, usb_part, ap_hooks, ap_scratch,
  winot_part,
}
use ch32fun_wi_not_ap.Memory.{Frame}
use ch32fun_wi_not_ap.Clock.{is_due, count_ms}
use ch32fun_wi_not_ap.Receive.Safety.{rx_overflows}
use ch32fun_wi_not_ap.System.Owned.{Owned, tick-Owned}
use ch32fun_wi_not_ap.Node.{ap}
use ch32fun_wi_not_ap.Tick.Safety.{tick-faults, Harmless}
use ch32fun_wi_not_ap.Http.{response_buf_size}
use ch32fun_wi_not_ap.Sfhip.Polite.{IsPolite}
use ch32fun_wi_not_ap.Ap.Keeping.{Intact, with_node}
use ch32fun_wi_not_ap.Ap.Loop.{runs-Intact, usb_part-Intact, winot_part-Intact}

module _ (packet_size : ℕ) (answers : Driver) (s : Stack) where
  -- The part of the loop for the clock comes to a frame whose answer does not fit.
  pub data ClockOverflows (t now : ℕ) (hip : s.Hip) (w : AccessPoint) : Option Frame → Type 0 where
    at_tick :
        (f : Frame) (r : s.Hip × AccessPoint)
        → is_due now w.clock ≡ true
        → run
            (ap_hooks packet_size answers ap_scratch)
            (s.ticks hip 1)
            (record w { clock = count_ms t w.clock })
          ≡ some r
        → rx_overflows f r.1.node ≡ true
        → ClockOverflows t now hip w (some f)

  -- A round comes to it, behind its parts for packets.
  pub data RoundOverflows (t now : ℕ) (rx : Option Frame) (hip : s.Hip) (w : AccessPoint)
      : Type 0 where
    in_round :
        (r q : s.Hip × AccessPoint)
        → usb_part packet_size answers s hip w ≡ some r
        → winot_part packet_size answers s r.0 r.1 ≡ some q
        → ClockOverflows t now q.0 q.1 rx
        → RoundOverflows t now rx hip w

  clock_part-faults :
      (u t now : ℕ) (rx : Option Frame) (hip : s.Hip) (w : AccessPoint)
      → ((r : s.Hip × AccessPoint)
          → run
              (ap_hooks packet_size answers ap_scratch)
              (s.ticks hip 1)
              (record w { clock = count_ms t w.clock })
            ≡ some r
          → Owned ap u r.1.node)
      → ClockOverflows t now hip w rx
      → clock_part packet_size answers s t now rx hip w ≡ none
  unfolding clock_part
  clock_part-faults u t now rx hip w own (at_tick f r due e over) =
      rw (due, e, tick-faults 1 f r.1.node (own r e).inv over) refl

module _ (u : ℕ) (name : List ℕ)
    (short : length http_response_header + length name + 2 ≤ response_buf_size) (packet_size : ℕ)
    (answers : Driver) (s : Stack) (polite : IsPolite s) where
  -- The stack's millisecond, behind which the frame is handled.
  ticked-Intact :
      (t : ℕ) (hip : s.Hip) (w : AccessPoint)
      → Intact u name w
      → Ensures
          (λ r. Intact u name r.1)
          (run
            (ap_hooks packet_size answers ap_scratch)
            (s.ticks hip 1)
            (record w { clock = count_ms t w.clock }))
  ticked-Intact t hip w v =
      runs-Intact u name short packet_size answers s polite ap_scratch (s.ticks hip 1)
        (record w { clock = count_ms t w.clock }) (polite.ticks_polite hip 1)
        (record {
          owned = v.owned;
          usb_size = v.usb_size;
          usb_fits = v.usb_fits;
          scratch_size = v.scratch_size;
          named = v.named;
        })

  after_tick :
      (t now : ℕ) (rx : Option Frame) (hip : s.Hip) (w : AccessPoint) (r : s.Hip × AccessPoint)
      → is_due now w.clock ≡ true
      → run
          (ap_hooks packet_size answers ap_scratch)
          (s.ticks hip 1)
          (record w { clock = count_ms t w.clock })
        ≡ some r
      → Intact u name r.1
      → Harmless rx r.1.node
      → Ensures (λ q. Intact u name q.1) (clock_part packet_size answers s t now rx hip w)
  unfolding clock_part
  after_tick t now rx hip w r due e v h =
      rw (due, e)
        (Ensures->>= (Owned ap u) (λ q. Intact u name q.1) _ _ (tick-Owned 1 rx r.1.node v.owned h)
          λ n o. with_node u name n r.1 v o)

  clock_part-cases :
      (t now : ℕ) (rx : Option Frame) (hip : s.Hip) (w : AccessPoint)
      → Intact u name w
      → Ensures (λ q. Intact u name q.1) (clock_part packet_size answers s t now rx hip w)
        ⊎ ClockOverflows packet_size answers s t now hip w rx
  unfolding clock_part
  clock_part-cases t now rx hip w v = elim (Bool-cases (is_due now w.clock)) [
    | inr early ↦ inl (rw early v)
    | inl due ↦
        elim (Option-cases (
          run (ap_hooks packet_size answers ap_scratch) (s.ticks hip 1)
            (record w { clock = count_ms t w.clock }))) [
              | inl e ↦ absurd (rw e at (ticked-Intact t hip w v))
              | inr (r, e) ↦
                  answered rx r due e
                    (Ensures-some (λ q. Intact u name q.1) _ r (ticked-Intact t hip w v) e)
            ]
  ]
    where
      answered :
          (rx : Option Frame) (r : s.Hip × AccessPoint)
          → is_due now w.clock ≡ true
          → run
              (ap_hooks packet_size answers ap_scratch)
              (s.ticks hip 1)
              (record w { clock = count_ms t w.clock })
            ≡ some r
          → Intact u name r.1
          → Ensures (λ q. Intact u name q.1) (clock_part packet_size answers s t now rx hip w)
            ⊎ ClockOverflows packet_size answers s t now hip w rx
      answered none r due e v' = inl (after_tick t now none hip w r due e v' tt)
      answered (some f) r due e v' = elim (Bool-cases (rx_overflows f r.1.node)) [
        | inl over ↦ inr (at_tick f r due e over)
        | inr fine ↦ inl (after_tick t now (some f) hip w r due e v' fine)
      ]

  -- A round goes through, or comes to an answer that does not fit.
  pub loop_round-cases :
      (t now : ℕ) (rx : Option Frame) (hip : s.Hip) (w : AccessPoint)
      → Intact u name w
      → Ensures (λ q. Intact u name q.1) (loop_round packet_size answers s t now rx hip w)
        ⊎ RoundOverflows packet_size answers s t now rx hip w
  unfolding loop_round
  loop_round-cases t now rx hip w v =
      let usb = usb_part-Intact u name short packet_size answers s polite hip w v in
      elim (Option-cases (usb_part packet_size answers s hip w)) [
        | inl e ↦ absurd (rw e at usb)
        | inr (r, e) ↦
            let v₁ = Ensures-some (λ q. Intact u name q.1) _ r usb e in
            let winot = winot_part-Intact u name short packet_size answers s polite r.0 r.1 v₁ in
            elim (Option-cases (winot_part packet_size answers s r.0 r.1)) [
              | inl e' ↦ absurd (rw e' at winot)
              | inr (q, e') ↦
                  elim (clock_part-cases t now rx q.0 q.1
                    (Ensures-some (λ q. Intact u name q.1) _ q winot e')) [
                      | inl fine ↦ inl (rw (e, e') fine)
                      | inr over ↦ inr (in_round r q e e' over)
                    ]
            ]
      ]

  pub loop_round-faults :
      (t now : ℕ) (rx : Option Frame) (hip : s.Hip) (w : AccessPoint)
      → Intact u name w
      → RoundOverflows packet_size answers s t now rx hip w
      → loop_round packet_size answers s t now rx hip w ≡ none
  unfolding loop_round
  loop_round-faults t now rx hip w v (in_round r q e e' over) =
      let v₁ =
        Ensures-some (λ q. Intact u name q.1) _ r
          (usb_part-Intact u name short packet_size answers s polite hip w v) e in
      let v₂ =
        Ensures-some (λ q. Intact u name q.1) _ q
          (winot_part-Intact u name short packet_size answers s polite r.0 r.1 v₁) e' in
      rw
        (
          e,
          e',
          clock_part-faults packet_size answers s u t now rx q.0 q.1
              (λ k g.
                (Ensures-some (λ q. Intact u name q.1) _ k (ticked-Intact t q.0 q.1 v₂) g).owned)
              over,
        )
        refl
