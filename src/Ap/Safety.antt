-- ===== src/Ap/Safety.antt =====
-- The access point from its start on, with the interrupts that bring the host's packets.
use ch32fun_wi_not_ap.Prelude.{
  inl, inr, none, refl, Ensures-mono, some, ◌>>=◌, [], ◌∷◌, ℕ, List, Option, ◌≤◌, Ensures,
  Ensures->>=, ◌≡◌, ◌⊎◌, Option-cases, Ensures-some, ◌↔◌,
}
use ch32fun_wi_not_ap.Ap.{AccessPoint, boot, loop_round}
use ch32fun_wi_not_ap.Ap.Keeping.{Intact}
use ch32fun_wi_not_ap.Ap.Start.{name_of, name_fits, boot-Intact}
use ch32fun_wi_not_ap.Usb.{Usb, After, goes_on, bootloader, handle_data_out}
use ch32fun_wi_not_ap.Usb.Bounds.{Bounded, Modest, AfterBounded, handle_data_out-Bounded}
use ch32fun_wi_not_ap.Memory.{Frame}
use ch32fun_wi_not_ap.Usb.Out.{Driver}
use ch32fun_wi_not_ap.Sfhip.{Stack}
use ch32fun_wi_not_ap.Sfhip.Polite.{IsPolite}
use ch32fun_wi_not_ap.Ap.Overflow.{RoundOverflows, loop_round-cases, loop_round-faults}

-- An interrupt with the endpoint, the part and its length; a round of the loop with the clock and the frame.
pub data Event : Type 0 where
  part_came : ℕ → Frame → ℕ → Event
  round : ℕ → Option Frame → Event

abbrev pub Allowed : Event → Type 0
Allowed (part_came endp part len) = Modest part len
Allowed (round now rx) = Unit {0}

abbrev pub AllAllowed : List Event → Type 0
AllAllowed [] = Unit {0}
AllAllowed (e ∷ es) = Allowed e × AllAllowed es

-- The buffer after the interrupt. Where the device enters its boot loader and does not come back, the
-- model goes on with the buffer as it was.
abbrev pub left_by : After → Usb → Usb
left_by (goes_on m) old = m
left_by bootloader old = old

left_by-Bounded : (a : After) (old : Usb) → Bounded old → AfterBounded a → Bounded (left_by a old)
left_by-Bounded (goes_on m) old b h = h
left_by-Bounded bootloader old b h = b

with_usb :
    (rom : ℕ) (m : Usb) (w : AccessPoint)
    → Intact rom (name_of rom) w
    → Bounded m
    → Intact rom (name_of rom) (record w { usb = m })
with_usb rom m w v b = record {
  owned = v.owned;
  usb_size = b.size;
  usb_fits = b.fits;
  scratch_size = v.scratch_size;
  named = v.named;
}

module _ (packet_size : ℕ) (answers : Driver) (s : Stack) where
  unfoldable pub happens : ℕ → Event → s.Hip → AccessPoint → Option (s.Hip × AccessPoint)
  happens t (part_came endp part len) hip w = do
    after ← handle_data_out packet_size endp part len w.usb
    some (hip, record w { usb = left_by after w.usb })
  happens t (round now rx) hip w = loop_round packet_size answers s t now rx hip w

  unfoldable pub happen : ℕ → List Event → s.Hip → AccessPoint → Option (s.Hip × AccessPoint)
  happen t [] hip w = some (hip, w)
  happen t (e ∷ es) hip w = do (hip', w') ← happens t e hip w; happen t es hip' w'

  -- A round of the run comes to an answer that does not fit.
  unfoldable pub Overflows : ℕ → List Event → s.Hip → AccessPoint → Type 0
  Overflows t [] hip w = ⊥
  Overflows t (part_came endp part len ∷ es) hip w =
      (r : s.Hip × AccessPoint) × (happens t (part_came endp part len) hip w ≡ some r)
      × Overflows t es r.0 r.1
  Overflows t (round now rx ∷ es) hip w =
      RoundOverflows packet_size answers s t now rx hip w
      ⊎ ((r : s.Hip × AccessPoint) × (happens t (round now rx) hip w ≡ some r)
          × Overflows t es r.0 r.1)

  module _ (rom t : ℕ) (k : 2 ≤ packet_size) (polite : IsPolite s) where
    part-Intact :
        (endp : ℕ) (part : Frame) (len : ℕ) (hip : s.Hip) (w : AccessPoint)
        → Modest part len
        → Intact rom (name_of rom) w
        → Ensures (λ r. Intact rom (name_of rom) r.1) (happens t (part_came endp part len) hip w)
    unfolding happens
    part-Intact endp part len hip w a v =
        Ensures->>= AfterBounded (λ r. Intact rom (name_of rom) r.1) _ _
          (handle_data_out-Bounded packet_size endp part len w.usb k a
            (record { size = v.usb_size; fits = v.usb_fits }))
          λ after b.
            with_usb rom (left_by after w.usb) w v
              (left_by-Bounded after w.usb (record { size = v.usb_size; fits = v.usb_fits }) b)

    happen-cases :
        (es : List Event) (hip : s.Hip) (w : AccessPoint)
        → AllAllowed es
        → Intact rom (name_of rom) w
        → Ensures (λ r. Intact rom (name_of rom) r.1) (happen t es hip w) ⊎ Overflows t es hip w
    unfolding happen happens Overflows
    happen-cases [] hip w a v = inl v
    happen-cases (part_came endp part len ∷ es) hip w a v =
        let one = part-Intact endp part len hip w a.0 v in
        elim (Option-cases (happens t (part_came endp part len) hip w)) [
          | inl e ↦ absurd (rw e at one)
          | inr (r, e) ↦
              elim (happen-cases es r.0 r.1 a.1
                (Ensures-some (λ q. Intact rom (name_of rom) q.1) _ r one e)) [
                  | inl fine ↦ inl (rw e fine)
                  | inr over ↦ inr (r, e, over)
                ]
        ]
    happen-cases (round now rx ∷ es) hip w a v =
        elim (loop_round-cases rom (name_of rom) (name_fits rom) packet_size answers s polite t now
          rx hip w v) [
            | inr over ↦ inr (inl over)
            | inl one ↦ elim (Option-cases (loop_round packet_size answers s t now rx hip w)) [
              | inl e ↦ absurd (rw e at one)
              | inr (r, e) ↦
                  elim (happen-cases es r.0 r.1 a.1
                    (Ensures-some (λ q. Intact rom (name_of rom) q.1) _ r one e)) [
                      | inl fine ↦ inl (rw e fine)
                      | inr over ↦ inr (inr (r, e, over))
                    ]
            ]
          ]

    happen-faults :
        (es : List Event) (hip : s.Hip) (w : AccessPoint)
        → AllAllowed es
        → Intact rom (name_of rom) w
        → Overflows t es hip w
        → happen t es hip w ≡ none
    unfolding happen happens Overflows
    happen-faults [] hip w a v over = absurd over
    happen-faults (part_came endp part len ∷ es) hip w a v (r, e, over) = rw (e) (
        happen-faults es r.0 r.1 a.1
          (Ensures-some (λ q. Intact rom (name_of rom) q.1) _ r
            (part-Intact endp part len hip w a.0 v) e)
          over)
    happen-faults (round now rx ∷ es) hip w a v (inl over) =
        rw
          (loop_round-faults rom (name_of rom) (name_fits rom) packet_size answers s polite t now rx
            hip w v over)
          refl
    happen-faults (round now rx ∷ es) hip w a v (inr (r, e, over)) =
        elim (loop_round-cases rom (name_of rom) (name_fits rom) packet_size answers s polite t now
          rx hip w v) [
            | inr gone ↦
                rw
                  (loop_round-faults rom (name_of rom) (name_fits rom) packet_size answers s polite
                    t now rx hip w v gone)
                  refl
            | inl one ↦ rw (e) (
                happen-faults es r.0 r.1 a.1
                  (Ensures-some (λ q. Intact rom (name_of rom) q.1) _ r one e) over)
          ]

    happen-faults_iff :
        (es : List Event) (hip : s.Hip) (w : AccessPoint)
        → AllAllowed es
        → Intact rom (name_of rom) w
        → (happen t es hip w ≡ none) ↔ Overflows t es hip w
    happen-faults_iff es hip w a v = (down, happen-faults es hip w a v)
      where
        down : happen t es hip w ≡ none → Overflows t es hip w
        down e = elim (happen-cases es hip w a v) [
          | inl fine ↦ absurd (rw e at fine)
          | inr over ↦ over
        ]

  -- The USB access point, started with any ROM word, goes through any rounds of its loop and any
  -- parts from the host between them, whatever the clock of the chip reads, whatever frames the
  -- radio brings, whatever the USB driver answers and wherever the parts are addressed, for a
  -- stack that writes and sends within the buffer that it is given and names only sockets there
  -- are, under two conditions: a full part of the driver has at least two bytes, and a part is no
  -- longer than the buffer of 2048 bytes and its first two bytes name no more than that. Then the
  -- run makes an access outside an array exactly when some round of it, behind its parts for
  -- packets and the call of the stack, comes to a frame whose answer overflows the response; in
  -- every other run it returns, and the node is an access point with the invariant.
  pub boot-happen :
      (rom tx_power t start_time : ℕ) (es : List Event) (hip : s.Hip)
      → 2 ≤ packet_size
      → IsPolite s
      → AllAllowed es
      → Ensures
          (λ w.
            ((happen t es hip w ≡ none) ↔ Overflows t es hip w)
            × (Ensures (λ r. Intact rom (name_of rom) r.1) (happen t es hip w)
                ⊎ Overflows t es hip w))
          (boot rom tx_power t start_time)
  boot-happen rom tx_power t start_time es hip k polite a =
      Ensures-mono (Intact rom (name_of rom)) _ (boot rom tx_power t start_time)
        (λ w v.
          (happen-faults_iff rom t k polite es hip w a v, happen-cases rom t k polite es hip w a v))
        (boot-Intact rom tx_power t start_time)
