-- ===== src/Eth/Server.antt =====
-- The events of the Ethernet access point's server.
use ch32fun_wi_not_ap.Prelude.{
  ◌>>=◌, ℕ, [], some, refl, List, length, Bool, take, ◌≤◌, Ensures, ◌<◌, ◌≡◌, ltb, ◌⊎◌, true, arith,
  Bool-cases, inr, inl, get_or, false, drop, set, if◌then◌else◌, length-take, cong, sym,
}
use ch32fun_wi_not_ap.Eth.{eth_tcp_event, respond, http_response}
use ch32fun_wi_not_ap.Http.{Event, after_ack, tcp_sockets, send_length, output_fin}
use ch32fun_wi_not_ap.Memory.{slice}
use ch32fun_wi_not_ap.Memory.Laws.{slice-runs}

-- What an event may return: the length of what it wrote, or the end of the connection.
pub record Honest (all : List ℕ) (max_out : ℕ) (e : Event) : Type 0 where
  pub room : length e.written ≤ max_out
  pub result :
      (e.result ≡ send_length (length e.written)) ⊎ ((e.result ≡ output_fin) × (e.written ≡ []))
  pub text : e.written ≡ take (length e.written) all

cut-Honest :
    (all : List ℕ) (max_out : ℕ) (sent : List Bool)
    → let m = if ltb max_out (length all) then max_out else length all in
      Ensures (Honest all max_out) (do
        out ← slice all 0 m
        some (record { result = send_length m; written = out; sent = sent }))
unfolding drop
cut-Honest all max_out sent =
    let m = if ltb max_out (length all) then max_out else length all in
    let within : m ≤ length all = ground arith in
    let room : m ≤ max_out = ground arith in
    let l : length (take m all) ≡ m = length-take m all within in
    rw (slice-runs all 0 m (omega arith))
      (record { room = omega arith; result = inl (cong send_length (sym l)); text = rw l })

respond-Honest :
    (sockno max_out : ℕ) (sent : List Bool)
    → Ensures (Honest http_response max_out) (respond sockno max_out sent)
unfolding respond
respond-Honest sockno max_out sent = cut-Honest http_response max_out (set sent sockno true)

after_ack-Honest :
    (sockno max_out acked : ℕ) (sent : List Bool)
    → sockno < tcp_sockets
    → Ensures (Honest http_response max_out) (after_ack sockno acked sent)
unfolding after_ack take
after_ack-Honest sockno max_out acked sent s =
    let inside : ltb sockno tcp_sockets ≡ true = ground arith in
    elim (Bool-cases (ltb 0 acked)) [
      | inr e ↦ rw e (record { room = omega arith; result = inl refl; text = refl })
      | inl e ↦ elim (Bool-cases (get_or sent sockno false)) [
        | inl old ↦
            rw (e, inside, old)
              (record { room = omega arith; result = inr (refl, refl); text = refl })
        | inr fresh ↦
            rw (e, inside, fresh) (record { room = omega arith; result = inl refl; text = refl })
      ]
    ]

-- An event on a socket of the table returns, writes no more than there is room for, a part of the
-- constant text from its start, and returns the number of bytes that it wrote, or the end of the
-- connection with none written.
pub eth_tcp_event-Honest :
    (sockno arrived max_out acked : ℕ) (sent : List Bool)
    → sockno < tcp_sockets
    → Ensures (Honest http_response max_out) (eth_tcp_event sockno arrived max_out acked sent)
unfolding eth_tcp_event
eth_tcp_event-Honest sockno arrived max_out acked sent s =
    let inside : ltb sockno tcp_sockets ≡ true = ground arith in
    elim (Bool-cases (ltb 0 arrived)) [
      | inr e ↦ rw e (after_ack-Honest sockno max_out acked sent s)
      | inl e ↦ elim (Bool-cases (get_or sent sockno false)) [
        | inl old ↦ rw (e, inside, old) (after_ack-Honest sockno max_out acked sent s)
        | inr fresh ↦ rw (e, inside, fresh) (respond-Honest sockno max_out sent)
      ]
    ]
