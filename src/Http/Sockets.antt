-- ===== src/Http/Sockets.antt =====
-- The table of sockets: every event stays within the room there is, and a socket is answered once.
use ch32fun_wi_not_ap.Prelude.{
  ℕ, List, Bool, ◌<◌, length, ◌+◌, Ensures, ◌≤◌, get_or, ltb, false, ◌≡◌, ◌++◌, true, ◌∷◌, arith,
  [], some, Bool-cases, if◌then◌else◌, inl, inr, Ensures-mono, ltb→lt, length-take, min, set,
  get_or-set_self, length-set,
}
use ch32fun_wi_not_ap.Http.{
  tcp_event, after_ack, tcp_sockets, response_buf_size, output_fin, send_length, Event,
  socket_closed,
}
use ch32fun_wi_not_ap.Http.Reply.{Answers, tcp_event-Answers, reply}

after_ack-room :
    (sockno acked : ℕ) (sent : List Bool) (room : ℕ)
    → sockno < tcp_sockets
    → Ensures (λ e. length e.written ≤ room) (after_ack sockno acked sent)
unfolding after_ack
after_ack-room sockno acked sent room s =
    let inside : ltb sockno tcp_sockets ≡ true = ground arith in
    elim (Bool-cases (ltb 0 acked)) [
      | inl e ↦ rw (e, inside) (omega arith)
      | inr e ↦ rw e (omega arith)
    ]

-- Whatever comes in on a socket, the event returns and writes no more than there is room for.
pub tcp_event-room :
    (header name : List ℕ) (sockno received max_out acked : ℕ) (sent : List Bool)
    → length header + length name + 2 ≤ response_buf_size
    → sockno < tcp_sockets
    → Ensures
        (λ e. length e.written ≤ max_out)
        (tcp_event header (name ++ (0 ∷ [])) sockno received max_out acked sent)
unfolding tcp_event
tcp_event-room header name sockno received max_out acked sent h s =
    let inside : ltb sockno tcp_sockets ≡ true = ground arith in
    elim (Bool-cases (ltb 0 received)) [
      | inr e ↦ rw e (after_ack-room sockno acked sent max_out s)
      | inl e ↦ elim (Bool-cases (get_or sent sockno false)) [
        | inl old ↦ rw (e, inside, old) (after_ack-room sockno acked sent max_out s)
        | inr fresh ↦
            Ensures-mono (Answers header name sockno max_out sent) (λ v. length v.written ≤ max_out)
              _
              (λ v a. rw a.written (
                omega (
                  arith,
                  length-take (min max_out (length (reply header name))) (reply header name),
                )))
              (tcp_event-Answers header name sockno received max_out acked sent h s
                (ltb→lt 0 received e) fresh)
      ]
    ]

-- What a socket that has its answer gives: the end of the connection, once the answer is acknowledged.
abbrev pub closing : ℕ → List Bool → Event
closing acked sent = record {
  result = if ltb 0 acked then output_fin else send_length 0;
  written = [];
  sent = sent;
}

after_ack-closing :
    (sockno acked : ℕ) (sent : List Bool)
    → ltb sockno tcp_sockets ≡ true
    → get_or sent sockno false ≡ true
    → after_ack sockno acked sent ≡ some (closing acked sent)
unfolding after_ack
after_ack-closing sockno acked sent s old = elim (Bool-cases (ltb 0 acked)) [
  | inl e ↦ rw (e, s, old)
  | inr e ↦ rw e
]

tcp_event-closing :
    (header hname : List ℕ) (sockno received max_out acked : ℕ) (sent : List Bool)
    → ltb sockno tcp_sockets ≡ true
    → get_or sent sockno false ≡ true
    → tcp_event header hname sockno received max_out acked sent ≡ some (closing acked sent)
unfolding tcp_event
tcp_event-closing header hname sockno received max_out acked sent s old =
    elim (Bool-cases (ltb 0 received)) [
      | inl e ↦ rw (e, s, old) (after_ack-closing sockno acked sent s old)
      | inr e ↦ rw e (after_ack-closing sockno acked sent s old)
    ]

-- On a socket of a table of sixteen that has no answer yet, where the header, the name and two
-- bytes fit in the buffer of 512 bytes, an event with data returns, and writes the header, the
-- name and a line end, cut to the room there is; every later event on that socket writes nothing,
-- and closes the connection when something is acknowledged; once the socket is closed it has no
-- answer again.
pub tcp_event-once :
    (header name : List ℕ) (sockno received max_out acked : ℕ) (sent : List Bool)
    → length header + length name + 2 ≤ response_buf_size
    → length sent ≡ tcp_sockets
    → sockno < tcp_sockets
    → 0 < received
    → get_or sent sockno false ≡ false
    → Ensures
        (λ e.
          Answers header name sockno max_out sent e
          × ((received' max_out' acked' : ℕ)
              → tcp_event header (name ++ (0 ∷ [])) sockno received' max_out' acked' e.sent
                ≡ some (closing acked' e.sent))
          × Ensures (λ t. get_or t sockno false ≡ false) (socket_closed sockno e.sent))
        (tcp_event header (name ++ (0 ∷ [])) sockno received max_out acked sent)
unfolding socket_closed
tcp_event-once header name sockno received max_out acked sent h z s r fresh =
    let inside : ltb sockno tcp_sockets ≡ true = ground arith in
    let old : get_or (set sent sockno true) sockno false ≡ true =
      get_or-set_self sent sockno true false (omega arith) in
    let gone : get_or (set (set sent sockno true) sockno false) sockno false ≡ false =
      get_or-set_self (set sent sockno true) sockno false false
        (omega (arith, length-set {0} sent sockno true)) in
    Ensures-mono (Answers header name sockno max_out sent) _ _
      (λ e a. (
        a,
        λ received' max_out' acked'.
            tcp_event-closing header (name ++ (0 ∷ [])) sockno received' max_out' acked' e.sent
              inside (rw a.sent_set old),
        rw (a.sent_set, inside) gone,
      ))
      (tcp_event-Answers header name sockno received max_out acked sent h s r fresh)
