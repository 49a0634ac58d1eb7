-- ===== src/Http/Machine.antt =====
-- The server as independent machines, one for each socket, and the table as their implementation.
use ch32fun_wi_not_ap.Prelude.{
  some, ◌>>=◌, [], ◌∷◌, refl, true, false, inl, inr, ℕ, List, Bool, if◌then◌else◌, ◌||◌, Option,
  length, ◌<◌, ◌≡◌, ltb, ◌==◌, get_or, set, Bool-cases, ◌&&◌, length-set, ==_iff, not, ◌∙◌, take,
  get_or-set_self, sym, min, arith, ◌≢◌, get_or-set_ne, ◌+◌, ◌≤◌, Ensures, ◌++◌, Ensures-mono,
  Ensures->>=, ltb→lt,
}
use ch32fun_wi_not_ap.Http.{
  TcpCode, send_length, output_fin, Event, tcp_event, socket_closed, after_ack, tcp_sockets,
  response_buf_size,
}
use ch32fun_wi_not_ap.Http.Reply.{Answers, reply, tcp_event-Answers}

-- What sfhip calls: an event with what was received, the room and what was acknowledged, or the end.
pub data ServerCall : Type 0 where
  arrives : ℕ → ℕ → ℕ → ℕ → ServerCall
  ends : ℕ → ServerCall

abbrev pub socket_of : ServerCall → ℕ
socket_of (arrives k received room acked) = k
socket_of (ends k) = k

-- A machine that has answered or not, and what it says: a length or code, and the bytes.
abbrev pub says : List ℕ → ServerCall → Bool → TcpCode × List ℕ
says all (arrives k received room acked) answered =
    if ltb 0 received && not answered
    then (send_length (length all), take (min room (length all)) all)
    else (if ltb 0 acked && answered then output_fin else send_length 0, [])
says all (ends k) answered = (send_length 0, [])

abbrev pub becomes : ServerCall → Bool → Bool
becomes (arrives k received room acked) answered = answered || ltb 0 received
becomes (ends k) answered = false

-- All machines: a call is for one of them.
abbrev pub at_socket : ServerCall → (ℕ → Bool) → ℕ → Bool
at_socket c m k = if k == socket_of c then becomes c (m k) else m k

unfoldable pub machines :
    List ℕ → List ServerCall → (ℕ → Bool) → List (TcpCode × List ℕ) × (ℕ → Bool)
machines all [] m = ([], m)
machines all (c ∷ cs) m =
    let rest = machines all cs (at_socket c m) in (says all c (m (socket_of c)) ∷ rest.0, rest.1)

-- The code: the table of the sockets.
unfoldable pub serve_call :
    List ℕ → List ℕ → ServerCall → List Bool → Option ((TcpCode × List ℕ) × List Bool)
serve_call header hname (arrives k received room acked) sent = do
  e ← tcp_event header hname k received room acked sent
  some ((e.result, e.written), e.sent)
serve_call header hname (ends k) sent = do
  sent' ← socket_closed k sent
  some ((send_length 0, []), sent')

unfoldable pub serve :
    List ℕ → List ℕ → List ServerCall → List Bool → Option (List (TcpCode × List ℕ) × List Bool)
serve header hname [] sent = some ([], sent)
serve header hname (c ∷ cs) sent = do
  (out, sent') ← serve_call header hname c sent
  (outs, sent'') ← serve header hname cs sent'
  some (out ∷ outs, sent'')

-- The table shows the state of each machine.
pub record Shows (sent : List Bool) (m : ℕ → Bool) : Type 0 where
  pub size : length sent ≡ tcp_sockets
  pub each : (k : ℕ) → k < tcp_sockets → get_or sent k false ≡ m k

eq_not : (j k : ℕ) → j ≡ k → (j == k) ≡ false → ⊥
eq_not j k q h = let same : (j == k) ≡ true = (==_iff j k).1 q in cc

Shows-set :
    (sent : List Bool) (m : ℕ → Bool) (c : ServerCall) (b : Bool)
    → socket_of c < tcp_sockets
    → Shows sent m
    → becomes c (m (socket_of c)) ≡ b
    → Shows (set sent (socket_of c) b) (at_socket c m)
Shows-set sent m c b s v e =
    let k = socket_of c in
    record {
      size = length-set sent k b ∙ v.size;
      each = λ j h. elim (Bool-cases (j == k)) [
        | inl same ↦
            let q : j ≡ k = (==_iff j k).0 same in
            rw same (rw q (get_or-set_self sent k b false (omega (arith, v.size)) ∙ sym e))
        | inr differs ↦
            let apart : k ≢ j = λ q. eq_not j k (sym q) differs in
            rw differs (get_or-set_ne sent k j b false apart ∙ v.each j h)
      ];
    }

Shows-same :
    (sent : List Bool) (m : ℕ → Bool) (c : ServerCall)
    → Shows sent m
    → becomes c (m (socket_of c)) ≡ m (socket_of c)
    → Shows sent (at_socket c m)
Shows-same sent m c v e = record {
  size = v.size;
  each = λ j h. elim (Bool-cases (j == socket_of c)) [
    | inl same ↦
        let q : j ≡ socket_of c = (==_iff j (socket_of c)).0 same in
        rw same (v.each j h ∙ rw q (sym e))
    | inr differs ↦ rw differs (v.each j h)
  ];
}

-- Past the first request: the table stays, and the connection ends once an answer is acknowledged.
abbrev rests : ℕ → Bool → List Bool → Event
rests acked answered sent = record {
  result = if ltb 0 acked && answered then output_fin else send_length 0;
  written = [];
  sent = sent;
}

after_ack-rests :
    (k acked : ℕ) (sent : List Bool)
    → k < tcp_sockets
    → after_ack k acked sent ≡ some (rests acked (get_or sent k false) sent)
unfolding after_ack
after_ack-rests k acked sent h =
    let inside : ltb k tcp_sockets ≡ true = ground arith in
    elim (Bool-cases (ltb 0 acked)) [ inl e ↦ rw (e, inside) | inr e ↦ rw e ]

stays : (a b : Bool) → (b && not a) ≡ false → (a || b) ≡ a
stays true b h = refl
stays false true h = h
stays false false h = refl

-- A call of the code says what the machine of its socket says, and the table goes on showing all of them.
record Step (all : List ℕ) (m : ℕ → Bool) (c : ServerCall) (r : (TcpCode × List ℕ) × List Bool)
    : Type 0 where
  said : r.0 ≡ says all c (m (socket_of c))
  shows : Shows r.1 (at_socket c m)

-- Calls for sockets of the table.
abbrev pub Named : List ServerCall → Type 0
Named [] = Unit {0}
Named (c ∷ cs) = (socket_of c < tcp_sockets) × Named cs

module _ (header name : List ℕ) (short : length header + length name + 2 ≤ response_buf_size) where
  rests-Step :
      (k received room acked : ℕ) (sent : List Bool) (m : ℕ → Bool)
      → k < tcp_sockets
      → Shows sent m
      → (ltb 0 received && not (m k)) ≡ false
      → Ensures
          (λ e.
            Step
              (reply header name)
              m
              (arrives k received room acked)
              ((e.result, e.written), e.sent))
          (after_ack k acked sent)
  rests-Step k received room acked sent m s v old =
      rw (after_ack-rests k acked sent s, v.each k s)
        (record {
          said = rw old;
          shows =
              Shows-same sent m (arrives k received room acked) v
                (stays (m k) (ltb 0 received) old);
        })

  arrives-Step :
      (k received room acked : ℕ) (sent : List Bool) (m : ℕ → Bool)
      → k < tcp_sockets
      → Shows sent m
      → Ensures
          (λ e.
            Step
              (reply header name)
              m
              (arrives k received room acked)
              ((e.result, e.written), e.sent))
          (tcp_event header (name ++ (0 ∷ [])) k received room acked sent)
  unfolding tcp_event
  arrives-Step k received room acked sent m s v =
      let inside : ltb k tcp_sockets ≡ true = ground arith in
      elim (Bool-cases (ltb 0 received)) [
        | inr e ↦ rw e (rests-Step k received room acked sent m s v (rw e refl))
        | inl e ↦ elim (Bool-cases (m k)) [
          | inl old ↦
              rw (e, inside, v.each k s, old)
                (rests-Step k received room acked sent m s v (rw (e, old) refl))
          | inr fresh ↦
              Ensures-mono (Answers header name k room sent) _
                (tcp_event header (name ++ (0 ∷ [])) k received room acked sent)
                (λ r a. record {
                  said = rw (a.result, a.written, e, fresh) refl;
                  shows = rw a.sent_set (
                      Shows-set sent m (arrives k received room acked) true s v
                        (rw (e, fresh) refl));
                })
                (tcp_event-Answers header name k received room acked sent short s
                  (ltb→lt 0 received e) (v.each k s ∙ fresh))
        ]
      ]

  ends-Step :
      (k : ℕ) (sent : List Bool) (m : ℕ → Bool)
      → k < tcp_sockets
      → Shows sent m
      → Ensures
          (λ sent'. Step (reply header name) m (ends k) ((send_length 0, []), sent'))
          (socket_closed k sent)
  unfolding socket_closed
  ends-Step k sent m s v =
      let inside : ltb k tcp_sockets ≡ true = ground arith in
      rw inside (record { said = refl; shows = Shows-set sent m (ends k) false s v refl })

  serve_call-Step :
      (c : ServerCall) (sent : List Bool) (m : ℕ → Bool)
      → socket_of c < tcp_sockets
      → Shows sent m
      → Ensures (Step (reply header name) m c) (serve_call header (name ++ (0 ∷ [])) c sent)
  unfolding serve_call
  serve_call-Step (arrives k received room acked) sent m s v =
      let c = arrives k received room acked in
      Ensures->>= (λ e. Step (reply header name) m c ((e.result, e.written), e.sent))
        (Step (reply header name) m c)
        (tcp_event header (name ++ (0 ∷ [])) k received room acked sent) _
        (arrives-Step k received room acked sent m s v) λ e h. h
  serve_call-Step (ends k) sent m s v =
      Ensures->>= (λ sent'. Step (reply header name) m (ends k) ((send_length 0, []), sent'))
        (Step (reply header name) m (ends k)) (socket_closed k sent) _ (ends-Step k sent m s v)
        λ e h. h

  -- The table of sockets implements independent machines, one for each socket, that have answered
  -- or not: for any calls on sockets of the table, where the header, the name and two bytes fit in
  -- the buffer of 512 bytes and the table shows the states of the machines, the code returns, says
  -- to each call what the machine of its socket says, and the table shows the states again.
  pub serve-machines :
      (cs : List ServerCall) (sent : List Bool) (m : ℕ → Bool)
      → Named cs
      → Shows sent m
      → Ensures
          (λ r.
            (r.0 ≡ (machines (reply header name) cs m).0)
            × Shows r.1 (machines (reply header name) cs m).1)
          (serve header (name ++ (0 ∷ [])) cs sent)
  unfolding serve machines
  serve-machines [] sent m all v = (refl, v)
  serve-machines (c ∷ cs) sent m all v =
      Ensures->>= (Step (reply header name) m c) _ _ _ (serve_call-Step c sent m all.0 v) λ r h.
        Ensures->>=
          (λ q.
            (q.0 ≡ (machines (reply header name) cs (at_socket c m)).0)
            × Shows q.1 (machines (reply header name) cs (at_socket c m)).1)
          _ _ _ (serve-machines cs r.1 (at_socket c m) all.1 h.shows)
          λ q g. (rw (h.said, g.0) refl, g.1)
