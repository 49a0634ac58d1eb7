-- ===== src/Http/Examples.antt =====
-- The theorems on the HTTP server at concrete requests.
use ch32fun_wi_not_ap.Prelude.{
  zero, suc, refl, [], ◌∷◌, some, List, replicate, ℕ, Bool, get_or, ◌++◌, true, Ensures, ◌≡◌, false,
  arith, length-replicate,
}
use ch32fun_wi_not_ap.Http.{tcp_event, socket_closed}
use ch32fun_wi_not_ap.Http.Reply.{Answers, reply}
use ch32fun_wi_not_ap.Http.Machine.{
  serve, machines, Shows, ServerCall, arrives, ends, serve-machines,
}
use ch32fun_wi_not_ap.Http.Sockets.{closing, tcp_event-once}

-- A short header and name, and a table with one socket that has its answer.
abbrev header : List ℕ
header = replicate 20 72

abbrev name : List ℕ
name = replicate 14 87

abbrev table : List Bool
table = true ∷ replicate 15 false

tcp_event-once_example :
    Ensures
      (λ e.
        Answers header name 3 30 table e
        × ((received max_out acked : ℕ)
            → tcp_event header (name ++ (0 ∷ [])) 3 received max_out acked e.sent
              ≡ some (closing acked e.sent))
        × Ensures (λ t. get_or t 3 false ≡ false) (socket_closed 3 e.sent))
      (tcp_event header (name ++ (0 ∷ [])) 3 100 30 0 table)
unfolding replicate get_or
tcp_event-once_example =
    tcp_event-once header name 3 100 30 0 table (omega arith) refl (omega arith) (omega arith) refl

-- A request on socket 3, the acknowledgement of its answer, one on socket 5, and the end of both.
abbrev visit : List ServerCall
visit = arrives 3 100 30 0 ∷ arrives 3 0 30 30 ∷ arrives 5 90 500 0 ∷ ends 3 ∷ ends 5 ∷ []

unanswered : (n k : ℕ) → get_or (replicate n false) k false ≡ false
unfolding get_or replicate
unanswered zero k = refl
unanswered (suc n) zero = refl
unanswered (suc n) (suc k) = unanswered n k

serve-machines_example :
    Ensures
      (λ r.
        (r.0 ≡ (machines (reply header name) visit (λ k. false)).0)
        × Shows r.1 (machines (reply header name) visit (λ k. false)).1)
      (serve header (name ++ (0 ∷ [])) visit (replicate 16 false))
unfolding replicate
serve-machines_example =
    serve-machines header name (omega arith) visit (replicate 16 false) (λ k. false)
      (omega arith, (omega arith, (omega arith, (omega arith, (omega arith, tt)))))
      (record { size = length-replicate {A = Bool} 16 false; each = λ k h. unanswered 16 k })
