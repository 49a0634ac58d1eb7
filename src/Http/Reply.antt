-- ===== src/Http/Reply.antt =====
-- The text of the answer, and what a socket gets of it.
use ch32fun_wi_not_ap.Prelude.{
  refl, [], ◌∷◌, List, drop, ℕ, ◌++◌, length, ◌≡◌, ◌+◌, ◌≤◌, take, Ensures, arith, length-append,
  ltb, false, take-length, replicate, length-replicate, zero, ◌∙◌, ◌-◌, Bool, ◌<◌, take-append, min,
  append_assoc, set, get_or, true, Ensures->>=, if◌then◌else◌, cong, Bool-cases, sym, take-take,
  inl, ltb→lt, inr,
}
use ch32fun_wi_not_ap.Http.{
  compose, response_buf_size, tcp_event, Event, answer, send_length, tcp_sockets,
}
use ch32fun_wi_not_ap.Memory.{overwrite}
use ch32fun_wi_not_ap.Memory.Laws.{
  length-overwrite, slice-runs, write_at-runs, take-overwrite, take-overwrite_part,
  take-overwrite_front,
}

abbrev pub crlf : List ℕ
crlf = b'\r' ∷ b'\n' ∷ []

-- The whole answer: header, name and the end of the line.
abbrev pub reply : List ℕ → List ℕ → List ℕ
reply header name = header ++ (name ++ crlf)

pub record Composed (header name : List ℕ) (r : List ℕ × ℕ) : Type 0 where
  pub buf_size : length r.0 ≡ response_buf_size
  pub len : r.1 ≡ length (reply header name)
  pub text : take r.1 r.0 ≡ reply header name

pub length-reply :
    (header name : List ℕ) → length (reply header name) ≡ length header + length name + 2
length-reply header name =
    omega (arith, length-append header (name ++ crlf), length-append name crlf)

-- The four writes, one behind the other; the second one's zero is written over by the third.
four_writes :
    (header name b₀ : List ℕ)
    → length b₀ ≡ 512
    → length header + length name + 2 ≤ 512
    → let n = length header + length name in
      let b₂ = overwrite (overwrite b₀ 0 header) (length header) (name ++ (0 ∷ [])) in
      take (n + 2) (overwrite (overwrite b₂ n (b'\r' ∷ [])) (n + 1) (b'\n' ∷ []))
      ≡ reply header name
four_writes header name b₀ z₀ h =
    let n = length header + length name in
    let hname = name ++ (0 ∷ []) in
    let ln : length hname ≡ length name + 1 = omega (arith, length-append name (0 ∷ [])) in
    let b₁ = overwrite b₀ 0 header in
    let z₁ : length b₁ ≡ 512 = length-overwrite b₀ 0 header (omega arith) ∙ z₀ in
    let b₂ = overwrite b₁ (length header) hname in
    let z₂ : length b₂ ≡ 512 = length-overwrite b₁ (length header) hname (omega arith) ∙ z₁ in
    let b₃ = overwrite b₂ n (b'\r' ∷ []) in
    let z₃ : length b₃ ≡ 512 = length-overwrite b₂ n (b'\r' ∷ []) (omega arith) ∙ z₂ in
    let e : n + 2 ≡ n + 1 + 1 = omega arith in
    rw e (
      take-overwrite b₃ (n + 1) (b'\n' ∷ []) (omega arith)
      ∙ rw (
        take-overwrite b₂ n (b'\r' ∷ []) (omega arith),
        take-overwrite_part b₁ (length header) (length name) hname (omega arith) (omega arith),
        take-overwrite_front b₀ header (omega arith),
        take-append name (0 ∷ []),
        append_assoc (header ++ name) (b'\r' ∷ []) (b'\n' ∷ []),
        append_assoc header name crlf,
      ))

pub compose-Composed :
    (header name : List ℕ)
    → length header + length name + 2 ≤ response_buf_size
    → Ensures (Composed header name) (compose header (name ++ (0 ∷ [])))
unfolding compose drop
compose-Composed header name h =
    let hname = name ++ (0 ∷ []) in
    let ln : length hname ≡ length name + 1 = omega (arith, length-append name (0 ∷ [])) in
    let fits : ltb response_buf_size (length header) ≡ false = ground arith in
    let whole : take (length header) header ≡ header = take-length header in
    let b₀ : List ℕ = replicate 512 0 in
    let z₀ : length b₀ ≡ 512 = length-replicate 512 (zero) in
    let b₁ = overwrite b₀ 0 header in
    let z₁ : length b₁ ≡ 512 = length-overwrite b₀ 0 header (omega arith) ∙ z₀ in
    let b₂ = overwrite b₁ (length header) hname in
    let z₂ : length b₂ ≡ 512 = length-overwrite b₁ (length header) hname (omega arith) ∙ z₁ in
    let named = length header + (length hname - 1) in
    let b₃ = overwrite b₂ named (b'\r' ∷ []) in
    let z₃ : length b₃ ≡ 512 = length-overwrite b₂ named (b'\r' ∷ []) (omega arith) ∙ z₂ in
    let named_len : named ≡ length header + length name = omega (arith, ln) in
    rw
      (
        fits,
        slice-runs header 0 (length header) (omega arith),
        whole,
        write_at-runs 512 b₀ 0 header (omega arith),
        write_at-runs 512 b₁ (length header) hname (omega arith),
        write_at-runs 512 b₂ named (b'\r' ∷ []) (omega arith),
        write_at-runs 512 b₃ (named + 1) (b'\n' ∷ []) (omega arith),
      )
      (record {
        buf_size = length-overwrite b₃ (named + 1) (b'\n' ∷ []) (omega arith) ∙ z₃;
        len = omega (arith, length-reply header name);
        text = rw (named_len, four_writes header name b₀ z₀ h);
      })

clamp_min : (a b : ℕ) → (if ltb a b then a else b) ≡ min a b
clamp_min a b = elim (Bool-cases (ltb a b)) [
  | inl less ↦ rw less (omega (arith, ltb→lt a b less))
  | inr more ↦ let le : b ≤ a = ground arith in rw more (omega arith)
]

-- The first request on a socket: the answer goes out, as much of it as there is room for, and the
-- length returned is that of the whole answer.
pub record Answers (header name : List ℕ) (sockno max_out : ℕ) (sent : List Bool) (e : Event)
    : Type 0 where
  pub result : e.result ≡ send_length (length (reply header name))
  pub written : e.written ≡ take (min max_out (length (reply header name))) (reply header name)
  pub sent_set : e.sent ≡ set sent sockno true

pub tcp_event-Answers :
    (header name : List ℕ) (sockno received max_out acked : ℕ) (sent : List Bool)
    → length header + length name + 2 ≤ response_buf_size
    → sockno < tcp_sockets
    → 0 < received
    → get_or sent sockno false ≡ false
    → Ensures
        (Answers header name sockno max_out sent)
        (tcp_event header (name ++ (0 ∷ [])) sockno received max_out acked sent)
unfolding tcp_event answer drop
tcp_event-Answers header name sockno received max_out acked sent h s r f =
    let inside : ltb sockno tcp_sockets ≡ true = ground arith in
    let some_data : ltb 0 received ≡ true = ground arith in
    rw (some_data, inside, f)
      (Ensures->>= (Composed header name) (Answers header name sockno max_out sent)
        (compose header (name ++ (0 ∷ []))) _ (compose-Composed header name h)
        λ r c.
          let room : (if ltb max_out r.1 then max_out else r.1)
              ≡ min max_out (length (reply header name)) =
            rw c.len (clamp_min max_out (length (reply header name))) in
          rw
            (
              room,
              slice-runs r.0 0 (min max_out (length (reply header name)))
                  (omega (arith, c.buf_size, length-reply header name)),
            )
            (record {
              result = cong send_length c.len;
              written = rw c.text at (
                  sym (
                    take-take (min max_out (length (reply header name))) r.1 r.0
                      (omega (arith, c.len))));
              sent_set = refl;
            }))
