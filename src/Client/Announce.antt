-- ===== src/Client/Announce.antt =====
-- What the announcement puts on the air.
use ch32fun_wi_not_ap.Prelude.{
  some, refl, [], ◌∷◌, false, ℕ, List, ◌≡◌, Option, length, ◌++◌, drop, ◌≤◌, Ensures, ltb, arith,
  ◌∙◌, take, ◌+◌, ◌-◌, Ensures->>=, length-take, append_assoc,
}
use ch32fun_wi_not_ap.Node.{client, idle, Node, data_buf_size, fragment_size, emit}
use ch32fun_wi_not_ap.System.Owned.{Owned}
use ch32fun_wi_not_ap.Client.{announce_on, announce_up, sidechannel_mqtt, sidechannel_ntfy_sh}
use ch32fun_wi_not_ap.Request.{sidechannel_tx, transmit_sidechannel, request_header}
use ch32fun_wi_not_ap.Memory.{word_bytes, overwrite}
use ch32fun_wi_not_ap.Radio.{sent_frames, delay_us}
use ch32fun_wi_not_ap.Memory.Laws.{
  length-overwrite, take-overwrite_front, take-overwrite, write_at-runs, slice-runs,
}
use ch32fun_wi_not_ap.Http.{codes}
use ch32fun_wi_not_ap.Http.Names.{hex_text, put_hex_lem}

-- A node that keeps what a message needs: a client that is idle, with its uuid and its buffer.
record Talks (u : ℕ) (n : Node) : Type 0 where
  role : n.role ≡ client
  idles : n.state ≡ idle
  uuid : n.uuid ≡ u
  buf_size : length n.data_buf ≡ data_buf_size

-- An idle client sends a short message: header and bytes.
record Said (u channel : ℕ) (bytes : List ℕ) (n : Node) (r : Option ℕ × Node) : Type 0 where
  result : r.0 ≡ some (length bytes)
  talks : Talks u r.1
  air :
      sent_frames r.1.calls
      ≡ sent_frames n.calls ++ ((request_header 0 (length bytes) channel u ++ bytes) ∷ [])

sidechannel_tx-Said :
    (u channel : ℕ) (bytes : List ℕ) (n : Node)
    → length bytes ≤ fragment_size
    → Talks u n
    → Ensures (Said u channel bytes n) (sidechannel_tx channel bytes n)
unfolding sidechannel_tx transmit_sidechannel word_bytes sent_frames drop
sidechannel_tx-Said u channel bytes n h t =
    let short : ltb fragment_size (length bytes) ≡ false = ground arith in
    let header = request_header 0 (length bytes) channel u in
    let b₁ = overwrite n.data_buf 0 header in
    let z₁ : length b₁ ≡ data_buf_size =
      length-overwrite n.data_buf 0 header (omega (arith, t.buf_size)) ∙ t.buf_size in
    let b₂ = overwrite b₁ 8 bytes in
    let z₂ : length b₂ ≡ data_buf_size = length-overwrite b₁ 8 bytes (omega arith) ∙ z₁ in
    let front : take 8 b₁ ≡ header =
      take-overwrite_front n.data_buf header (omega (arith, t.buf_size)) in
    let frame : take (8 + length bytes) b₂ ≡ header ++ bytes =
      take-overwrite b₁ 8 bytes (omega arith) ∙ rw front refl in
    rw
      (
        short,
        t.role,
        t.idles,
        t.uuid,
        write_at-runs data_buf_size n.data_buf 0 header (omega arith),
        write_at-runs data_buf_size b₁ 8 bytes (omega arith),
        slice-runs b₂ 0 (8 + length bytes) (omega arith),
        frame,
      )
      (record {
        result = refl;
        talks = record { role = refl; idles = refl; uuid = refl; buf_size = z₂ };
        air = refl;
      })

-- The text of the announcement, and a frame with it for a server.
abbrev pub text : ℕ → List ℕ
text u = codes "ch32fun/Hi from " ++ (hex_text (word_bytes u) ++ codes "!")

abbrev pub announcement : ℕ → ℕ → List ℕ → List ℕ
announcement u channel server = request_header 0 29 channel u ++ (server ++ text u)

-- The addresses of the two servers.
abbrev pub mqtt : List ℕ
mqtt = 192 ∷ 168 ∷ 1 ∷ 12 ∷ []

abbrev pub ntfy : List ℕ
ntfy = 159 ∷ 203 ∷ 148 ∷ 75 ∷ []

-- The message is 30 bytes, of which the last is left off.
announce_on-Said :
    (u channel a b c d : ℕ) (msg : List ℕ) (n : Node)
    → length msg ≡ 30
    → Talks u n
    → let addressed = overwrite msg 0 (a ∷ b ∷ c ∷ d ∷ []) in
      Ensures
        (λ r. (r.0 ≡ addressed) × Said u channel (take 29 addressed) n (r.1, r.2))
        (announce_on channel (a ∷ b ∷ c ∷ d ∷ []) msg n)
unfolding announce_on drop
announce_on-Said u channel a b c d msg n z t =
    let server = a ∷ b ∷ c ∷ d ∷ [] in
    let addressed = overwrite msg 0 server in
    let l : length addressed ≡ 30 = length-overwrite msg 0 server (omega arith) ∙ z in
    let e : length msg - 1 ≡ 29 = omega arith in
    rw
      (
        write_at-runs (length msg) msg 0 server (omega arith),
        e,
        slice-runs addressed 0 29 (omega arith),
      )
      (Ensures->>= (Said u channel (take 29 addressed) n) _
        (sidechannel_tx channel (take 29 addressed) n) _
        (sidechannel_tx-Said u channel (take 29 addressed) n
          (omega (arith, length-take 29 addressed)) t)
        λ r h. (refl, h))

-- An idle client with the invariant that announces itself puts two frames on the air, one for each
-- side channel, with its uuid in the header, the server's address and the text of the announcement
-- with the eight digits of the uuid, and returns 29, the number of bytes after the header.
pub announce_up-says :
    (u : ℕ) (n : Node)
    → Owned client u n
    → n.state ≡ idle
    → Ensures
        (λ r.
          (r.0 ≡ some 29)
          × (sent_frames r.1.calls
              ≡ sent_frames n.calls
                ++ (announcement u sidechannel_mqtt mqtt
                    ∷ announcement u sidechannel_ntfy_sh ntfy
                    ∷ [])))
        (announce_up n)
unfolding announce_up word_bytes hex_text overwrite take drop sent_frames
announce_up-says u n o idles =
    let both : List (List ℕ) = announcement u 1 mqtt ∷ announcement u 2 ntfy ∷ [] in
    let front = codes "XXXXch32fun/Hi from " in
    let tail = codes "!" ++ (0 ∷ []) in
    let msg = front ++ (hex_text (word_bytes u) ++ tail) in
    let n' = record n { uuid = u } in
    let t : Talks u n' = record {
      role = o.role;
      idles = idles;
      uuid = refl;
      buf_size = o.inv.sizes.buf_size;
    } in
    rw (o.uuid, put_hex_lem (word_bytes u) front (codes "UUUUUUUU") tail refl)
      (Ensures->>=
        (λ (r : List ℕ × Option ℕ × Node).
          (r.0 ≡ overwrite msg 0 mqtt) × Said u 1 (take 29 (overwrite msg 0 mqtt)) n' (r.1, r.2))
        (λ (r : Option ℕ × Node).
          (r.0 ≡ some 29) × (sent_frames r.1.calls ≡ sent_frames n.calls ++ both))
        (announce_on 1 mqtt msg n') _ (announce_on-Said u 1 192 168 1 12 msg n' refl t)
        λ r h.
          Ensures->>=
            (λ (q : List ℕ × Option ℕ × Node).
              (q.0 ≡ overwrite r.0 0 ntfy)
              × Said u 2 (take 29 (overwrite r.0 0 ntfy)) (emit (delay_us 500) r.2) (q.1, q.2))
            (λ (q : Option ℕ × Node).
              (q.0 ≡ some 29) × (sent_frames q.1.calls ≡ sent_frames n.calls ++ both))
            (announce_on 2 ntfy r.0 (emit (delay_us 500) r.2)) _
            (announce_on-Said u 2 159 203 148 75 r.0 (emit (delay_us 500) r.2) (rw h.0 refl)
              (record {
                role = h.1.talks.role;
                idles = h.1.talks.idles;
                uuid = h.1.talks.uuid;
                buf_size = h.1.talks.buf_size;
              }))
            λ q g.
              let second : q.1 ≡ some 29 = g.1.result ∙ rw h.0 refl in
              (
                rw (h.1.result, second) refl,
                g.1.air
                    ∙ rw
                        (
                          h.0,
                          h.1.air,
                          append_assoc (sent_frames n.calls) (announcement u 1 mqtt ∷ [])
                              (announcement u 2 ntfy ∷ []),
                        )
                        refl,
              ))
