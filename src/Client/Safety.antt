-- ===== src/Client/Safety.antt =====
-- The client from its start on, for any times and frames.
use ch32fun_wi_not_ap.Prelude.{
  some, ◌>>=◌, [], ◌∷◌, refl, ℕ, List, Ensures, length, Ensures->>=, Option, ◌++◌, ◌≡◌, ◌+◌, ◌≤◌,
  length-replicate, arith, zero, append_assoc,
}
use ch32fun_wi_not_ap.Client.{Client, boot, loop_round, http_response_header, hname_blank}
use ch32fun_wi_not_ap.Client.Keeping.{Fine}
use ch32fun_wi_not_ap.Client.Loop.{loop_round-Fine}
use ch32fun_wi_not_ap.System.Owned.{start-Owned, Owned}
use ch32fun_wi_not_ap.Memory.{word_bytes, Frame}
use ch32fun_wi_not_ap.Sfhip.{Stack, mtu}
use ch32fun_wi_not_ap.Http.{put_hex, codes, response_buf_size}
use ch32fun_wi_not_ap.Http.Names.{hex_text, put_hex_lem}
use ch32fun_wi_not_ap.Node.{client}
use ch32fun_wi_not_ap.Sfhip.Polite.{IsPolite}

-- The name that is made of the ROM word.
abbrev pub name_of : ℕ → List ℕ
name_of rom = codes "WiNot_" ++ hex_text (word_bytes rom)

named :
    (rom : ℕ)
    → put_hex (word_bytes rom) hname_blank 6
      ≡ some (codes "WiNot_" ++ (hex_text (word_bytes rom) ++ (0 ∷ [])))
unfolding word_bytes
named rom = put_hex_lem (word_bytes rom) (codes "WiNot_") (codes "XXXXXXXX") (0 ∷ []) refl

fits : (rom : ℕ) → length http_response_header + length (name_of rom) + 2 ≤ response_buf_size
unfolding word_bytes hex_text
fits rom = omega arith

boot-Fine :
    (rom tx_power ticks_per_ms now : ℕ)
    → Ensures (Fine rom (name_of rom)) (boot rom tx_power ticks_per_ms now)
unfolding boot
boot-Fine rom tx_power t now = rw (named rom) (
    Ensures->>= (Owned client rom) (Fine rom (name_of rom)) _ _ (start-Owned client tx_power rom)
      λ n o. record {
        owned = o;
        scratch_size = length-replicate mtu (zero);
        named = append_assoc (codes "WiNot_") (hex_text (word_bytes rom)) (0 ∷ []);
      })

-- Rounds of the loop: the clock of the chip at each, and the frame that the radio has, if any.
module _ (s : Stack) where
  unfoldable pub rounds : ℕ → List (ℕ × Option Frame) → s.Hip → Client → Option (s.Hip × Client)
  rounds t [] hip w = some (hip, w)
  rounds t ((now, rx) ∷ rs) hip w = do (hip', w') ← loop_round s t now rx hip w; rounds t rs hip' w'

  rounds-Fine :
      (rom t : ℕ) (rs : List (ℕ × Option Frame)) (hip : s.Hip) (w : Client)
      → IsPolite s
      → Fine rom (name_of rom) w
      → Ensures (λ r. Fine rom (name_of rom) r.1) (rounds t rs hip w)
  unfolding rounds
  rounds-Fine rom t [] hip w polite v = v
  rounds-Fine rom t ((now, rx) ∷ rs) hip w polite v =
      Ensures->>= (λ r. Fine rom (name_of rom) r.1) (λ r. Fine rom (name_of rom) r.1) _ _
        (loop_round-Fine rom (name_of rom) (fits rom) s polite t now rx hip w v)
        λ r v'. rounds-Fine rom t rs r.0 r.1 polite v'

  -- The WiNoT client firmware, started with any ROM word, goes through any number of rounds of its
  -- loop without an access outside an array, whatever the clock of the chip reads at each and
  -- whatever frames the radio brings, for a stack that writes and sends within the buffer that it
  -- is given and names only sockets there are; at the end the node is a client with the invariant
  -- and the ROM word as its uuid.
  pub boot-rounds :
      (rom tx_power t start_time : ℕ) (rs : List (ℕ × Option Frame)) (hip : s.Hip)
      → IsPolite s
      → Ensures
          (λ r. Fine rom (name_of rom) r.1)
          (do w ← boot rom tx_power t start_time; rounds t rs hip w)
  boot-rounds rom tx_power t start_time rs hip polite =
      Ensures->>= (Fine rom (name_of rom)) (λ r. Fine rom (name_of rom) r.1) _ _
        (boot-Fine rom tx_power t start_time) λ w v. rounds-Fine rom t rs hip w polite v
