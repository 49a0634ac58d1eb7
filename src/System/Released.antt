-- ===== src/System/Released.antt =====
-- A node whose packet was released has none.
use ch32fun_wi_not_ap.Prelude.{
  true, false, none, some, ◌>>=◌, refl, Option, Bool, ℕ, if◌then◌else◌, ◌≡◌, Ensures, Bool-cases,
  inr, inl, ◌==◌,
}
use ch32fun_wi_not_ap.System.Owned.{Owned, release_packet-Owned}
use ch32fun_wi_not_ap.Node.{
  ap, client, idle, listening, requesting, communicating, newrx, Node, change_state, Role, is_newrx,
  State, peer_address, rest_state, active_channel, ap_channel,
}
use ch32fun_wi_not_ap.Request.{release_packet}

-- What a call leaves, if it returns.
abbrev pub Leaves : (Node → Type 0) → Option Node → Type 0
Leaves P none = Unit {0}
Leaves P (some n) = P n

pub Leaves-after {ℓ} :
    {A : Type ℓ} (P : Node → Type 0) (m : Option A) (f : A → Option Node)
    → ((a : A) → Leaves P (f a))
    → Leaves P (m >>= f)
Leaves-after P none f h = tt
Leaves-after P (some a) f h = h a

pub Leaves->>= :
    (P Q : Node → Type 0) (m : Option Node) (f : Node → Option Node)
    → Leaves P m
    → ((n : Node) → P n → Leaves Q (f n))
    → Leaves Q (m >>= f)
Leaves->>= P Q none f h k = tt
Leaves->>= P Q (some n) f h k = k n h

pub Leaves-mono :
    (P Q : Node → Type 0) (m : Option Node) → ((n : Node) → P n → Q n) → Leaves P m → Leaves Q m
Leaves-mono P Q none f h = tt
Leaves-mono P Q (some n) f h = f n h

-- What a call leaves besides, of a call that returns.
pub Leaves-both :
    (P Q : Node → Type 0) (m : Option Node) → Ensures P m → Leaves Q m → Ensures (λ n. P n × Q n) m
Leaves-both P Q none h k = h
Leaves-both P Q (some n) h k = (h, k)

change_state-Leaves : (s : State) (n : Node) → Leaves (λ m. m.state ≡ s) (change_state s n)
unfolding change_state
change_state-Leaves idle n = refl
change_state-Leaves listening n = refl
change_state-Leaves requesting n = refl
change_state-Leaves newrx n = refl
change_state-Leaves communicating n =
    Leaves-after (λ m. m.state ≡ communicating) (peer_address n.role n) _ λ a. refl

-- The state after the release.
next_state : (r : Role) (b : Bool) → is_newrx (if b then rest_state r else communicating) ≡ false
next_state ap true = refl
next_state client true = refl
next_state ap false = refl
next_state client false = refl

release_packet-Leaves : (n : Node) → Leaves (λ m. is_newrx m.state ≡ false) (release_packet n)
unfolding release_packet
release_packet-Leaves n = elim (Bool-cases (is_newrx n.state)) [
  | inr without ↦ rw without without
  | inl full ↦
      let s = if active_channel n == ap_channel then rest_state n.role else communicating in
      rw full (
        Leaves->>= (λ m. m.state ≡ s) (λ m. is_newrx m.state ≡ false) (change_state s n) _
          (change_state-Leaves s n)
          λ m e. rw e (next_state n.role (active_channel n == ap_channel)))
]

meet :
    (P Q : Node → Type 0) (m : Option Node) → Ensures P m → Leaves Q m → Ensures (λ n. P n × Q n) m
meet P Q none h k = h
meet P Q (some n) h k = (h, k)

-- The call returns, and what it leaves has no packet.
pub release_packet-gone :
    (r : Role) (u : ℕ) (n : Node)
    → Owned r u n
    → Ensures (λ m. Owned r u m × (is_newrx m.state ≡ false)) (release_packet n)
release_packet-gone r u n o =
    meet (Owned r u) (λ m. is_newrx m.state ≡ false) _ (release_packet-Owned n o)
      (release_packet-Leaves n)
