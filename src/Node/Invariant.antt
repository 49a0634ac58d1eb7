-- ===== src/Node/Invariant.antt =====
-- What holds of a node's variables between the calls, and what `winot_change_state` does to it.
use ch32fun_wi_not_ap.Prelude.{
  Bool, Ensures, Ensures->>=, Option-cases, arith, false, get_or, get_or-set_self, inl, inr, leb,
  length, length-replicate, length-set, ltb, refl, set, some, true, zero, ℕ, ◌&&◌, ◌+◌, ◌==◌, ◌>>=◌,
  ◌||◌, ◌≡◌, ◌≤◌,
}
use ch32fun_wi_not_ap.Node.{
  Node, Role, State, active_channel, ap, ap_channel, change_state, client, clients_max,
  communicating, data_buf_size, idle, is_newrx, listening, newrx, peer_address, power_on,
  requesting, set_active_channel, advance,
}

-- The arrays have their declared sizes, and the packet fits the buffer.
pub record Sizes (n : Node) : Type 0 where
  pub buf_size : length n.data_buf ≡ data_buf_size
  pub uuids_size : length n.datachannel ≡ clients_max + 1
  pub times_size : length n.last_activity ≡ clients_max + 1
  pub len_fits : n.data_len ≤ data_buf_size

abbrev pub is_client_channel : ℕ → Bool
is_client_channel c = ltb 0 c && leb c clients_max

-- The states that a role has, and what they say of the active channel and the packet: an access
-- point communicates on the channel of a client, and a client that communicates has no packet.
abbrev pub consistent : Role → State → ℕ → ℕ → Bool
consistent ap listening c l = c == ap_channel
consistent ap communicating c l = is_client_channel c
consistent ap newrx c l = c == ap_channel || is_client_channel c
consistent client idle c l = true
consistent client requesting c l = true
consistent client communicating c l = l == 0
consistent client newrx c l = true
consistent _ _ c l = false

pub record Inv (n : Node) : Type 0 where
  pub sizes : Sizes n
  pub states : consistent n.role n.state (active_channel n) n.data_len ≡ true

pub advance-Inv : (dt : ℕ) (n : Node) → Inv n → Inv (advance dt n)
advance-Inv dt n v = record {
  sizes = record {
    buf_size = v.sizes.buf_size;
    uuids_size = v.sizes.uuids_size;
    times_size = v.sizes.times_size;
    len_fits = v.sizes.len_fits;
  };
  states = v.states;
}

-- The active channel that a change of state leaves.
abbrev pub channel_after : State → Node → ℕ
channel_after idle n = ap_channel
channel_after listening n = ap_channel
channel_after _ n = active_channel n

pub active-set : (n : Node) (c : ℕ) → Sizes n → get_or (set n.datachannel 0 c) 0 0 ≡ c
active-set n c z = get_or-set_self n.datachannel 0 c 0 (omega arith)

pub set_active_channel-Sizes : (n : Node) (c : ℕ) → Sizes n → Sizes (set_active_channel c n)
set_active_channel-Sizes n c z = omega (arith, length-set n.datachannel 0 c)

pub peer_address-runs :
    (r : Role) (n : Node)
    → (l : ℕ) → consistent r communicating (active_channel n) l ≡ true
    → Ensures (λ (a : ℕ). Unit {0}) (peer_address r n)
unfolding peer_address
peer_address-runs ap n l h = ground arith
peer_address-runs client n l h = tt

-- A change to a state that the role has, with its channel, keeps the invariant and does not fault.
pub change_state-Inv :
    (s : State) (n : Node)
    → Sizes n
    → consistent n.role s (channel_after s n) n.data_len ≡ true
    → Ensures Inv (change_state s n)
unfolding change_state
change_state-Inv idle n z h = record {
  sizes = omega (arith, length-set n.datachannel 0 ap_channel);
  states = rw (active-set n ap_channel z) h;
}
change_state-Inv listening n z h = record {
  sizes = omega (arith, length-set n.datachannel 0 ap_channel);
  states = rw (active-set n ap_channel z) h;
}
change_state-Inv requesting n z h = record { sizes = omega arith; states = h }
change_state-Inv communicating n z h =
    Ensures->>= (λ a. Unit {0}) Inv (peer_address n.role n) _
      (peer_address-runs n.role n n.data_len h) λ a _. record { sizes = omega arith; states = h }
change_state-Inv newrx n z h = record { sizes = omega arith; states = h }

-- Without a packet every state stays consistent.
pub consistent-empty :
    (r : Role) (s : State) (c l : ℕ) → consistent r s c l ≡ true → consistent r s c 0 ≡ true
consistent-empty ap listening c l h = h
consistent-empty ap communicating c l h = h
consistent-empty ap newrx c l h = h
consistent-empty ap idle c l h = cc
consistent-empty ap requesting c l h = cc
consistent-empty client communicating c l h = refl
consistent-empty client listening c l h = cc
consistent-empty client s c l h = refl

peer_address-empty :
    (r : Role) (n : Node) → peer_address r n ≡ peer_address r (record n { data_len = 0 })
unfolding peer_address
peer_address-empty ap n = refl
peer_address-empty client n = refl

-- A change of state does not look at the packet: it may be dropped before it or after it.
pub change_state-empty :
    (s : State) (n : Node)
    → (change_state s n >>= λ m. some (record m { data_len = 0 }))
      ≡ change_state s (record n { data_len = 0 })
unfolding change_state
change_state-empty idle n = refl
change_state-empty listening n = refl
change_state-empty requesting n = refl
change_state-empty newrx n = refl
change_state-empty communicating n =
    rw (← peer_address-empty n.role n)
      (elim (Option-cases (peer_address n.role n)) [ inl e ↦ rw e | inr (a, e) ↦ rw e ])

pub is_newrx_eq : (s : State) → is_newrx s ≡ true → s ≡ newrx
is_newrx_eq newrx h = refl
is_newrx_eq idle h = cc
is_newrx_eq listening h = cc
is_newrx_eq requesting h = cc
is_newrx_eq communicating h = cc

pub power_on-Sizes : (uuid : ℕ) → Sizes (power_on uuid)
power_on-Sizes uuid =
    omega (arith, length-replicate data_buf_size (zero), length-replicate (clients_max + 1) (zero))
