-- ===== src/Node.antt =====
-- The global variables of WiNot.h as one record, and `winot_change_state`.
pub mod Invariant
pub mod Destination
use ch32fun_wi_not_ap.Prelude.{
  ℕ, Bool, true, false, ◌+◌, ◌*◌, ◌^◌, ◌%◌, List, [], ◌∷◌, Option, none, some, ltb, if◌then◌else◌,
  ◌>>=◌, get_or, set, replicate,
}
use ch32fun_wi_not_ap.Memory.{frame_of, load_word}
use ch32fun_wi_not_ap.Radio.{Call, listen}

abbrev pub ap_access_address : ℕ
ap_access_address = 0x63683332

abbrev pub ap_channel : ℕ
ap_channel = 35

abbrev pub clients_max : ℕ
clients_max = 32

abbrev pub fragment_size : ℕ
fragment_size = 245

abbrev pub fragmented : ℕ
fragmented = 0x08

abbrev pub fragments_max : ℕ
fragments_max = 7

abbrev pub response_window_ms : ℕ
response_window_ms = 20

abbrev pub data_buf_size : ℕ
data_buf_size = fragment_size * fragments_max

pub data Role : Type 0 where
  client ap : Role

pub data State : Type 0 where
  idle listening requesting communicating newrx : State

-- `calls` holds the calls made of the radio driver, the latest first; `uuid` is the word in ROM
-- that WINOT_ACCESSADDRESS_PRIV reads. Times are the 32-bit words of the C variables.
pub record Node : Type 0 where
  pub role : Role
  pub uuid : ℕ
  pub state : State
  pub data_buf : List ℕ
  pub data_len : ℕ
  pub fragments_received : ℕ
  pub datachannel : List ℕ
  pub last_activity : List ℕ
  pub tick : ℕ
  pub last_change : ℕ
  pub calls : List Call

-- The variables as the C runtime initialises them.
abbrev pub power_on : ℕ → Node
power_on uuid = record {
  role = client;
  uuid = uuid;
  state = idle;
  data_buf = replicate data_buf_size 0;
  data_len = 0;
  fragments_received = 0;
  datachannel = replicate (clients_max + 1) 0;
  last_activity = replicate (clients_max + 1) 0;
  tick = 0;
  last_change = 0;
  calls = [];
}

abbrev pub is_newrx : State → Bool
is_newrx newrx = true
is_newrx _ = false

abbrev pub is_listening : State → Bool
is_listening listening = true
is_listening _ = false

abbrev pub is_client : Role → Bool
is_client client = true
is_client ap = false

-- Where a node waits when it is on no data channel.
abbrev pub rest_state : Role → State
rest_state ap = listening
rest_state client = idle

-- `gs_datachannel[WINOT_ACTIVE_DATACHANNEL]`
abbrev pub active_channel : Node → ℕ
active_channel n = get_or n.datachannel 0 0

abbrev pub set_active_channel : ℕ → Node → Node
set_active_channel c n = record n { datachannel = set n.datachannel 0 c }

-- A read of one of the two tables of WINOT_AP_CLIENTS_MAX + 1 words.
abbrev pub entry : List ℕ → ℕ → Option ℕ
entry table i = if ltb i (clients_max + 1) then some (get_or table i 0) else none

-- WINOT_DATA_DEST_UUID(gs_winot_data_buf)
unfoldable pub dest_uuid : List ℕ → ℕ
dest_uuid buf = load_word (frame_of buf) 2

abbrev pub emit : Call → Node → Node
emit c n = record n { calls = c ∷ n.calls }

-- `gs_current_tick_ms += ms`
abbrev pub advance : ℕ → Node → Node
advance ms n = record n { tick = (n.tick + ms) % 2 ^ 32 }

-- The access address of the data channel: the client's, which an AP finds in its table.
unfoldable pub peer_address : Role → Node → Option ℕ
peer_address ap n = entry n.datachannel (active_channel n)
peer_address client n = some n.uuid

-- The last two lines of `winot_change_state`.
abbrev pub enter : State → Node → Node
enter s n = record n { last_change = n.tick; state = s }

unfoldable pub change_state : State → Node → Option Node
unfolding peer_address
change_state idle n = some (enter idle (set_active_channel ap_channel n))
change_state listening n =
    some (
      enter listening
        (emit (listen ap_access_address ap_channel) (set_active_channel ap_channel n)))
change_state requesting n = some (enter requesting (emit (listen n.uuid ap_channel) n))
change_state communicating n = do
  address ← peer_address n.role n
  some (enter communicating (emit (listen address (active_channel n)) n))
change_state newrx n = some (enter newrx n)
