-- ===== src/Receive/Hears.antt =====
-- A node handles what it hears of another node.
use ch32fun_wi_not_ap.Prelude.{
  refl, some, List, ℕ, Option, map, ◌≡◌, ◌++◌, ◌∷◌, [], Ensures, Ensures->>=,
}
use ch32fun_wi_not_ap.Memory.{Frame}
use ch32fun_wi_not_ap.Node.{Node}
use ch32fun_wi_not_ap.Radio.Tuning.{heard, tuned, sent_to, added_lem}
use ch32fun_wi_not_ap.Receive.RoundTrip.{receive_all}
use ch32fun_wi_not_ap.Receive.{process_rx}

-- The node `k` handles what it hears of a node that went from `n` to `m`.
unfoldable pub hears : (List ℕ → Frame) → Node → Node → Node → Option Node
hears deliver n m k = receive_all (map deliver (heard (tuned k.calls) n.calls m.calls)) k

module _ (deliver : List ℕ → Frame) (a c : ℕ) (n m k : Node) where
  pub hears_lem :
      (fs : List (List ℕ))
      → tuned k.calls ≡ some (a, c)
      → sent_to a c m.calls ≡ sent_to a c n.calls ++ fs
      → hears deliver n m k ≡ receive_all (map deliver fs) k
  unfolding hears heard
  hears_lem fs t s = rw (t, added_lem (sent_to a c n.calls) fs (sent_to a c m.calls) s) refl

  pub hears_one :
      (P : Node → Type 0) (f : List ℕ)
      → tuned k.calls ≡ some (a, c)
      → sent_to a c m.calls ≡ sent_to a c n.calls ++ (f ∷ [])
      → Ensures P (process_rx (deliver f) k)
      → Ensures P (hears deliver n m k)
  unfolding receive_all
  hears_one P f t s h = rw (hears_lem (f ∷ []) t s) (Ensures->>= P P _ _ h λ q p. p)
