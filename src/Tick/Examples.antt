-- ===== src/Tick/Examples.antt =====
-- The theorem on the response window at a concrete node.
use ch32fun_wi_not_ap.Prelude.{
  refl, some, inr, zero, ◌∷◌, get_or, ◌≡◌, replicate, ◌+◌, arith, ◌%◌, length-replicate, ◌^◌,
  Ensures,
}
use ch32fun_wi_not_ap.Node.{ap, communicating, Node, power_on}
use ch32fun_wi_not_ap.Tick.Window.{quiet, Rested, quiet-Rested}
use ch32fun_wi_not_ap.Node.Invariant.{Inv, power_on-Sizes}

-- An access point that has been on the channel of its fourth client for 5 ms, while the clock ran over.
abbrev waiting_ap : Node
waiting_ap = record (power_on 9) {
  role = ap;
  state = communicating;
  datachannel = 4 ∷ replicate 32 0;
  tick = 2;
  last_change = 4294967293;
}

waiting_ap-Inv : Inv waiting_ap
unfolding get_or
waiting_ap-Inv = record {
  sizes =
      let z = power_on-Sizes 9 in
      record {
        buf_size = z.buf_size;
        uuids_size = omega (arith, length-replicate 32 (zero));
        times_size = z.times_size;
        len_fits = omega arith;
      };
  states = refl;
}

quiet-Rested_example :
    (quiet 15 waiting_ap ≡ some (record waiting_ap { tick = (2 + 15) % 2 ^ 32 }))
    × Ensures (Rested waiting_ap) (quiet 16 waiting_ap)
quiet-Rested_example = quiet-Rested 15 5 waiting_ap (omega arith) waiting_ap-Inv (record {
  tick_word = omega arith;
  change_word = omega arith;
  elapsed = refl;
  phase = inr (refl, refl);
})
