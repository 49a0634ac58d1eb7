-- ===== src/Descriptor/Examples.antt =====
-- The theorems on the descriptors at concrete inputs.
use ch32fun_wi_not_ap.Prelude.{[], ◌∷◌, some, ◌++◌, ◌≡◌, take, arith}
use ch32fun_wi_not_ap.Descriptor.{config_descriptor, config_parts}
use ch32fun_wi_not_ap.Descriptor.Layout.{split, total_length, split-config_descriptor}

split-config_descriptor_example :
    let bytes = config_descriptor ++ (0xab ∷ 0xcd ∷ []) in
    split 20 (take (total_length bytes) bytes) ≡ some config_parts
split-config_descriptor_example = split-config_descriptor (0xab ∷ 0xcd ∷ []) 20 (omega arith)
