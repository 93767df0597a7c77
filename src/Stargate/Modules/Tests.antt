-- ===== src/Stargate/Modules/Tests.antt =====
-- The weight 1 over a concrete bn.js.
use cosmjs.Prelude.{ℕ, ◌-◌, ◌*◌, ◌^◌, ◌≤◌, ◌≡◌, ◌≢◌, arith, length, ok, Text, to_decimal}
use cosmjs.Math.BigNumber.{native}
use cosmjs.Stargate.Modules.Gov.{weight_to_amino, weight_from_amino}
use cosmjs.Stargate.Modules.Gov.Weights.{weight_whole}

weight_whole_example :
    (s : Text) × (read : ℕ) × (weight_to_amino native (to_decimal (1 * 10 ^ 18)) ≡ ok s)
    × (weight_from_amino native s ≡ ok (to_decimal read))
    × (read ≡ 1 * 10 ^ (20 - length (to_decimal 1)) * 10 ^ 18)
    × (10 * (1 * 10 ^ 18) ≤ read)
    × (read ≢ 1 * 10 ^ 18)
weight_whole_example = weight_whole native 1 (omega arith) (omega arith)
