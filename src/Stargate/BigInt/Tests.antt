-- ===== src/Stargate/BigInt/Tests.antt =====
-- `BigInt(text)` on texts of each form.
use cosmjs.Prelude.{◌≡◌, refl, [], ok, codes}
use cosmjs.Prelude.Int.{pos}
use cosmjs.Amino.Coins.{is_space}
use cosmjs.Stargate.BigInt.{big_int, trim_start, trim_end, radix_value}

big_int_hex : big_int (codes " 0x1F ") ≡ ok (pos 31)
unfolding big_int trim_start trim_end is_space radix_value
big_int_hex = refl

big_int_empty : big_int [] ≡ ok (pos 0)
unfolding big_int trim_start trim_end
big_int_empty = refl
