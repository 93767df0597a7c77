-- ===== src/Prelude/Finished.antt =====
-- Loops that the model bounds by a number: what stands for a loop cut short, and that a result is
-- not that.
use Prim.Native.String.{String}
use text.Mathlib.Text.{◌==◌ as str_eq}
use mathlib.Core.Path.{◌≡◌, refl}
use mathlib.Core.Bool.{Bool, true, false}
use cosmjs.Prelude.Tests.{if◌then◌else◌}
use cosmjs.Prelude.Results.{Result, ok, throws, ◌>>=◌, ◌>>◌, throw_if}

-- What the model throws where its bound on the recursion is used up.
abbrev pub out_of_fuel : String
out_of_fuel = "out of fuel"

-- The result is not the one that stands for a recursion cut short.
pub data IsFinished {A : Type 0} : Result A → Type 0 where
  returned : {a : A} → IsFinished (ok a)
  failed : {m : String} → str_eq m out_of_fuel ≡ false → IsFinished (throws m)

pub IsFinished-bind :
    {A B : Type 0} (r : Result A) (f : A → Result B)
    → IsFinished r
    → ((a : A) → r ≡ ok a → IsFinished (f a))
    → IsFinished (r >>= f)
IsFinished-bind (ok a) f h k = k a refl
IsFinished-bind (throws m) f (failed h) k = failed h

pub IsFinished-guard :
    {B : Type 0} (b : Bool) (m : String) (k : Result B)
    → str_eq m out_of_fuel ≡ false
    → (b ≡ false → IsFinished k)
    → IsFinished (throw_if b m >> k)
IsFinished-guard true m k h go = failed h
IsFinished-guard false m k h go = go refl

pub IsFinished-if :
    {B : Type 0} (b : Bool) (x y : Result B)
    → IsFinished x
    → IsFinished y
    → IsFinished (if b then x else y)
IsFinished-if true x y h k = h
IsFinished-if false x y h k = k
