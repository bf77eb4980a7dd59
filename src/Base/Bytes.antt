-- ===== src/Base/Bytes.antt =====
-- `std::string`: a list of bytes, its order, and what `c_str` shows of it.
use Prim.Native.Nat.{ℕ}
use Prim.Native.Char.{code}
use Prim.Native.String.{String}
use mathlib.Core.Path.{◌≡◌, refl}
use mathlib.Core.Bool.{Bool, true, false}
use mathlib.Core.List.{List, [], ◌∷◌}
use native.Mathlib.Omega.{arith}
use native.Mathlib.Decide.{ℕ_discrete}
use rsb_spread_cpp.Base.Tests.{ltb, ◌==◌, if◌then◌else◌}

abbrev pub Text : Type 0
Text = List ℕ

-- A literal, whose characters are ASCII.
unfoldable pub bytes : String → Text
bytes String.[] = []
bytes (String.◌∷◌ c s) = code c ∷ bytes s

unfoldable pub Text_discrete : Discrete Text
unfolding ℕ_discrete
Text_discrete = hlevel ℕ_discrete

-- `operator<`: lexicographic, by unsigned bytes.
unfoldable pub text_ltb : Text → Text → Bool
text_ltb [] [] = false
text_ltb [] (b ∷ y) = true
text_ltb (a ∷ x) [] = false
text_ltb (a ∷ x) (b ∷ y) = if ltb a b then true else if ltb b a then false else text_ltb x y

-- The text up to its first NUL byte.
unfoldable pub c_str : Text → Text
c_str [] = []
c_str (a ∷ x) = if a == 0 then [] else a ∷ c_str x

pub text_ltb_irrefl : (x : Text) → text_ltb x x ≡ false
unfolding text_ltb
text_ltb_irrefl [] = refl
text_ltb_irrefl (a ∷ x) = ground (arith, text_ltb_irrefl x)

pub text_ltb_trans :
    (x y z : Text) → text_ltb x y ≡ true → text_ltb y z ≡ true → text_ltb x z ≡ true
unfolding text_ltb
text_ltb_trans [] [] z h k = cc
text_ltb_trans [] (b ∷ y) [] h k = cc
text_ltb_trans [] (b ∷ y) (c ∷ z) h k = refl
text_ltb_trans (a ∷ x) [] z h k = cc
text_ltb_trans (a ∷ x) (b ∷ y) [] h k = cc
text_ltb_trans (a ∷ x) (b ∷ y) (c ∷ z) h k = ground (arith, text_ltb_trans x y z)

pub text_ltb_total : (x y : Text) → text_ltb x y ≡ false → text_ltb y x ≡ false → x ≡ y
unfolding text_ltb
text_ltb_total [] [] h k = refl
text_ltb_total [] (b ∷ y) h k = cc
text_ltb_total (a ∷ x) [] h k = cc
text_ltb_total (a ∷ x) (b ∷ y) h k = ground (arith, text_ltb_total x y)
