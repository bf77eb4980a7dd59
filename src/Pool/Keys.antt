-- ===== src/Pool/Keys.antt =====
-- The keys of the pool tell notifications apart.
use rsb_spread_cpp.Base.{
  ℕ, ◌/◌, ◌%◌, ◌^◌, ◌<◌, ◌≡◌, refl, ap, ◌↔◌, [], ◌∷◌, ◌++◌, arith, length, length-append, Text,
}
use rsb_spread_cpp.Protocol.{Fragment}
use rsb_spread_cpp.Pool.{key_of}

append_injective :
    (xs ys l m : Text) → length l ≡ length m → xs ++ l ≡ ys ++ m → (xs ≡ ys) × (l ≡ m)
append_injective [] [] l m n e = (refl, e)
append_injective [] (y ∷ ys) l m n e = absurd (omega (arith, ap length e, length-append ys m))
append_injective (x ∷ xs) [] l m n e = absurd (omega (arith, ap length e, length-append xs l))
append_injective (x ∷ xs) (y ∷ ys) l m n e =
    let t = append_injective xs ys l m n (cc) in (cc (t.0), t.1)

bytes_injective :
    (a b : ℕ)
    → a < 2 ^ 32
    → b < 2 ^ 32
    → a % 256 ≡ b % 256
    → a / 2 ^ 8 % 256 ≡ b / 2 ^ 8 % 256
    → a / 2 ^ 16 % 256 ≡ b / 2 ^ 16 % 256
    → a / 2 ^ 24 % 256 ≡ b / 2 ^ 24 % 256
    → a ≡ b
bytes_injective a b ha hb e0 e1 e2 e3 = omega arith

-- Fragments that share a key are of one sender and have one sequence number, as far as sequence
-- numbers stay below 2^32; and fragments of one notification always share it.
pub key_of_iff :
    (f g : Fragment)
    → f.sequence_number < 2 ^ 32
    → g.sequence_number < 2 ^ 32
    → (key_of f ≡ key_of g)
      ↔ ((f.sender_id ≡ g.sender_id) × (f.sequence_number ≡ g.sequence_number))
unfolding key_of
key_of_iff f g hf hg = (
  λ e.
      let (s, t) = append_injective f.sender_id g.sender_id _ _ refl e in
      (s, bytes_injective f.sequence_number g.sequence_number hf hg (cc t) (cc t) (cc t) (cc t)),
  λ e. rw (e.0, e.1),
)
