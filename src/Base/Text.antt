-- ===== src/Base/Text.antt =====
-- Text as the list of its bytes, its decidable equality, and fmt.Sprintf's %06d.
use Prim.Native.Char.{code}
use Prim.Native.Nat.{ℕ, zero, suc, ◌+◌, ◌-◌, ◌*◌, ◌/◌, ◌%◌, ◌<◌}
use Prim.Native.String.{String}
use mathlib.Core.List.{List, [], ◌∷◌, ◌++◌}
use mathlib.Core.Path.{◌≡◌, refl, ap, sym, ◌∙◌}
use native.Mathlib.Omega.{arith}
use fix_session_lab.Base.Lists.{length, ltb, if◌then◌else◌, Bool-cases}
use mathlib.Core.Logic.{inl, inr}
unfoldable use native.Mathlib.Decide.{ℕ_discrete}

abbrev pub Text : Type 0
Text = List ℕ

-- The bytes of a literal, which are its characters as long as the text is ASCII.
abbrev pub codes : String → Text
codes String.[] = []
codes (String.◌∷◌ c s) = code c ∷ codes s

unfoldable pub text_dec : Discrete Text
unfolding ℕ_discrete
text_dec = hlevel ℕ_discrete

-- The decimal digits of `n` in front of `out`, the last digit first; a number below its fuel is
-- printed whole.
digits : ℕ → ℕ → Text → Text
digits zero n out = out
digits (suc fuel) n out =
    let rest = digits fuel (n / 10) ((b'0' + n % 10) ∷ out) in
    if ltb n 10 then (b'0' + n) ∷ out else rest

abbrev zeros : ℕ → Text → Text
zeros zero s = s
zeros (suc k) s = b'0' ∷ zeros k s

-- fmt.Sprintf("%06d", n) for a number that is not negative.
unfoldable pub pad6 : ℕ → Text
unfolding digits
pad6 n = let s = digits (suc n) n [] in zeros (6 - length s) s

-- The number that digits spell behind `n`.
value : ℕ → Text → ℕ
value n [] = n
value n (c ∷ s) = value (n * 10 + (c - b'0')) s

value-digits : (fuel n : ℕ) (out : Text) → n < fuel → value 0 (digits fuel n out) ≡ value n out
unfolding digits value
value-digits zero n out h = elim h [ ]
value-digits (suc fuel) n out h = elim (Bool-cases (ltb n 10)) [
  | inl small ↦ rw small (ap (λ k. value k out) (omega arith))
  | inr big ↦ rw big (
      value-digits fuel (n / 10) ((b'0' + n % 10) ∷ out) (ground arith)
      ∙ ap (λ k. value k out) (omega arith))
]

value-zeros : (k : ℕ) (s : Text) → value 0 (zeros k s) ≡ value 0 s
unfolding value
value-zeros zero s = refl
value-zeros (suc k) s = value-zeros k s

value-pad6 : (n : ℕ) → value 0 (pad6 n) ≡ n
unfolding pad6 value
value-pad6 n =
    let s = digits (suc n) n [] in
    value-zeros (6 - length s) s ∙ value-digits (suc n) n [] (omega arith)

pub pad6-injective : (m n : ℕ) → pad6 m ≡ pad6 n → m ≡ n
pad6-injective m n e = sym (value-pad6 m) ∙ ap (value 0) e ∙ value-pad6 n

pub append-cancel_left : (p s t : Text) → p ++ s ≡ p ++ t → s ≡ t
append-cancel_left [] s t e = e
append-cancel_left (c ∷ p) s t e = append-cancel_left p s t (cc)

pad6_42 : pad6 42 ≡ codes "000042"
unfolding pad6
pad6_42 = refl

pad6_long : pad6 1234567 ≡ codes "1234567"
unfolding pad6
pad6_long = refl
