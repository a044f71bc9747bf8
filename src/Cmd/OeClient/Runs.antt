-- ===== src/Cmd/OeClient/Runs.antt =====
-- The ClOrdIDs of two runs of the order-entry program: the prefix of cmd/oe-client/main.go in Send of
-- internal/client/oe.go.
use fix_session_lab.Base.{
  ℕ, zero, suc, ◌+◌, ◌*◌, ◌-◌, ◌/◌, ◌%◌, ◌^◌, ◌≤◌, ◌<◌, ◌≡◌, ◌≢◌, refl, sym, ap, ◌∙◌, [], ◌∷◌, ◌++◌,
  inl, inr, arith, true, false,
}
use fix_session_lab.Base.Lists.{length, Bool-cases, ltb, if◌then◌else◌}
use fix_session_lab.Base.Text.{Text, codes, append-cancel_left}
use fix_session_lab.Client.OrderEntry.{cl_ord_id_of}
use fix_session_lab.Cmd.OeClient.{digits_36, prefix_at}
use fix_session_lab.Deps.{Deps}

-- What a digit of base 36 stands for.
digit_36 : ℕ → ℕ
digit_36 c = if ltb c b'a' then c - b'0' else c - b'a' + 10

-- The number that digits spell behind `n`.
value_36 : ℕ → Text → ℕ
value_36 n [] = n
value_36 n (c ∷ s) = value_36 (n * 36 + digit_36 c) s

-- The character of a digit.
abbrev char_36 : ℕ → ℕ
char_36 d = if ltb d 10 then b'0' + d else b'a' + (d - 10)

digit_36-char_36 : (d : ℕ) → d < 36 → digit_36 (char_36 d) ≡ d
unfolding digit_36
digit_36-char_36 d h = ground arith

value_36-digits_36 :
    (fuel n : ℕ) (out : Text) → n < fuel → value_36 0 (digits_36 fuel n out) ≡ value_36 n out
unfolding digits_36 value_36
value_36-digits_36 zero n out h = elim h [ ]
value_36-digits_36 (suc fuel) n out h =
    let d = digit_36-char_36 (n % 36) (omega arith) in
    elim (Bool-cases (ltb n 36)) [
      | inl small ↦
          let low : n < 36 = ground arith in rw small (ap (λ k. value_36 k out) (omega (arith, d)))
      | inr big ↦ rw big (
          value_36-digits_36 fuel (n / 36) (char_36 (n % 36) ∷ out) (ground arith)
          ∙ ap (λ k. value_36 k out) (omega (arith, d)))
    ]

prefix_at-injective : (m n : ℕ) → prefix_at m ≡ prefix_at n → m ≡ n
unfolding prefix_at value_36
prefix_at-injective m n e =
    sym (value_36-digits_36 (suc m) m [] (omega arith))
    ∙ ap (value_36 0) e
    ∙ value_36-digits_36 (suc n) n [] (omega arith)

abbrev power_36 : ℕ → ℕ
power_36 zero = 1
power_36 (suc k) = 36 * power_36 k

length-digits_36 :
    (k fuel n : ℕ) (out : Text)
    → n < fuel
    → power_36 k ≤ n
    → n < power_36 (suc k)
    → length (digits_36 fuel n out) ≡ suc k + length out
unfolding digits_36
length-digits_36 k zero n out h low high = elim h [ ]
length-digits_36 zero (suc fuel) n out h low high =
    let small : ltb n 36 ≡ true = ground arith in rw small (omega arith)
length-digits_36 (suc k) (suc fuel) n out h low high =
    let big : ltb n 36 ≡ false = ground arith in
    rw big (
      length-digits_36 k fuel (n / 36) (char_36 (n % 36) ∷ out) (ground arith) (omega arith)
        (omega arith)
      ∙ omega arith)

append-prefix : (p q s t : Text) → length p ≡ length q → p ++ s ≡ q ++ t → p ≡ q
append-prefix [] [] s t h e = refl
append-prefix [] (d ∷ q) s t h e = cc
append-prefix (c ∷ p) [] s t h e = cc
append-prefix (c ∷ p) (d ∷ q) s t h e =
    let rest : p ≡ q = append-prefix p q s t (omega (arith, h)) cc in cc

-- Two runs of the order-entry program that draw their prefixes at different times, both between 36 ^
-- 11 and 36 ^ 12 nanoseconds after the epoch, give no ClOrdID in common, whatever their counters.
pub runs-Distinct :
    ⦃L : Deps⦄ (m n i j : ℕ)
    → m ≢ n
    → 36 ^ 11 ≤ m
    → m < 36 ^ 12
    → 36 ^ 11 ≤ n
    → n < 36 ^ 12
    → cl_ord_id_of (prefix_at m) i ≢ cl_ord_id_of (prefix_at n) j
unfolding cl_ord_id_of prefix_at
runs-Distinct m n i j apart low_m high_m low_n high_n e = apart (
    prefix_at-injective m n (
      append-prefix (prefix_at m) (prefix_at n) _ _
        (length-digits_36 11 (suc m) m [] (omega arith) low_m high_m
          ∙ sym (length-digits_36 11 (suc n) n [] (omega arith) low_n high_n))
        (append-cancel_left (codes "CL") _ _ e)))
