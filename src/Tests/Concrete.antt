-- ===== src/Tests/Concrete.antt =====
-- Concrete functions in the place of the third-party packages: whole numbers as decimals, numbers as
-- session ids, and messages as lists of tags with their values.
use fix_session_lab.Base.{
  ℕ, ◌+◌, ◌≡◌, refl, Bool, true, false, not, List, [], ◌∷◌, Option, none, some, ite, ℕ_discrete,
  arith,
}
use Prim.Native.Nat.{◌/◌}
use fix_session_lab.Base.Int.{ℤ, pos, pos_part, neg_part, ◌+ℤ◌, ◌-ℤ◌, ◌*ℤ◌, leb_ℤ, ℤ_discrete}
use fix_session_lab.Base.Atoi.{Parsed, atoi}
use fix_session_lab.Base.Lists.{ltb, if◌then◌else◌}
use fix_session_lab.Base.Text.{Text, codes, text_dec}
use fix_session_lab.Deps.{Deps, DecimalLaws, MessageLaws, Result, ok, err, engine_reject, Rejection}

pub data Value : Type 0 where
  text : Text → Value
  number : ℤ → Value

abbrev pub Fields : Type 0
Fields = List (ℕ × Value)

abbrev pub field : ℕ → Fields → Option Value
field t [] = none
field t ((u, v) ∷ m) = ite (ℕ_discrete u t) (some v) (field t m)

abbrev pub text_of : Option Value → Result Rejection Text
text_of (some (text v)) = ok v
text_of _ = err (engine_reject 1)

abbrev pub number_of : Option Value → Result Rejection ℤ
number_of (some (number v)) = ok v
number_of _ = err (engine_reject 1)

abbrev pub flag_of : Option Value → Result Rejection Bool
flag_of (some (text v)) = ok (ite (text_dec v (codes "Y")) true false)
flag_of _ = err (engine_reject 1)

-- Whole numbers only.
abbrev pub whole_of_parsed : Text → Parsed ℤ → Result Text ℤ
whole_of_parsed s (Parsed.number z) = ok z
whole_of_parsed s _ = err s

abbrev pub whole_of_text : Text → Result Text ℤ
whole_of_text s = whole_of_parsed s (atoi s)

instance abbrev pub plain : Deps
plain = record {
  Decimal = ℤ;
  zero_dec = pos 0;
  add = ◌+ℤ◌;
  sub = ◌-ℤ◌;
  mul = ◌*ℤ◌;
  div = λ a b. pos (pos_part a / pos_part b);
  less_eq = leb_ℤ;
  greater = λ a b. not (leb_ℤ a b);
  equal = λ a b. ite (ℤ_discrete a b) true false;
  is_zero = λ a. ite (ℤ_discrete a (pos 0)) true false;
  fixed = λ a s. a;
  decimal_of_text = whole_of_text;
  SessionId = ℕ;
  session_dec = ℕ_discrete;
  no_session = 0;
  -- a client's ends of its sessions are numbered from 5 on, the venue's below
  sender_comp_id = λ id. if ltb id 5 then codes "VENUE" else codes "CLIENT";
  target_comp_id = λ id. if ltb id 5 then codes "CLIENT" else codes "VENUE";
  session_string = λ id. codes "FIX.4.4:VENUE->CLIENT";
  Message = Fields;
  header_string = λ m t. text_of (field t m);
  header_int = λ m t. number_of (field t m);
  header_bool = λ m t. flag_of (field t m);
  body_string = λ m t. text_of (field t m);
  body_int = λ m t. number_of (field t m);
  body_decimal = λ m t. number_of (field t m);
  set_string = λ m t v. (t, text v) ∷ m;
  set_int = λ m t v. (t, number v) ∷ m;
}

+ℤ_parts :
    (a b : ℤ)
    → pos_part (a +ℤ b) + neg_part a + neg_part b ≡ neg_part (a +ℤ b) + pos_part a + pos_part b
unfolding ◌+ℤ◌
+ℤ_parts a b = ground arith

-ℤ_parts :
    (a b : ℤ)
    → pos_part (a -ℤ b) + neg_part a + pos_part b ≡ neg_part (a -ℤ b) + pos_part a + neg_part b
unfolding ◌-ℤ◌
-ℤ_parts a b = ground arith

eq_of_parts : (a b : ℤ) → pos_part a + neg_part b ≡ pos_part b + neg_part a → a ≡ b
eq_of_parts a b h = ground arith

ruleset parts = (arith, +ℤ_parts, -ℤ_parts, eq_of_parts)

add_assoc_ℤ : (a b c : ℤ) → a +ℤ b +ℤ c ≡ a +ℤ (b +ℤ c)
add_assoc_ℤ a b c = eq_of_parts _ _ (omega parts)

pub plain-DecimalLaws : DecimalLaws plain
plain-DecimalLaws = record {
  add_comm = λ a b. eq_of_parts _ _ (omega parts);
  add_assoc = add_assoc_ℤ;
  add_zero = λ a. eq_of_parts _ _ (omega parts);
  sub_add = λ a b. eq_of_parts _ _ (omega parts);
  add_sub = λ a b. eq_of_parts _ _ (omega parts);
  le_refl = λ a. ground arith;
  le_trans = λ a b c h k. ground arith;
  le_antisymm = λ a b h k. eq_of_parts _ _ (ground arith);
  le_total = λ a b h. ground arith;
  le_add = λ a b c h. ground (arith, +ℤ_parts a c, +ℤ_parts b c);
  greater_lem = λ a b. refl;
  equal_iff = λ a b. (λ e. ground arith, λ e. ground arith);
}

pub plain-MessageLaws : MessageLaws plain
plain-MessageLaws = record {
  string_set_string = λ m t u v. ground arith;
  string_set_int = λ m t u v h. ground arith;
  int_set_int = λ m t u v. ground arith;
  int_set_string = λ m t u v h. ground arith;
}
