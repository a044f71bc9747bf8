-- ===== src/Base/Atoi.antt =====
-- strconv.Atoi on a 64-bit machine.
use Prim.Native.Nat.{ℕ, zero, suc, ◌+◌, ◌-◌, ◌*◌, ◌^◌, ◌≤◌}
use mathlib.Core.Bool.{Bool, true, false, ◌||◌}
use mathlib.Core.List.{[], ◌∷◌}
use mathlib.Core.Path.{◌≡◌}
use native.Mathlib.Omega.{arith}
use fix_session_lab.Base.Int.{ℤ, pos, negsuc, pos_part, neg_part}
use fix_session_lab.Base.Lists.{ltb, leb, ◌==◌, if◌then◌else◌}
use fix_session_lab.Base.Text.{Text}

-- ErrSyntax and ErrRange, and the number otherwise.
pub data Parsed (A : Type 0) : Type 0 where
  number : A → Parsed A
  bad_syntax out_of_range : Parsed A

abbrev pub max_uint64 : ℕ
max_uint64 = 2 ^ 64 - 1

-- The loop of ParseUint in base 10, behind the number that the digits before spell.
unfoldable pub parse_digits : Text → ℕ → Parsed ℕ
parse_digits [] n = number n
parse_digits (c ∷ s) n =
    let m = n * 10 + (c - b'0') in
    let rest = parse_digits s m in
    if ltb c b'0' || ltb b'9' c
    then bad_syntax
    else (if ltb max_uint64 m then out_of_range else rest)

unfoldable pub parse_uint : Text → Parsed ℕ
unfolding parse_digits
parse_uint [] = bad_syntax
parse_uint (c ∷ s) = parse_digits (c ∷ s) 0

-- The bounds of ParseInt, for a text without and with a minus.
unfoldable pub signed : Bool → Parsed ℕ → Parsed ℤ
signed negative bad_syntax = bad_syntax
signed negative out_of_range = out_of_range
signed false (number n) = if leb (2 ^ 63) n then out_of_range else number (pos n)
signed true (number zero) = number (pos 0)
signed true (number (suc n)) = if leb (2 ^ 63) n then out_of_range else number (negsuc n)

unfoldable pub atoi : Text → Parsed ℤ
unfolding parse_uint signed
atoi [] = bad_syntax
atoi (c ∷ s) =
    if c == b'-'
    then signed true (parse_uint s)
    else (if c == b'+' then signed false (parse_uint s) else signed false (parse_uint (c ∷ s)))

-- The int64 numbers.
abbrev pub IsInt64 : ℤ → Type 0
IsInt64 z = (suc (pos_part z) ≤ 2 ^ 63) × (neg_part z ≤ 2 ^ 63)

signed-IsInt64 : (b : Bool) (r : Parsed ℕ) {z : ℤ} → signed b r ≡ number z → IsInt64 z
unfolding signed
signed-IsInt64 b r {z} h = ground arith

pub atoi-IsInt64 : (s : Text) {z : ℤ} → atoi s ≡ number z → IsInt64 z
unfolding atoi
atoi-IsInt64 [] h = cc
atoi-IsInt64 (c ∷ s) {z} h = ground (
  arith,
  signed-IsInt64 true (parse_uint s) {z = z},
  signed-IsInt64 false (parse_uint s) {z = z},
  signed-IsInt64 false (parse_uint (c ∷ s)) {z = z},
)
