-- ===== src/Fixlog.antt =====
-- The log factory's masking, internal/fixlog/redact.go, over bytes. An int is kept as its 64-bit
-- pattern, which is all that the comparisons here see of it.
pub mod Fields
pub mod Masking
pub mod Logger
use fix_session_lab.Base.{
  ℕ, zero, suc, ◌+◌, ◌-◌, ◌*◌, ◌%◌, ◌^◌, ◌++◌, Bool, true, false, ◌||◌, List, [], ◌∷◌, Option, none,
  some,
}
use fix_session_lab.Base.Lists.{length, ltb, ◌==◌, if◌then◌else◌, any_of}
use fix_session_lab.Base.Text.{Text, codes}

abbrev pub soh : ℕ
soh = 1

abbrev pub display_sep : ℕ
display_sep = b'|'

abbrev pub mask : Text
mask = codes "****"

abbrev pub secret_tags : List ℕ
secret_tags = 96 ∷ 554 ∷ []

-- bytes.IndexByte, with `none` for -1.
unfoldable pub index_byte : ℕ → Text → Option ℕ
index_byte c [] = none
index_byte c (b ∷ bs) =
    if b == c then some 0 else elim (index_byte c bs) [ none ↦ none | some i ↦ some (suc i) ]

-- b[:n] and b[n:], for n within the bounds.
abbrev pub take : ℕ → Text → Text
take zero bs = []
take (suc n) [] = []
take (suc n) (b ∷ bs) = b ∷ take n bs

abbrev pub drop : ℕ → Text → Text
drop zero bs = bs
drop (suc n) [] = []
drop (suc n) (b ∷ bs) = drop n bs

atoi_loop : ℕ → Text → Option ℕ
atoi_loop n [] = some n
atoi_loop n (c ∷ cs) =
    if ltb c b'0' || ltb b'9' c then none else atoi_loop ((n * 10 + (c - b'0')) % 2 ^ 64) cs

unfoldable pub atoi_strict : Text → Option ℕ
unfolding atoi_loop
atoi_strict [] = none
atoi_strict (c ∷ cs) = atoi_loop 0 (c ∷ cs)

unfoldable pub is_secret : Text → Bool
unfolding atoi_strict
is_secret tag = elim (atoi_strict tag) [ none ↦ false | some n ↦ any_of (λ s. s == n) secret_tags ]

-- What one round appends for its field.
unfoldable pub mask_field : Text → Text
mask_field field = elim (index_byte b'=' field) [
  | none ↦ field
  | some zero ↦ field
  | some (suc k) ↦
      if is_secret (take (suc k) field) then take (suc (suc k)) field ++ mask else field
]

-- The loop, over what is left of the input; each round takes a byte at least.
unfoldable pub redact_loop : ℕ → Text → Text → Text
redact_loop zero rest out = out
redact_loop (suc fuel) [] out = out
redact_loop (suc fuel) (b ∷ bs) out = elim (index_byte soh (b ∷ bs)) [
  | none ↦ redact_loop fuel [] (out ++ mask_field (b ∷ bs))
  | some end ↦
      redact_loop fuel (drop (suc end) (b ∷ bs))
        ((out ++ mask_field (take end (b ∷ bs))) ++ display_sep ∷ [])
]

unfoldable pub redact : Text → Text
unfolding redact_loop
redact raw = redact_loop (length raw) raw []
