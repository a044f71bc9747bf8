-- ===== src/Fixlog/Fields.antt =====
-- The loop of Redact, internal/fixlog/redact.go, against the fields of a message.
use fix_session_lab.Base.{
  ℕ, zero, suc, ◌≤◌, ◌++◌, ◌≡◌, ◌≢◌, refl, sym, ap, ◌∙◌, ◌⊎◌, inl, inr, List, [], ◌∷◌, map, none,
  some, append_assoc, append-nil, arith,
}
use fix_session_lab.Base.Lists.{length, length-append, ◌==◌, if◌then◌else◌, All, Bool-cases}
use fix_session_lab.Base.Text.{Text}
use fix_session_lab.Fixlog.{
  soh, display_sep, index_byte, take, drop, mask_field, redact_loop, redact,
}

abbrev pub Lacks : ℕ → Text → Type 0
Lacks c = All (λ b. b ≢ c)

pub index_byte-Lacks : (c : ℕ) (f : Text) → Lacks c f → index_byte c f ≡ none
unfolding index_byte
index_byte-Lacks c [] h = refl
index_byte-Lacks c (b ∷ f) h = ground (arith, index_byte-Lacks c f)

pub index_byte-first :
    (c : ℕ) (f rest : Text) → Lacks c f → index_byte c (f ++ c ∷ rest) ≡ some (length f)
unfolding index_byte
index_byte-first c [] rest h = ground arith
index_byte-first c (b ∷ f) rest h = ground (arith, index_byte-first c f rest)

pub take-length : (f rest : Text) → take (length f) (f ++ rest) ≡ f
take-length [] rest = refl
take-length (b ∷ f) rest = ap (◌∷◌ b) (take-length f rest)

drop-length : (f : Text) (c : ℕ) (rest : Text) → drop (suc (length f)) (f ++ c ∷ rest) ≡ rest
drop-length [] c rest = refl
drop-length (b ∷ f) c rest = drop-length f c rest

-- Splits a text at its first SOH, if it has one.
pub first_field :
    (raw : Text)
    → Lacks soh raw ⊎ ((f : Text) × (rest : Text) × Lacks soh f × (raw ≡ f ++ soh ∷ rest))
first_field [] = inl tt
first_field (b ∷ raw) = elim (Bool-cases (b == soh)) [
  | inl hit ↦ inr ([], raw, tt, ap {B = Text} (λ c. c ∷ raw) (ground arith))
  | inr miss ↦ elim (first_field raw) [
    | inl h ↦ inl (ground arith, h)
    | inr (f, rest, h, e) ↦ inr (b ∷ f, rest, (ground arith, h), ap (◌∷◌ b) e)
  ]
]

push : ℕ → List Text → List Text
push b [] = (b ∷ []) ∷ []
push b (f ∷ fs) = (b ∷ f) ∷ fs

-- The fields of a message: what stands between its SOH bytes. There is one at least.
unfoldable pub fields : Text → List Text
unfolding push
fields [] = [] ∷ []
fields (b ∷ raw) = if b == soh then [] ∷ fields raw else push b (fields raw)

unfoldable pub join : ℕ → List Text → Text
join sep [] = []
join sep (f ∷ []) = f
join sep (f ∷ g ∷ fs) = f ++ sep ∷ join sep (g ∷ fs)

pub fields-last : (f : Text) → Lacks soh f → fields f ≡ f ∷ []
unfolding fields
fields-last [] h = refl
fields-last (b ∷ f) h = ground (arith, fields-last f h.1)

pub fields-first : (f rest : Text) → Lacks soh f → fields (f ++ soh ∷ rest) ≡ f ∷ fields rest
unfolding fields
fields-first [] rest h = refl
fields-first (b ∷ f) rest h = ground (arith, fields-first f rest h.1)

fields-cons : (raw : Text) → (f : Text) × (fs : List Text) × (fields raw ≡ f ∷ fs)
fields-cons raw = elim (first_field raw) [
  | inl h ↦ (raw, [], fields-last raw h)
  | inr (f, rest, h, e) ↦ (f, fields rest, ap fields e ∙ fields-first f rest h)
]

-- The specification of Redact: each field masked, with the separator for display between them.
unfoldable pub masked : Text → Text
masked raw = join display_sep (map mask_field (fields raw))

pub masked-last : (f : Text) → Lacks soh f → masked f ≡ mask_field f
unfolding masked join
masked-last f h = rw (fields-last f h)

pub masked-first :
    (f rest : Text)
    → Lacks soh f
    → masked (f ++ soh ∷ rest) ≡ mask_field f ++ display_sep ∷ masked rest
unfolding masked join
masked-first f rest h = let (g, gs, e) = fields-cons rest in rw (fields-first f rest h, e)

redact_loop-nil : (fuel : ℕ) (out : Text) → redact_loop fuel [] out ≡ out
unfolding redact_loop
redact_loop-nil zero out = refl
redact_loop-nil (suc fuel) out = refl

redact_loop-none :
    (fuel b : ℕ) (raw out : Text)
    → Lacks soh (b ∷ raw)
    → redact_loop (suc fuel) (b ∷ raw) out ≡ redact_loop fuel [] (out ++ mask_field (b ∷ raw))
unfolding redact_loop
redact_loop-none fuel b raw out h = rw (index_byte-Lacks soh (b ∷ raw) h, redact_loop)

redact_loop-some :
    (fuel b : ℕ) (f rest out : Text)
    → Lacks soh (b ∷ f)
    → redact_loop (suc fuel) (b ∷ (f ++ soh ∷ rest)) out
      ≡ redact_loop fuel rest ((out ++ mask_field (b ∷ f)) ++ display_sep ∷ [])
unfolding redact_loop
redact_loop-some fuel b f rest out h = rw (
  index_byte-first soh (b ∷ f) rest h,
  redact_loop,
  take-length f (soh ∷ rest),
  drop-length f soh rest,
)

redact_loop-last :
    (fuel : ℕ) (raw out : Text)
    → length raw ≤ fuel
    → Lacks soh raw
    → redact_loop fuel raw out ≡ out ++ mask_field raw
unfolding redact_loop index_byte
redact_loop-last fuel [] out enough h =
    redact_loop-nil fuel out ∙ sym (unfold mask_field in append-nil out)
redact_loop-last zero (b ∷ raw) out enough h = absurd (omega arith)
redact_loop-last (suc fuel) (b ∷ raw) out enough h =
    redact_loop-none fuel b raw out h ∙ (redact_loop-nil fuel (out ++ mask_field (b ∷ raw)))

redact_loop-first :
    (fuel : ℕ) (f rest out : Text)
    → Lacks soh f
    → redact_loop (suc fuel) (f ++ soh ∷ rest) out
      ≡ redact_loop fuel rest ((out ++ mask_field f) ++ display_sep ∷ [])
unfolding redact_loop index_byte
redact_loop-first fuel [] rest out h = refl
redact_loop-first fuel (b ∷ f) rest out h = redact_loop-some fuel b f rest out h

redact_loop-masked :
    (fuel : ℕ) (raw out : Text) → length raw ≤ fuel → redact_loop fuel raw out ≡ out ++ masked raw
redact_loop-masked zero [] out enough =
    redact_loop-last zero [] out enough tt ∙ ap (◌++◌ out) (sym (masked-last [] tt))
redact_loop-masked zero (b ∷ raw) out enough = absurd (omega arith)
redact_loop-masked (suc fuel) raw out enough = elim (first_field raw) [
  | inl h ↦ redact_loop-last (suc fuel) raw out enough h ∙ ap (◌++◌ out) (sym (masked-last raw h))
  | inr (f, rest, h, e) ↦ rw e (
      redact_loop-first fuel f rest out h
      ∙ redact_loop-masked fuel rest ((out ++ mask_field f) ++ display_sep ∷ [])
          (omega (arith, ap (length {A = ℕ}) e, length-append f (soh ∷ rest)))
      ∙ rw (masked-first f rest h) (
          append_assoc (out ++ mask_field f) (display_sep ∷ []) (masked rest)
          ∙ append_assoc out (mask_field f) (display_sep ∷ masked rest)))
]

-- The loop of Redact gives each field of the message, masked, with bars in the place of SOH, and its
-- fuel always suffices.
pub redact-masked : (raw : Text) → redact raw ≡ masked raw
unfolding redact
redact-masked raw = redact_loop-masked (length raw) raw [] (omega arith)
