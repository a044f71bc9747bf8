-- ===== src/Fixlog/Masking.antt =====
-- What the log shows of a secret: internal/fixlog/redact.go.
use fix_session_lab.Base.{
  ℕ, suc, ◌++◌, ◌≡◌, ◌≢◌, refl, sym, ap, ◌∙◌, true, false, List, [], ◌∷◌, append_assoc, arith,
}
use mathlib.Core.Path.{ap₂}
use fix_session_lab.Base.Lists.{length, All-append}
use fix_session_lab.Base.Text.{Text}
use fix_session_lab.Fixlog.{soh, display_sep, mask, take, is_secret, mask_field, redact}
use fix_session_lab.Fixlog.Fields.{
  Lacks, index_byte-Lacks, index_byte-first, take-length, join, masked-first, masked-last,
  redact-masked,
}

abbrev pub equals : ℕ
equals = b'='

-- Redact works field by field, from left to right.
pub redact-append :
    (f rest : Text)
    → Lacks soh f
    → redact (f ++ soh ∷ rest) ≡ mask_field f ++ display_sep ∷ redact rest
redact-append f rest h =
    rw (redact-masked (f ++ soh ∷ rest), redact-masked rest) (masked-first f rest h)

take-past : (t v : Text) → take (suc (length t)) (t ++ equals ∷ v) ≡ t ++ equals ∷ []
take-past [] v = refl
take-past (b ∷ t) v = ap (◌∷◌ b) (take-past t v)

is_secret-nil : is_secret [] ≡ false
unfolding is_secret
is_secret-nil = refl

-- The value of a field whose tag is secret is gone, whatever it is.
pub mask_field-secret :
    (tag v : Text)
    → is_secret tag ≡ true
    → Lacks equals tag
    → mask_field (tag ++ equals ∷ v) ≡ tag ++ equals ∷ mask
unfolding mask_field
mask_field-secret [] v s h = cc (s, is_secret-nil)
mask_field-secret (b ∷ t) v s h =
    rw (index_byte-first equals (b ∷ t) v h, mask_field, take-length t (equals ∷ v), s)
      (ap (λ p. b ∷ p ++ mask) (take-past t v) ∙ ap (◌∷◌ b) (append_assoc t (equals ∷ []) mask))

-- Two fields that differ at most in the value behind one secret tag.
pub data SameButSecret : Text → Text → Type 0 where
  same : (f : Text) → Lacks soh f → SameButSecret f f
  secret :
      (tag v w : Text)
      → is_secret tag ≡ true
      → Lacks equals tag
      → Lacks soh tag
      → Lacks soh v
      → Lacks soh w
      → SameButSecret (tag ++ equals ∷ v) (tag ++ equals ∷ w)

pub data AllSameButSecret : List Text → List Text → Type 0 where
  last : {f g : Text} → SameButSecret f g → AllSameButSecret (f ∷ []) (g ∷ [])
  more :
      {f g : Text} {fs gs : List Text}
      → SameButSecret f g
      → AllSameButSecret fs gs
      → AllSameButSecret (f ∷ fs) (g ∷ gs)

SameButSecret-mask : {f g : Text} → SameButSecret f g → mask_field f ≡ mask_field g
SameButSecret-mask (same f h) = refl
SameButSecret-mask (secret tag v w s h t hv hw) =
    mask_field-secret tag v s h ∙ sym (mask_field-secret tag w s h)

SameButSecret-Lacks : {f g : Text} → SameButSecret f g → Lacks soh f × Lacks soh g
SameButSecret-Lacks (same f h) = (h, h)
SameButSecret-Lacks (secret tag v w s h t hv hw) = (
  All-append (λ b. b ≢ soh) tag (equals ∷ v) t (ground arith, hv),
  All-append (λ b. b ≢ soh) tag (equals ∷ w) t (ground arith, hw),
)

redact-last : (f : Text) → Lacks soh f → redact f ≡ mask_field f
redact-last f h = redact-masked f ∙ masked-last f h

join-more :
    {fs gs : List Text} (f : Text)
    → AllSameButSecret fs gs
    → (join soh (f ∷ fs) ≡ f ++ soh ∷ join soh fs) × (join soh (f ∷ gs) ≡ f ++ soh ∷ join soh gs)
unfolding join
join-more f (last s) = (refl, refl)
join-more f (more s r) = (refl, refl)

-- Two messages whose fields, taken in pairs, are equal and hold no SOH, or differ at most in the value
-- behind one secret tag, with no SOH in the field and no `=` in the tag, are redacted to the same
-- text.
pub redact-SameButSecret :
    {fs gs : List Text} → AllSameButSecret fs gs → redact (join soh fs) ≡ redact (join soh gs)
redact-SameButSecret (last {f} {g} s) =
    unfold join in
    (redact-last f (SameButSecret-Lacks s).0
      ∙ SameButSecret-mask s
      ∙ sym (redact-last g (SameButSecret-Lacks s).1))
redact-SameButSecret (more {f} {g} {fs} {gs} s r) =
    ap redact (join-more f r).0
    ∙ redact-append f (join soh fs) (SameButSecret-Lacks s).0
    ∙ ap₂ (λ a b. a ++ display_sep ∷ b) (SameButSecret-mask s) (redact-SameButSecret r)
    ∙ sym (redact-append g (join soh gs) (SameButSecret-Lacks s).1)
    ∙ ap redact (sym (join-more g r).1)

mask_field-plain : (w : Text) → Lacks equals w → mask_field w ≡ w
unfolding mask_field
mask_field-plain w h = rw (index_byte-Lacks equals w h, mask_field)

-- A secret value that holds an SOH is not hidden whole: what stands behind it, where it holds no SOH
-- and no `=`, is shown as it is. The tag is secret and holds neither `=` nor SOH, and the part before
-- holds no SOH.
pub redact_tail-shown :
    (tag v w : Text)
    → is_secret tag ≡ true
    → Lacks equals tag
    → Lacks soh tag
    → Lacks soh v
    → Lacks soh w
    → Lacks equals w
    → redact ((tag ++ equals ∷ v) ++ soh ∷ w) ≡ (tag ++ equals ∷ mask) ++ display_sep ∷ w
redact_tail-shown tag v w s h t hv hw plain =
    redact-append (tag ++ equals ∷ v) w (SameButSecret-Lacks (secret tag v v s h t hv hv)).0
    ∙ ap₂ (λ a b. a ++ display_sep ∷ b) (mask_field-secret tag v s h)
        (redact-last w hw ∙ mask_field-plain w plain)
