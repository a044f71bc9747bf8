-- ===== src/Admin/Reads.antt =====
-- What the helpers of internal/admin/admin.go read of a request, beside what the tables ask of it.
use fix_session_lab.Base.{◌≡◌, refl, ap, ◌⊎◌, inl, inr, [], none, some, if_pos, if_neg, ite}
use fix_session_lab.Admin.Asked.{
  param, given, decimal_param, fault_at, some_text, a_decimal, an_integer,
}
use fix_session_lab.Admin.Params.{
  Request, query_get, or_default, ParamError, required, not_a_number, not_an_integer, require_int,
  int_of_parsed, not_an_integer, require_int, int_of_parsed, require_str, require_dec,
}
use fix_session_lab.Base.Atoi.{Parsed, number, bad_syntax, out_of_range, atoi}
use fix_session_lab.Base.Int.{ℤ}
use fix_session_lab.Base.Text.{Text, text_dec}
use fix_session_lab.Deps.{Deps, ok, err, Result-cases}

Parsed-cases : (p : Parsed ℤ) → ((n : ℤ) × (p ≡ number n)) ⊎ ((p ≡ bad_syntax) ⊎ (p ≡ out_of_range))
Parsed-cases (number n) = inl (n, refl)
Parsed-cases bad_syntax = inr (inl refl)
Parsed-cases out_of_range = inr (inr refl)

module _ ⦃L : Deps⦄ where
  pub str_cases :
      (r : Request) (key : Text)
      → ((t : Text) × (require_str r key ≡ ok t)
          × (param r key ≡ some t)
          × (fault_at key some_text (param r key) ≡ none))
        ⊎ ((require_str r key ≡ err (required key))
            × (param r key ≡ none)
            × (fault_at key some_text (param r key) ≡ some (required key)))
  unfolding require_str param fault_at
  str_cases r key = elim (text_dec (query_get r.query key) []) [
    | yes e ↦
        let v = query_get r.query key in
        let got : param r key ≡ none = if_pos (text_dec v []) e none (some v) in
        inr (
          if_pos (text_dec v []) e (err (required key)) (ok v),
          got,
          ap (fault_at key some_text) got,
        )
    | no n ↦
        let v = query_get r.query key in
        let got : param r key ≡ some v = if_neg (text_dec v []) n none (some v) in
        inl (
          v,
          if_neg (text_dec v []) n (err (required key)) (ok v),
          got,
          ap (fault_at key some_text) got,
        )
  ]

  pub dec_cases :
      (r : Request) (key : Text)
      → ((d : L.Decimal) × (require_dec r key ≡ ok d)
          × (decimal_param r key ≡ some d)
          × (fault_at key a_decimal (param r key) ≡ none))
        ⊎ ((x : ParamError) × (require_dec r key ≡ err x)
            × (decimal_param r key ≡ none)
            × (fault_at key a_decimal (param r key) ≡ some x))
  unfolding require_dec decimal_param fault_at
  dec_cases r key = elim (str_cases r key) [
    | inr (e, e', e'') ↦
        inr (required key, rw (e, require_dec) refl, rw (e', decimal_param) refl, rw e' refl)
    | inl (t, e, e', e'') ↦ elim (Result-cases (L.decimal_of_text t)) [
      | inl (d, p) ↦ inl (
        d,
        rw (e, require_dec) (rw p refl),
        rw (e', decimal_param) (rw p refl),
        rw (e', fault_at) (rw p refl),
      )
      | inr (x, p) ↦ inr (
        not_a_number key x,
        rw (e, require_dec) (rw p refl),
        rw (e', decimal_param) (rw p refl),
        rw (e', fault_at) (rw p refl),
      )
    ]
  ]

  pub int_cases :
      (r : Request) (key : Text)
      → ((t : Text) × (n : ℤ) × (require_int r key ≡ ok n)
          × (param r key ≡ some t)
          × (atoi t ≡ number n))
        ⊎ ((x : ParamError) × (require_int r key ≡ err x)
            × (fault_at key an_integer (param r key) ≡ some x))
  unfolding require_int int_of_parsed fault_at
  int_cases r key = elim (str_cases r key) [
    | inr (e, e', e'') ↦ inr (required key, rw (e, require_int) refl, rw e' refl)
    | inl (t, e, e', e'') ↦ elim (Parsed-cases (atoi t)) [
      | inl (n, p) ↦ inl (t, n, rw (e, require_int) (rw p refl), e', p)
      | inr (inl p) ↦ inr (
        not_an_integer key bad_syntax,
        rw (e, require_int) (rw p refl),
        rw (e', fault_at) (rw p refl),
      )
      | inr (inr p) ↦ inr (
        not_an_integer key out_of_range,
        rw (e, require_int) (rw p refl),
        rw (e', fault_at) (rw p refl),
      )
    ]
  ]

  pub or_default-given :
      (r : Request) (key default : Text)
      → or_default (query_get r.query key) default ≡ given r key default
  unfolding or_default given param
  or_default-given r key default =
      elim (text_dec (query_get r.query key) [])
        as (λ d.
          ite d default (query_get r.query key)
          ≡ elim (ite d none (some (query_get r.query key))) as (λ x. Text) [
            | none ↦ default
            | some v ↦ v
          ]) [ yes e ↦ refl | no n ↦ refl ]
