-- ===== src/Exchange/Passwords.antt =====
-- The passwords that LoadKinds of internal/exchange/exchange.go keeps.
use fix_session_lab.Base.{
  ◌≡◌, ◌≢◌, refl, sym, ap, ◌∙◌, subst, ◌⊎◌, inl, inr, List, [], ◌∷◌, map, Option, none, some,
  if_neg,
}
use fix_session_lab.Base.Lists.{All, Bool-cases}
use fix_session_lab.Base.Map.{lookup, lookup-insert, lookup-insert_self}
use fix_session_lab.Base.Text.{Text, text_dec}
use fix_session_lab.Deps.{Deps, ok, ok?, Result-cases}
use fix_session_lab.Exchange.{App, Kind, kind_of_text, register_kind}
use fix_session_lab.Exchange.Callbacks.{expect_password, is_role, load_kind, load_kinds, trim_space}
use fix_session_lab.Session.{password, to_upper}

module _ ⦃L : Deps⦄ where
  -- What the venue expects of a counterparty is what the environment had when it was asked.
  abbrev pub Expects : (Text → Text) → App → Text → Type 0
  Expects env a k = lookup text_dec k a.expect ≡ ok? (password env k)

  -- The venue expects nothing but that.
  abbrev pub IsSound : (Text → Text) → App → Type 0
  IsSound env a = (k : Text) → (lookup text_dec k a.expect ≡ none) ⊎ Expects env a k

  expect_password-other :
      (env : Text → Text) (a : App) (id : L.SessionId) (k : Text)
      → L.target_comp_id id ≢ k
      → lookup text_dec k (expect_password env a id).expect ≡ lookup text_dec k a.expect
  unfolding expect_password
  expect_password-other env a id k apart =
      elim (Result-cases (password env (L.target_comp_id id))) [
        | inl (pw, e) ↦
            rw (e, expect_password)
              (lookup-insert text_dec (L.target_comp_id id) k pw a.expect
                ∙ if_neg (text_dec (L.target_comp_id id) k) apart _ _)
        | inr (x, e) ↦ rw (e, expect_password) refl
      ]

  expect_password-Expects :
      (env : Text → Text) (a : App) (id : L.SessionId)
      → IsSound env a
      → Expects env (expect_password env a id) (L.target_comp_id id)
  unfolding expect_password
  expect_password-Expects env a id sound =
      elim (Result-cases (password env (L.target_comp_id id))) [
        | inl (pw, e) ↦
            rw (e, expect_password) (lookup-insert_self text_dec (L.target_comp_id id) pw a.expect)
        | inr (x, e) ↦
            rw (e, expect_password)
              (elim (sound (L.target_comp_id id)) [
                | inl nothing ↦ nothing
                | inr same ↦ same ∙ ap ok? e
              ])
      ]

  -- With one environment, what is expected stays expected.
  expect_password-keeps :
      (env : Text → Text) (a : App) (id : L.SessionId) (k : Text)
      → IsSound env a
      → Expects env a k
      → Expects env (expect_password env a id) k
  expect_password-keeps env a id k sound h = elim (text_dec (L.target_comp_id id) k) [
    | yes e ↦
        subst (Expects env (expect_password env a id)) e (expect_password-Expects env a id sound)
    | no n ↦ expect_password-other env a id k n ∙ h
  ]

  expect_password-IsSound :
      (env : Text → Text) (a : App) (id : L.SessionId)
      → IsSound env a
      → IsSound env (expect_password env a id)
  expect_password-IsSound env a id sound k = elim (text_dec (L.target_comp_id id) k) [
    | yes e ↦
        inr (
          subst (Expects env (expect_password env a id)) e (expect_password-Expects env a id sound))
    | no n ↦ elim (sound k) [
      | inl nothing ↦ inl (expect_password-other env a id k n ∙ nothing)
      | inr h ↦ inr (expect_password-other env a id k n ∙ h)
    ]
  ]

  -- A session that loads leaves the venue as register_kind and expect_password do.
  load_kind-loads :
      (env : Text → Text) (a : App) (id : L.SessionId) (raw : Option Text) {b : App}
      → load_kind env a id raw ≡ ok b
      → (k : Kind) × (b ≡ expect_password env (register_kind a id k) id)
  unfolding load_kind
  load_kind-loads env a id none e = cc
  load_kind-loads env a id (some raw) e =
      elim (Bool-cases (is_role (kind_of_text (map to_upper (trim_space raw))))) [
        | inl role ↦ (kind_of_text (map to_upper (trim_space raw)), cc (rw (role, load_kind) at e))
        | inr bad ↦ cc (rw (bad, load_kind) at e)
      ]

  pub load_kind-cases :
      (env : Text → Text) (a : App) (id : L.SessionId) (raw : Option Text)
      (all : List (L.SessionId × Option Text)) {b : App}
      → load_kinds env a ((id, raw) ∷ all) ≡ (b, none)
      → (k : Kind) × (load_kinds env (expect_password env (register_kind a id k) id) all
          ≡ (b, none))
  unfolding load_kinds
  load_kind-cases env a id raw all e = elim (Result-cases (load_kind env a id raw)) [
    | inr (x, bad) ↦ cc (rw (bad, load_kinds) at e)
    | inl (a', good) ↦
        let (k, same) = load_kind-loads env a id raw good in
        (k, ap (λ c. load_kinds env c all) (sym same) ∙ (rw (good, load_kinds) at e))
  ]

  load_kinds-keeps :
      (env : Text → Text) (a : App) (all : List (L.SessionId × Option Text)) (key : Text) {b : App}
      → IsSound env a
      → Expects env a key
      → load_kinds env a all ≡ (b, none)
      → Expects env b key
  unfolding load_kinds register_kind
  load_kinds-keeps env a [] key sound h e = subst (λ c. Expects env c key) (ap (λ q. q.0) e) h
  load_kinds-keeps env a ((id, raw) ∷ all) key sound h e =
      let (k, rest) = load_kind-cases env a id raw all e in
      load_kinds-keeps env (expect_password env (register_kind a id k) id) all key
        (expect_password-IsSound env (register_kind a id k) id sound)
        (expect_password-keeps env (register_kind a id k) id key sound h) rest

  -- The venue has asked the environment for the password of each counterparty that it loaded.
  pub load_kinds-Expects :
      (env : Text → Text) (a : App) (all : List (L.SessionId × Option Text)) {b : App}
      → IsSound env a
      → load_kinds env a all ≡ (b, none)
      → All (λ s. Expects env b (L.target_comp_id s.0)) all
  unfolding load_kinds register_kind
  load_kinds-Expects env a [] sound e = tt
  load_kinds-Expects env a ((id, raw) ∷ all) sound e =
      let (k, rest) = load_kind-cases env a id raw all e in
      let a' = expect_password env (register_kind a id k) id in
      let sound' = expect_password-IsSound env (register_kind a id k) id sound in
      (
        load_kinds-keeps env a' all (L.target_comp_id id) sound'
            (expect_password-Expects env (register_kind a id k) id sound) rest,
        load_kinds-Expects env a' all sound' rest,
      )
