-- ===== src/Exchange/Standing/Admits.antt =====
-- A Logon on a session and on others: FromAdmin of internal/exchange/exchange.go.
use fix_session_lab.Base.{
  ◌≡◌, ◌≢◌, refl, sym, ap, ◌∙◌, subst, inl, inr, [], ite, if_pos, if_neg, arith,
}
use fix_session_lab.Base.Lists.{Bool-cases, Option-cases}
use fix_session_lab.Base.Map.{lookup, lookup-insert}
use fix_session_lab.Base.Text.{Text, codes, text_dec}
use fix_session_lab.Deps.{Deps, ok, Result-cases}
use fix_session_lab.Exchange.{App, check_password}
use fix_session_lab.Exchange.Callbacks.{admit_logon, on_logon_request}
use fix_session_lab.Exchange.Standing.{Standing, standing_of, asks, fits}
use fix_session_lab.Session.{parse_logon}

module _ ⦃L : Deps⦄ where
  check_password-fits :
      (a : App) (id : L.SessionId) (pw : Text)
      → check_password a id pw ≡ fits (lookup text_dec (L.target_comp_id id) a.expect) pw
  unfolding check_password
  check_password-fits a id pw =
      elim (Option-cases (lookup text_dec (L.target_comp_id id) a.expect)) [
        | inl e ↦ rw (e, check_password) refl
        | inr (p, e) ↦ rw (e, check_password) refl
      ]

  admit_logon-asks :
      (a : App) (m : L.Message) (id : L.SessionId)
      → L.header_string m 35 ≡ ok (codes "A")
      → standing_of (admit_logon a m id).0 id ≡ asks id (standing_of a id) m
  unfolding admit_logon on_logon_request asks text_dec
  admit_logon-asks a m id e =
      let pw = (parse_logon m id).password in
      let checked = check_password-fits a id pw in
      let stored = lookup-insert L.session_dec id id (parse_logon m id) a.cod in
      elim (text_dec a.reject_logons []) [
        | no p ↦ rw (e, asks, admit_logon) (ground (arith, p))
        | yes p ↦ elim (Bool-cases (check_password a id pw)) [
          | inl fine ↦ rw (e, asks, admit_logon) (ground (arith, p, fine, checked, stored))
          | inr bad ↦ rw (e, asks, admit_logon) (ground (arith, p, bad, checked))
        ]
      ]

  admit_logon-other :
      (a : App) (m : L.Message) (i id : L.SessionId)
      → i ≢ id
      → standing_of (admit_logon a m i).0 id ≡ standing_of a id
  unfolding admit_logon on_logon_request
  admit_logon-other a m i id apart =
      let stored = lookup-insert L.session_dec i id (parse_logon m i) a.cod in
      elim (text_dec a.reject_logons []) [
        | no p ↦ ground (arith, p)
        | yes p ↦ elim (Bool-cases (check_password a i (parse_logon m i).password)) [
          | inl fine ↦ ground (arith, p, fine, apart, stored)
          | inr bad ↦ ground (arith, p, bad)
        ]
      ]

  pub admit_logon-standing :
      (a : App) (m : L.Message) (i id : L.SessionId)
      → L.header_string m 35 ≡ ok (codes "A")
      → standing_of (admit_logon a m i).0 id
        ≡ ite (L.session_dec i id) (asks id (standing_of a id) m) (standing_of a id)
  admit_logon-standing a m i id e = elim (L.session_dec i id) [
    | no p ↦ admit_logon-other a m i id p ∙ sym (if_neg (L.session_dec i id) p _ _)
    | yes p ↦
        subst
          (λ (j : L.SessionId). standing_of (admit_logon a m j).0 id ≡ asks id (standing_of a id) m)
          (sym p) (admit_logon-asks a m id e)
        ∙ sym (if_pos (L.session_dec i id) p _ _)
  ]

  -- What is no Logon asks for nothing.
  pub asks-nothing :
      (id : L.SessionId) (s : Standing) (m : L.Message)
      → L.header_string m 35 ≢ ok (codes "A")
      → asks id s m ≡ s
  unfolding asks
  asks-nothing id s m other = elim (Result-cases (L.header_string m 35)) [
    | inr (x, e) ↦ rw (e, asks) refl
    | inl (t, e) ↦ elim (text_dec t (codes "A")) [
      | yes p ↦ absurd (other (e ∙ ap ok p))
      | no p ↦ rw (e, asks) (if_neg (text_dec t (codes "A")) p _ _)
    ]
  ]
