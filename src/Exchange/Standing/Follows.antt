-- ===== src/Exchange/Standing/Follows.antt =====
-- That the venue follows each session alone: internal/exchange/exchange.go.
use fix_session_lab.Base.{
  ℕ, ◌≡◌, ◌≢◌, refl, sym, ap, ◌∙◌, ◌⊎◌, inl, inr, true, false, List, [], ◌∷◌, Option, ite, if_pos,
  if_neg, arith,
}
use fix_session_lab.Base.Map.{lookup, lookup_or, insert, lookup-insert}
use fix_session_lab.Base.Text.{codes, text_dec}
use fix_session_lab.Book.{update, open_day_orders}
use fix_session_lab.Deps.{Deps, ok, Rejection, Result-cases}
use fix_session_lab.Exchange.{App, no_seqnums, note_sent, note_received, to_app, to_admin, on_logon}
use fix_session_lab.Exchange.Callbacks.{from_admin, admit_logon, on_logout}
use fix_session_lab.Exchange.Commands.{
  cancel, reject, cancel_change, reject_change, set_reject_logons, set_silenced,
}
use fix_session_lab.Exchange.Events.{
  Event, app_message, admin_message, sends_app, sends_admin, logs_on, logs_out, timer_runs, fills,
  fills_part, cancels_one, rejects_one, cancels_all, refuses_logons, silences, react, run,
}
use fix_session_lab.Exchange.Reports.{cancel_all_open_day, simple_report}
use fix_session_lab.Exchange.Standing.{
  Standing, standing_of, follow, follow_all, was_sent, was_received, asks,
}
use fix_session_lab.Exchange.Standing.Untouched.{
  Untouched-standing, cancel_each-Untouched, cod_timer-Untouched, report_update-Untouched,
  partial-Untouched, fill-Untouched, from_app-Untouched, on_lost-Untouched,
}
use fix_session_lab.Exchange.Standing.Admits.{admit_logon-standing, asks-nothing}
use fix_session_lab.Order.{ExecType}

module _ ⦃L : Deps⦄ where
  note_sent-standing :
      (a : App) (m : L.Message) (i id : L.SessionId)
      → standing_of (note_sent a m i) id
        ≡ ite (L.session_dec i id) (was_sent (standing_of a id) m) (standing_of a id)
  unfolding note_sent was_sent
  note_sent-standing a m i id = elim (Result-cases (L.header_int m 34)) [
    | inr (x, e) ↦ rw (e, note_sent, was_sent) (ground arith)
    | inl (n, e) ↦ elim (L.session_dec i id) [
      | yes p ↦
          rw (e, note_sent, was_sent)
            (ground (
              arith,
              p,
              lookup-insert L.session_dec i id
                  (record (lookup_or L.session_dec no_seqnums i a.seqnums) { last_sent = n })
                  a.seqnums,
            ))
      | no p ↦
          rw (e, note_sent, was_sent)
            (ground (
              arith,
              p,
              lookup-insert L.session_dec i id
                  (record (lookup_or L.session_dec no_seqnums i a.seqnums) { last_sent = n })
                  a.seqnums,
            ))
    ]
  ]

  note_received-standing :
      (a : App) (m : L.Message) (i id : L.SessionId)
      → standing_of (note_received a m i) id
        ≡ ite (L.session_dec i id) (was_received (standing_of a id) m) (standing_of a id)
  unfolding note_received was_received
  note_received-standing a m i id = elim (Result-cases (L.header_int m 34)) [
    | inr (x, e) ↦ rw (e, note_received, was_received) (ground arith)
    | inl (n, e) ↦
        let stored =
          lookup-insert L.session_dec i id
            (record (lookup_or L.session_dec no_seqnums i a.seqnums) { last_received = n })
            a.seqnums in
        elim (L.session_dec i id) [
          | yes p ↦ rw (e, note_received, was_received) (ground (arith, p, stored))
          | no p ↦ rw (e, note_received, was_received) (ground (arith, p, stored))
        ]
  ]

  on_logon-standing :
      (a : App) (i id : L.SessionId)
      → standing_of (on_logon a i) id
        ≡ ite
            (L.session_dec i id)
            (record (standing_of a id) { logged_on = true })
            (standing_of a id)
  unfolding on_logon
  on_logon-standing a i id =
      let stored = lookup-insert L.session_dec i id true a.logged_on in
      elim (L.session_dec i id) [
        | yes p ↦ ground (arith, p, stored)
        | no p ↦ ground (arith, p, stored)
      ]

  on_logout-standing :
      (a : App) (now : ℕ) (i id : L.SessionId)
      → standing_of (on_logout a now i) id
        ≡ ite
            (L.session_dec i id)
            (record (standing_of a id) { logged_on = false })
            (standing_of a id)
  unfolding on_logout
  on_logout-standing a now i id =
      let b : App = record a { logged_on = insert L.session_dec i false a.logged_on } in
      let stored = lookup-insert L.session_dec i id false a.logged_on in
      let written : standing_of b id
          ≡ ite (L.session_dec i id) (record (standing_of a id) { logged_on = false })
              (standing_of a id) =
        elim (L.session_dec i id) [
          | yes p ↦ ground (arith, p, stored)
          | no p ↦ ground (arith, p, stored)
        ] in
      Untouched-standing id (on_lost-Untouched b now i (lookup L.session_dec i a.cod)) ∙ written

  ite_twice :
      {P : Type 0} (d : Dec P) (x y : Standing) (f : Standing → Standing)
      → ite d (f (ite d x y)) (ite d x y) ≡ ite d (f x) y
  ite_twice (yes p) x y f = refl
  ite_twice (no p) x y f = refl

  -- FromAdmin admits a Logon, and notes the number of anything else.
  pub from_admin-cases :
      (a : App) (m : L.Message) (i : L.SessionId)
      → ((L.header_string m 35 ≡ ok (codes "A"))
          × ((from_admin a m i).0 ≡ (admit_logon (note_received a m i) m i).0))
        ⊎ ((L.header_string m 35 ≢ ok (codes "A")) × ((from_admin a m i).0 ≡ note_received a m i))
  unfolding from_admin
  from_admin-cases a m i = elim (Result-cases (L.header_string m 35)) [
    | inr (x, e) ↦ inr (λ f. cc, rw (e, from_admin) refl)
    | inl (t, e) ↦ elim (text_dec t (codes "A")) [
      | yes p ↦ inl (
        e ∙ ap ok p,
        rw (e, from_admin)
            (ap (λ (q : App × Option Rejection). q.0) (if_pos (text_dec t (codes "A")) p _ _)),
      )
      | no p ↦ inr (
        λ f. p (let g = sym e ∙ f in cc),
        rw (e, from_admin)
            (ap (λ (q : App × Option Rejection). q.0) (if_neg (text_dec t (codes "A")) p _ _)),
      )
    ]
  ]

  from_admin-standing :
      (a : App) (m : L.Message) (i id : L.SessionId)
      → standing_of (from_admin a m i).0 id
        ≡ ite
            (L.session_dec i id)
            (asks id (was_received (standing_of a id) m) m)
            (standing_of a id)
  from_admin-standing a m i id =
      let d = L.session_dec i id in
      let s = standing_of a id in
      let b = note_received a m i in
      let noted : standing_of b id ≡ ite d (was_received s m) s = note_received-standing a m i id in
      elim (from_admin-cases a m i) [
        | inl (e, same) ↦
            ap (λ x. standing_of x id) same
            ∙ admit_logon-standing b m i id e
            ∙ ap (λ x. ite d (asks id x m) x) noted
            ∙ ite_twice d (was_received s m) s (λ x. asks id x m)
        | inr (other, same) ↦
            ap (λ x. standing_of x id) same
            ∙ noted
            ∙ ap (λ x. ite d x s) (sym (asks-nothing id (was_received s m) m other))
      ]

  -- One event.
  react-follow :
      (a : App) (id : L.SessionId) (e : Event)
      → standing_of (react a e) id ≡ follow id (standing_of a id) e
  unfolding react follow to_app to_admin set_reject_logons set_silenced cancel_all_open_day cancel
      reject
  react-follow a id (app_message m i) =
      Untouched-standing id (from_app-Untouched a m i) ∙ note_received-standing a m i id
  react-follow a id (admin_message m i) = from_admin-standing a m i id
  react-follow a id (sends_app m i) = note_sent-standing a m i id
  react-follow a id (sends_admin m i) = note_sent-standing a m i id
  react-follow a id (logs_on i) = on_logon-standing a i id
  react-follow a id (logs_out now i) = on_logout-standing a now i id
  react-follow a id (timer_runs i) = Untouched-standing id (cod_timer-Untouched a i)
  react-follow a id (fills k px) = Untouched-standing id (fill-Untouched a k px)
  react-follow a id (fills_part k qty px) = Untouched-standing id (partial-Untouched a k qty px)
  react-follow a id (cancels_one k reason) = Untouched-standing id (
      report_update-Untouched a (update a.book k (cancel_change k))
        (λ o. simple_report o ExecType.canceled reason 0))
  react-follow a id (rejects_one k reason) = Untouched-standing id (
      report_update-Untouched a (update a.book k (reject_change k))
        (λ o. simple_report o ExecType.rejected reason 0))
  react-follow a id (cancels_all reason) =
      Untouched-standing id (cancel_each-Untouched a (open_day_orders a.book) reason)
  react-follow a id (refuses_logons reason) = refl
  react-follow a id (silences v) = refl

  -- After any events the venue has of a session what following it alone gives.
  pub run-follow_all :
      (a : App) (id : L.SessionId) (es : List Event)
      → standing_of (run a es) id ≡ follow_all id (standing_of a id) es
  unfolding run follow_all
  run-follow_all a id [] = refl
  run-follow_all a id (e ∷ es) =
      run-follow_all (react a e) id es ∙ ap (λ s. follow_all id s es) (react-follow a id e)
