-- ===== src/Exchange/Standing/Kinds.antt =====
-- The roles of the sessions stay through all events: internal/exchange.
use fix_session_lab.Base.{◌≡◌, refl, ap, ◌∙◌, inl, inr, List, [], ◌∷◌, arith}
use fix_session_lab.Base.Map.{lookup}
use fix_session_lab.Book.{update, open_day_orders}
use fix_session_lab.Deps.{Deps}
use fix_session_lab.Exchange.{App, note_sent, note_received, to_app, to_admin, on_logon}
use fix_session_lab.Exchange.Callbacks.{from_admin, admit_logon, on_logon_request, on_logout}
use fix_session_lab.Exchange.Commands.{
  cancel, reject, cancel_change, reject_change, set_reject_logons, set_silenced,
}
use fix_session_lab.Exchange.Events.{
  Event, app_message, admin_message, sends_app, sends_admin, logs_on, logs_out, timer_runs, fills,
  fills_part, cancels_one, rejects_one, cancels_all, refuses_logons, silences, react, run,
}
use fix_session_lab.Exchange.Reports.{cancel_all_open_day, simple_report}
use fix_session_lab.Exchange.Standing.Untouched.{
  cancel_each-Untouched, cod_timer-Untouched, report_update-Untouched, partial-Untouched,
  fill-Untouched, from_app-Untouched, on_lost-Untouched,
}
use fix_session_lab.Exchange.Standing.Follows.{from_admin-cases}
use fix_session_lab.Order.{ExecType}

module _ ⦃L : Deps⦄ where
  note_sent-kinds : (a : App) (m : L.Message) (i : L.SessionId) → (note_sent a m i).kinds ≡ a.kinds
  unfolding note_sent
  note_sent-kinds a m i = ground arith

  note_received-kinds :
      (a : App) (m : L.Message) (i : L.SessionId) → (note_received a m i).kinds ≡ a.kinds
  unfolding note_received
  note_received-kinds a m i = ground arith

  admit_logon-kinds :
      (a : App) (m : L.Message) (i : L.SessionId) → (admit_logon a m i).0.kinds ≡ a.kinds
  unfolding admit_logon on_logon_request
  admit_logon-kinds a m i = ground arith

  from_admin-kinds :
      (a : App) (m : L.Message) (i : L.SessionId) → (from_admin a m i).0.kinds ≡ a.kinds
  from_admin-kinds a m i = elim (from_admin-cases a m i) [
    | inl (_, same) ↦
        ap (λ (x : App). x.kinds) same
        ∙ admit_logon-kinds (note_received a m i) m i
        ∙ note_received-kinds a m i
    | inr (_, same) ↦ ap (λ (x : App). x.kinds) same ∙ note_received-kinds a m i
  ]

  react-kinds : (a : App) (e : Event) → (react a e).kinds ≡ a.kinds
  unfolding react to_app to_admin on_logon on_logout set_reject_logons set_silenced
      cancel_all_open_day cancel reject
  react-kinds a (app_message m i) = (from_app-Untouched a m i).kinds ∙ note_received-kinds a m i
  react-kinds a (admin_message m i) = from_admin-kinds a m i
  react-kinds a (sends_app m i) = note_sent-kinds a m i
  react-kinds a (sends_admin m i) = note_sent-kinds a m i
  react-kinds a (logs_on i) = refl
  react-kinds a (logs_out now i) = (on_lost-Untouched _ now i (lookup L.session_dec i a.cod)).kinds
  react-kinds a (timer_runs i) = (cod_timer-Untouched a i).kinds
  react-kinds a (fills k px) = (fill-Untouched a k px).kinds
  react-kinds a (fills_part k qty px) = (partial-Untouched a k qty px).kinds
  react-kinds a (cancels_one k reason) =
      (report_update-Untouched a (update a.book k (cancel_change k))
        (λ o. simple_report o ExecType.canceled reason 0)).kinds
  react-kinds a (rejects_one k reason) =
      (report_update-Untouched a (update a.book k (reject_change k))
        (λ o. simple_report o ExecType.rejected reason 0)).kinds
  react-kinds a (cancels_all reason) =
      (cancel_each-Untouched a (open_day_orders a.book) reason).kinds
  react-kinds a (refuses_logons reason) = refl
  react-kinds a (silences v) = refl

  pub run-kinds : (a : App) (es : List Event) → (run a es).kinds ≡ a.kinds
  unfolding run
  run-kinds a [] = refl
  run-kinds a (e ∷ es) = run-kinds (react a e) es ∙ react-kinds a e
