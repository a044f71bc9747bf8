-- ===== src/Exchange/Events.antt =====
-- All that can happen to the venue, as events, and what each makes it do, in the steps of `Steps`:
-- internal/exchange.
use fix_session_lab.Base.{ℕ, ◌≡◌, refl, inl, inr, Bool, true, false, List, [], ◌∷◌, Option, arith}
use fix_session_lab.Base.Lists.{Bool-cases, ite-both, All}
use fix_session_lab.Base.Text.{Text, codes, text_dec}
use fix_session_lab.Book.View.{IsWellFormed}
use fix_session_lab.Deps.{Deps, ok, Result-cases, Rejection}
use fix_session_lab.Exchange.{
  App, drop_copy, kind_dec, kind_of, note_sent, note_received, on_logon, to_admin, to_app,
  is_logged_on,
}
use fix_session_lab.Exchange.Callbacks.{
  from_app, from_admin, from_order_entry, admit_logon, on_logout,
}
use fix_session_lab.Exchange.Commands.{
  partial, fill, cancel, reject, set_reject_logons, set_silenced,
}
use fix_session_lab.Exchange.MassCancel.{cancel_all_open_day-MassCanceled}
use fix_session_lab.Exchange.Reports.{
  cancel_all_open_day, cod_timer, cod_reason, on_new_order_single, order_of_message,
}
use fix_session_lab.Exchange.Steps.{
  quiet, hushes, may_hush, Steps, here, one, Steps-trans, Steps-IsWellFormed,
}
use fix_session_lab.Exchange.Updates.{
  Ends-Steps, partial-Ends, fill-Ends, cancel-Ends, reject-Ends, accept_order-Steps,
}
use fix_session_lab.Order.{OrderState}

module _ ⦃L : Deps⦄ where
  pub data Event : Type 0 where
    app_message : L.Message → L.SessionId → Event
    admin_message : L.Message → L.SessionId → Event
    sends_app : L.Message → L.SessionId → Event
    sends_admin : L.Message → L.SessionId → Event
    logs_on : L.SessionId → Event
    -- at a time
    logs_out : ℕ → L.SessionId → Event
    -- the check that a lost session had given to AfterFunc
    timer_runs : L.SessionId → Event
    fills : Text → L.Decimal → Event
    fills_part : Text → L.Decimal → L.Decimal → Event
    cancels_one : Text → Text → Event
    rejects_one : Text → Text → Event
    cancels_all : Text → Event
    refuses_logons : Text → Event
    silences : Bool → Event

  abbrev pub IsSilence : Event → Type 0
  IsSilence (silences v) = Unit
  IsSilence _ = ⊥

  unfoldable pub react : App → Event → App
  unfolding from_app from_admin to_app to_admin on_logon on_logout cod_timer fill partial cancel
      reject cancel_all_open_day set_reject_logons set_silenced
  react a (app_message m id) = (from_app a m id).0
  react a (admin_message m id) = (from_admin a m id).0
  react a (sends_app m id) = to_app a m id
  react a (sends_admin m id) = to_admin a m id
  react a (logs_on id) = on_logon a id
  react a (logs_out now id) = on_logout a now id
  react a (timer_runs id) = cod_timer a id
  react a (fills id px) = (fill a id px).0
  react a (fills_part id qty px) = (partial a id qty px).0
  react a (cancels_one id reason) = (cancel a id reason).0
  react a (rejects_one id reason) = (reject a id reason).0
  react a (cancels_all reason) = (cancel_all_open_day a reason).0
  react a (refuses_logons reason) = set_reject_logons a reason
  react a (silences v) = set_silenced a v

  unfoldable pub run : App → List Event → App
  unfolding react
  run a [] = a
  run a (e ∷ es) = run (react a e) es

  -- A state that differs in nothing that orders and reports depend on.
  record Same (a a' : App) : Type 0 where
    book : a'.book ≡ a.book
    outbox : a'.outbox ≡ a.outbox
    kinds : a'.kinds ≡ a.kinds
    silenced : a'.silenced ≡ a.silenced

  Same-Steps : {a a' : App} → Same a a' → Steps false a a'
  Same-Steps {a} {a'} s = one (quiet a' s.book s.outbox s.kinds s.silenced)

  note_sent-Same : (a : App) (m : L.Message) (id : L.SessionId) → Same a (note_sent a m id)
  unfolding note_sent
  note_sent-Same a m id = ground arith

  note_received-Same : (a : App) (m : L.Message) (id : L.SessionId) → Same a (note_received a m id)
  unfolding note_received
  note_received-Same a m id = ground arith

  on_logout-Same : (a : App) (now : ℕ) (id : L.SessionId) → Same a (on_logout a now id)
  unfolding on_logout
  on_logout-Same a now id = ground arith

  admit_logon-Same : (a : App) (m : L.Message) (id : L.SessionId) → Same a (admit_logon a m id).0
  unfolding admit_logon
  admit_logon-Same a m id =
      ite-both (λ (q : App × Option Rejection). Same a q.0) (text_dec a.reject_logons [])
        (ground arith) (record { book = refl; outbox = refl; kinds = refl; silenced = refl })

  from_admin-Steps :
      (a : App) (m : L.Message) (id : L.SessionId) → Steps false a (from_admin a m id).0
  unfolding from_admin
  from_admin-Steps a m id =
      let b = note_received a m id in
      let received = Same-Steps (note_received-Same a m id) in
      elim (Result-cases (L.header_string m 35)) [
        | inr (e, h) ↦ rw (h, from_admin) received
        | inl (t, h) ↦
            rw (h, from_admin)
              (ite-both (λ (q : App × Option Rejection). Steps false a q.0) (text_dec t (codes "A"))
                (Steps-trans received (Same-Steps (admit_logon-Same b m id))) received)
      ]

  order_of_message-untraded :
      (m : L.Message) (o : OrderState L.Decimal)
      → order_of_message m ≡ ok o
      → o.cum_qty ≡ L.zero_dec
  unfolding order_of_message
  order_of_message-untraded m o h = ground arith

  on_new_order_single-Steps :
      (a : App) (m : L.Message) → IsWellFormed a.book → Steps false a (on_new_order_single a m).0
  unfolding on_new_order_single
  on_new_order_single-Steps a m w = elim (Result-cases (order_of_message m)) [
    | inr (e, h) ↦ rw (h, on_new_order_single) here
    | inl (o, h) ↦
        rw (h, on_new_order_single) (accept_order-Steps a o w (order_of_message-untraded m o h))
  ]

  from_order_entry-Steps :
      (a : App) (m : L.Message) (t : Text)
      → IsWellFormed a.book
      → Steps false a (from_order_entry a m t).0
  unfolding from_order_entry
  from_order_entry-Steps a m t w =
      let P = λ (q : App × Option Rejection). Steps false a q.0 in
      ite-both P (text_dec t (codes "D")) (on_new_order_single-Steps a m w)
        (ite-both P (text_dec t (codes "j")) here (ite-both P (text_dec t (codes "3")) here here))

  from_app-Steps :
      (a : App) (m : L.Message) (id : L.SessionId)
      → IsWellFormed a.book
      → Steps false a (from_app a m id).0
  unfolding from_app
  from_app-Steps a m id w =
      let b = note_received a m id in
      let received = Same-Steps (note_received-Same a m id) in
      ite-both (λ (q : App × Option Rejection). Steps false a q.0)
        (kind_dec (kind_of b id) drop_copy) received
        (elim (Result-cases (L.header_string m 35)) [
          | inr (e, h) ↦ rw h received
          | inl (t, h) ↦
              rw h (
                Steps-trans received (from_order_entry-Steps b m t (Steps-IsWellFormed received w)))
        ])

  -- In a well-formed book, what the venue does at any event but a change of the silence switch is a
  -- sequence of the steps of the specification: an order accepted and acknowledged, one order moved
  -- and the move reported, or something that touches neither the book nor the outbox nor the roles.
  pub react-Steps :
      (a : App) (e : Event) → IsWellFormed a.book → ¬ IsSilence e → Steps false a (react a e)
  unfolding react
  react-Steps a (app_message m id) w h = from_app-Steps a m id w
  react-Steps a (admin_message m id) w h = from_admin-Steps a m id
  react-Steps a (sends_app m id) w h = Same-Steps (note_sent-Same a m id)
  react-Steps a (sends_admin m id) w h = Same-Steps (note_sent-Same a m id)
  react-Steps a (logs_on id) w h = one (quiet _ refl refl refl refl)
  react-Steps a (logs_out now id) w h = Same-Steps (on_logout-Same a now id)
  react-Steps a (timer_runs id) w h = elim (Bool-cases (is_logged_on a id)) [
    | inl back ↦ rw (back, cod_timer) here
    | inr off ↦ rw (off, cod_timer) (cancel_all_open_day-MassCanceled a (cod_reason id) w).steps
  ]
  react-Steps a (fills id px) w h = Ends-Steps (fill-Ends a id px w)
  react-Steps a (fills_part id qty px) w h = Ends-Steps (partial-Ends a id qty px w)
  react-Steps a (cancels_one id reason) w h = Ends-Steps (cancel-Ends a id reason w)
  react-Steps a (rejects_one id reason) w h = Ends-Steps (reject-Ends a id reason w)
  react-Steps a (cancels_all reason) w h = (cancel_all_open_day-MassCanceled a reason w).steps
  react-Steps a (refuses_logons reason) w h = one (quiet _ refl refl refl refl)
  react-Steps a (silences v) w h = absurd (h tt)

  any-Steps : (a : App) (e : Event) → IsWellFormed a.book → Steps true a (react a e)
  unfolding react
  any-Steps a (silences v) w = one (hushes refl v)
  any-Steps a e w = may_hush (react-Steps a e w (λ s. s))

  pub run-Steps : (a : App) (es : List Event) → IsWellFormed a.book → Steps true a (run a es)
  unfolding run
  run-Steps a [] w = here
  run-Steps a (e ∷ es) w =
      let first = any-Steps a e w in
      Steps-trans first (run-Steps (react a e) es (Steps-IsWellFormed first w))

  -- The operator does not silence the venue, nor end a silence.
  pub run-Steps_loud :
      (a : App) (es : List Event)
      → IsWellFormed a.book
      → All (λ e. ¬ IsSilence e) es
      → Steps false a (run a es)
  unfolding run
  run-Steps_loud a [] w h = here
  run-Steps_loud a (e ∷ es) w (he, h) =
      let first = react-Steps a e w he in
      Steps-trans first (run-Steps_loud (react a e) es (Steps-IsWellFormed first w) h)
