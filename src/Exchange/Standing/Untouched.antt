-- ===== src/Exchange/Standing/Untouched.antt =====
-- Trading leaves what the venue keeps of its sessions: internal/exchange.
use fix_session_lab.Base.{ℕ, ◌≡◌, refl, ◌∙◌, inl, inr, List, [], ◌∷◌, Option, none, some, arith}
use fix_session_lab.Base.Lists.{Bool-cases, Option-cases, ite-both}
use fix_session_lab.Base.Text.{Text, codes, text_dec}
use fix_session_lab.Book.{Book, Error, Change, update, insert_order, open_day_orders}
use fix_session_lab.Deps.{Deps, Result, ok, err, Rejection, Result-cases}
use fix_session_lab.Exchange.{
  App, SeqNums, no_seqnums, note_sent, note_received, is_logged_on, check_password, to_app,
  to_admin, on_logon, kind_of, kind_dec, drop_copy,
}
use fix_session_lab.Exchange.Callbacks.{from_app, from_order_entry, on_lost}
use fix_session_lab.Exchange.Commands.{partial, fill, report_update, fill_change, trade_report}
use fix_session_lab.Exchange.Reports.{
  Report, publish, cancel_all_open_day, cancel_each, cancel_one, publish_cancel, cod_timer,
  cod_reason, accept_order, on_new_order_single, order_of_message, on_session_lost, set_canceled,
  simple_report,
}
use fix_session_lab.Exchange.Standing.{standing_of}
use fix_session_lab.Order.{OrderState, ExecType, restatement_cancel_on_disconnect}
use fix_session_lab.Session.{LogonRequest}

module _ ⦃L : Deps⦄ where
  -- The sessions' part of the venue is as it was.
  pub record Untouched (a a' : App) : Type 0 where
    pub seqnums : a'.seqnums ≡ a.seqnums
    pub logged_on : a'.logged_on ≡ a.logged_on
    pub cod : a'.cod ≡ a.cod
    pub expect : a'.expect ≡ a.expect
    pub reject_logons : a'.reject_logons ≡ a.reject_logons
    pub kinds : a'.kinds ≡ a.kinds

  pub Untouched-standing :
      {a a' : App} (id : L.SessionId) → Untouched a a' → standing_of a' id ≡ standing_of a id
  Untouched-standing {a} {a'} id u =
      let e1 = u.seqnums in
      let e2 = u.logged_on in
      let e3 = u.cod in
      let e4 = u.expect in let e5 = u.reject_logons in rw (e1, e2, e3, e4, e5) refl

  pub publish-Untouched :
      (a : App) (b : Book L.Decimal) (r : Report L.Decimal)
      → Untouched a (publish (record a { book = b }) r)
  unfolding publish fix_session_lab.Exchange.Reports.send_to
  publish-Untouched a b r = record {
    seqnums = ground arith;
    logged_on = ground arith;
    cod = ground arith;
    expect = ground arith;
    reject_logons = ground arith;
    kinds = ground arith;
  }

  still : (a : App) → Untouched a a
  still a = record {
    seqnums = refl;
    logged_on = refl;
    cod = refl;
    expect = refl;
    reject_logons = refl;
    kinds = refl;
  }

  kept_book : (a : App) (b : Book L.Decimal) → Untouched a (record a { book = b })
  kept_book a b = record {
    seqnums = refl;
    logged_on = refl;
    cod = refl;
    expect = refl;
    reject_logons = refl;
    kinds = refl;
  }

  Untouched-trans : {a b c : App} → Untouched a b → Untouched b c → Untouched a c
  Untouched-trans u v = record {
    seqnums = v.seqnums ∙ u.seqnums;
    logged_on = v.logged_on ∙ u.logged_on;
    cod = v.cod ∙ u.cod;
    expect = v.expect ∙ u.expect;
    reject_logons = v.reject_logons ∙ u.reject_logons;
    kinds = v.kinds ∙ u.kinds;
  }

  publish_cancel-Untouched :
      (a : App) (reason : Text)
      (q : Book L.Decimal × Result (Error L.Decimal) (OrderState L.Decimal))
      → Untouched a (publish_cancel a reason q)
  unfolding publish_cancel
  publish_cancel-Untouched a reason (b, err e) = kept_book a b
  publish_cancel-Untouched a reason (b, ok o) =
      publish-Untouched a b
        (simple_report o ExecType.canceled reason restatement_cancel_on_disconnect)

  pub cancel_each-Untouched :
      (a : App) (os : List (OrderState L.Decimal)) (reason : Text)
      → Untouched a (cancel_each a os reason)
  unfolding cancel_each cancel_one
  cancel_each-Untouched a [] reason = still a
  cancel_each-Untouched a (o ∷ os) reason =
      Untouched-trans (publish_cancel-Untouched a reason (update a.book o.cl_ord_id set_canceled))
        (cancel_each-Untouched (cancel_one a o.cl_ord_id reason) os reason)

  pub cod_timer-Untouched : (a : App) (id : L.SessionId) → Untouched a (cod_timer a id)
  unfolding cod_timer cancel_all_open_day
  cod_timer-Untouched a id = elim (Bool-cases (is_logged_on a id)) [
    | inl on ↦ rw (on, cod_timer) (still a)
    | inr off ↦
        rw (off, cod_timer) (cancel_each-Untouched a (open_day_orders a.book) (cod_reason id))
  ]

  pub report_update-Untouched :
      (a : App) (q : Book L.Decimal × Result (Error L.Decimal) (OrderState L.Decimal))
      (report : OrderState L.Decimal → Report L.Decimal)
      → Untouched a (report_update a q report).0
  unfolding report_update
  report_update-Untouched a (b, err e) report = kept_book a b
  report_update-Untouched a (b, ok o) report = publish-Untouched a b (report o)

  pub partial-Untouched :
      (a : App) (id : Text) (qty px : L.Decimal) → Untouched a (partial a id qty px).0
  unfolding partial
  partial-Untouched a id qty px = elim (Bool-cases (L.less_eq qty L.zero_dec)) [
    | inl bad ↦ rw (bad, partial) (still a)
    | inr good ↦
        rw (good, partial)
          (report_update-Untouched a (update a.book id (fill_change id qty px))
            (trade_report qty px))
  ]

  pub fill-Untouched : (a : App) (id : Text) (px : L.Decimal) → Untouched a (fill a id px).0
  unfolding fill
  fill-Untouched a id px = elim (Option-cases (fix_session_lab.Book.get a.book id)) [
    | inl e ↦ rw (e, fill) (still a)
    | inr (o, e) ↦ rw (e, fill) (partial-Untouched a id _ px)
  ]

  on_new_order_single-Untouched :
      (a : App) (m : L.Message) → Untouched a (on_new_order_single a m).0
  unfolding on_new_order_single accept_order
  on_new_order_single-Untouched a m = elim (Result-cases (order_of_message m)) [
    | inr (x, e) ↦ rw (e, on_new_order_single) (still a)
    | inl (o, e) ↦ elim (Result-cases (insert_order a.book o)) [
      | inr (x, f) ↦ rw (e, on_new_order_single) (rw (f, accept_order) (still a))
      | inl ((b, o'), f) ↦
          rw (e, on_new_order_single)
            (rw (f, accept_order) (publish-Untouched a b (simple_report o' ExecType.new [] 0)))
    ]
  ]

  from_order_entry-Untouched :
      (a : App) (m : L.Message) (t : Text) → Untouched a (from_order_entry a m t).0
  unfolding from_order_entry
  from_order_entry-Untouched a m t =
      ite-both (λ (q : App × Option Rejection). Untouched a q.0) (text_dec t (codes "D"))
        (on_new_order_single-Untouched a m)
        (ite-both (λ (q : App × Option Rejection). Untouched a q.0) (text_dec t (codes "j"))
          (still a)
          (ite-both (λ (q : App × Option Rejection). Untouched a q.0) (text_dec t (codes "3"))
            (still a) (still a)))

  pub from_app-Untouched :
      (a : App) (m : L.Message) (i : L.SessionId)
      → Untouched (note_received a m i) (from_app a m i).0
  unfolding from_app
  from_app-Untouched a m i =
      let b = note_received a m i in
      ite-both (λ (q : App × Option Rejection). Untouched b q.0) (kind_dec (kind_of b i) drop_copy)
        (still b)
        (elim (Result-cases (L.header_string m 35)) [
          | inr (x, e) ↦ rw e (still b)
          | inl (t, e) ↦ rw e (from_order_entry-Untouched b m t)
        ])

  pub on_lost-Untouched :
      (a : App) (now : ℕ) (i : L.SessionId) (req : Option LogonRequest)
      → Untouched a (on_lost a now i req)
  unfolding on_lost on_session_lost
  on_lost-Untouched a now i none = still a
  on_lost-Untouched a now i (some req) = record {
    seqnums = ground arith;
    logged_on = ground arith;
    cod = ground arith;
    expect = ground arith;
    reject_logons = ground arith;
    kinds = ground arith;
  }
