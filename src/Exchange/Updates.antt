-- ===== src/Exchange/Updates.antt =====
-- New orders and the operator's commands as steps of the venue: internal/exchange/commands.go and
-- reports.go.
use fix_session_lab.Base.{
  ◌+◌, ◌≡◌, refl, sym, subst, ◌⊎◌, inl, inr, false, [], none, some, Option, arith,
}
use fix_session_lab.Base.Lists.{Bool-cases, Option-cases}
use fix_session_lab.Base.Text.{Text}
use fix_session_lab.Book.{
  Book, Error, unknown_order, qty_not_positive, cannot_trade, exceeds_leaves, cannot_cancel,
  cannot_reject, Change, accepted, insert_order, update, get,
}
use fix_session_lab.Book.Cases.{update_cases, update_refused}
use fix_session_lab.Book.Replace.{find_order-id}
use fix_session_lab.Book.Spec.{find_order, replace_order, KeepsId}
use fix_session_lab.Book.View.{IsWellFormed, located, insert-IsWellFormed}
use fix_session_lab.Deps.{Deps}
use fix_session_lab.Exchange.{App}
use fix_session_lab.Exchange.Commands.{
  fill_change, cancel_change, reject_change, report_update, trade_report, partial, fill, cancel,
  reject,
}
use fix_session_lab.Exchange.Lifecycle.{Moves, trades, cancels, rejects}
use fix_session_lab.Exchange.Reports.{Report, publish, simple_report, accept_order}
use fix_session_lab.Exchange.Steps.{Changes, accepts, changes, Steps, here, one}
use fix_session_lab.Order.{OrderState, ExecType, is_open, leaves_qty}

module _ ⦃L : Deps⦄ where
  -- A function that the exchange gives to Update: it refuses and writes nothing, or makes one move.
  abbrev pub IsLawful : Change L.Decimal → ExecType → Type 0
  IsLawful fn x =
      (o : OrderState L.Decimal)
      → ((e : Error L.Decimal) × (fn o ≡ (o, some e))) ⊎ (((fn o).1 ≡ none) × Moves o x (fn o).0)

  -- The two ways that a command can end, of which `q` says one.
  pub data Ends (a : App) (x : ExecType) (q : App × Option (Error L.Decimal)) : Type 0 where
    refused : (e : Error L.Decimal) → q ≡ (a, some e) → Ends a x q
    done :
        (b : Book L.Decimal) (o : OrderState L.Decimal) (r : Report L.Decimal)
        → Changes a.book o x r.order b
        → r.exec_type ≡ x
        → q ≡ (publish (record a { book = b }) r, none)
        → Ends a x q

  report_update-Ends :
      (a : App) (id : Text) (fn : Change L.Decimal) (x : ExecType)
      (report : OrderState L.Decimal → Report L.Decimal)
      → IsWellFormed a.book
      → KeepsId fn
      → IsLawful fn x
      → ((o : OrderState L.Decimal) → ((report o).order ≡ o) × ((report o).exec_type ≡ x))
      → Ends a x (report_update a (update a.book id fn) report)
  unfolding report_update
  report_update-Ends a id fn x report w keeps lawful fits =
      elim (update_cases a.book id fn w keeps) [
        | inl (missing, e) ↦ rw e (refused (unknown_order id) refl)
        | inr (o, b, found, u) ↦ elim (lawful o) [
          | inl (e, same) ↦ rw (update_refused a.book id fn e {o = o} w found same) (refused e refl)
          | inr (fine, moves) ↦
              let same_id = sym (find_order-id id a.book.cells {o = o} found) in
              rw (u.answered, fine)
                (done b o (report (fn o).0)
                  (record {
                    well_formed = u.well_formed;
                    known = subst (λ k. find_order k a.book.cells ≡ some o) same_id found;
                    moved = rw (fits (fn o).0).0 moves;
                    replaced = rw (fits (fn o).0).0 (
                        subst (λ k. b.cells ≡ replace_order k (fn o).0 a.book.cells) same_id
                          u.replaced);
                    same_exec_seq = u.same_exec_seq;
                  })
                  (fits (fn o).0).1 refl)
        ]
      ]

  pub Ends-Steps :
      {a : App} {x : ExecType} {q : App × Option (Error L.Decimal)} → Ends a x q → Steps false a q.0
  Ends-Steps {a} (refused e p) = rw p here
  Ends-Steps {a} (done b o r c x p) = rw p (one (changes b r o (rw x c)))

  pub fill_change-KeepsId : (id : Text) (qty px : L.Decimal) → KeepsId (fill_change id qty px)
  unfolding fill_change
  fill_change-KeepsId id qty px o = ground arith

  fill_change-IsLawful :
      (id : Text) (qty px : L.Decimal)
      → L.less_eq qty L.zero_dec ≡ false
      → IsLawful (fill_change id qty px) ExecType.trade
  unfolding fill_change
  fill_change-IsLawful id qty px pos o = elim (Bool-cases (is_open o)) [
    | inr shut ↦ inl (cannot_trade id o.status, rw shut refl)
    | inl h ↦ elim (Bool-cases (L.greater qty (leaves_qty o))) [
      | inl over ↦ inl (exceeds_leaves qty (leaves_qty o), rw (h, over) refl)
      | inr fits ↦ inr (rw (h, fits) refl, rw (h, fits) (trades qty px h pos fits refl refl))
    ]
  ]

  pub cancel_change-KeepsId : (id : Text) → KeepsId (cancel_change id)
  unfolding cancel_change
  cancel_change-KeepsId id o = ground arith

  cancel_change-IsLawful : (id : Text) → IsLawful (cancel_change id) ExecType.canceled
  unfolding cancel_change
  cancel_change-IsLawful id o = elim (Bool-cases (is_open o)) [
    | inr shut ↦ inl (cannot_cancel id o.status, rw shut refl)
    | inl h ↦ inr (rw h refl, rw h (cancels h refl refl))
  ]

  pub reject_change-KeepsId : (id : Text) → KeepsId (reject_change id)
  unfolding reject_change
  reject_change-KeepsId id o = ground arith

  reject_change-IsLawful : (id : Text) → IsLawful (reject_change id) ExecType.rejected
  unfolding reject_change
  reject_change-IsLawful id o = elim (Bool-cases (is_open o)) [
    | inr shut ↦ inl (cannot_reject id o.status, rw shut refl)
    | inl h ↦ inr (rw h refl, rw h (rejects h refl refl))
  ]

  pub partial-Ends :
      (a : App) (id : Text) (qty px : L.Decimal)
      → IsWellFormed a.book
      → Ends a ExecType.trade (partial a id qty px)
  unfolding partial trade_report
  partial-Ends a id qty px w = elim (Bool-cases (L.less_eq qty L.zero_dec)) [
    | inl low ↦ rw (low, partial) (refused (qty_not_positive qty) refl)
    | inr pos ↦
        rw (pos, partial)
          (report_update-Ends a id (fill_change id qty px) ExecType.trade (trade_report qty px) w
            (fill_change-KeepsId id qty px) (fill_change-IsLawful id qty px pos)
            (λ o. (refl, refl)))
  ]

  pub fill-Ends :
      (a : App) (id : Text) (px : L.Decimal)
      → IsWellFormed a.book
      → Ends a ExecType.trade (fill a id px)
  unfolding fill
  fill-Ends a id px w = elim (Option-cases (get a.book id)) [
    | inl missing ↦ rw (missing, fill) (refused (unknown_order id) refl)
    | inr (o, found) ↦ rw (found, fill) (partial-Ends a id (leaves_qty o) px w)
  ]

  pub cancel-Ends :
      (a : App) (id reason : Text)
      → IsWellFormed a.book
      → Ends a ExecType.canceled (cancel a id reason)
  unfolding cancel simple_report
  cancel-Ends a id reason w =
      report_update-Ends a id (cancel_change id) ExecType.canceled
        (λ o. simple_report o ExecType.canceled reason 0) w (cancel_change-KeepsId id)
        (cancel_change-IsLawful id) (λ o. (refl, refl))

  pub reject-Ends :
      (a : App) (id reason : Text)
      → IsWellFormed a.book
      → Ends a ExecType.rejected (reject a id reason)
  unfolding reject simple_report
  reject-Ends a id reason w =
      report_update-Ends a id (reject_change id) ExecType.rejected
        (λ o. simple_report o ExecType.rejected reason 0) w (reject_change-KeepsId id)
        (reject_change-IsLawful id) (λ o. (refl, refl))

  pub accept_order-Steps :
      (a : App) (o : OrderState L.Decimal)
      → IsWellFormed a.book
      → o.cum_qty ≡ L.zero_dec
      → Steps false a (accept_order a o).0
  unfolding accept_order insert_order accepted simple_report
  accept_order-Steps a o w zero = elim (located a.book o.cl_ord_id w) [
    | inr (p, x, at_p, cell, found, write) ↦ rw (at_p, accept_order, insert_order) here
    | inl (missing, nothing) ↦
        rw (missing, accept_order, insert_order)
          (one (
            accepts _ (simple_report (accepted (a.book.order_seq + 1) o) ExecType.new [] 0)
              (record {
                well_formed =
                    insert-IsWellFormed a.book (accepted (a.book.order_seq + 1) o)
                      (a.book.order_seq + 1) w nothing;
                unknown = nothing;
                untraded = zero;
                is_new = refl;
                extended = refl;
                same_exec_seq = refl;
              })
              refl))
  ]
