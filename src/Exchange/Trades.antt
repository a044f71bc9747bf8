-- ===== src/Exchange/Trades.antt =====
-- When Partial and Fill trade, and what a trade leaves in the book.
use mathlib.Core.Option.{some-injective}
use fix_session_lab.Base.{
  ap, ◌≡◌, refl, sym, ◌∙◌, true, false, List, Option, none, some, [], ◌⊎◌, inl, inr, arith,
}
use fix_session_lab.Base.Lists.{Bool-cases}
use fix_session_lab.Base.Text.{Text}
use fix_session_lab.Book.{
  Book, Error, update, all_orders, Change, unknown_order, qty_not_positive, cannot_trade,
  exceeds_leaves,
}
use fix_session_lab.Book.Cases.{update_cases, update_refused}
use fix_session_lab.Book.Refines.{update-refines}
use fix_session_lab.Book.Spec.{find_order, replace_order, answer, spec_update, KeepsId}
use fix_session_lab.Book.View.{IsWellFormed, all_orders-cells}
use fix_session_lab.Deps.{Deps, Result, ok, err}
use fix_session_lab.Exchange.{App}
use fix_session_lab.Exchange.Commands.{traded, fill_change, report_update, trade_report, partial}
use fix_session_lab.Exchange.Publish.{
  outbox_after, publish_lem, publish-cells, publish-IsWellFormed,
}
use fix_session_lab.Exchange.Reports.{Report, publish}
use fix_session_lab.Exchange.Updates.{fill_change-KeepsId}
use fix_session_lab.Order.{OrderState, ExecType, Status, is_open, leaves_qty}

module _ ⦃L : Deps⦄ where
  -- The command went through and put `o'` in the place of the order.
  pub record Replaced (a : App) (id : Text) (o' : OrderState L.Decimal)
      (q : App × Option (Error L.Decimal)) : Type 0 where
    pub no_error : q.1 ≡ none
    pub orders : all_orders q.0.book ≡ replace_order id o' (all_orders a.book)

  abbrev UpdatedTo :
      List (OrderState L.Decimal)
      → OrderState L.Decimal
      → Book L.Decimal × Result (Error L.Decimal) (OrderState L.Decimal)
      → Type 0
  UpdatedTo os o' q = (all_orders q.0 ≡ os) × (q.1 ≡ ok o') × IsWellFormed q.0

  report_update-UpdatedTo :
      (a : App) (id : Text) (report : OrderState L.Decimal → Report L.Decimal)
      (o' : OrderState L.Decimal)
      (q : Book L.Decimal × Result (Error L.Decimal) (OrderState L.Decimal))
      → UpdatedTo (replace_order id o' (all_orders a.book)) o' q
      → Replaced a id o' (report_update a q report)
  unfolding report_update
  report_update-UpdatedTo a id report o' (b, err e) (os, answered, w) = cc
  report_update-UpdatedTo a id report o' (b, ok o) (os, answered, w) = record {
    no_error = refl;
    orders =
        all_orders-cells (publish (record a { book = b }) (report o)).book
          (publish-IsWellFormed (record a { book = b }) (report o) w)
        ∙ publish-cells (record a { book = b }) (report o)
        ∙ sym (all_orders-cells b w)
        ∙ os;
  }

  report_update-Replaced :
      (a : App) (id : Text) (fn : Change L.Decimal)
      (report : OrderState L.Decimal → Report L.Decimal) (o o' : OrderState L.Decimal)
      → IsWellFormed a.book
      → KeepsId fn
      → find_order id (all_orders a.book) ≡ some o
      → fn o ≡ (o', none)
      → Replaced a id o' (report_update a (update a.book id fn) report)
  unfolding spec_update
  report_update-Replaced a id fn report o o' w keeps found moves =
      let (os, answered, w') = update-refines a.book id fn w keeps in
      report_update-UpdatedTo a id report o' (update a.book id fn) (
        os ∙ rw (found, moves, spec_update) refl,
        answered ∙ rw (found, moves, spec_update) refl,
        w',
      )

  -- What a trade of `qty` at `px` makes of an order, field by field: the quantities add up, the price
  -- is the average by quantity, and the order is filled exactly when the whole of it has traded.
  pub record IsTraded (qty px : L.Decimal) (o o' : OrderState L.Decimal) : Type 0 where
    pub quantity : o'.cum_qty ≡ L.add o.cum_qty qty
    pub average :
        o'.avg_px ≡ L.div (L.add (L.mul o.avg_px o.cum_qty) (L.mul px qty)) (L.add o.cum_qty qty)
    pub status :
        ((L.equal (L.add o.cum_qty qty) o.order_qty ≡ true) × (o'.status ≡ Status.filled))
        ⊎ ((L.equal (L.add o.cum_qty qty) o.order_qty ≡ false)
            × (o'.status ≡ Status.partially_filled))
    pub others : o' ≡ record o { cum_qty = o'.cum_qty; avg_px = o'.avg_px; status = o'.status }

  -- The ways that Partial can end: refused, with the venue as it was and the error that names why, or
  -- with the order traded, all others as they were and the trade reported.
  pub data Trades (a : App) (id : Text) (qty px : L.Decimal) (q : App × Option (Error L.Decimal))
      : Type 0 where
    no_quantity :
        L.less_eq qty L.zero_dec ≡ true
        → q ≡ (a, some (qty_not_positive qty))
        → Trades a id qty px q
    no_order :
        L.less_eq qty L.zero_dec ≡ false
        → find_order id (all_orders a.book) ≡ none
        → q ≡ (a, some (unknown_order id))
        → Trades a id qty px q
    not_open :
        (o : OrderState L.Decimal)
        → L.less_eq qty L.zero_dec ≡ false
        → find_order id (all_orders a.book) ≡ some o
        → is_open o ≡ false
        → q ≡ (a, some (cannot_trade id o.status))
        → Trades a id qty px q
    too_much :
        (o : OrderState L.Decimal)
        → L.less_eq qty L.zero_dec ≡ false
        → find_order id (all_orders a.book) ≡ some o
        → is_open o ≡ true
        → L.greater qty (L.sub o.order_qty o.cum_qty) ≡ true
        → q ≡ (a, some (exceeds_leaves qty (L.sub o.order_qty o.cum_qty)))
        → Trades a id qty px q
    trades :
        (o o' : OrderState L.Decimal)
        → L.less_eq qty L.zero_dec ≡ false
        → find_order id (all_orders a.book) ≡ some o
        → is_open o ≡ true
        → L.greater qty (L.sub o.order_qty o.cum_qty) ≡ false
        → IsTraded qty px o o'
        → q.1 ≡ none
        → all_orders q.0.book ≡ replace_order id o' (all_orders a.book)
        → q.0.outbox
          ≡ outbox_after a (record {
            order = o';
            exec_type = ExecType.trade;
            last_qty = qty;
            last_px = px;
            text = [];
            restatement = 0;
          })
        → Trades a id qty px q

  traded-IsTraded :
      (qty px : L.Decimal) (o : OrderState L.Decimal) → IsTraded qty px o (traded qty px o)
  unfolding traded
  traded-IsTraded qty px o = record {
    quantity = refl;
    average = refl;
    status = ground arith;
    others = refl;
  }

  -- The report of an update goes out from the venue as it was.
  report_update-outbox :
      (a : App) (id : Text) (fn : Change L.Decimal)
      (report : OrderState L.Decimal → Report L.Decimal) (o o' : OrderState L.Decimal)
      → IsWellFormed a.book
      → KeepsId fn
      → find_order id a.book.cells ≡ some o
      → fn o ≡ (o', none)
      → (report_update a (update a.book id fn) report).0.outbox ≡ outbox_after a (report o')
  unfolding report_update outbox_after
  report_update-outbox a id fn report o o' w keeps found moves =
      elim (update_cases a.book id fn w keeps) [
        | inl (missing, e) ↦ absurd (ground arith)
        | inr (o₁, b, found₁, u) ↦
            let same : o₁ ≡ o = some-injective _ _ (sym found₁ ∙ found) in
            let moved : fn o₁ ≡ (o', none) = ap fn same ∙ moves in
            let answered : update a.book id fn ≡ (b, ok o') =
              u.answered ∙ ap (λ q. (b, answer q)) moved in
            ap
              (λ (q : Book L.Decimal × Result (Error L.Decimal) (OrderState L.Decimal)).
                (report_update a q report).0.outbox)
              answered
            ∙ ap (λ (x : App). x.outbox) (publish_lem (record a { book = b }) (report o'))
            ∙ rw u.same_exec_seq refl
      ]

  partial-known :
      (a : App) (id : Text) (qty px : L.Decimal) (o : OrderState L.Decimal)
      → IsWellFormed a.book
      → L.less_eq qty L.zero_dec ≡ false
      → find_order id (all_orders a.book) ≡ some o
      → Trades a id qty px (partial a id qty px)
  unfolding partial fill_change leaves_qty report_update trade_report
  partial-known a id qty px o w positive found =
      let found' : find_order id a.book.cells ≡ some o =
        sym (ap (find_order id) (all_orders-cells a.book w)) ∙ found in
      elim (Bool-cases (is_open o)) [
        | inr shut ↦ not_open o positive found shut (
            rw
              (
                positive,
                partial,
                update_refused a.book id (fill_change id qty px) (cannot_trade id o.status) {o = o}
                    w found' (rw shut refl),
              )
              refl)
        | inl live ↦ elim (Bool-cases (L.greater qty (L.sub o.order_qty o.cum_qty))) [
          | inl over ↦ too_much o positive found live over (
              rw
                (
                  positive,
                  partial,
                  update_refused a.book id (fill_change id qty px)
                      (exceeds_leaves qty (L.sub o.order_qty o.cum_qty)) {o = o} w found'
                      (rw (live, over) refl),
                )
                refl)
          | inr fits ↦
              let done =
                report_update-Replaced a id (fill_change id qty px) (trade_report qty px) o
                  (traded qty px o) w (fill_change-KeepsId id qty px) found
                  (rw (live, fits) refl) in
              trades o (traded qty px o) positive found live fits (traded-IsTraded qty px o)
                (rw (positive, partial) done.no_error) (rw (positive, partial) done.orders)
                (rw (positive, partial)
                  (report_update-outbox a id (fill_change id qty px) (trade_report qty px) o
                    (traded qty px o) w (fill_change-KeepsId id qty px) found'
                    (rw (live, fits) refl)))
        ]
      ]

  -- In a well-formed book, Partial ends in one of five ways. It is refused for a quantity that is not
  -- positive, for a ClOrdID that the book does not have, for an order that is not open, or for a
  -- quantity greater than what is left of the order, in this order of precedence, each with its error
  -- and with the venue as it was; or it makes no error, the order has the traded quantity added, the
  -- average price by quantity, the status filled if the whole of it has then traded and partially
  -- filled if not, and all else as it was, in the place where it stood among the other orders, and the
  -- trade with its quantity and price is reported as every report is from the venue as it was.
  pub partial-Trades :
      (a : App) (id : Text) (qty px : L.Decimal)
      → IsWellFormed a.book
      → Trades a id qty px (partial a id qty px)
  unfolding partial report_update
  partial-Trades a id qty px w = elim (Bool-cases (L.less_eq qty L.zero_dec)) [
    | inl low ↦ no_quantity low (rw (low, partial) refl)
    | inr positive ↦
        elim (update_cases a.book id (fill_change id qty px) w (fill_change-KeepsId id qty px)) [
          | inl (missing, e) ↦
              no_order positive (ap (find_order id) (all_orders-cells a.book w) ∙ missing)
                (rw (positive, partial, e) refl)
          | inr (o, b, found, u) ↦
              partial-known a id qty px o w positive
                (ap (find_order id) (all_orders-cells a.book w) ∙ found)
        ]
  ]
