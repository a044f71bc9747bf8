-- ===== src/Exchange/Commands.antt =====
-- What an operator can make the venue do: internal/exchange/commands.go.
use fix_session_lab.Base.{Bool, List, [], Option, none, some}
use fix_session_lab.Base.Lists.{if◌then◌else◌}
use fix_session_lab.Base.Text.{Text}
use fix_session_lab.Book.{
  Book, Error, unknown_order, qty_not_positive, cannot_trade, exceeds_leaves, cannot_cancel,
  cannot_reject, get, update, all_orders, Change,
}
use fix_session_lab.Deps.{Deps, Result, ok, err}
use fix_session_lab.Exchange.{App}
use fix_session_lab.Exchange.Reports.{Report, publish, simple_report}
use fix_session_lab.Order.{OrderState, ExecType, Status, is_open, leaves_qty}

module _ ⦃L : Deps⦄ where
  -- The state that a fill of `qty` at `px` leaves, once the guards have passed.
  unfoldable pub traded : L.Decimal → L.Decimal → OrderState L.Decimal → OrderState L.Decimal
  traded qty px o =
      let notional = L.add (L.mul o.avg_px o.cum_qty) (L.mul px qty) in
      let cum = L.add o.cum_qty qty in
      record o {
        cum_qty = cum;
        avg_px = L.div notional cum;
        status = if L.equal cum o.order_qty then Status.filled else Status.partially_filled;
      }

  unfoldable pub fill_change : Text → L.Decimal → L.Decimal → Change L.Decimal
  unfolding traded
  fill_change id qty px o =
      if is_open o
      then (if L.greater qty (leaves_qty o)
          then (o, some (exceeds_leaves qty (leaves_qty o)))
          else (traded qty px o, none))
      else (o, some (cannot_trade id o.status))

  unfoldable pub cancel_change : Text → Change L.Decimal
  cancel_change id o =
      if is_open o
      then (record o { status = Status.canceled }, none)
      else (o, some (cannot_cancel id o.status))

  unfoldable pub reject_change : Text → Change L.Decimal
  reject_change id o =
      if is_open o
      then (record o { status = Status.rejected }, none)
      else (o, some (cannot_reject id o.status))

  -- What follows Update: nothing more on an error, a report of the updated order otherwise.
  unfoldable pub report_update :
      App
      → Book L.Decimal × Result (Error L.Decimal) (OrderState L.Decimal)
      → (OrderState L.Decimal → Report L.Decimal)
      → App × Option (Error L.Decimal)
  unfolding publish
  report_update a (book, err e) report = (record a { book = book }, some e)
  report_update a (book, ok o) report = (publish (record a { book = book }) (report o), none)

  unfoldable pub trade_report : L.Decimal → L.Decimal → OrderState L.Decimal → Report L.Decimal
  trade_report qty px o = record {
    order = o;
    exec_type = ExecType.trade;
    last_qty = qty;
    last_px = px;
    text = [];
    restatement = 0;
  }

  -- Each command gives the state and the error that it returns.
  unfoldable pub partial : App → Text → L.Decimal → L.Decimal → App × Option (Error L.Decimal)
  unfolding report_update update fill_change trade_report
  partial a id qty px =
      if L.less_eq qty L.zero_dec
      then (a, some (qty_not_positive qty))
      else report_update a (update a.book id (fill_change id qty px)) (trade_report qty px)

  unfoldable pub fill : App → Text → L.Decimal → App × Option (Error L.Decimal)
  unfolding partial get
  fill a id px = elim (get a.book id) [
    | none ↦ (a, some (unknown_order id))
    | some o ↦ partial a id (leaves_qty o) px
  ]

  unfoldable pub cancel : App → Text → Text → App × Option (Error L.Decimal)
  unfolding report_update update cancel_change simple_report
  cancel a id reason =
      report_update a (update a.book id (cancel_change id))
        (λ o. simple_report o ExecType.canceled reason 0)

  unfoldable pub reject : App → Text → Text → App × Option (Error L.Decimal)
  unfolding report_update update reject_change simple_report
  reject a id reason =
      report_update a (update a.book id (reject_change id))
        (λ o. simple_report o ExecType.rejected reason 0)

  unfoldable pub set_reject_logons : App → Text → App
  set_reject_logons a reason = record a { reject_logons = reason }

  unfoldable pub set_silenced : App → Bool → App
  set_silenced a v = record a { silenced = v }

  unfoldable pub is_silenced : App → Bool
  is_silenced a = a.silenced

  unfoldable pub orders : App → List (OrderState L.Decimal)
  unfolding all_orders
  orders a = all_orders a.book
