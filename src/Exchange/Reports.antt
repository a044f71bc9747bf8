-- ===== src/Exchange/Reports.antt =====
-- Execution reports, new orders and cancel-on-disconnect: internal/exchange/reports.go. Each function is
-- one step of the venue.
use fix_session_lab.Base.{
  ℕ, zero, suc, ◌+◌, ◌++◌, Bool, true, false, List, [], ◌∷◌, Option, none, some,
}
use fix_session_lab.Base.Int.{ℤ, pos, pos_part, wrap64, ◌*ℤ◌}
use fix_session_lab.Base.Lists.{length, if◌then◌else◌}
use fix_session_lab.Base.Text.{Text, codes}
use fix_session_lab.Book.{Book, Error, insert_order, update, open_day_orders, next_exec_id, Change}
use fix_session_lab.Deps.{
  Deps, Result, ok, err, ◌>>=◌, ok_or, Rejection, business_reject, duplicate_cl_ord_id,
}
use fix_session_lab.Exchange.{
  App, ExecutionReport, order_entry, drop_copy, session_of, is_logged_on,
}
use fix_session_lab.Order.{
  OrderState, ExecType, Status, leaves_qty, restatement_cancel_on_disconnect,
}
use fix_session_lab.Session.{LogonRequest}

-- What the venue wants to publish; its ExecID is made by `publish`.
pub record Report (D : Type 0) : Type 0 where
  pub order : OrderState D
  pub exec_type : ExecType
  pub last_qty : D
  pub last_px : D
  pub text : Text
  pub restatement : ℕ

abbrev pub is_trade : ExecType → Bool
is_trade ExecType.trade = true
is_trade _ = false

-- A field that is set only if the text is not empty.
abbrev pub text_field : Text → Option Text
text_field [] = none
text_field t = some t

-- A field that is set only if the number is not zero.
abbrev pub number_field : ℕ → Option ℕ
number_field zero = none
number_field (suc n) = some (suc n)

module _ ⦃L : Deps⦄ where
  unfoldable pub build_execution_report : Report L.Decimal → Text → ExecutionReport L.Decimal
  build_execution_report r exec_id =
      let o = r.order in
      record {
        order_id = o.order_id;
        exec_id = exec_id;
        exec_type = r.exec_type;
        ord_status = o.status;
        side = o.side;
        leaves_qty = L.fixed (leaves_qty o) 0;
        cum_qty = L.fixed o.cum_qty 0;
        avg_px = L.fixed o.avg_px 2;
        cl_ord_id = o.cl_ord_id;
        symbol = o.symbol;
        order_qty = L.fixed o.order_qty 0;
        price = if L.is_zero o.price then none else some (L.fixed o.price 2);
        account = text_field o.account;
        last_qty = if is_trade r.exec_type then some (L.fixed r.last_qty 0) else none;
        last_px = if is_trade r.exec_type then some (L.fixed r.last_px 2) else none;
        text = text_field r.text;
        restatement = number_field r.restatement;
      }

  -- Hands the report to the engine, which numbers and stores it whether or not the session is up.
  -- An error of SendToTarget is only logged.
  unfoldable pub send : App → Report L.Decimal → Text → L.SessionId → App
  unfolding build_execution_report
  send a r exec_id id = record a { outbox = (id, build_execution_report r exec_id) ∷ a.outbox }

  unfoldable pub send_to : App → Report L.Decimal → Text → Option L.SessionId → App
  unfolding send
  send_to a r exec_id none = a
  send_to a r exec_id (some id) = send a r exec_id id

  unfoldable pub publish : App → Report L.Decimal → App
  unfolding send_to session_of next_exec_id
  publish a r =
      let (book, exec_id) = next_exec_id a.book in
      let a₁ = record a { book = book } in
      if a.silenced
      then a₁
      else let a₂ = send_to a₁ r exec_id (session_of a₁ order_entry) in
        send_to a₂ r exec_id (session_of a₂ drop_copy)

  unfoldable pub simple_report : OrderState L.Decimal → ExecType → Text → ℕ → Report L.Decimal
  simple_report o exec_type text restatement = record {
    order = o;
    exec_type = exec_type;
    last_qty = L.zero_dec;
    last_px = L.zero_dec;
    text = text;
    restatement = restatement;
  }

  -- The order that a NewOrderSingle describes, or the engine's error for a field that it must have.
  unfoldable pub order_of_message : L.Message → Result Rejection (OrderState L.Decimal)
  order_of_message m = do
    cl_ord_id ← L.body_string m 11
    symbol ← L.body_string m 55
    side ← L.body_string m 54
    order_qty ← L.body_decimal m 38
    ord_type ← L.body_string m 40
    ok (record {
      cl_ord_id = cl_ord_id;
      order_id = [];
      account = ok_or [] (L.body_string m 1);
      symbol = symbol;
      side = side;
      ord_type = ord_type;
      time_in_force = ok_or [] (L.body_string m 59);
      price = ok_or L.zero_dec (L.body_decimal m 44);
      order_qty = order_qty;
      cum_qty = L.zero_dec;
      avg_px = L.zero_dec;
      status = Status.unset;
    })

  -- Insert and the acknowledgement that follows it.
  unfoldable pub accept_order : App → OrderState L.Decimal → App × Option Rejection
  unfolding insert_order publish simple_report
  accept_order a o = elim (insert_order a.book o) [
    | err e ↦ (a, some (business_reject (duplicate_cl_ord_id o.cl_ord_id) 5))
    | ok (book, o') ↦
        (publish (record a { book = book }) (simple_report o' ExecType.new [] 0), none)
  ]

  unfoldable pub on_new_order_single : App → L.Message → App × Option Rejection
  unfolding order_of_message accept_order
  on_new_order_single a m = elim (order_of_message m) [
    | err e ↦ (a, some e)
    | ok o ↦ accept_order a o
  ]

  -- time.Duration(window) * time.Millisecond; a timer whose time has passed runs at once.
  unfoldable pub window_nanoseconds : ℤ → ℕ
  unfolding wrap64
  window_nanoseconds w = pos_part (wrap64 (w *ℤ pos 1000000))

  unfoldable pub on_session_lost : App → ℕ → L.SessionId → LogonRequest → App
  unfolding window_nanoseconds
  on_session_lost a now id req = record a {
    timers =
        record { session = id; due = now + window_nanoseconds req.cod_timeout_window } ∷ a.timers;
  }

  unfoldable pub set_canceled : Change L.Decimal
  set_canceled o = (record o { status = Status.canceled }, none)

  -- What one round of the loop does with the result of Update.
  unfoldable pub publish_cancel :
      App → Text → Book L.Decimal × Result (Error L.Decimal) (OrderState L.Decimal) → App
  unfolding publish simple_report
  publish_cancel a reason (book, err e) = record a { book = book }
  publish_cancel a reason (book, ok o) =
      publish (record a { book = book })
        (simple_report o ExecType.canceled reason restatement_cancel_on_disconnect)

  unfoldable pub cancel_one : App → Text → Text → App
  unfolding update set_canceled publish_cancel
  cancel_one a id reason = publish_cancel a reason (update a.book id set_canceled)

  unfoldable pub cancel_each : App → List (OrderState L.Decimal) → Text → App
  unfolding cancel_one
  cancel_each a [] reason = a
  cancel_each a (o ∷ os) reason = cancel_each (cancel_one a o.cl_ord_id reason) os reason

  unfoldable pub cancel_all_open_day : App → Text → App × ℕ
  unfolding cancel_each
  cancel_all_open_day a reason =
      let os = open_day_orders a.book in (cancel_each a os reason, length os)

  unfoldable pub cod_reason : L.SessionId → Text
  cod_reason id = codes "cancel on disconnect (" ++ L.session_string id ++ codes ")"

  -- The function that onSessionLost gave to AfterFunc.
  unfoldable pub cod_timer : App → L.SessionId → App
  unfolding cancel_all_open_day cod_reason
  cod_timer a id = if is_logged_on a id then a else (cancel_all_open_day a (cod_reason id)).0
