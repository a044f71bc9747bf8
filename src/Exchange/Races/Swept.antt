-- ===== src/Exchange/Races/Swept.antt =====
-- An order that trades between OpenDayOrders and the Update of CancelAllOpenDay:
-- internal/exchange/reports.go.
use fix_session_lab.Base.{◌≡◌, refl, ap, ◌∙◌, [], ◌∷◌, none, some, if_pos}
use fix_session_lab.Base.Text.{Text, text_dec}
use fix_session_lab.Book.{Change, all_orders}
use fix_session_lab.Book.Replace.{find_order-id, find_order-replace}
use fix_session_lab.Book.Spec.{KeepsId, find_order, spec_update}
use fix_session_lab.Book.View.{IsWellFormed}
use fix_session_lab.Deps.{Deps}
use fix_session_lab.Exchange.{App}
use fix_session_lab.Exchange.Commands.{fill_change, traded}
use fix_session_lab.Exchange.MassCancel.{set_canceled-KeepsId}
use fix_session_lab.Exchange.Races.{race, trades, sweeps}
use fix_session_lab.Exchange.Races.Once.{quiet}
use fix_session_lab.Exchange.Races.Overtaken.{CanTrade}
use fix_session_lab.Exchange.Races.Replay.{
  Ledger, changed, ledger_of, replay, replay_step, race-replay,
}
use fix_session_lab.Exchange.Reports.{set_canceled}
use fix_session_lab.Exchange.Updates.{fill_change-KeepsId}
use fix_session_lab.Order.{OrderState, Status}

module _ ⦃L : Deps⦄ where
  changed-find_order :
      (l : Ledger) (id : Text) (f : Change L.Decimal) (o : OrderState L.Decimal)
      → KeepsId f
      → find_order id l.orders ≡ some o
      → find_order id (changed l id f).orders ≡ some (f o).0
  unfolding spec_update
  changed-find_order l id f o keeps found =
      rw (found, spec_update)
        (find_order-replace id id l.orders (f o).0 found (keeps o ∙ find_order-id id l.orders found)
          ∙ if_pos (text_dec id id) refl _ _)

  -- In a well-formed book, if an order that can take a trade takes it, and then CancelAllOpenDay,
  -- which had listed the order before, updates it, the order has the trade and is canceled, also if
  -- the trade filled it.
  pub race-swept :
      (a : App) (id reason : Text) (qty px : L.Decimal) (o : OrderState L.Decimal)
      → IsWellFormed a.book
      → find_order id (all_orders a.book) ≡ some o
      → CanTrade qty o
      → find_order id
          (all_orders (race (quiet a) (trades id qty px ∷ sweeps id reason ∷ [])).app.book)
        ≡ some (record (traded qty px o) { status = Status.canceled })
  unfolding replay replay_step set_canceled
  race-swept a id reason qty px o w found can =
      let (same, _) = race-replay a (trades id qty px ∷ sweeps id reason ∷ []) w in
      let l = changed (ledger_of a.book) id (fill_change id qty px) in
      let moved : fill_change id qty px o ≡ (traded qty px o, none) =
        unfold fill_change in rw (can.live, can.fits) refl in
      let once : find_order id l.orders ≡ some (traded qty px o) =
        changed-find_order (ledger_of a.book) id (fill_change id qty px) o
          (fill_change-KeepsId id qty px) found
        ∙ ap (λ q. some q.0) moved in
      ap (λ (l : Ledger). find_order id l.orders) same
      ∙ rw (can.positive)
          (changed-find_order l id set_canceled (traded qty px o) set_canceled-KeepsId once)
