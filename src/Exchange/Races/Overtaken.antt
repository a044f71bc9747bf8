-- ===== src/Exchange/Races/Overtaken.antt =====
-- A call of publish that is overtaken: Update and publish of internal/exchange.
use fix_session_lab.Base.{
  ◌≡◌, refl, sym, ap, ◌∙◌, subst, inl, inr, true, false, List, [], ◌∷◌, ◌++◌, none, some, if_pos,
}
use mathlib.Core.Option.{some-injective}
use fix_session_lab.Base.Text.{Text, text_dec}
use fix_session_lab.Book.{Book, all_orders, update}
use fix_session_lab.Book.Cases.{update_cases}
use fix_session_lab.Book.Replace.{find_order-id, find_order-replace}
use fix_session_lab.Book.Spec.{find_order, replace_order}
use fix_session_lab.Book.View.{IsWellFormed, all_orders-cells}
use fix_session_lab.Deps.{Deps, ok}
use fix_session_lab.Exchange.{App, ExecutionReport}
use fix_session_lab.Exchange.Commands.{fill_change, traded, trade_report}
use fix_session_lab.Exchange.Fanout.{reports_to, reports_to-role, Roles, same-Roles}
use fix_session_lab.Exchange.Latest.{latest, latest_hit, Shows, publish-Shows}
use fix_session_lab.Exchange.Publish.{
  published_report, publish-cells, publish-silenced, publish-kinds, publish-IsWellFormed,
}
use fix_session_lab.Exchange.Races.Once.{quiet, same_kinds-Roles}
use fix_session_lab.Exchange.Updates.{fill_change-KeepsId}
use fix_session_lab.Order.{OrderState, is_open, leaves_qty}
use fix_session_lab.Exchange.Races.{
  begin_report, called, Call, advance, Busy, move_at, RaceAct, trades, moves, race_step, race,
}
use fix_session_lab.Exchange.Reports.{Report, publish}

module _ ⦃L : Deps⦄ where
  -- The call at the head, from its start to its end.
  abbrev pub runs_head : List RaceAct
  runs_head = moves 0 ∷ moves 0 ∷ moves 0 ∷ moves 0 ∷ []

  pub race-publish :
      (a : App) (r : Report L.Decimal) (cs : List Call)
      → a.silenced ≡ false
      → race (record { app = a; calls = record { report = r; stage = called } ∷ cs }) runs_head
        ≡ record { app = publish a r; calls = cs }
  unfolding race race_step move_at advance publish
  race-publish a r cs loud = rw (loud, race) refl

  race-append : (s : Busy) (xs ys : List RaceAct) → race s (xs ++ ys) ≡ race (race s xs) ys
  unfolding race
  race-append s [] ys = refl
  race-append s (x ∷ xs) ys = race-append (race_step s x) xs ys

  -- What Partial asks of its order.
  pub record CanTrade (qty : L.Decimal) (o : OrderState L.Decimal) : Type 0 where
    pub live : is_open o ≡ true
    pub positive : L.less_eq qty L.zero_dec ≡ false
    pub fits : L.greater qty (leaves_qty o) ≡ false

  -- Partial up to its call of publish.
  trade_step :
      (s : Busy) (id : Text) (qty px : L.Decimal) (o : OrderState L.Decimal)
      → IsWellFormed s.app.book
      → find_order id s.app.book.cells ≡ some o
      → CanTrade qty o
      → (b : Book L.Decimal) × (race_step s (trades id qty px) ≡ record {
        app = record s.app { book = b };
        calls = record { report = trade_report qty px (traded qty px o); stage = called } ∷ s.calls;
      })
        × IsWellFormed b
        × (find_order id b.cells ≡ some (traded qty px o))
  unfolding race_step begin_report
  trade_step s id qty px o w found can =
      let moved : fill_change id qty px o ≡ (traded qty px o, none) =
        unfold fill_change in rw (can.live, can.fits) refl in
      elim (update_cases s.app.book id (fill_change id qty px) w (fill_change-KeepsId id qty px)) [
        | inl (missing, u) ↦ absurd (cc)
        | inr (o', b, found', u) ↦
            let same : o' ≡ o = some-injective _ _ (sym found' ∙ found) in
            let answered : update s.app.book id (fill_change id qty px)
                ≡ (b, ok (traded qty px o)) =
              u.answered ∙ rw (same, moved) refl in
            let kept : (traded qty px o).cl_ord_id ≡ id =
              unfold traded in find_order-id id s.app.book.cells found in
            let repl : b.cells ≡ replace_order id (traded qty px o) s.app.book.cells =
              u.replaced ∙ rw (same, moved) refl in
            (
              b,
              rw (can.positive, answered, race_step) refl,
              u.well_formed,
              ap (find_order id) repl
                  ∙ find_order-replace id id s.app.book.cells (traded qty px o) found kept
                  ∙ if_pos (text_dec id id) refl _ _,
            )
      ]

  -- Two calls of publish of which the second to be called is first.
  race-overtaken :
      (a : App) (r r' : Report L.Decimal)
      → a.silenced ≡ false
      → race
          (record {
            app = a;
            calls =
                record { report = r'; stage = called } ∷ record { report = r; stage = called } ∷ [];
          })
          (runs_head ++ runs_head)
        ≡ quiet (publish (publish a r') r)
  race-overtaken a r r' loud =
      race-append _ runs_head runs_head
      ∙ ap (λ s. race s runs_head)
          (race-publish a r' (record { report = r; stage = called } ∷ []) loud)
      ∙ race-publish (publish a r') r [] (publish-silenced a r' ∙ loud)

  -- What a session has been sent when a report is published last.
  publish-latest :
      (a : App) (r : Report L.Decimal) (oe dc : L.SessionId) (id : Text)
      → a.silenced ≡ false
      → Roles a oe dc
      → r.order.cl_ord_id ≡ id
      → latest id (reports_to oe (publish a r).outbox) ≡ some (published_report a r)
  publish-latest a r oe dc id loud roles e =
      rw (reports_to-role a r oe dc oe roles (inl refl), loud)
        (latest_hit id (published_report a r) (reports_to oe a.outbox)
          ((publish-Shows a r).cl_ord_id ∙ e))

  -- The book has both trades, and the newest report has only the first.
  pub record Stale (oe : L.SessionId) (id : Text) (o₁ o₂ : OrderState L.Decimal) (s : Busy)
      : Type 0 where
    pub done : s.calls ≡ []
    pub in_book : find_order id (all_orders s.app.book) ≡ some o₂
    pub told :
        (er : ExecutionReport L.Decimal) × (latest id (reports_to oe s.app.outbox) ≡ some er)
        × Shows er o₁

  published-Stale :
      (a : App) (r r' : Report L.Decimal) (oe dc : L.SessionId) (id : Text)
      (o : OrderState L.Decimal)
      → IsWellFormed a.book
      → a.silenced ≡ false
      → Roles a oe dc
      → find_order id a.book.cells ≡ some o
      → r.order.cl_ord_id ≡ id
      → Stale oe id r.order o (quiet (publish (publish a r') r))
  published-Stale a r r' oe dc id o w loud roles found e =
      let a' = publish a r' in
      let w' = publish-IsWellFormed a' r (publish-IsWellFormed a r' w) in
      record {
        done = refl;
        in_book =
            ap (find_order id)
              (all_orders-cells (publish a' r).book w' ∙ publish-cells a' r ∙ publish-cells a r')
            ∙ found;
        told = (
          published_report a' r,
          publish-latest a' r oe dc id (publish-silenced a r' ∙ loud)
              (same_kinds-Roles a a' (publish-kinds a r') roles) e,
          publish-Shows a' r,
        );
      }

  -- In a well-formed book, at a venue that is not silenced, with one order-entry and one other
  -- drop-copy session: if two Partials that an order can take one after the other both change the book
  -- before either publishes, and then the second publishes before the first, the book has both trades,
  -- no call is on its way, and the newest report of the order that the order-entry session was sent
  -- tells the first trade only.
  pub race-Stale :
      (a : App) (id : Text) (qty px qty' px' : L.Decimal) (o : OrderState L.Decimal)
      (oe dc : L.SessionId)
      → IsWellFormed a.book
      → Roles a oe dc
      → a.silenced ≡ false
      → find_order id (all_orders a.book) ≡ some o
      → CanTrade qty o
      → CanTrade qty' (traded qty px o)
      → Stale oe id
          (traded qty px o)
          (traded qty' px' (traded qty px o))
          (race (quiet a) (trades id qty px ∷ trades id qty' px' ∷ runs_head ++ runs_head))
  unfolding race trade_report
  race-Stale a id qty px qty' px' o oe dc w roles loud found can can' =
      let (b, one, w₁, f₁) =
        trade_step (quiet a) id qty px o w
          (sym (ap (find_order id) (all_orders-cells a.book w)) ∙ found) can in
      let s₁ : Busy = record {
        app = record a { book = b };
        calls = record { report = trade_report qty px (traded qty px o); stage = called } ∷ [];
      } in
      let (b', two, w₂, f₂) = trade_step s₁ id qty' px' (traded qty px o) w₁ f₁ can' in
      let a₂ : App = record a { book = b' } in
      let r = trade_report qty px (traded qty px o) in
      let r' = trade_report qty' px' (traded qty' px' (traded qty px o)) in
      let kept : (traded qty px o).cl_ord_id ≡ id =
        unfold traded in find_order-id id (all_orders a.book) found in
      subst (Stale oe id (traded qty px o) (traded qty' px' (traded qty px o)))
        (sym (
          ap (λ s. race (race_step s (trades id qty' px')) (runs_head ++ runs_head)) one
          ∙ ap (λ s. race s (runs_head ++ runs_head)) two
          ∙ race-overtaken a₂ r r' loud))
        (published-Stale a₂ r r' oe dc id (traded qty' px' (traded qty px o)) w₂ loud
          (same-Roles a b' roles) f₂ kept)
