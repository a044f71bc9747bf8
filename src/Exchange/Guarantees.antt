-- ===== src/Exchange/Guarantees.antt =====
-- The venue after any history: internal/exchange.
use fix_session_lab.Base.{◌+◌, ◌≡◌, refl, sym, subst, ◌⊎◌, false, List, [], none, some}
use fix_session_lab.Base.Lists.{All}
use fix_session_lab.Base.Text.{Text}
use fix_session_lab.Book.{Book, new_book, all_orders}
use fix_session_lab.Book.Spec.{find_order}
use fix_session_lab.Book.View.{IsWellFormed, all_orders-cells, new_book-IsWellFormed}
use fix_session_lab.Deps.{Deps, DecimalLaws}
use fix_session_lab.Exchange.{App, ExecutionReport}
use fix_session_lab.Exchange.Events.{Event, run, IsSilence, run-Steps, run-Steps_loud}
use fix_session_lab.Exchange.ExecIds.{Unrepeated, Below-Unrepeated, Steps-IsNumbered}
use fix_session_lab.Exchange.Fanout.{reports_to, Roles, Steps-IsMirrored}
use fix_session_lab.Exchange.Lifecycle.{Moves-IsConsistent}
use fix_session_lab.Exchange.Steps.{Steps-cells, Steps-IsWellFormed}
use fix_session_lab.Exchange.Latest.{latest, Shows, IsTold, Steps-IsTold}
use fix_session_lab.Exchange.Final.{Steps-final}
use fix_session_lab.Order.{OrderState, IsConsistent, is_open}

module _ ⦃L : Deps⦄ where
  -- A venue that has done nothing yet: no order, and nothing sent.
  pub record IsFresh (a : App) : Type 0 where
    pub no_orders : a.book ≡ new_book
    pub nothing_sent : a.outbox ≡ []

  pub IsFresh-IsWellFormed : (a : App) → IsFresh a → IsWellFormed a.book
  IsFresh-IsWellFormed a f = rw f.no_orders new_book-IsWellFormed

  nothing-IsTold : (a : App) (id : L.SessionId) → IsFresh a → IsTold id a
  unfolding new_book find_order
  nothing-IsTold a id f k o found =
      let none_found : none ≡ some o =
        subst (λ (b : Book L.Decimal). find_order k b.cells ≡ some o) f.no_orders found in
      cc

  -- From a venue with no order and nothing sent, after any sequence of events, the executed quantity
  -- of every order fits its status, given the laws of exact decimals: nothing while the order is new,
  -- a positive part of it while partially filled, exactly the order, which is then positive, once
  -- filled; a canceled or rejected order has traded nothing or a positive part.
  pub run-IsConsistent :
      (a : App) (es : List Event)
      → IsFresh a
      → DecimalLaws L
      → All IsConsistent (all_orders (run a es).book)
  run-IsConsistent a es f laws =
      let w = IsFresh-IsWellFormed a f in
      let steps = run-Steps a es w in
      rw (all_orders-cells (run a es).book (Steps-IsWellFormed steps w)) (
        Steps-cells IsConsistent (λ o zero new. rw (new, zero) refl)
          (λ o o' x m q. Moves-IsConsistent laws m q) steps
          (subst (λ (b : Book L.Decimal). All IsConsistent b.cells) (sym f.no_orders)
            (unfold new_book in tt)))

  -- From a venue with no order and nothing sent, with one order-entry and one other drop-copy session,
  -- after any sequence of events the drop copy has been sent the reports that the order-entry session
  -- has been sent: the same, with the same ExecIDs, in the same order.
  pub run-IsMirrored :
      (a : App) (es : List Event) (oe dc : L.SessionId)
      → IsFresh a
      → Roles a oe dc
      → reports_to oe (run a es).outbox ≡ reports_to dc (run a es).outbox
  unfolding reports_to
  run-IsMirrored a es oe dc f roles =
      Steps-IsMirrored (run-Steps a es (IsFresh-IsWellFormed a f)) roles (rw f.nothing_sent refl)

  -- From a venue with no order and nothing sent, with one order-entry and one other drop-copy session,
  -- after any sequence of events no ExecID has been sent twice to either of these sessions.
  pub run-Unrepeated :
      (a : App) (es : List Event) (oe dc id : L.SessionId)
      → IsFresh a
      → Roles a oe dc
      → (id ≡ oe) ⊎ (id ≡ dc)
      → Unrepeated (reports_to id (run a es).outbox)
  unfolding reports_to
  run-Unrepeated a es oe dc id f roles role =
      Below-Unrepeated ((run a es).book.exec_seq + 1) (reports_to id (run a es).outbox) (
        Steps-IsNumbered id (run-Steps a es (IsFresh-IsWellFormed a f)) roles role
          (rw f.nothing_sent tt))

  -- From a venue with no order and nothing sent, with one order-entry and one other drop-copy session,
  -- not silenced and not silenced or unsilenced by any of the events: of every order in the book, the
  -- newest report that either of these sessions was sent of it tells the order as it now stands, with
  -- its status, and with its quantities and average price at the digits that the wire has.
  pub run-IsTold :
      (a : App) (es : List Event) (oe dc id : L.SessionId) (cl_ord_id : Text)
      (o : OrderState L.Decimal)
      → IsFresh a
      → Roles a oe dc
      → (id ≡ oe) ⊎ (id ≡ dc)
      → a.silenced ≡ false
      → All (λ e. ¬ IsSilence e) es
      → find_order cl_ord_id (all_orders (run a es).book) ≡ some o
      → (er : ExecutionReport L.Decimal) × (latest cl_ord_id (reports_to id (run a es).outbox)
          ≡ some er)
        × Shows er o
  run-IsTold a es oe dc id k o f roles role loud speaks found =
      let w = IsFresh-IsWellFormed a f in
      let steps = run-Steps_loud a es w speaks in
      Steps-IsTold id steps roles role loud (nothing-IsTold a id f) k o
        (rw (all_orders-cells (run a es).book (Steps-IsWellFormed steps w)) at found)

  -- An order of a well-formed book that is filled, canceled or rejected, or otherwise not open, is
  -- found unchanged in the book after any sequence of events.
  pub run-final :
      (a : App) (es : List Event) (cl_ord_id : Text) (o : OrderState L.Decimal)
      → IsWellFormed a.book
      → find_order cl_ord_id (all_orders a.book) ≡ some o
      → is_open o ≡ false
      → find_order cl_ord_id (all_orders (run a es).book) ≡ some o
  run-final a es k o w found shut =
      let steps = run-Steps a es w in
      rw (all_orders-cells (run a es).book (Steps-IsWellFormed steps w))
        (Steps-final k o steps (rw (all_orders-cells a.book w) at found) shut)
