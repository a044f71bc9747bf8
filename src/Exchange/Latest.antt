-- ===== src/Exchange/Latest.antt =====
-- The newest report of an order against the order: internal/exchange.
use fix_session_lab.Base.{
  ◌≡◌, ◌≢◌, refl, sym, ◌∙◌, ◌⊎◌, inl, inr, Bool, false, List, [], ◌∷◌, ◌++◌, none, some, Option,
  arith, ite,
}
use mathlib.Core.Option.{some-injective}
use fix_session_lab.Base.Text.{Text, text_dec}
use fix_session_lab.Book.{Book}
use fix_session_lab.Book.Spec.{find_order}
use fix_session_lab.Book.Replace.{find_order-snoc, find_order-replace}
use fix_session_lab.Deps.{Deps}
use fix_session_lab.Exchange.{App, ExecutionReport}
use fix_session_lab.Exchange.Fanout.{reports_to, reports_to-role, Roles, Steps-Roles, same-Roles}
use fix_session_lab.Exchange.Lifecycle.{Moves-SameTerms}
use fix_session_lab.Exchange.Publish.{published_report, publish-cells}
use fix_session_lab.Exchange.Reports.{Report, publish, build_execution_report}
use fix_session_lab.Exchange.Steps.{
  Step, quiet, accepts, changes, hushes, Steps, here, next, Steps-silenced,
}
use fix_session_lab.Order.{OrderState, leaves_qty}

-- The newest report of an order.
unfoldable pub latest : {D : Type 0} → Text → List (ExecutionReport D) → Option (ExecutionReport D)
latest id [] = none
latest id (er ∷ ers) = ite (text_dec er.cl_ord_id id) (some er) (latest id ers)

module _ {D : Type 0} (k : Text) (er : ExecutionReport D) (ers : List (ExecutionReport D)) where
  pub latest_hit : er.cl_ord_id ≡ k → latest k (er ∷ ers) ≡ some er
  unfolding latest
  latest_hit h = ground arith

  latest_miss : er.cl_ord_id ≢ k → latest k (er ∷ ers) ≡ latest k ers
  unfolding latest
  latest_miss h = ground arith

module _ ⦃L : Deps⦄ where
  -- The report tells this state of its order, in the digits that the wire has.
  pub record Shows (er : ExecutionReport L.Decimal) (o : OrderState L.Decimal) : Type 0 where
    pub cl_ord_id : er.cl_ord_id ≡ o.cl_ord_id
    pub order_id : er.order_id ≡ o.order_id
    pub status : er.ord_status ≡ o.status
    pub cum_qty : er.cum_qty ≡ L.fixed o.cum_qty 0
    pub leaves_qty : er.leaves_qty ≡ L.fixed (leaves_qty o) 0
    pub avg_px : er.avg_px ≡ L.fixed o.avg_px 2

  -- Every order in the book is told as it stands by its newest report to this session.
  abbrev pub IsTold : L.SessionId → App → Type 0
  IsTold id a =
      (cl_ord_id : Text) (o : OrderState L.Decimal)
      → find_order cl_ord_id a.book.cells ≡ some o
      → (er : ExecutionReport L.Decimal) × (latest cl_ord_id (reports_to id a.outbox) ≡ some er)
        × Shows er o

  -- A book in which only the reported order differs from the one before.
  abbrev OnlyReported : App → Book L.Decimal → OrderState L.Decimal → Type 0
  OnlyReported a b o =
      (k : Text) (x : OrderState L.Decimal)
      → find_order k b.cells ≡ some x
      → ((o.cl_ord_id ≡ k) × (x ≡ o)) ⊎ ((o.cl_ord_id ≢ k) × (find_order k a.book.cells ≡ some x))

  pub publish-Shows : (a : App) (r : Report L.Decimal) → Shows (published_report a r) r.order
  unfolding build_execution_report
  publish-Shows a r = record {
    cl_ord_id = refl;
    order_id = refl;
    status = refl;
    cum_qty = refl;
    leaves_qty = refl;
    avg_px = refl;
  }

  publish-IsTold :
      (a : App) (b : Book L.Decimal) (r : Report L.Decimal) (oe dc id : L.SessionId)
      → Roles a oe dc
      → (id ≡ oe) ⊎ (id ≡ dc)
      → a.silenced ≡ false
      → OnlyReported a b r.order
      → IsTold id a
      → IsTold id (publish (record a { book = b }) r)
  publish-IsTold a b r oe dc id roles role loud only h k x found =
      let a₁ : App = record a { book = b } in
      let shows = publish-Shows a₁ r in
      elim (only k x (rw (publish-cells a₁ r) at found)) [
        | inl (e, same) ↦ (
          published_report a₁ r,
          rw (reports_to-role a₁ r oe dc id (same-Roles a b roles) role, loud)
              (latest_hit k (published_report a₁ r) (reports_to id a.outbox) (shows.cl_ord_id ∙ e)),
          rw same shows,
        )
        | inr (ne, before) ↦
            let (er, is_latest, tells) = h k x before in
            (
              er,
              rw (reports_to-role a₁ r oe dc id (same-Roles a b roles) role, loud)
                  (latest_miss k (published_report a₁ r) (reports_to id a.outbox)
                      (λ e. ne (sym shows.cl_ord_id ∙ e))
                    ∙ is_latest),
              tells,
            )
      ]

  find_order-snoc_self :
      (os : List (OrderState L.Decimal)) (o : OrderState L.Decimal)
      → find_order o.cl_ord_id os ≡ none
      → find_order o.cl_ord_id (os ++ o ∷ []) ≡ some o
  unfolding find_order
  find_order-snoc_self [] o h = ground arith
  find_order-snoc_self (x ∷ os) o h = ground (arith, find_order-snoc_self os o)

  Step-IsTold :
      {h : Bool} {a a' : App} {oe dc : L.SessionId} (id : L.SessionId)
      → Step h a a'
      → Roles a oe dc
      → (id ≡ oe) ⊎ (id ≡ dc)
      → a.silenced ≡ false
      → IsTold id a
      → IsTold id a'
  Step-IsTold id (quiet a' b o k v) roles role loud h = rw (o, b) h
  Step-IsTold id (hushes e v) roles role loud h = h
  Step-IsTold {a = a} {oe = oe} {dc = dc} id (accepts b r c x) roles role loud h =
      publish-IsTold a b r oe dc id roles role loud
        (λ k x found. elim (text_dec r.order.cl_ord_id k) [
          | yes e ↦ inl (
            e,
            some-injective _ _ (
                sym found
                ∙ rw (c.extended, ← e) (find_order-snoc_self a.book.cells r.order c.unknown)),
          )
          | no ne ↦
              inr (ne, sym (find_order-snoc k a.book.cells r.order ne) ∙ (rw c.extended at found))
        ])
        h
  Step-IsTold {a = a} {oe = oe} {dc = dc} id (changes b r o c) roles role loud h =
      let terms = Moves-SameTerms c.moved in
      publish-IsTold a b r oe dc id roles role loud
        (λ k x found.
          let found' =
            rw
              (
                c.replaced,
                find_order-replace k o.cl_ord_id a.book.cells {o = o} r.order c.known
                    terms.cl_ord_id,
              )
              at found in
          elim (text_dec o.cl_ord_id k) [
            | yes e ↦ inl (terms.cl_ord_id ∙ e, ground arith)
            | no ne ↦ inr (λ e. ne (sym terms.cl_ord_id ∙ e), ground arith)
          ])
        h

  pub Steps-IsTold :
      {a a' : App} {oe dc : L.SessionId} (id : L.SessionId)
      → Steps false a a'
      → Roles a oe dc
      → (id ≡ oe) ⊎ (id ≡ dc)
      → a.silenced ≡ false
      → IsTold id a
      → IsTold id a'
  Steps-IsTold id here roles role loud h = h
  Steps-IsTold id (next s st) roles role loud h =
      Step-IsTold id st (Steps-Roles s roles) role (Steps-silenced s ∙ loud)
        (Steps-IsTold id s roles role loud h)
