-- ===== src/Exchange/MassCancel.antt =====
-- CancelAllOpenDay of internal/exchange/reports.go, which looks each order up again by its ClOrdID.
use fix_session_lab.Base.{
  ℕ, ◌≡◌, ◌≢◌, refl, sym, ap, ◌∙◌, subst, inl, inr, true, false, List, [], ◌∷◌, ◌++◌, none, some,
  arith, map, append_assoc,
}
use mathlib.Core.Option.{some-injective}
use fix_session_lab.Base.Lists.{Bool-cases, if◌then◌else◌, length, keep}
use fix_session_lab.Base.Text.{Text, text_dec}
use fix_session_lab.Book.{Book, is_open_day, open_day_orders, all_orders}
use fix_session_lab.Book.Cases.{Updated, update_cases}
use fix_session_lab.Book.Spec.{find_order, replace_order, Distinct, KeepsId}
use fix_session_lab.Book.View.{IsWellFormed, all_orders-cells}
use fix_session_lab.Deps.{Deps}
use fix_session_lab.Exchange.{App}
use fix_session_lab.Exchange.Lifecycle.{cancels}
use fix_session_lab.Exchange.Publish.{publish-cells, publish-IsWellFormed}
use fix_session_lab.Exchange.Reports.{
  publish, simple_report, set_canceled, publish_cancel, cancel_one, cancel_each,
  cancel_all_open_day,
}
use fix_session_lab.Exchange.Steps.{changes, Steps, here, one, Steps-trans}
use fix_session_lab.Order.{OrderState, ExecType, Status, is_open, restatement_cancel_on_disconnect}

-- What a mass cancel makes of an order.
abbrev pub cancel_open_day : {D : Type 0} → OrderState D → OrderState D
cancel_open_day o = if is_open_day o then record o { status = Status.canceled } else o

module _ {D : Type 0} where
  find_order-present :
      (pre : List (OrderState D)) (o : OrderState D) (os : List (OrderState D))
      → find_order o.cl_ord_id (pre ++ o ∷ os) ≢ none
  unfolding find_order
  find_order-present [] o os = ground arith
  find_order-present (x ∷ pre) o os = ground (arith, find_order-present pre o os)

  find_order-before :
      (pre : List (OrderState D)) (o : OrderState D) (os : List (OrderState D))
      → Distinct (pre ++ o ∷ os)
      → find_order o.cl_ord_id pre ≡ none
  unfolding find_order
  find_order-before [] o os d = refl
  find_order-before (x ∷ pre) o os d = elim (text_dec x.cl_ord_id o.cl_ord_id) [
    | yes same ↦
        absurd
          (find_order-present pre o os (subst (λ k. find_order k (pre ++ o ∷ os) ≡ none) same d.0))
    | no ne ↦ ground (arith, find_order-before pre o os d.1)
  ]

  find_order-at :
      (pre : List (OrderState D)) (o : OrderState D) (os : List (OrderState D))
      → find_order o.cl_ord_id pre ≡ none
      → find_order o.cl_ord_id (pre ++ o ∷ os) ≡ some o
  unfolding find_order
  find_order-at [] o os h = ground arith
  find_order-at (x ∷ pre) o os h = ground (arith, find_order-at pre o os)

  replace_order-at :
      (pre : List (OrderState D)) (o o' : OrderState D) (os : List (OrderState D))
      → find_order o.cl_ord_id pre ≡ none
      → replace_order o.cl_ord_id o' (pre ++ o ∷ os) ≡ pre ++ o' ∷ os
  unfolding find_order replace_order
  replace_order-at [] o o' os h = ground arith
  replace_order-at (x ∷ pre) o o' os h = ground (arith, replace_order-at pre o o' os)

module _ ⦃L : Deps⦄ where
  pub set_canceled-KeepsId : KeepsId set_canceled
  unfolding set_canceled
  set_canceled-KeepsId o = refl

  -- One round of the loop, at an order that stands in the book and is open.
  record OneCanceled (a : App) (pre : List (OrderState L.Decimal)) (o : OrderState L.Decimal)
      (os : List (OrderState L.Decimal)) (a' : App) : Type 0 where
    well_formed : IsWellFormed a'.book
    cells : a'.book.cells ≡ pre ++ record o { status = Status.canceled } ∷ os
    steps : Steps false a a'

  cancel_one-OneCanceled :
      (a : App) (pre : List (OrderState L.Decimal)) (o : OrderState L.Decimal)
      (os : List (OrderState L.Decimal)) (reason : Text)
      → IsWellFormed a.book
      → a.book.cells ≡ pre ++ o ∷ os
      → is_open o ≡ true
      → OneCanceled a pre o os (cancel_one a o.cl_ord_id reason)
  unfolding cancel_one publish_cancel set_canceled simple_report
  cancel_one-OneCanceled a pre o os reason w e h =
      let before = find_order-before pre o os (subst Distinct e w.distinct) in
      let found : find_order o.cl_ord_id a.book.cells ≡ some o =
        rw e (find_order-at pre o os before) in
      elim (update_cases a.book o.cl_ord_id set_canceled w set_canceled-KeepsId) [
        | inl (missing, u) ↦ cc (missing, found)
        | inr (x, b, found', u) ↦
            let done =
              subst (λ y. Updated a.book o.cl_ord_id set_canceled y b)
                (some-injective _ _ (sym found' ∙ found)) u in
            let o' : OrderState L.Decimal = record o { status = Status.canceled } in
            let r = simple_report o' ExecType.canceled reason restatement_cancel_on_disconnect in
            let a₁ : App = record a { book = b } in
            let round : cancel_one a o.cl_ord_id reason ≡ publish a₁ r =
              ap (publish_cancel a reason) done.answered in
            subst (OneCanceled a pre o os) (sym round) (record {
              well_formed = publish-IsWellFormed a₁ r done.well_formed;
              cells =
                  publish-cells a₁ r ∙ done.replaced ∙ rw e (replace_order-at pre o o' os before);
              steps = one (
                  changes b r o (record {
                    well_formed = done.well_formed;
                    known = found;
                    moved = cancels h refl refl;
                    replaced = done.replaced;
                    same_exec_seq = done.same_exec_seq;
                  }));
            })
      ]

  -- The loop over the orders `xs` that stand in the book behind `pre`.
  record Canceled (a : App) (pre xs : List (OrderState L.Decimal)) (a' : App) : Type 0 where
    well_formed : IsWellFormed a'.book
    cells : a'.book.cells ≡ pre ++ map cancel_open_day xs
    steps : Steps false a a'

  open_of_open_day : (o : OrderState L.Decimal) → is_open_day o ≡ true → is_open o ≡ true
  unfolding is_open_day
  open_of_open_day o h = ground arith

  cancel_each-Canceled :
      (a : App) (pre xs : List (OrderState L.Decimal)) (reason : Text)
      → IsWellFormed a.book
      → a.book.cells ≡ pre ++ xs
      → Canceled a pre xs (cancel_each a (keep is_open_day xs) reason)
  unfolding cancel_each
  cancel_each-Canceled a pre [] reason w e = record { well_formed = w; cells = e; steps = here }
  cancel_each-Canceled a pre (o ∷ xs) reason w e = elim (Bool-cases (is_open_day o)) [
    | inl h ↦
        let first = cancel_one-OneCanceled a pre o xs reason w e (open_of_open_day o h) in
        let o' : OrderState L.Decimal = record o { status = Status.canceled } in
        let rest =
          cancel_each-Canceled (cancel_one a o.cl_ord_id reason) (pre ++ o' ∷ []) xs reason
            first.well_formed (first.cells ∙ sym (append_assoc pre (o' ∷ []) xs)) in
        rw (h, cancel_each)
          (record {
            well_formed = rest.well_formed;
            cells = rw h (rest.cells ∙ append_assoc pre (o' ∷ []) (map cancel_open_day xs));
            steps = Steps-trans first.steps rest.steps;
          })
    | inr h ↦
        let rest =
          cancel_each-Canceled a (pre ++ o ∷ []) xs reason w
            (e ∙ sym (append_assoc pre (o ∷ []) xs)) in
        rw h (record {
          well_formed = rest.well_formed;
          cells = rw h (rest.cells ∙ append_assoc pre (o ∷ []) (map cancel_open_day xs));
          steps = rest.steps;
        })
  ]

  -- A mass cancel cancels every open day order, leaves the others as they are and in their places,
  -- returns how many there were, and each cancel is a step of the venue with its report.
  pub record MassCanceled (a : App) (q : App × ℕ) : Type 0 where
    pub well_formed : IsWellFormed q.0.book
    pub orders : all_orders q.0.book ≡ map cancel_open_day (all_orders a.book)
    pub counted : q.1 ≡ length (keep is_open_day (all_orders a.book))
    pub steps : Steps false a q.0

  open_day_orders-keep :
      (b : Book L.Decimal) → IsWellFormed b → open_day_orders b ≡ keep is_open_day b.cells
  unfolding open_day_orders all_orders
  open_day_orders-keep b w = ap (keep is_open_day) (all_orders-cells b w)

  -- In a well-formed book, CancelAllOpenDay leaves a well-formed book in which each order that was
  -- open and a day order is canceled and every other order is as it was, returns the number of those
  -- orders, and does so by steps of the venue.
  pub cancel_all_open_day-MassCanceled :
      (a : App) (reason : Text)
      → IsWellFormed a.book
      → MassCanceled a (cancel_all_open_day a reason)
  unfolding cancel_all_open_day
  cancel_all_open_day-MassCanceled a reason w =
      let all = cancel_each-Canceled a [] a.book.cells reason w refl in
      subst (λ os. MassCanceled a (cancel_each a os reason, length os))
        (sym (open_day_orders-keep a.book w))
        (record {
          well_formed = all.well_formed;
          orders =
              all_orders-cells (cancel_each a (keep is_open_day a.book.cells) reason).book
                all.well_formed
              ∙ all.cells
              ∙ ap (map cancel_open_day) (sym (all_orders-cells a.book w));
          counted = ap (λ os. length (keep is_open_day os)) (sym (all_orders-cells a.book w));
          steps = all.steps;
        })
