-- ===== src/Exchange/Intake.antt =====
-- The ends of a NewOrderSingle: onNewOrderSingle of internal/exchange/reports.go.
use fix_session_lab.Base.{
  ◌+◌, ◌≡◌, refl, sym, ap, ◌∙◌, subst, inl, inr, [], ◌∷◌, ◌++◌, Option, none, some,
}
use fix_session_lab.Base.Lists.{Option-cases}
use fix_session_lab.Book.{Book, Error, duplicate, accepted, order_id_of, insert_order, all_orders}
use fix_session_lab.Book.Refines.{viewed, IsWellFormedIfOk, insert_order-refines}
use fix_session_lab.Book.Spec.{find_order, spec_insert}
use fix_session_lab.Book.View.{IsWellFormed, all_orders-cells}
use fix_session_lab.Deps.{
  Deps, ok, err, Result-cases, Rejection, business_reject, duplicate_cl_ord_id,
}
use fix_session_lab.Exchange.{App}
use fix_session_lab.Exchange.Publish.{publish-cells, publish-IsWellFormed}
use fix_session_lab.Exchange.Reports.{
  publish, simple_report, order_of_message, accept_order, on_new_order_single,
}
use fix_session_lab.Order.{OrderState, ExecType, Status}

module _ ⦃L : Deps⦄ where
  -- An unreadable order and one with a known ClOrdID are refused and change nothing; any other is the
  -- last of the book, numbered and new.
  pub data Taken (a : App) (m : L.Message) (q : App × Option Rejection) : Type 0 where
    unreadable : (e : Rejection) → order_of_message m ≡ err e → q ≡ (a, some e) → Taken a m q
    duplicates :
        (o x : OrderState L.Decimal)
        → order_of_message m ≡ ok o
        → find_order o.cl_ord_id (all_orders a.book) ≡ some x
        → q ≡ (a, some (business_reject (duplicate_cl_ord_id o.cl_ord_id) 5))
        → Taken a m q
    accepts :
        (o : OrderState L.Decimal)
        → order_of_message m ≡ ok o
        → find_order o.cl_ord_id (all_orders a.book) ≡ none
        → q.1 ≡ none
        → all_orders q.0.book
          ≡ all_orders a.book
            ++ record o { order_id = order_id_of (a.book.order_seq + 1); status = Status.new } ∷ []
        → Taken a m q

  insert_known :
      (b : Book L.Decimal) (o x : OrderState L.Decimal)
      → IsWellFormed b
      → find_order o.cl_ord_id (all_orders b) ≡ some x
      → (e : Error L.Decimal) × (insert_order b o ≡ err e)
  insert_known b o x w found = elim (Result-cases (insert_order b o)) [
    | inr (e, r) ↦ (e, r)
    | inl (q, r) ↦
        let s = ap viewed (sym r) ∙ (insert_order-refines b o w).0 in
        let t : spec_insert b.order_seq (all_orders b) o ≡ err (duplicate o.cl_ord_id) =
          unfold spec_insert in rw (found, spec_insert) refl in
        cc
  ]

  insert_new :
      (b : Book L.Decimal) (o : OrderState L.Decimal)
      → IsWellFormed b
      → find_order o.cl_ord_id (all_orders b) ≡ none
      → (b' : Book L.Decimal) × (o' : OrderState L.Decimal) × (insert_order b o ≡ ok (b', o'))
        × (all_orders b' ≡ all_orders b ++ accepted (b.order_seq + 1) o ∷ [])
        × IsWellFormed b'
  insert_new b o w new =
      let t : spec_insert b.order_seq (all_orders b) o
          ≡ ok (all_orders b ++ accepted (b.order_seq + 1) o ∷ [], accepted (b.order_seq + 1) o) =
        unfold spec_insert in rw (new, spec_insert) refl in
      elim (Result-cases (insert_order b o)) [
        | inr (e, r) ↦ let s = ap viewed (sym r) ∙ (insert_order-refines b o w).0 in cc
        | inl ((b', o'), r) ↦
            let s = ap viewed (sym r) ∙ (insert_order-refines b o w).0 ∙ t in
            (b', o', r, cc, subst IsWellFormedIfOk r (insert_order-refines b o w).1)
      ]

  accept_order-duplicate :
      (a : App) (o x : OrderState L.Decimal)
      → IsWellFormed a.book
      → find_order o.cl_ord_id (all_orders a.book) ≡ some x
      → accept_order a o ≡ (a, some (business_reject (duplicate_cl_ord_id o.cl_ord_id) 5))
  unfolding accept_order
  accept_order-duplicate a o x w found =
      let (e, r) = insert_known a.book o x w found in rw (r, accept_order) refl

  accept_order-accepts :
      (a : App) (o : OrderState L.Decimal)
      → IsWellFormed a.book
      → find_order o.cl_ord_id (all_orders a.book) ≡ none
      → ((accept_order a o).1 ≡ none)
        × (all_orders (accept_order a o).0.book
            ≡ all_orders a.book ++ accepted (a.book.order_seq + 1) o ∷ [])
  unfolding accept_order
  accept_order-accepts a o w new =
      let (b, o', r, os, w') = insert_new a.book o w new in
      let a' = record a { book = b } in
      let rep = simple_report o' ExecType.new [] 0 in
      (
        rw (r, accept_order) refl,
        rw (r, accept_order)
            (all_orders-cells (publish a' rep).book (publish-IsWellFormed a' rep w')
              ∙ publish-cells a' rep
              ∙ sym (all_orders-cells b w')
              ∙ os),
      )

  -- At a well-formed book a NewOrderSingle ends in one of three ways: one that cannot be read is
  -- refused with the reason and changes nothing; a readable one whose ClOrdID the book has is refused
  -- as a duplicate and changes nothing; any other makes no error, and its order, numbered and new,
  -- stands behind all the orders of the book.
  pub on_new_order_single-Taken :
      (a : App) (m : L.Message) → IsWellFormed a.book → Taken a m (on_new_order_single a m)
  unfolding on_new_order_single accepted
  on_new_order_single-Taken a m w = elim (Result-cases (order_of_message m)) [
    | inr (e, bad) ↦ rw (bad, on_new_order_single) (unreadable e bad refl)
    | inl (o, good) ↦
        rw (good, on_new_order_single)
          (elim (Option-cases (find_order o.cl_ord_id (all_orders a.book))) [
            | inr (x, found) ↦ duplicates o x good found (accept_order-duplicate a o x w found)
            | inl new ↦
                let (fine, os) = accept_order-accepts a o w new in accepts o good new fine os
          ])
  ]
