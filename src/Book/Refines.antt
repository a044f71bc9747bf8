-- ===== src/Book/Refines.antt =====
-- The book's methods against the list specification in `Spec`: internal/exchange/book.go.
use fix_session_lab.Base.{◌+◌, ◌≡◌, refl, ◌∙◌, inl, inr, List}
use fix_session_lab.Base.Lists.{keep}
use fix_session_lab.Base.Text.{Text}
use fix_session_lab.Deps.{Result, ok, err}
use fix_session_lab.Order.{OrderState}
use fix_session_lab.Book.{
  Book, Error, Change, accepted, insert_order, get, update, all_orders, open_day_orders,
  is_open_day,
}
use fix_session_lab.Book.Spec.{find_order, spec_insert, spec_update, KeepsId}
use fix_session_lab.Book.Replace.{find_order-id}
use fix_session_lab.Book.View.{
  IsWellFormed, all_orders-cells, located, insert-IsWellFormed, write-IsWellFormed,
}
use fix_session_lab.Book.Cases.{change_at_lem}

module _ {D : Type 0} where
  -- On a well-formed book Get answers the order that the list specification finds by its ClOrdID.
  pub get-find_order :
      (b : Book D) (id : Text) → IsWellFormed b → get b id ≡ find_order id (all_orders b)
  unfolding get
  get-find_order b id w = rw (all_orders-cells b w) (elim (located b id w) [
    | inl (missing, nothing) ↦ rw (missing, nothing, get)
    | inr (p, o, at_p, cell, found, write) ↦ rw (at_p, found, get) cell
  ])

  abbrev pub viewed :
      Result (Error D) (Book D × OrderState D)
      → Result (Error D) (List (OrderState D) × OrderState D)
  viewed (ok (b, o)) = ok (all_orders b, o)
  viewed (err e) = err e

  abbrev pub IsWellFormedIfOk : Result (Error D) (Book D × OrderState D) → Type 0
  IsWellFormedIfOk (ok (b, o)) = IsWellFormed b
  IsWellFormedIfOk (err e) = Unit

  -- On a well-formed book Insert refuses an order whose ClOrdID the book has, and puts any other last,
  -- numbered and new, as the list specification says; if it puts it, the book stays well-formed.
  pub insert_order-refines :
      (b : Book D) (o : OrderState D)
      → IsWellFormed b
      → (viewed (insert_order b o) ≡ spec_insert b.order_seq (all_orders b) o)
        × IsWellFormedIfOk (insert_order b o)
  unfolding insert_order spec_insert
  insert_order-refines b o w = elim (located b o.cl_ord_id w) [
    | inl (missing, nothing) ↦
        let w' = insert-IsWellFormed b (accepted (b.order_seq + 1) o) (b.order_seq + 1) w nothing in
        (
          rw (
            all_orders-cells b w,
            missing,
            nothing,
            spec_insert,
            insert_order,
            all_orders-cells _ w',
            all_orders-cells b w,
          ),
          rw (missing, insert_order) w',
        )
    | inr (p, x, at_p, cell, found, write) ↦ (
      rw (all_orders-cells b w, at_p, found, insert_order, spec_insert),
      rw (at_p, insert_order) tt,
    )
  ]

  -- On a well-formed book, with a function that keeps the ClOrdID, Update answers and changes what the
  -- list specification says: an unknown ClOrdID changes nothing, a known one that order alone, as the
  -- function says, also where the function makes an error; and the book stays well-formed.
  pub update-refines :
      (b : Book D) (id : Text) (fn : Change D)
      → IsWellFormed b
      → KeepsId fn
      → (all_orders (update b id fn).0 ≡ (spec_update (all_orders b) id fn).0)
        × ((update b id fn).1 ≡ (spec_update (all_orders b) id fn).1)
        × IsWellFormed (update b id fn).0
  unfolding update spec_update
  update-refines b id fn w keeps = elim (located b id w) [
    | inl (missing, nothing) ↦ (
      rw (all_orders-cells b w, missing, nothing, update, spec_update, all_orders-cells b w),
      rw (all_orders-cells b w, missing, nothing, update, spec_update),
      rw (missing, update) w,
    )
    | inr (p, o, at_p, cell, found, write) ↦
        let w' =
          write-IsWellFormed b id p (fn o).0 w (write (fn o).0)
            (keeps o ∙ find_order-id id b.cells found) in
        (
          rw
              (
                all_orders-cells b w,
                at_p,
                cell,
                found,
                update,
                spec_update,
                change_at_lem,
                all_orders-cells _ w',
                all_orders-cells b w,
              )
              (write (fn o).0),
          rw (all_orders-cells b w, at_p, cell, found, update, spec_update, change_at_lem),
          rw (at_p, cell, update, change_at_lem) w',
        )
  ]

  -- On a well-formed book, with a function that keeps the ClOrdID, the book's methods do what a list
  -- of orders does: Get answers the order that is found by its ClOrdID; Insert refuses an order whose
  -- ClOrdID the list has, puts any other last, numbered and new, and then leaves the book well-formed;
  -- Update answers and changes what the list's update does, an unknown ClOrdID changing nothing and a
  -- known one that order alone, also where the function makes an error, and leaves the book
  -- well-formed; and OpenDayOrders are the open day orders of the list, in its order.
  pub book-Refined :
      (b : Book D) (o : OrderState D) (id : Text) (fn : Change D)
      → IsWellFormed b
      → KeepsId fn
      → (get b id ≡ find_order id (all_orders b))
        × (viewed (insert_order b o) ≡ spec_insert b.order_seq (all_orders b) o)
        × IsWellFormedIfOk (insert_order b o)
        × (all_orders (update b id fn).0 ≡ (spec_update (all_orders b) id fn).0)
        × ((update b id fn).1 ≡ (spec_update (all_orders b) id fn).1)
        × IsWellFormed (update b id fn).0
        × (open_day_orders b ≡ keep is_open_day (all_orders b))
  book-Refined b o id fn w keeps =
      let (view, fine) = insert_order-refines b o w in
      let (os, answered, w') = update-refines b id fn w keeps in
      (
        get-find_order b id w,
        view,
        fine,
        os,
        answered,
        w',
        unfold open_day_orders all_orders in refl,
      )
