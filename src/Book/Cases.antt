-- ===== src/Book/Cases.antt =====
-- The two ways that Update can go in a well-formed book.
use fix_session_lab.Base.{
  ℕ, zero, suc, ◌≡◌, refl, sym, ap, ◌∙◌, ◌⊎◌, inl, inr, List, [], ◌∷◌, Option, none, some, arith,
}
use fix_session_lab.Base.Lists.{get_elem?, set}
use mathlib.Core.Option.{some-injective}
use fix_session_lab.Base.Text.{Text}
use fix_session_lab.Deps.{err}
use fix_session_lab.Order.{OrderState}
use fix_session_lab.Book.{Book, Error, unknown_order, Change, change_at, update}
use fix_session_lab.Book.Spec.{find_order, replace_order, answer, KeepsId}
use fix_session_lab.Book.Replace.{find_order-id}
use fix_session_lab.Book.View.{IsWellFormed, located, write-IsWellFormed}

module _ {D : Type 0} where
  pub change_at_lem :
      (b : Book D) (p : ℕ) (r : OrderState D × Option (Error D))
      → change_at b p r ≡ (record b { cells = set b.cells p r.0 }, answer r)
  unfolding change_at
  change_at_lem b p (o', none) = refl
  change_at_lem b p (o', some e) = refl

  set_self :
      (os : List (OrderState D)) (p : ℕ) {o : OrderState D}
      → get_elem? os p ≡ some o
      → set os p o ≡ os
  set_self [] p e = refl
  set_self (x ∷ os) zero e = ap (λ y. y ∷ os) (sym (some-injective _ _ e))
  set_self (x ∷ os) (suc p) e = ap (◌∷◌ x) (set_self os p e)

  -- What Update leaves of a book whose order with this ClOrdID is `o`.
  pub record Updated (b : Book D) (id : Text) (fn : Change D) (o : OrderState D) (b' : Book D)
      : Type 0 where
    pub well_formed : IsWellFormed b'
    pub replaced : b'.cells ≡ replace_order id (fn o).0 b.cells
    pub same_exec_seq : b'.exec_seq ≡ b.exec_seq
    pub same_order_seq : b'.order_seq ≡ b.order_seq
    pub answered : update b id fn ≡ (b', answer (fn o))

  pub update_cases :
      (b : Book D) (id : Text) (fn : Change D)
      → IsWellFormed b
      → KeepsId fn
      → ((find_order id b.cells ≡ none) × (update b id fn ≡ (b, err (unknown_order id))))
        ⊎ ((o : OrderState D) × (b' : Book D) × (find_order id b.cells ≡ some o)
            × Updated b id fn o b')
  unfolding update
  update_cases b id fn w keeps = elim (located b id w) [
    | inl (missing, nothing) ↦ inl (nothing, rw (missing, update))
    | inr (p, o, at_p, cell, found, write) ↦ inr (
      o,
      record b { cells = set b.cells p (fn o).0 },
      found,
      record {
        well_formed =
            write-IsWellFormed b id p (fn o).0 w (write (fn o).0)
              (keeps o ∙ find_order-id id b.cells found);
        replaced = write (fn o).0;
        same_exec_seq = refl;
        same_order_seq = refl;
        answered = rw (at_p, cell, update) (change_at_lem b p (fn o));
      },
    )
  ]

  -- Update with a function that makes an error and writes nothing leaves the book as it is.
  pub update_refused :
      (b : Book D) (id : Text) (fn : Change D) (e : Error D) {o : OrderState D}
      → IsWellFormed b
      → find_order id b.cells ≡ some o
      → fn o ≡ (o, some e)
      → update b id fn ≡ (b, err e)
  unfolding update
  update_refused b id fn e {o} w f refused = elim (located b id w) [
    | inl (missing, nothing) ↦ absurd (ground arith)
    | inr (p, o₁, at_p, cell, found, write) ↦
        let same : o₁ ≡ o = some-injective _ _ (sym found ∙ f) in
        rw (at_p, cell, update, change_at_lem)
          (rw (same, refused, set_self b.cells p {o = o} (cell ∙ ap some same)) refl)
  ]
