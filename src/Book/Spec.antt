-- ===== src/Book/Spec.antt =====
-- What the book promises, with no addresses: the orders in the order of their arrival, each ClOrdID
-- at most once.
use fix_session_lab.Base.{ℕ, ◌+◌, ◌++◌, ◌≡◌, List, [], ◌∷◌, Option, none, some, ite}
use fix_session_lab.Base.Text.{Text, text_dec}
use fix_session_lab.Deps.{Result, ok, err}
use fix_session_lab.Order.{OrderState}
use fix_session_lab.Book.{Error, duplicate, unknown_order, Change, accepted}

module _ {D : Type 0} where
  unfoldable pub find_order : Text → List (OrderState D) → Option (OrderState D)
  find_order id [] = none
  find_order id (o ∷ os) = ite (text_dec o.cl_ord_id id) (some o) (find_order id os)

  -- Puts `o'` in the place of the order with this ClOrdID.
  unfoldable pub replace_order : Text → OrderState D → List (OrderState D) → List (OrderState D)
  replace_order id o' [] = []
  replace_order id o' (o ∷ os) =
      ite (text_dec o.cl_ord_id id) (o' ∷ os) (o ∷ replace_order id o' os)

  -- `n` orders were accepted before this one.
  unfoldable pub spec_insert :
      ℕ → List (OrderState D) → OrderState D → Result (Error D) (List (OrderState D) × OrderState D)
  spec_insert n os o = elim (find_order o.cl_ord_id os) [
    | some dup ↦ err (duplicate o.cl_ord_id)
    | none ↦ ok (os ++ accepted (n + 1) o ∷ [], accepted (n + 1) o)
  ]

  abbrev pub answer : OrderState D × Option (Error D) → Result (Error D) (OrderState D)
  answer (o, none) = ok o
  answer (o, some e) = err e

  unfoldable pub spec_update :
      List (OrderState D) → Text → Change D → List (OrderState D) × Result (Error D) (OrderState D)
  spec_update os id fn = elim (find_order id os) [
    | none ↦ (os, err (unknown_order id))
    | some o ↦ (replace_order id (fn o).0 os, answer (fn o))
  ]

  -- No two orders have one ClOrdID.
  abbrev pub Distinct : List (OrderState D) → Type 0
  Distinct [] = Unit {0}
  Distinct (o ∷ os) = (find_order o.cl_ord_id os ≡ none) × Distinct os

  -- The function leaves the ClOrdID alone, as all that the exchange hands to Update do.
  abbrev pub KeepsId : Change D → Type 0
  KeepsId fn = (o : OrderState D) → (fn o).0.cl_ord_id ≡ o.cl_ord_id
