-- ===== src/Book/Replace.antt =====
-- Lookups and replacements in the abstract book.
use fix_session_lab.Base.{◌++◌, ◌≡◌, refl, ◌≢◌, List, [], ◌∷◌, none, some, ite, arith}
use fix_session_lab.Base.Lists.{length}
use fix_session_lab.Base.Text.{Text, text_dec}
use fix_session_lab.Order.{OrderState}
use fix_session_lab.Book.Spec.{find_order, replace_order, Distinct}

module _ {D : Type 0} where
  pub find_order-snoc :
      (id : Text) (os : List (OrderState D)) (o : OrderState D)
      → o.cl_ord_id ≢ id
      → find_order id (os ++ o ∷ []) ≡ find_order id os
  unfolding find_order
  find_order-snoc id [] o h = ground arith
  find_order-snoc id (x ∷ os) o h = ground (arith, find_order-snoc id os o h)

  pub Distinct-snoc :
      (os : List (OrderState D)) (o : OrderState D)
      → Distinct os
      → find_order o.cl_ord_id os ≡ none
      → Distinct (os ++ o ∷ [])
  unfolding find_order
  Distinct-snoc [] o d h = (refl, tt)
  Distinct-snoc (x ∷ os) o d h =
      ground (arith, find_order-snoc x.cl_ord_id os o, Distinct-snoc os o)

  pub find_order-id :
      (id : Text) (os : List (OrderState D)) {o : OrderState D}
      → find_order id os ≡ some o
      → o.cl_ord_id ≡ id
  unfolding find_order
  find_order-id id [] h = cc
  find_order-id id (x ∷ os) {o} h = ground (arith, find_order-id id os {o = o})

  pub find_order-replace :
      (id k : Text) (os : List (OrderState D)) {o : OrderState D} (o' : OrderState D)
      → find_order k os ≡ some o
      → o'.cl_ord_id ≡ k
      → find_order id (replace_order k o' os) ≡ ite (text_dec k id) (some o') (find_order id os)
  unfolding find_order replace_order
  find_order-replace id k [] o' f h = cc
  find_order-replace id k (x ∷ os) {o} o' f h =
      ground (arith, find_order-replace id k os {o = o} o')

  pub find_order-replace_none :
      (id k : Text) (os : List (OrderState D)) (o' : OrderState D)
      → o'.cl_ord_id ≡ k
      → find_order id os ≡ none
      → find_order id (replace_order k o' os) ≡ none
  unfolding find_order replace_order
  find_order-replace_none id k [] o' h f = refl
  find_order-replace_none id k (x ∷ os) o' h f =
      ground (arith, find_order-replace_none id k os o' h)

  pub Distinct-replace :
      (k : Text) (os : List (OrderState D)) (o' : OrderState D)
      → o'.cl_ord_id ≡ k
      → Distinct os
      → Distinct (replace_order k o' os)
  unfolding replace_order
  Distinct-replace k [] o' h d = tt
  Distinct-replace k (x ∷ os) o' h d =
      ground (arith, Distinct-replace k os o' h d.1, find_order-replace_none x.cl_ord_id k os o' h)

  pub length-replace :
      (k : Text) (os : List (OrderState D)) (o' : OrderState D)
      → length (replace_order k o' os) ≡ length os
  unfolding replace_order
  length-replace k [] o' = refl
  length-replace k (x ∷ os) o' = ground (arith, length-replace k os o')
