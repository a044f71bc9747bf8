-- ===== src/Book/View.antt =====
-- The addresses of the book, its map, its insertion order and its cells, and when they agree:
-- internal/exchange/book.go.
use fix_session_lab.Base.{
  ℕ, zero, suc, ◌+◌, ◌++◌, ◌≡◌, refl, sym, ap, ◌∙◌, ◌⊎◌, inl, inr, List, [], ◌∷◌, Option, none,
  some, ite, if_neg, arith, append_assoc,
}
use fix_session_lab.Base.Lists.{length, get_elem?, set, length-append, length-set}
use fix_session_lab.Base.Map.{lookup, insert, lookup-insert}
use fix_session_lab.Base.Text.{Text, text_dec}
use fix_session_lab.Order.{OrderState}
use fix_session_lab.Book.{Book, new_book, read_all, all_orders}
use fix_session_lab.Book.Spec.{find_order, replace_order, Distinct}
use fix_session_lab.Book.Replace.{Distinct-snoc, Distinct-replace}

abbrev pub iota : ℕ → ℕ → List ℕ
iota k zero = []
iota k (suc n) = k ∷ iota (suc k) n

iota-snoc : (k n : ℕ) → iota k (suc n) ≡ iota k n ++ (k + n) ∷ []
iota-snoc k zero = ap {B = List ℕ} (λ j. j ∷ []) (omega arith)
iota-snoc k (suc n) =
    ap {B = List ℕ} (◌∷◌ k)
      (iota-snoc (suc k) n ∙ ap {B = List ℕ} (λ j. iota (suc k) n ++ j ∷ []) (omega arith))

length-snoc {ℓ} : {A : Type ℓ} (xs : List A) (x : A) → length (xs ++ x ∷ []) ≡ suc (length xs)
length-snoc xs x = omega (arith, length-append xs (x ∷ []))

module _ {D : Type 0} where
  -- The address of the order with this ClOrdID.
  pub position : Text → List (OrderState D) → Option ℕ
  position id [] = none
  position id (o ∷ os) =
      ite (text_dec o.cl_ord_id id) (some 0)
        (elim (position id os) [ none ↦ none | some p ↦ some (suc p) ])

  -- The map holds each order's address under its ClOrdID and the insertion order lists all cells.
  pub record IsWellFormed (b : Book D) : Type 0 where
    pub mapped : (id : Text) → lookup text_dec id b.orders ≡ position id b.cells
    pub in_sequence : b.sequence ≡ iota 0 (length b.cells)
    pub distinct : Distinct b.cells

  get_elem?-middle :
      (pre : List (OrderState D)) (o : OrderState D) (os : List (OrderState D))
      → get_elem? (pre ++ o ∷ os) (length pre) ≡ some o
  get_elem?-middle [] o os = refl
  get_elem?-middle (x ∷ pre) o os = get_elem?-middle pre o os

  read_all-iota :
      (pre os : List (OrderState D)) → read_all (pre ++ os) (iota (length pre) (length os)) ≡ os
  unfolding read_all
  read_all-iota pre [] = refl
  read_all-iota pre (o ∷ os) =
      rw (get_elem?-middle pre o os, read_all)
        (ap (◌∷◌ o) (
          rw (append_assoc pre (o ∷ []) os, length-snoc pre o) at
            (read_all-iota (pre ++ o ∷ []) os)))

  -- In a well-formed book the orders in sequence are the cells.
  pub all_orders-cells : (b : Book D) → IsWellFormed b → all_orders b ≡ b.cells
  unfolding all_orders
  all_orders-cells b w = rw w.in_sequence (read_all-iota [] b.cells)

  cell_at : List (OrderState D) → Option ℕ → Option (OrderState D)
  cell_at cells none = none
  cell_at cells (some p) = get_elem? cells p

  -- The cell at the position of a ClOrdID is the order that the specification finds.
  pub position-find :
      (id : Text) (os : List (OrderState D))
      → ((position id os ≡ none) × (find_order id os ≡ none))
        ⊎ ((p : ℕ) × (o : OrderState D) × (position id os ≡ some p)
            × (get_elem? os p ≡ some o)
            × (find_order id os ≡ some o)
            × ((o' : OrderState D) → set os p o' ≡ replace_order id o' os))
  unfolding position find_order replace_order
  position-find id [] = inl (refl, refl)
  position-find id (o ∷ os) = elim (text_dec o.cl_ord_id id) [
    | yes hit ↦ inr (0, o, ground arith, refl, ground arith, λ o'. ground arith)
    | no miss ↦ elim (position-find id os) [
      | inl (p, f) ↦ inl (rw (if_neg _ miss, p), rw (if_neg _ miss, f))
      | inr (p, o₁, at_p, cell, found, write) ↦ inr (
        suc p,
        o₁,
        rw (if_neg _ miss, at_p),
        cell,
        rw (if_neg _ miss, found),
        λ o'. rw (if_neg _ miss) (ap (◌∷◌ o) (write o')),
      )
    ]
  ]

  pub new_book-IsWellFormed : IsWellFormed (new_book {D = D})
  unfolding new_book position lookup
  new_book-IsWellFormed = record { mapped = λ id. refl; in_sequence = refl; distinct = tt }

  -- A lookup in a well-formed book: nothing on both sides, or one address, its cell being the order
  -- that the specification finds and a write there a replacement of that order.
  pub located :
      (b : Book D) (id : Text)
      → IsWellFormed b
      → ((lookup text_dec id b.orders ≡ none) × (find_order id b.cells ≡ none))
        ⊎ ((p : ℕ) × (o : OrderState D) × (lookup text_dec id b.orders ≡ some p)
            × (get_elem? b.cells p ≡ some o)
            × (find_order id b.cells ≡ some o)
            × ((o' : OrderState D) → set b.cells p o' ≡ replace_order id o' b.cells))
  located b id w = rw (w.mapped id) (position-find id b.cells)

  position-snoc :
      (id : Text) (os : List (OrderState D)) (o : OrderState D)
      → find_order o.cl_ord_id os ≡ none
      → position id (os ++ o ∷ [])
        ≡ ite (text_dec o.cl_ord_id id) (some (length os)) (position id os)
  unfolding position find_order
  position-snoc id [] o h = refl
  position-snoc id (x ∷ os) o h = ground (arith, position-snoc id os o)

  pub insert-IsWellFormed :
      (b : Book D) (o : OrderState D) (n : ℕ)
      → IsWellFormed b
      → find_order o.cl_ord_id b.cells ≡ none
      → IsWellFormed (record b {
        cells = b.cells ++ o ∷ [];
        orders = insert text_dec o.cl_ord_id (length b.cells) b.orders;
        sequence = b.sequence ++ length b.cells ∷ [];
        order_seq = n;
      })
  insert-IsWellFormed b o n w h = record {
    mapped = λ id.
        lookup-insert text_dec o.cl_ord_id id (length b.cells) b.orders
        ∙ ap (ite (text_dec o.cl_ord_id id) (some (length b.cells))) (w.mapped id)
        ∙ sym (position-snoc id b.cells o h);
    in_sequence =
        rw (length-snoc b.cells o, w.in_sequence)
          (sym (
            iota-snoc 0 (length b.cells)
            ∙ ap {B = List ℕ} (λ j. iota 0 (length b.cells) ++ j ∷ []) (omega arith)));
    distinct = Distinct-snoc b.cells o w.distinct h;
  }

  -- A replacement that keeps the ClOrdID moves nothing.
  pub position-replace :
      (id k : Text) (os : List (OrderState D)) (o' : OrderState D)
      → o'.cl_ord_id ≡ k
      → position id (replace_order k o' os) ≡ position id os
  unfolding position replace_order
  position-replace id k [] o' h = refl
  position-replace id k (x ∷ os) o' h = ground (arith, position-replace id k os o' h)

  -- A write at the address of an order that keeps its ClOrdID.
  pub write-IsWellFormed :
      (b : Book D) (id : Text) (p : ℕ) (o' : OrderState D)
      → IsWellFormed b
      → set b.cells p o' ≡ replace_order id o' b.cells
      → o'.cl_ord_id ≡ id
      → IsWellFormed (record b { cells = set b.cells p o' })
  write-IsWellFormed b id p o' w write h = record {
    mapped = λ k. rw write (w.mapped k ∙ sym (position-replace k id b.cells o' h));
    in_sequence = rw (length-set b.cells p o') w.in_sequence;
    distinct = rw write (Distinct-replace id b.cells o' h w.distinct);
  }
