-- ===== src/Book.antt =====
-- The venue's order book, internal/exchange/book.go. The book is modelled with its aliasing: an
-- order lives in a cell, and the map of ClOrdIDs and the insertion order both hold its address.
-- Each method holds the book's lock from its first line to its last, so it is one step. The two
-- counters are unbounded here.
pub mod Spec
pub mod Replace
pub mod View
pub mod Cases
pub mod Refines
pub mod Ids
use fix_session_lab.Base.{
  ℕ, suc, ◌+◌, ◌++◌, Bool, true, false, ◌&&◌, List, [], ◌∷◌, Option, none, some,
}
use fix_session_lab.Base.Lists.{length, get_elem?, set, keep}
use fix_session_lab.Base.Map.{lookup, insert}
use fix_session_lab.Base.Text.{Text, codes, text_dec, pad6}
use fix_session_lab.Deps.{Result, ok, err}
use fix_session_lab.Order.{OrderState, Status, is_open, is_day}

pub record Book (D : Type 0) : Type 0 where
  pub cells : List (OrderState D)
  pub orders : List (Text × ℕ)
  pub sequence : List ℕ
  pub order_seq : ℕ
  pub exec_seq : ℕ

-- The errors of the exchange's methods: one constructor for each text that fmt.Errorf makes.
pub data Error (D : Type 0) : Type 0 where
  duplicate : Text → Error D
  unknown_order : Text → Error D
  qty_not_positive : D → Error D
  cannot_trade : Text → Status → Error D
  exceeds_leaves : D → D → Error D
  cannot_cancel : Text → Status → Error D
  cannot_reject : Text → Status → Error D

unfoldable pub order_id_of : ℕ → Text
order_id_of n = codes "ORD" ++ pad6 n

unfoldable pub exec_id_of : ℕ → Text
exec_id_of n = codes "EXE" ++ pad6 n

-- What a function given to Update leaves in the order, and its error if it made one. An order that
-- it changed before its error stays changed.
abbrev pub Change : Type 0 → Type 0
Change D = OrderState D → OrderState D × Option (Error D)

module _ {D : Type 0} where
  unfoldable pub new_book : Book D
  new_book = record { cells = []; orders = []; sequence = []; order_seq = 0; exec_seq = 0 }

  -- The order that Insert stores, whose fields it also sets for its caller.
  unfoldable pub accepted : ℕ → OrderState D → OrderState D
  accepted n o = record o { order_id = order_id_of n; status = Status.new }

  -- The book afterwards and what the caller's pointer then reads.
  unfoldable pub insert_order : Book D → OrderState D → Result (Error D) (Book D × OrderState D)
  unfolding accepted
  insert_order b o = elim (lookup text_dec o.cl_ord_id b.orders) [
    | some dup ↦ err (duplicate o.cl_ord_id)
    | none ↦
        let n = b.order_seq + 1 in
        let p = length b.cells in
        ok (
          record b {
            cells = b.cells ++ accepted n o ∷ [];
            orders = insert text_dec o.cl_ord_id p b.orders;
            sequence = b.sequence ++ p ∷ [];
            order_seq = n;
          },
          accepted n o,
        )
  ]

  unfoldable pub get : Book D → Text → Option (OrderState D)
  get b id = elim (lookup text_dec id b.orders) [ none ↦ none | some p ↦ get_elem? b.cells p ]

  unfoldable pub change_at :
      Book D → ℕ → OrderState D × Option (Error D) → Book D × Result (Error D) (OrderState D)
  change_at b p (o', none) = (record b { cells = set b.cells p o' }, ok o')
  change_at b p (o', some e) = (record b { cells = set b.cells p o' }, err e)

  -- An address with no cell does not occur: `View` shows it. It is answered as an unknown order.
  unfoldable pub update : Book D → Text → Change D → Book D × Result (Error D) (OrderState D)
  unfolding change_at
  update b id fn = elim (lookup text_dec id b.orders) [
    | none ↦ (b, err (unknown_order id))
    | some p ↦ elim (get_elem? b.cells p) [
      | none ↦ (b, err (unknown_order id))
      | some o ↦ change_at b p (fn o)
    ]
  ]

  -- The orders at the addresses, in their order.
  unfoldable pub read_all : List (OrderState D) → List ℕ → List (OrderState D)
  read_all cells [] = []
  read_all cells (p ∷ ps) = elim (get_elem? cells p) [
    | none ↦ read_all cells ps
    | some o ↦ o ∷ read_all cells ps
  ]

  unfoldable pub is_open_day : OrderState D → Bool
  is_open_day o = is_open o && is_day o

  unfoldable pub open_day_orders : Book D → List (OrderState D)
  open_day_orders b = keep is_open_day (read_all b.cells b.sequence)

  unfoldable pub all_orders : Book D → List (OrderState D)
  all_orders b = read_all b.cells b.sequence

  unfoldable pub next_exec_id : Book D → Book D × Text
  next_exec_id b = let n = b.exec_seq + 1 in (record b { exec_seq = n }, exec_id_of n)
