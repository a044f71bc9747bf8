-- ===== src/Exchange/Steps.antt =====
-- The venue of internal/exchange as a transition system over the abstract book: an order is accepted
-- or makes one move of its life, and its report leaves; or neither the book nor the outbox changes.
use fix_session_lab.Base.{
  ◌≡◌, refl, ◌∙◌, Bool, true, false, List, [], ◌∷◌, ◌++◌, none, some, arith, subst, if_pos, if_neg,
}
use mathlib.Core.Option.{some-injective}
use fix_session_lab.Base.Lists.{All, All-append}
use fix_session_lab.Base.Text.{Text, text_dec}
use fix_session_lab.Book.{Book}
use fix_session_lab.Book.Spec.{find_order, replace_order}
use fix_session_lab.Book.View.{IsWellFormed}
use fix_session_lab.Deps.{Deps}
use fix_session_lab.Exchange.{App}
use fix_session_lab.Exchange.Publish.{publish-cells, publish-IsWellFormed, publish-silenced}
use fix_session_lab.Exchange.Lifecycle.{Moves}
use fix_session_lab.Exchange.Reports.{Report, publish}
use fix_session_lab.Order.{OrderState, ExecType, Status}

module _ ⦃L : Deps⦄ where
  -- The book gained this order at its end.
  pub record Accepts (b : Book L.Decimal) (o : OrderState L.Decimal) (b' : Book L.Decimal)
      : Type 0 where
    pub well_formed : IsWellFormed b'
    pub unknown : find_order o.cl_ord_id b.cells ≡ none
    pub untraded : o.cum_qty ≡ L.zero_dec
    pub is_new : o.status ≡ Status.new
    pub extended : b'.cells ≡ b.cells ++ o ∷ []
    pub same_exec_seq : b'.exec_seq ≡ b.exec_seq

  -- One order of the book, `o`, made a move and is now `o'`.
  pub record Changes (b : Book L.Decimal) (o : OrderState L.Decimal) (x : ExecType)
      (o' : OrderState L.Decimal) (b' : Book L.Decimal) : Type 0 where
    pub well_formed : IsWellFormed b'
    pub known : find_order o.cl_ord_id b.cells ≡ some o
    pub moved : Moves o x o'
    pub replaced : b'.cells ≡ replace_order o.cl_ord_id o' b.cells
    pub same_exec_seq : b'.exec_seq ≡ b.exec_seq

  -- `h` says whether the operator may silence the venue, or end that.
  pub data Step (h : Bool) (a : App) : App → Type 0 where
    -- nothing that concerns orders or reports; the roles of the sessions stay
    quiet :
        (a' : App)
        → a'.book ≡ a.book
        → a'.outbox ≡ a.outbox
        → a'.kinds ≡ a.kinds
        → a'.silenced ≡ a.silenced
        → Step h a a'
    hushes : h ≡ true → (v : Bool) → Step h a (record a { silenced = v })
    accepts :
        (b : Book L.Decimal) (r : Report L.Decimal)
        → Accepts a.book r.order b
        → r.exec_type ≡ ExecType.new
        → Step h a (publish (record a { book = b }) r)
    changes :
        (b : Book L.Decimal) (r : Report L.Decimal) (o : OrderState L.Decimal)
        → Changes a.book o r.exec_type r.order b
        → Step h a (publish (record a { book = b }) r)

  pub data Steps (h : Bool) (a : App) : App → Type 0 where
    here : Steps h a a
    next : {b c : App} → Steps h a b → Step h b c → Steps h a c

  pub Steps-trans : {h : Bool} {a b c : App} → Steps h a b → Steps h b c → Steps h a c
  Steps-trans r here = r
  Steps-trans r (next s st) = next (Steps-trans r s) st

  pub one : {h : Bool} {a b : App} → Step h a b → Steps h a b
  one s = next here s

  All-replace {κ} :
      (P : OrderState L.Decimal → Type κ) (id : Text) (o' : OrderState L.Decimal)
      (os : List (OrderState L.Decimal))
      → All P os
      → P o'
      → All P (replace_order id o' os)
  unfolding replace_order
  All-replace P id o' [] h p = tt
  All-replace P id o' (x ∷ os) (hx, h) p = elim (text_dec x.cl_ord_id id) [
    | yes hit ↦ rw (if_pos _ hit) (p, h)
    | no miss ↦ rw (if_neg _ miss) (hx, All-replace P id o' os h p)
  ]

  pub All-find {κ} :
      (P : OrderState L.Decimal → Type κ) (id : Text) (os : List (OrderState L.Decimal))
      {o : OrderState L.Decimal}
      → All P os
      → find_order id os ≡ some o
      → P o
  unfolding find_order
  All-find P id [] h f = cc
  All-find P id (x ∷ os) (hx, h) f = elim (text_dec x.cl_ord_id id) [
    | yes hit ↦ subst P (some-injective _ _ (ground arith)) hx
    | no miss ↦ All-find P id os h (ground arith)
  ]

  -- An invariant of every order: it holds of accepted orders, and moves keep it.
  pub Step-cells {κ} :
      (P : OrderState L.Decimal → Type κ)
      → ((o : OrderState L.Decimal) → o.cum_qty ≡ L.zero_dec → o.status ≡ Status.new → P o)
      → ((o o' : OrderState L.Decimal) (x : ExecType) → Moves o x o' → P o → P o')
      → {h : Bool} {a a' : App} → Step h a a'
      → All P a.book.cells
      → All P a'.book.cells
  Step-cells P start move (quiet a' b o k v) h = rw b h
  Step-cells P start move (hushes e v) h = h
  Step-cells P start move {a = a} (accepts b r c x) h =
      rw (publish-cells (record a { book = b }) r, c.extended)
        (All-append P a.book.cells (r.order ∷ []) h (start r.order c.untraded c.is_new, tt))
  Step-cells P start move {a = a} (changes b r o c) h =
      rw (publish-cells (record a { book = b }) r, c.replaced)
        (All-replace P o.cl_ord_id r.order a.book.cells h
          (move o r.order r.exec_type c.moved (All-find P o.cl_ord_id a.book.cells h c.known)))

  pub Step-IsWellFormed :
      {h : Bool} {a a' : App} → Step h a a' → IsWellFormed a.book → IsWellFormed a'.book
  Step-IsWellFormed (quiet a' b o k v) w = rw b w
  Step-IsWellFormed (hushes e v) w = w
  Step-IsWellFormed {a = a} (accepts b r c x) w =
      publish-IsWellFormed (record a { book = b }) r c.well_formed
  Step-IsWellFormed {a = a} (changes b r o c) w =
      publish-IsWellFormed (record a { book = b }) r c.well_formed

  pub Steps-IsWellFormed :
      {h : Bool} {a a' : App} → Steps h a a' → IsWellFormed a.book → IsWellFormed a'.book
  Steps-IsWellFormed here w = w
  Steps-IsWellFormed (next s st) w = Step-IsWellFormed st (Steps-IsWellFormed s w)

  pub Steps-cells {κ} :
      (P : OrderState L.Decimal → Type κ)
      → ((o : OrderState L.Decimal) → o.cum_qty ≡ L.zero_dec → o.status ≡ Status.new → P o)
      → ((o o' : OrderState L.Decimal) (x : ExecType) → Moves o x o' → P o → P o')
      → {h : Bool} {a a' : App} → Steps h a a'
      → All P a.book.cells
      → All P a'.book.cells
  Steps-cells P start move here h = h
  Steps-cells P start move (next s st) h = Step-cells P start move st (Steps-cells P start move s h)

  -- More may happen where the operator may silence the venue.
  pub may_hush : {a a' : App} → Steps false a a' → Steps true a a'
  may_hush here = here
  may_hush (next s (quiet a' b o k v)) = next (may_hush s) (quiet a' b o k v)
  may_hush (next s (hushes e v)) = cc
  may_hush (next s (accepts b r c x)) = next (may_hush s) (accepts b r c x)
  may_hush (next s (changes b r o c)) = next (may_hush s) (changes b r o c)

  pub Step-silenced : {a a' : App} → Step false a a' → a'.silenced ≡ a.silenced
  Step-silenced (quiet a' b o k v) = v
  Step-silenced (hushes e v) = cc
  Step-silenced {a} (accepts b r c x) = publish-silenced (record a { book = b }) r
  Step-silenced {a} (changes b r o c) = publish-silenced (record a { book = b }) r

  pub Steps-silenced : {a a' : App} → Steps false a a' → a'.silenced ≡ a.silenced
  Steps-silenced here = refl
  Steps-silenced (next s st) = Step-silenced st ∙ Steps-silenced s
