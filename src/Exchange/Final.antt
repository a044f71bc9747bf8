-- ===== src/Exchange/Final.antt =====
-- Orders in a final status: internal/exchange.
use fix_session_lab.Base.{◌≡◌, sym, ◌∙◌, subst, Bool, true, false, List, [], ◌∷◌, ◌++◌, some, arith}
use mathlib.Core.Option.{some-injective}
use fix_session_lab.Base.Text.{Text, text_dec}
use fix_session_lab.Book.Replace.{find_order-replace}
use fix_session_lab.Book.Spec.{find_order}
use fix_session_lab.Deps.{Deps}
use fix_session_lab.Exchange.{App}
use fix_session_lab.Exchange.Lifecycle.{Moves-is_open, Moves-SameTerms}
use fix_session_lab.Exchange.Publish.{publish-cells}
use fix_session_lab.Exchange.Steps.{Step, quiet, hushes, accepts, changes, Steps, here, next}
use fix_session_lab.Order.{OrderState, is_open}

module _ {D : Type 0} where
  find_order-append :
      (k : Text) (os ps : List (OrderState D)) {o : OrderState D}
      → find_order k os ≡ some o
      → find_order k (os ++ ps) ≡ some o
  unfolding find_order
  find_order-append k [] ps h = cc
  find_order-append k (x ∷ os) ps {o} h = ground (arith, find_order-append k os ps {o = o})

module _ ⦃L : Deps⦄ where
  Step-final :
      (k : Text) (o : OrderState L.Decimal) {h : Bool} {a a' : App}
      → Step h a a'
      → find_order k a.book.cells ≡ some o
      → is_open o ≡ false
      → find_order k a'.book.cells ≡ some o
  Step-final k o (quiet a' b out ks v) found shut = rw b found
  Step-final k o (hushes e v) found shut = found
  Step-final k o {a = a} (accepts b r c x) found shut =
      rw (publish-cells (record a { book = b }) r, c.extended)
        (find_order-append k a.book.cells (r.order ∷ []) {o = o} found)
  Step-final k o {a = a} (changes b r p c) found shut =
      rw
        (
          publish-cells (record a { book = b }) r,
          c.replaced,
          find_order-replace k p.cl_ord_id a.book.cells {o = p} r.order c.known
              (Moves-SameTerms c.moved).cl_ord_id,
        )
        (elim (text_dec p.cl_ord_id k) [
          | no ne ↦ ground arith
          | yes same ↦
              let here : find_order k a.book.cells ≡ some p =
                subst (λ j. find_order j a.book.cells ≡ some p) same c.known in
              let still = Moves-is_open c.moved in
              let one_order : p ≡ o = some-injective _ _ (sym here ∙ found) in
              let open_too : is_open o ≡ true = subst (λ q. is_open q ≡ true) one_order still in
              cc (open_too, shut)
        ])

  pub Steps-final :
      (k : Text) (o : OrderState L.Decimal) {h : Bool} {a a' : App}
      → Steps h a a'
      → find_order k a.book.cells ≡ some o
      → is_open o ≡ false
      → find_order k a'.book.cells ≡ some o
  Steps-final k o here found shut = found
  Steps-final k o (next s st) found shut = Step-final k o st (Steps-final k o s found shut) shut
