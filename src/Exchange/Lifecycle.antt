-- ===== src/Exchange/Lifecycle.antt =====
-- The life of one order, by the moves that internal/exchange makes with it.
use fix_session_lab.Base.{◌≡◌, refl, ◌∙◌, inl, inr, true, false, arith}
use fix_session_lab.Base.Lists.{Bool-cases}
use fix_session_lab.Deps.{Deps, DecimalLaws}
use fix_session_lab.Exchange.Commands.{traded}
use fix_session_lab.Order.{
  OrderState, ExecType, Status, status_is_open, is_open, leaves_qty, Quantities, IsConsistent,
}

module _ ⦃L : Deps⦄ where
  -- One event in the life of an order and the execution type that it is reported with.
  pub data Moves (o : OrderState L.Decimal) (x : ExecType) (o' : OrderState L.Decimal)
      : Type 0 where
    trades :
        (qty px : L.Decimal)
        → is_open o ≡ true
        → L.less_eq qty L.zero_dec ≡ false
        → L.greater qty (leaves_qty o) ≡ false
        → x ≡ ExecType.trade
        → o' ≡ traded qty px o
        → Moves o x o'
    cancels :
        is_open o ≡ true
        → x ≡ ExecType.canceled
        → o' ≡ record o { status = Status.canceled }
        → Moves o x o'
    rejects :
        is_open o ≡ true
        → x ≡ ExecType.rejected
        → o' ≡ record o { status = Status.rejected }
        → Moves o x o'

  -- No order moves out of a final status.
  pub Moves-is_open : {o o' : OrderState L.Decimal} {x : ExecType} → Moves o x o' → is_open o ≡ true
  Moves-is_open (trades qty px h pos fits x e) = h
  Moves-is_open (cancels h x e) = h
  Moves-is_open (rejects h x e) = h

  -- What an order was sent with is never rewritten.
  pub record SameTerms (o o' : OrderState L.Decimal) : Type 0 where
    pub cl_ord_id : o'.cl_ord_id ≡ o.cl_ord_id
    pub order_id : o'.order_id ≡ o.order_id
    pub order_qty : o'.order_qty ≡ o.order_qty
    pub time_in_force : o'.time_in_force ≡ o.time_in_force

  pub Moves-SameTerms : {o o' : OrderState L.Decimal} {x : ExecType} → Moves o x o' → SameTerms o o'
  unfolding traded
  Moves-SameTerms {o} {o'} (trades qty px h pos fits x e) =
      rw e (record { cl_ord_id = refl; order_id = refl; order_qty = refl; time_in_force = refl })
  Moves-SameTerms (cancels h x e) =
      rw e (record { cl_ord_id = refl; order_id = refl; order_qty = refl; time_in_force = refl })
  Moves-SameTerms (rejects h x e) =
      rw e (record { cl_ord_id = refl; order_id = refl; order_qty = refl; time_in_force = refl })

  module _ (laws : DecimalLaws L) where
    zero-add : (a : L.Decimal) → L.add L.zero_dec a ≡ a
    zero-add a = laws.add_comm L.zero_dec a ∙ laws.add_zero a

    -- A positive quantity on top of one that is not negative is positive.
    add-positive :
        (cum qty : L.Decimal)
        → L.less_eq L.zero_dec cum ≡ true
        → L.less_eq qty L.zero_dec ≡ false
        → L.less_eq (L.add cum qty) L.zero_dec ≡ false
    add-positive cum qty h p = elim (Bool-cases (L.less_eq (L.add cum qty) L.zero_dec)) [
      | inr e ↦ e
      | inl e ↦
          let up = rw (zero-add qty) at (laws.le_add L.zero_dec cum qty h) in
          let low = laws.le_trans qty (L.add cum qty) L.zero_dec up e in cc
    ]

    -- A quantity within what is left fits the order.
    fits-le :
        (o : OrderState L.Decimal) (qty : L.Decimal)
        → is_open o ≡ true
        → L.greater qty (leaves_qty o) ≡ false
        → L.less_eq (L.add o.cum_qty qty) o.order_qty ≡ true
    unfolding leaves_qty
    fits-le o qty h g =
        let left : leaves_qty o ≡ L.sub o.order_qty o.cum_qty = rw h refl in
        let le : L.less_eq qty (leaves_qty o) ≡ true =
          ground (arith, laws.greater_lem qty (leaves_qty o)) in
        rw (laws.sub_add o.order_qty o.cum_qty, laws.add_comm qty o.cum_qty) at
          (laws.le_add qty (L.sub o.order_qty o.cum_qty) o.cum_qty (rw left at le))

    -- While an order is open its executed quantity is not negative.
    open-cum :
        (s : Status) (cum qty : L.Decimal)
        → status_is_open s ≡ true
        → Quantities s cum qty
        → L.less_eq L.zero_dec cum ≡ true
    unfolding status_is_open
    open-cum Status.new cum qty h q = rw q (laws.le_refl L.zero_dec)
    open-cum Status.partially_filled cum qty h q = laws.le_total cum L.zero_dec q.0
    open-cum _ cum qty h q = cc

    traded-IsConsistent :
        (o : OrderState L.Decimal) (qty px : L.Decimal)
        → IsConsistent o
        → is_open o ≡ true
        → L.less_eq qty L.zero_dec ≡ false
        → L.greater qty (leaves_qty o) ≡ false
        → IsConsistent (traded qty px o)
    unfolding traded
    traded-IsConsistent o qty px q h p g =
        let positive = add-positive o.cum_qty qty (open-cum o.status o.cum_qty o.order_qty h q) p in
        elim (Bool-cases (L.equal (L.add o.cum_qty qty) o.order_qty)) [
          | inl e ↦ rw e ((laws.equal_iff (L.add o.cum_qty qty) o.order_qty).0 e, positive)
          | inr e ↦ rw e (
            positive,
            elim (Bool-cases (L.less_eq o.order_qty (L.add o.cum_qty qty))) [
              | inr f ↦ f
              | inl f ↦
                  let same =
                    laws.le_antisymm (L.add o.cum_qty qty) o.order_qty (fits-le o qty h g) f in
                  let hit = (laws.equal_iff (L.add o.cum_qty qty) o.order_qty).1 same in cc
            ],
          )
        ]

    closed-Quantities :
        (s : Status) (cum qty : L.Decimal)
        → status_is_open s ≡ true
        → Quantities s cum qty
        → Quantities Status.canceled cum qty
    unfolding status_is_open
    closed-Quantities Status.new cum qty h q = inl q
    closed-Quantities Status.partially_filled cum qty h q = inr q
    closed-Quantities _ cum qty h q = cc

    -- Every move keeps the quantities in line with the status.
    pub Moves-IsConsistent :
        {o o' : OrderState L.Decimal} {x : ExecType}
        → Moves o x o'
        → IsConsistent o
        → IsConsistent o'
    Moves-IsConsistent {o} (trades qty px h pos fits x e) q =
        rw e (traded-IsConsistent o qty px q h pos fits)
    Moves-IsConsistent {o} (cancels h x e) q =
        rw e (closed-Quantities o.status o.cum_qty o.order_qty h q)
    Moves-IsConsistent {o} (rejects h x e) q =
        rw e (closed-Quantities o.status o.cum_qty o.order_qty h q)
