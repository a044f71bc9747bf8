-- ===== src/Client/OrderEntry/Views.antt =====
-- The order-entry client's view of its orders, and its ClOrdIDs: internal/client/oe.go.
use fix_session_lab.Base.{
  ℕ, ◌+◌, ◌<◌, ◌≡◌, ◌≢◌, refl, ap, ◌∙◌, ◌++◌, suc, Bool, List, [], ◌∷◌, Option, none, some, ite,
  arith,
}
use fix_session_lab.Base.Lists.{All, length}
use fix_session_lab.Base.Map.{lookup, lookup-insert}
use fix_session_lab.Base.Text.{Text, codes, text_dec, pad6-injective, append-cancel_left}
use fix_session_lab.Client.OrderEntry.{
  OrderView, OrderEntry, view_of_message, store_view, on_execution_report, order, cl_ord_id_of,
  NewOrder, NewOrderSingle, send,
}
use fix_session_lab.Deps.{Deps, Result, ok, err, Rejection}

module _ ⦃L : Deps⦄ where
  -- What a report tells of the order.
  abbrev pub told_by : Text → Result Rejection (OrderView × Bool) → Option OrderView
  told_by k (err e) = none
  told_by k (ok (v, replayed)) = ite (text_dec v.cl_ord_id k) (some v) none

  abbrev pub told : Option OrderView → Option OrderView → Option OrderView
  told (some v) old = some v
  told none old = old

  -- The view in the last report that tells of the order.
  unfoldable pub newest : Text → List L.Message → Option OrderView
  unfolding view_of_message
  newest k [] = none
  newest k (m ∷ ms) = told (newest k ms) (told_by k (view_of_message m))

  told-told : (a b c : Option OrderView) → told a (told b c) ≡ told (told a b) c
  told-told none b c = refl
  told-told (some v) b c = refl

  module _ {W : Type 0} where
    unfoldable pub hear : OrderEntry W → List L.Message → OrderEntry W
    hear c [] = c
    hear c (m ∷ ms) = hear (on_execution_report c m).0 ms

    pub heard_once :
        (c : OrderEntry W) (m : L.Message) (k : Text)
        → order (on_execution_report c m).0 k ≡ told (told_by k (view_of_message m)) (order c k)
    unfolding order on_execution_report store_view
    heard_once c m k =
        elim (view_of_message m)
          as (λ r.
            lookup text_dec k
              (elim r as (λ x. OrderEntry W × Option Rejection) [
                | err e ↦ (c, some e)
                | ok v ↦ (store_view c v, none)
              ]).0.orders
            ≡ told (told_by k r) (lookup text_dec k c.orders)) [
              | err e ↦ refl
              | ok (v, replayed) ↦ ground (arith, lookup-insert text_dec v.cl_ord_id k v c.orders)
            ]

    -- Whatever messages are taken as execution reports, replayed or not, the order-entry client's view
    -- of an order is that of the last readable one with its ClOrdID, or what it was if there is none.
    pub order-newest :
        (c : OrderEntry W) (ms : List L.Message) (k : Text)
        → order (hear c ms) k ≡ told (newest k ms) (order c k)
    unfolding newest hear
    order-newest c [] k = refl
    order-newest c (m ∷ ms) k =
        order-newest (on_execution_report c m).0 ms k
        ∙ ap (told (newest k ms)) (heard_once c m k)
        ∙ told-told (newest k ms) (told_by k (view_of_message m)) (order c k)

  cl_ord_id_of-injective : (p : Text) (m n : ℕ) → cl_ord_id_of p m ≡ cl_ord_id_of p n → m ≡ n
  unfolding cl_ord_id_of
  cl_ord_id_of-injective p m n e =
      pad6-injective m n (append-cancel_left p _ _ (append-cancel_left (codes "CL") _ _ e))

  -- No text occurs twice.
  abbrev pub Distinct : List Text → Type 0
  Distinct [] = Unit {0}
  Distinct (k ∷ ks) = All (λ j. k ≢ j) ks × Distinct ks

  module _ {W : Type 0} (send_to_target : NewOrderSingle → L.SessionId → Option Text) where
    -- The ClOrdID of the message that Send hands to the engine, as an engine shows it that refuses
    -- every message with its ClOrdID.
    unfoldable pub handed : OrderEntry W → L.SessionId → NewOrder → List Text
    unfolding send
    handed c id o = elim ((send (λ m at. some m.cl_ord_id) c id o).1) [ ok k ↦ [] | err k ↦ k ∷ [] ]

    -- The ClOrdIDs that the engine is handed, one after the other, whether it takes the orders or not.
    unfoldable pub handed_ids : OrderEntry W → List (L.SessionId × NewOrder) → List Text
    unfolding handed
    handed_ids c [] = []
    handed_ids c ((id, o) ∷ os) = handed c id o ++ handed_ids (send send_to_target c id o).0 os

    handed_ids-All :
        (P : Text → Type 0) (c : OrderEntry W) (os : List (L.SessionId × NewOrder))
        → ((n : ℕ) → c.seq < n → P (cl_ord_id_of c.prefix n))
        → All P (handed_ids c os)
    unfolding handed_ids handed send
    handed_ids-All P c [] h = tt
    handed_ids-All P c ((id, o) ∷ os) h = (
      h (c.seq + 1) (omega arith),
      handed_ids-All P (record c { seq = c.seq + 1 }) os (λ n lt. h n (omega arith)),
    )

    handed_ids-length :
        (c : OrderEntry W) (os : List (L.SessionId × NewOrder))
        → length (handed_ids c os) ≡ length os
    unfolding handed_ids handed send
    handed_ids-length c [] = refl
    handed_ids-length c ((id, o) ∷ os) =
        ap (λ n. suc n) (handed_ids-length (record c { seq = c.seq + 1 }) os)

    -- However many orders an order-entry client sends with no change of prefix and no reset of its
    -- counter, and whichever of them the engine refuses, the engine is handed one ClOrdID for each of
    -- them, those that it refuses included, and no two of these are the same.
    pub handed_ids-Distinct :
        (c : OrderEntry W) (os : List (L.SessionId × NewOrder))
        → Distinct (handed_ids c os) × (length (handed_ids c os) ≡ length os)
    unfolding handed_ids handed send
    handed_ids-Distinct c [] = (tt, refl)
    handed_ids-Distinct c ((id, o) ∷ os) = (
      (
        handed_ids-All (λ j. cl_ord_id_of c.prefix (c.seq + 1) ≢ j) (record c { seq = c.seq + 1 })
            os (λ n lt e. omega (arith, cl_ord_id_of-injective c.prefix (c.seq + 1) n e)),
        (handed_ids-Distinct (record c { seq = c.seq + 1 }) os).0,
      ),
      handed_ids-length c ((id, o) ∷ os),
    )
