-- ===== src/Feed/Views.antt =====
-- From the venue's book to the order-entry client's view of it: internal/exchange and
-- internal/client/oe.go.
use fix_session_lab.Base.{
  ◌≡◌, refl, sym, ap, ◌∙◌, inl, inr, if_pos, if_neg, false, List, [], ◌∷◌, ◌++◌, Option, none, some,
  ite,
}
use mathlib.Core.Option.{some-injective}
use fix_session_lab.Base.Lists.{All, Option-cases}
use fix_session_lab.Base.Text.{Text, text_dec}
use fix_session_lab.Book.{all_orders}
use fix_session_lab.Book.Spec.{find_order}
use fix_session_lab.Client.OrderEntry.{OrderView, OrderEntry, view_of_message, from_app, order}
use fix_session_lab.Client.OrderEntry.Views.{told_by, told, heard_once}
use fix_session_lab.Deps.{Deps, ok, ok_or}
use fix_session_lab.Exchange.{App, ExecutionReport}
use fix_session_lab.Exchange.Events.{Event, run, IsSilence}
use fix_session_lab.Exchange.Fanout.{reports_to, Roles}
use fix_session_lab.Exchange.Guarantees.{IsFresh, run-IsTold}
use fix_session_lab.Exchange.Latest.{latest}
use fix_session_lab.Feed.{Carries, Carried, nothing, one_more, Resent, at_first, again}
use fix_session_lab.Order.{OrderState, status_code, leaves_qty}
use fix_session_lab.Session.Client.{note_inbound, app}

module _ ⦃L : Deps⦄ where
  -- What the client makes of a report.
  abbrev pub view_of : ExecutionReport L.Decimal → OrderView
  view_of er = record {
    cl_ord_id = er.cl_ord_id;
    ord_status = status_code er.ord_status;
    cum_qty = er.cum_qty;
    leaves_qty = er.leaves_qty;
    avg_px = er.avg_px;
    last_exec_id = er.exec_id;
  }

  Carries-view :
      {m : L.Message} {er : ExecutionReport L.Decimal}
      → Carries m er
      → view_of_message m ≡ ok (view_of er, ok_or false (L.header_bool m 43))
  unfolding view_of_message
  Carries-view c =
      rw (c.cl_ord_id, c.exec_type, c.ord_status, c.cum_qty, c.leaves_qty, c.avg_px, c.exec_id) refl

  told-ite :
      {C : Type 0} (d : Dec C) (v : OrderView) (old : Option OrderView)
      → told (ite d (some v) none) old ≡ ite d (some v) old
  told-ite (yes h) v old = refl
  told-ite (no h) v old = refl

  told_last :
      {C : Type 0} (d : Dec C) (er er' : ExecutionReport L.Decimal)
      (before : Option (ExecutionReport L.Decimal)) (old : Option OrderView)
      → ite d (some er) before ≡ some er'
      → (before ≡ some er' → old ≡ some (view_of er'))
      → ite d (some (view_of er)) old ≡ some (view_of er')
  told_last (yes h) er er' before old e ih = ap (λ r. some (view_of r)) (some-injective er er' e)
  told_last (no h) er er' before old e ih = ih e

  untold_last :
      {C : Type 0} (d : Dec C) (er : ExecutionReport L.Decimal)
      (before : Option (ExecutionReport L.Decimal)) (old older : Option OrderView)
      → ite d (some er) before ≡ none
      → (before ≡ none → old ≡ older)
      → ite d (some (view_of er)) old ≡ older
  untold_last (yes h) er before old older e ih = cc
  untold_last (no h) er before old older e ih = ih e

  latest-append :
      (k : Text) (newer elder : List (ExecutionReport L.Decimal)) (r : ExecutionReport L.Decimal)
      → latest k newer ≡ some r
      → latest k (newer ++ elder) ≡ some r
  unfolding latest
  latest-append k [] elder r e = cc
  latest-append k (er ∷ newer) elder r e = elim (text_dec er.cl_ord_id k) [
    | yes p ↦
        if_pos (text_dec er.cl_ord_id k) p _ _ ∙ sym (if_pos (text_dec er.cl_ord_id k) p _ _) ∙ e
    | no p ↦
        if_neg (text_dec er.cl_ord_id k) p _ _
        ∙ latest-append k newer elder r (sym (if_neg (text_dec er.cl_ord_id k) p _ _) ∙ e)
  ]

  module _ {W : Type 0} where
    -- The messages as the engine hands them to FromApp.
    unfoldable pub deliver : OrderEntry W → L.SessionId → List L.Message → OrderEntry W
    deliver c id [] = c
    deliver c id (m ∷ ms) = deliver (from_app c m id).0 id ms

    deliver-append :
        (c : OrderEntry W) (id : L.SessionId) (xs ys : List L.Message)
        → deliver c id (xs ++ ys) ≡ deliver (deliver c id xs) id ys
    unfolding deliver
    deliver-append c id [] ys = refl
    deliver-append c id (m ∷ xs) ys = deliver-append (from_app c m id).0 id xs ys

    delivered_once :
        (c : OrderEntry W) (id : L.SessionId) (m : L.Message) (er : ExecutionReport L.Decimal)
        (k : Text)
        → Carries m er
        → order (from_app c m id).0 k
          ≡ ite (text_dec er.cl_ord_id k) (some (view_of er)) (order c k)
    unfolding from_app order text_dec
    delivered_once c id m er k carries =
        let c' = record c { client = note_inbound c.client id app } in
        rw (carries.msg_type, from_app)
          (heard_once c' m k
            ∙ ap (λ r. told (told_by k r) (order c k)) (Carries-view carries)
            ∙ told-ite (text_dec er.cl_ord_id k) (view_of er) (order c k))

    -- The last report of an order decides, whatever the client had heard before.
    delivered_latest :
        (c : OrderEntry W) (id : L.SessionId) (k : Text) {ms : List L.Message}
        {ers : List (ExecutionReport L.Decimal)} {er : ExecutionReport L.Decimal}
        → Carried ms ers
        → latest k ers ≡ some er
        → order (deliver c id ms) k ≡ some (view_of er)
    unfolding latest deliver
    delivered_latest c id k nothing e = cc
    delivered_latest c id k {er = er'} (one_more ms ms' m er {ers} rest carries same) e =
        ap (λ xs. order (deliver c id xs) k) same
        ∙ ap (λ (d : OrderEntry W). order d k) (deliver-append c id ms (m ∷ []))
        ∙ delivered_once (deliver c id ms) id m er k carries
        ∙ told_last (text_dec er.cl_ord_id k) er er' (latest k ers) (order (deliver c id ms) k) e
            (delivered_latest c id k rest)

    -- No report of an order leaves the view of it.
    delivered_none :
        (c : OrderEntry W) (id : L.SessionId) (k : Text) {ms : List L.Message}
        {ers : List (ExecutionReport L.Decimal)}
        → Carried ms ers
        → latest k ers ≡ none
        → order (deliver c id ms) k ≡ order c k
    unfolding latest deliver
    delivered_none c id k nothing e = refl
    delivered_none c id k (one_more ms ms' m er {ers} rest carries same) e =
        ap (λ xs. order (deliver c id xs) k) same
        ∙ ap (λ (d : OrderEntry W). order d k) (deliver-append c id ms (m ∷ []))
        ∙ delivered_once (deliver c id ms) id m er k carries
        ∙ untold_last (text_dec er.cl_ord_id k) er (latest k ers) (order (deliver c id ms) k)
            (order c k) e (delivered_none c id k rest)

    -- A resend does not change the view.
    redelivered_latest :
        (c : OrderEntry W) (id : L.SessionId) (k : Text) {ers : List (ExecutionReport L.Decimal)}
        {er : ExecutionReport L.Decimal} {ms : List L.Message}
        → Resent ers ms
        → latest k ers ≡ some er
        → order (deliver c id ms) k ≡ some (view_of er)
    redelivered_latest c id k (at_first ms carried) e = delivered_latest c id k carried e
    redelivered_latest c id k {ers = ers} {er = er}
          (again ms ms' more newer elder rest parts carried same) e =
        ap (λ xs. order (deliver c id xs) k) same
        ∙ ap (λ (d : OrderEntry W). order d k) (deliver-append c id ms more)
        ∙ elim (Option-cases (latest k newer)) [
          | inl missing ↦
              delivered_none (deliver c id ms) id k carried missing
              ∙ redelivered_latest c id k rest e
          | inr (r, found) ↦
              delivered_latest (deliver c id ms) id k carried
                (found ∙ sym (latest-append k newer elder r found) ∙ ap (latest k) (sym parts) ∙ e)
        ]

  -- From a venue with no order and nothing sent, with one order-entry and one other drop-copy session,
  -- not silenced and not silenced or unsilenced by any of the events, an order-entry client to which
  -- messages are delivered that carry the reports that its session was sent, in their order and behind
  -- whatever it was delivered before, and after that, any number of times, the last ones of these
  -- again in their order, has of every order in the venue's book a view with the order's status, and
  -- with its quantities and average price at the digits that the wire has.
  pub order-run :
      {W : Type 0} (a : App) (es : List Event) (oe dc : L.SessionId) (cl_ord_id : Text)
      (o : OrderState L.Decimal) (c : OrderEntry W) (id : L.SessionId) (before ms : List L.Message)
      → IsFresh a
      → Roles a oe dc
      → a.silenced ≡ false
      → All (λ e. ¬ IsSilence e) es
      → find_order cl_ord_id (all_orders (run a es).book) ≡ some o
      → Resent (reports_to oe (run a es).outbox) ms
      → (v : OrderView) × (order (deliver c id (before ++ ms)) cl_ord_id ≡ some v)
        × (v.ord_status ≡ status_code o.status)
        × (v.cum_qty ≡ L.fixed o.cum_qty 0)
        × (v.leaves_qty ≡ L.fixed (leaves_qty o) 0)
        × (v.avg_px ≡ L.fixed o.avg_px 2)
  order-run a es oe dc k o c id before ms fresh roles loud speaks found resent =
      let (er, newest_er, shows) =
        run-IsTold a es oe dc oe k o fresh roles (inl refl) loud speaks found in
      (
        view_of er,
        ap (λ d. order d k) (deliver-append c id before ms)
            ∙ redelivered_latest (deliver c id before) id k resent newest_er,
        ap status_code shows.status,
        shows.cum_qty,
        shows.leaves_qty,
        shows.avg_px,
      )
