-- ===== src/Client/OrderEntry.antt =====
-- The order-entry client, internal/client/oe.go.
pub mod Views
use fix_session_lab.Base.{
  ℕ, ◌+◌, ◌≡◌, ◌++◌, Bool, true, false, List, [], ◌∷◌, Option, none, some, ite,
}
use fix_session_lab.Base.Lists.{if◌then◌else◌}
use fix_session_lab.Base.Map.{lookup, insert}
use fix_session_lab.Base.Text.{Text, codes, text_dec, pad6}
use fix_session_lab.Deps.{
  Deps, Result, ok, err, ◌>>=◌, ok_or, Rejection, business_reject, unsupported_type,
}
use fix_session_lab.Session.Client.{Client, note_inbound, app, new_client}
use fix_session_lab.Session.{LogonCredentials}

module _ ⦃L : Deps⦄ where
  pub record OrderView : Type 0 where
    pub cl_ord_id : Text
    pub ord_status : Text
    pub cum_qty : L.Decimal
    pub leaves_qty : L.Decimal
    pub avg_px : L.Decimal
    pub last_exec_id : Text

  pub record OrderEntry (W : Type 0) : Type 0 where
    pub client : Client W
    pub prefix : Text
    pub seq : ℕ
    pub orders : List (Text × OrderView)
    pub replays : ℕ

  -- A report as the client reads it, with its PossDupFlag.
  unfoldable pub view_of_message : L.Message → Result Rejection (OrderView × Bool)
  view_of_message m = do
    cl_ord_id ← L.body_string m 11
    exec_type ← L.body_string m 150
    ord_status ← L.body_string m 39
    cum_qty ← L.body_decimal m 14
    leaves_qty ← L.body_decimal m 151
    avg_px ← L.body_decimal m 6
    exec_id ← L.body_string m 17
    ok (
      record {
        cl_ord_id = cl_ord_id;
        ord_status = ord_status;
        cum_qty = cum_qty;
        leaves_qty = leaves_qty;
        avg_px = avg_px;
        last_exec_id = exec_id;
      },
      ok_or false (L.header_bool m 43),
    )

  module _ {W : Type 0} where
    unfoldable pub new_order_entry : LogonCredentials → W → OrderEntry W
    unfolding new_client
    new_order_entry creds w = record {
      client = new_client creds w;
      prefix = [];
      seq = 0;
      orders = [];
      replays = 0;
    }

    unfoldable pub set_cl_ord_id_prefix : OrderEntry W → Text → OrderEntry W
    set_cl_ord_id_prefix c p = record c { prefix = p }

    unfoldable pub reset_cl_ord_id_seq : OrderEntry W → OrderEntry W
    reset_cl_ord_id_seq c = record c { seq = 0 }

    unfoldable pub store_view : OrderEntry W → OrderView × Bool → OrderEntry W
    store_view c (v, replayed) = record c {
      orders = insert text_dec v.cl_ord_id v c.orders;
      replays = if replayed then c.replays + 1 else c.replays;
    }

    unfoldable pub on_execution_report : OrderEntry W → L.Message → OrderEntry W × Option Rejection
    unfolding view_of_message store_view
    on_execution_report c m = elim (view_of_message m) [
      | err e ↦ (c, some e)
      | ok v ↦ (store_view c v, none)
    ]

    -- A business reject is logged, never answered.
    unfoldable pub from_app :
        OrderEntry W → L.Message → L.SessionId → OrderEntry W × Option Rejection
    unfolding note_inbound on_execution_report
    from_app c m id =
        let c' = record c { client = note_inbound c.client id app } in
        elim (L.header_string m 35) [
          | err e ↦ (c', some e)
          | ok t ↦ ite (text_dec t (codes "8")) (on_execution_report c' m) (
              ite (text_dec t (codes "j")) (c', none)
                (c', some (business_reject (unsupported_type t) 3)))
        ]

    unfoldable pub replay_count : OrderEntry W → ℕ
    replay_count c = c.replays

    unfoldable pub order : OrderEntry W → Text → Option OrderView
    order c id = lookup text_dec id c.orders

  unfoldable pub cl_ord_id_of : Text → ℕ → Text
  cl_ord_id_of prefix n = codes "CL" ++ prefix ++ pad6 n

  pub record NewOrder : Type 0 where
    pub symbol : Text
    pub side : Text
    pub order_qty : L.Decimal
    pub price : L.Decimal
    pub account : Text

  -- The NewOrderSingle as it is handed to SendToTarget.
  pub record NewOrderSingle : Type 0 where
    pub cl_ord_id : Text
    pub side : Text
    pub ord_type : Text
    pub symbol : Text
    pub order_qty : L.Decimal
    pub price : L.Decimal
    pub time_in_force : Text
    pub account : Option Text

  unfoldable pub order_single : Text → NewOrder → NewOrderSingle
  order_single id o = record {
    cl_ord_id = id;
    side = o.side;
    ord_type = codes "2";
    symbol = o.symbol;
    order_qty = L.fixed o.order_qty 0;
    price = L.fixed o.price 2;
    time_in_force = codes "0";
    account = ite (text_dec o.account []) none (some o.account);
  }

  -- `send_to_target` is quickfix.SendToTarget, with its error if it makes one. The number is used up
  -- also when it does.
  unfoldable pub send :
      {W : Type 0}
      → (NewOrderSingle → L.SessionId → Option Text)
      → OrderEntry W
      → L.SessionId
      → NewOrder
      → OrderEntry W × Result Text Text
  unfolding cl_ord_id_of order_single
  send send_to_target c id o =
      let n = c.seq + 1 in
      let k = cl_ord_id_of c.prefix n in
      (
        record c { seq = n },
        elim (send_to_target (order_single k o) id) [ none ↦ ok k | some e ↦ err e ],
      )
