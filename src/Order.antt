-- ===== src/Order.antt =====
-- One order as the venue keeps it: internal/exchange/const.go and the OrderState of
-- internal/exchange/book.go.
use fix_session_lab.Base.{ℕ, Bool, true, false, [], ite, ◌≡◌, ◌⊎◌}
use fix_session_lab.Base.Lists.{if◌then◌else◌}
use fix_session_lab.Base.Text.{Text, codes, text_dec}
use fix_session_lab.Deps.{Deps}

-- `unset` is the empty text that the field holds before Insert.
pub data Status : Type 0 where
  unset new partially_filled filled canceled rejected : Status

pub data ExecType : Type 0 where
  new canceled rejected trade : ExecType

abbrev pub status_code : Status → Text
status_code Status.unset = []
status_code Status.new = codes "0"
status_code Status.partially_filled = codes "1"
status_code Status.filled = codes "2"
status_code Status.canceled = codes "4"
status_code Status.rejected = codes "8"

abbrev pub exec_type_code : ExecType → Text
exec_type_code ExecType.new = codes "0"
exec_type_code ExecType.canceled = codes "4"
exec_type_code ExecType.rejected = codes "8"
exec_type_code ExecType.trade = codes "F"

abbrev pub tif_day : Text
tif_day = codes "0"

abbrev pub tif_gtc : Text
tif_gtc = codes "1"

abbrev pub restatement_cancel_on_disconnect : ℕ
restatement_cancel_on_disconnect = 100

pub record OrderState (D : Type 0) : Type 0 where
  pub cl_ord_id : Text
  pub order_id : Text
  pub account : Text
  pub symbol : Text
  pub side : Text
  pub ord_type : Text
  pub time_in_force : Text
  pub price : D
  pub order_qty : D
  pub cum_qty : D
  pub avg_px : D
  pub status : Status

unfoldable pub status_is_open : Status → Bool
status_is_open Status.new = true
status_is_open Status.partially_filled = true
status_is_open _ = false

module _ {D : Type 0} where
  abbrev pub is_open : OrderState D → Bool
  is_open o = status_is_open o.status

  unfoldable pub is_day : OrderState D → Bool
  unfolding text_dec
  is_day o =
      ite (text_dec o.time_in_force []) true (ite (text_dec o.time_in_force tif_day) true false)

module _ ⦃L : Deps⦄ where
  unfoldable pub leaves_qty : OrderState L.Decimal → L.Decimal
  leaves_qty o = if is_open o then L.sub o.order_qty o.cum_qty else L.zero_dec

  -- What each status says of the quantities: nothing traded while new, a proper part of the order
  -- while partially filled, all of it, which is positive, once filled.
  abbrev pub Quantities : Status → L.Decimal → L.Decimal → Type 0
  Quantities Status.unset cum qty = cum ≡ L.zero_dec
  Quantities Status.new cum qty = cum ≡ L.zero_dec
  Quantities Status.partially_filled cum qty =
      (L.less_eq cum L.zero_dec ≡ false) × (L.less_eq qty cum ≡ false)
  Quantities Status.filled cum qty = (cum ≡ qty) × (L.less_eq cum L.zero_dec ≡ false)
  Quantities Status.canceled cum qty =
      (cum ≡ L.zero_dec) ⊎ ((L.less_eq cum L.zero_dec ≡ false) × (L.less_eq qty cum ≡ false))
  Quantities Status.rejected cum qty =
      (cum ≡ L.zero_dec) ⊎ ((L.less_eq cum L.zero_dec ≡ false) × (L.less_eq qty cum ≡ false))

  abbrev pub IsConsistent : OrderState L.Decimal → Type 0
  IsConsistent o = Quantities o.status o.cum_qty o.order_qty
