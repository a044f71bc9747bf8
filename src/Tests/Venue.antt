-- ===== src/Tests/Venue.antt =====
-- A concrete venue and a morning's events at it.
use fix_session_lab.Base.{
  ℕ_discrete, ℕ, suc, ◌≡◌, ◌≢◌, refl, ◌⊎◌, inl, inr, Bool, true, false, List, [], ◌∷◌, Option, none,
  some, arith, ◌++◌, map,
}
use fix_session_lab.Base.Int.{ℤ, pos}
use fix_session_lab.Base.Lists.{All}
use fix_session_lab.Base.Text.{Text, codes}
use fix_session_lab.Tests.Concrete.{plain, text, number, Fields}
use fix_session_lab.Book.{
  Book, new_book, all_orders, insert_order, update, get, accepted, exec_id_of, order_id_of,
}
use fix_session_lab.Book.Spec.{find_order}
use fix_session_lab.Book.View.{IsWellFormed}
use fix_session_lab.Exchange.{App, new_app, register_kind, order_entry, drop_copy, session_of}
use fix_session_lab.Exchange.Events.{
  Event, app_message, fills_part, logs_on, run, react, IsSilence, run-Steps,
}
use fix_session_lab.Exchange.Fanout.{Roles}
use fix_session_lab.Exchange.Guarantees.{IsFresh, IsFresh-IsWellFormed}
use fix_session_lab.Base.Map.{lookup}
use fix_session_lab.Exchange.Steps.{Steps-IsWellFormed}
use fix_session_lab.Order.{OrderState, Status, IsConsistent, is_open, leaves_qty}

-- A venue with an order-entry session and a drop copy.
abbrev pub venue : App
venue = register_kind (register_kind (new_app new_book) 1 order_entry) 2 drop_copy

pub venue-IsFresh : IsFresh venue
unfolding register_kind new_app
venue-IsFresh = record { no_orders = refl; nothing_sent = refl }

pub venue-Roles : Roles venue 1 2
unfolding session_of register_kind new_app fix_session_lab.Exchange.session_with
    fix_session_lab.Base.Map.insert fix_session_lab.Base.ℕ_discrete
    fix_session_lab.Exchange.kind_dec
venue-Roles = record { entry = refl; copy = refl; apart = λ e. omega arith }

pub venue_loud : venue.silenced ≡ false
unfolding register_kind new_app
venue_loud = refl

-- An order for 10 at the given ClOrdID.
abbrev pub order_message : Text → Fields
order_message id =
    (35, text (codes "D"))
    ∷ (34, number (pos 2))
    ∷ (11, text id)
    ∷ (55, text (codes "VALE3"))
    ∷ (54, text (codes "1"))
    ∷ (38, number (pos 10))
    ∷ (40, text (codes "2"))
    ∷ []

abbrev pub one : Text
one = codes "1"

abbrev pub two : Text
two = codes "2"

abbrev pub morning : List Event
morning =
    logs_on 1
    ∷ app_message (order_message one) 1
    ∷ app_message (order_message two) 1
    ∷ app_message (order_message one) 1
    ∷ fills_part one (pos 4) (pos 7)
    ∷ []

pub morning_speaks : All (λ e. ¬ IsSilence e) morning
morning_speaks = (λ e. e, (λ e. e, (λ e. e, (λ e. e, (λ e. e, tt)))))

-- The first order as it stands after the morning.
abbrev pub live_order : OrderState ℤ
live_order = record {
  cl_ord_id = one;
  order_id = codes "ORD000001";
  account = [];
  symbol = codes "VALE3";
  side = codes "1";
  ord_type = codes "2";
  time_in_force = [];
  price = pos 0;
  order_qty = pos 10;
  cum_qty = pos 4;
  avg_px = pos 7;
  status = Status.partially_filled;
}

pub live_order_found : find_order one (all_orders (run venue morning).book) ≡ some live_order
unfolding run react all_orders find_order fix_session_lab.Book.read_all
    fix_session_lab.Base.Map.lookup fix_session_lab.Exchange.kind_dec register_kind
    fix_session_lab.Base.Map.insert new_app new_book fix_session_lab.Exchange.session_with
    fix_session_lab.Order.status_is_open leaves_qty fix_session_lab.Base.Int.◌-ℤ◌
    fix_session_lab.Base.Int.ℤ_discrete fix_session_lab.Base.Int.◌+ℤ◌ fix_session_lab.Base.Int.◌*ℤ◌
    fix_session_lab.Book.order_id_of fix_session_lab.Base.Text.pad6
live_order_found = refl

pub venue-IsWellFormed : (es : List Event) → IsWellFormed (run venue es).book
venue-IsWellFormed es =
    let w = IsFresh-IsWellFormed venue venue-IsFresh in Steps-IsWellFormed (run-Steps venue es w) w
