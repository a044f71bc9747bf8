-- ===== src/Tests.antt =====
-- Concrete runs, and each theorem applied to one.
pub mod Concrete
pub mod Feeds
pub mod Clients
pub mod Venue
pub mod Admin
pub mod Programs
pub mod OeClient
pub mod Races
pub mod Talks
use fix_session_lab.Base.{
  ℕ_discrete, ℕ, suc, ◌≡◌, ◌≢◌, refl, ◌⊎◌, inl, inr, Bool, true, false, List, [], ◌∷◌, Option, none,
  some, arith, ◌++◌, map,
}
use fix_session_lab.Base.Int.{ℤ, pos}
use fix_session_lab.Base.Lists.{All, length, keep}
use fix_session_lab.Base.Text.{Text, codes}
use fix_session_lab.Tests.Concrete.{plain, plain-DecimalLaws, text, number, Fields}
use fix_session_lab.Book.{
  Book, new_book, all_orders, insert_order, update, get, accepted, open_day_orders, is_open_day,
  exec_id_of, order_id_of,
}
use fix_session_lab.Book.Spec.{find_order, spec_insert, spec_update}
use fix_session_lab.Book.Refines.{viewed, IsWellFormedIfOk, book-Refined}
use fix_session_lab.Book.Ids.{exec_id_of-injective}
use fix_session_lab.Book.View.{IsWellFormed}
use fix_session_lab.Deps.{Deps, ok, err}
use fix_session_lab.Exchange.{App, new_app, register_kind, order_entry, drop_copy, session_of}
use fix_session_lab.Exchange.Commands.{partial, fill, traded, cancel_change}
use fix_session_lab.Exchange.Events.{
  timer_runs, Event, app_message, fills_part, fills, cancels_one, cancels_all, logs_on, run, react,
  IsSilence, react-Steps, run-Steps, logs_out,
}
use fix_session_lab.Exchange.GraceWindow.{Checked, is_back, lost-Checked}
use fix_session_lab.Exchange.Fanout.{reports_to, Roles}
use fix_session_lab.Exchange.ExecIds.{Unrepeated}
use fix_session_lab.Exchange.Guarantees.{
  IsFresh, IsFresh-IsWellFormed, run-IsConsistent, run-IsMirrored, run-Unrepeated, run-IsTold,
  run-final,
}
use fix_session_lab.Exchange.Latest.{latest, Shows}
use fix_session_lab.Exchange.LostTwice.{check_for, lost_twice, lost_twice-cancels}
use fix_session_lab.Base.Map.{lookup}
use fix_session_lab.Session.{LogonRequest}
use fix_session_lab.Exchange.MassCancel.{
  cancel_open_day, MassCanceled, cancel_all_open_day-MassCanceled,
}
use fix_session_lab.Exchange.Reports.{cancel_all_open_day}
use fix_session_lab.Exchange.Sessions.{session_status, sessions}
use fix_session_lab.Exchange.Steps.{Steps, Steps-IsWellFormed}
use fix_session_lab.Exchange.Trades.{Trades, partial-Trades}
use fix_session_lab.Exchange.Updates.{cancel_change-KeepsId}
use fix_session_lab.Order.{OrderState, Status, IsConsistent, is_open, leaves_qty}
use fix_session_lab.Tests.Venue.{
  venue, venue-IsFresh, venue-Roles, venue_loud, order_message, one, two, morning, morning_speaks,
  live_order, live_order_found, venue-IsWellFormed,
}

abbrev day : List Event
day = logs_on 1 ∷ app_message (order_message one) 1 ∷ cancels_one one [] ∷ []

-- The second order is still new when the first has traded 4 of its 10, and the third was refused.
morning_statuses :
    map (λ o. o.status) (all_orders (run venue morning).book)
    ≡ Status.partially_filled ∷ Status.new ∷ []
unfolding run react all_orders fix_session_lab.Book.read_all fix_session_lab.Base.Map.lookup
    fix_session_lab.Exchange.kind_dec register_kind fix_session_lab.Base.Map.insert new_app new_book
    fix_session_lab.Exchange.session_with fix_session_lab.Order.status_is_open leaves_qty
    fix_session_lab.Base.Int.◌-ℤ◌ fix_session_lab.Base.Int.ℤ_discrete fix_session_lab.Base.Int.◌+ℤ◌
morning_statuses = refl

run-IsConsistent_example : All IsConsistent (all_orders (run venue morning).book)
run-IsConsistent_example = run-IsConsistent venue morning venue-IsFresh plain-DecimalLaws

run-IsMirrored_example :
    reports_to 1 (run venue morning).outbox ≡ reports_to 2 (run venue morning).outbox
run-IsMirrored_example = run-IsMirrored venue morning 1 2 venue-IsFresh venue-Roles

run-Unrepeated_example : Unrepeated (reports_to 2 (run venue morning).outbox)
run-Unrepeated_example = run-Unrepeated venue morning 1 2 2 venue-IsFresh venue-Roles (inr refl)

run-IsTold_example :
    (er : _) × (latest one (reports_to 2 (run venue morning).outbox) ≡ some er)
    × Shows er live_order
run-IsTold_example =
    run-IsTold venue morning 1 2 2 one live_order venue-IsFresh venue-Roles (inr refl) venue_loud
      morning_speaks live_order_found

-- The first order of a day on which it was canceled untraded.
abbrev dead_order : OrderState ℤ
dead_order = record live_order { cum_qty = pos 0; avg_px = pos 0; status = Status.canceled }

dead_order_found : find_order one (all_orders (run venue day).book) ≡ some dead_order
unfolding run react all_orders find_order fix_session_lab.Book.read_all
    fix_session_lab.Base.Map.lookup fix_session_lab.Exchange.kind_dec register_kind
    fix_session_lab.Base.Map.insert new_app new_book fix_session_lab.Exchange.session_with
    fix_session_lab.Order.status_is_open leaves_qty fix_session_lab.Base.Int.◌-ℤ◌
    fix_session_lab.Base.Int.ℤ_discrete fix_session_lab.Base.Int.◌+ℤ◌ fix_session_lab.Base.Int.◌*ℤ◌
    fix_session_lab.Book.order_id_of fix_session_lab.Base.Text.pad6
dead_order_found = refl

run-final_example : find_order one (all_orders (run (run venue day) morning).book) ≡ some dead_order
run-final_example =
    run-final (run venue day) morning one dead_order (venue-IsWellFormed day) dead_order_found
      (unfold fix_session_lab.Order.status_is_open in refl)

react-Steps_example :
    Steps false (run venue morning) (react (run venue morning) (fills one (pos 8)))
react-Steps_example =
    react-Steps (run venue morning) (fills one (pos 8)) (venue-IsWellFormed morning) (λ e. e)

cancel_all_open_day-MassCanceled_example :
    MassCanceled (run venue morning) (cancel_all_open_day (run venue morning) (codes "halt"))
cancel_all_open_day-MassCanceled_example =
    cancel_all_open_day-MassCanceled (run venue morning) (codes "halt") (venue-IsWellFormed morning)

book-Refined_example :
    (get (run venue morning).book one ≡ find_order one (all_orders (run venue morning).book))
    × (viewed (insert_order (run venue morning).book live_order)
        ≡ spec_insert
            (run venue morning).book.order_seq
            (all_orders (run venue morning).book)
            live_order)
    × IsWellFormedIfOk (insert_order (run venue morning).book live_order)
    × (all_orders (update (run venue morning).book one (cancel_change one)).0
        ≡ (spec_update (all_orders (run venue morning).book) one (cancel_change one)).0)
    × ((update (run venue morning).book one (cancel_change one)).1
        ≡ (spec_update (all_orders (run venue morning).book) one (cancel_change one)).1)
    × IsWellFormed (update (run venue morning).book one (cancel_change one)).0
    × (open_day_orders (run venue morning).book
        ≡ keep is_open_day (all_orders (run venue morning).book))
book-Refined_example =
    book-Refined (run venue morning).book live_order one (cancel_change one)
      (venue-IsWellFormed morning) (cancel_change-KeepsId one)

partial-Trades_example :
    Trades (run venue morning) one (pos 6) (pos 8) (partial (run venue morning) one (pos 6) (pos 8))
partial-Trades_example =
    partial-Trades (run venue morning) one (pos 6) (pos 8) (venue-IsWellFormed morning)

abbrev request : LogonRequest
request = record {
  session_id = 1;
  password = [];
  app_id = codes "lab";
  cod_type = pos 3;
  cod_timeout_window = pos 1000;
}

abbrev armed_venue : App
armed_venue = record (run venue morning) { cod = (1, request) ∷ [] }

armed_venue-armed : lookup plain.session_dec 1 armed_venue.cod ≡ some request
unfolding lookup ℕ_discrete
armed_venue-armed = refl

lost_twice-cancels_example :
    ((lost_twice armed_venue 5 400 1).timers
      ≡ check_for 400 1 request ∷ check_for 5 1 request ∷ armed_venue.timers)
    × (all_orders (react (lost_twice armed_venue 5 400 1) (timer_runs 1)).book
        ≡ map cancel_open_day (all_orders armed_venue.book))
lost_twice-cancels_example =
    lost_twice-cancels armed_venue 5 400 1 request (venue-IsWellFormed morning) armed_venue-armed
      (λ e. cc)

-- What happens in the window: a trade, and the session comes back.
abbrev window_events : List Event
window_events = fills_part one (pos 1) (pos 8) ∷ logs_on 1 ∷ []

lost-Checked_example :
    ((react armed_venue (logs_out 5 1)).timers ≡ check_for 5 1 request ∷ armed_venue.timers)
    × Checked
        (run armed_venue (logs_out 5 1 ∷ window_events))
        1
        (is_back 1 false window_events)
        (react (run armed_venue (logs_out 5 1 ∷ window_events)) (timer_runs 1))
lost-Checked_example =
    lost-Checked armed_venue 5 1 request window_events (venue-IsWellFormed morning)
      armed_venue-armed (λ e. cc)
