-- ===== src/Tests/Races.antt =====
-- Concrete calls that overlap.
use fix_session_lab.Base.{
  map, ℕ_discrete, ℕ, ◌+◌, ◌≤◌, ◌≡◌, refl, ◌∙◌, Bool, true, false, List, [], ◌∷◌, ◌++◌, none, some,
  arith,
}
use fix_session_lab.Base.Int.{ℤ, pos}
use fix_session_lab.Exchange.Commands.{traded}
use fix_session_lab.Exchange.Events.{run, run-Steps, run-Steps_loud}
use fix_session_lab.Exchange.Fanout.{Roles, Steps-Roles}
use fix_session_lab.Exchange.Guarantees.{IsFresh-IsWellFormed}
use fix_session_lab.Exchange.Races.{
  Call, begin_report, begin_accept, move_at, advance, reread, race_step, RaceAct, accepts, trades,
  cancels, sweeps, moves, race,
}
use fix_session_lab.Exchange.Races.Balance.{Test, sent, due_entry, due_copy, total}
use fix_session_lab.Exchange.Races.Numbering.{has_id}
use fix_session_lab.Exchange.Races.Once.{quiet, race-sent}
use fix_session_lab.Exchange.Races.Overtaken.{CanTrade, Stale, runs_head, race-Stale}
use fix_session_lab.Base.Text.{codes}
use fix_session_lab.Book.{all_orders}
use fix_session_lab.Book.Spec.{find_order}
use fix_session_lab.Book.View.{IsWellFormed}
use fix_session_lab.Exchange.Races.Replay.{ledger_of, replay, race-replay}
use fix_session_lab.Exchange.Races.Swept.{race-swept}
use fix_session_lab.Exchange.Steps.{Steps-silenced}
use fix_session_lab.Order.{OrderState, Status, leaves_qty, is_open}
use fix_session_lab.Tests.Concrete.{plain}
use fix_session_lab.Tests.Venue.{
  venue, venue-IsFresh, venue-Roles, one, venue_loud, morning, morning_speaks, live_order,
  live_order_found, venue-IsWellFormed,
}

-- An order comes, and is traded twice before the first report has gone out.
abbrev overlapping : List RaceAct
overlapping =
    accepts live_order
    ∷ moves 0
    ∷ moves 0
    ∷ trades one (pos 1) (pos 7)
    ∷ trades one (pos 1) (pos 7)
    ∷ moves 1
    ∷ moves 2
    ∷ moves 0
    ∷ moves 2
    ∷ moves 1
    ∷ moves 2
    ∷ []

abbrev any_report : Test
any_report er = true

race-sent_example :
    (sent any_report 1 (race (quiet venue) overlapping).app
        + total (due_entry any_report) (race (quiet venue) overlapping).calls
      ≡ sent any_report 2 (race (quiet venue) overlapping).app
        + total (due_copy any_report) (race (quiet venue) overlapping).calls)
    × (sent (has_id 1) 1 (race (quiet venue) overlapping).app ≤ 1)
    × (sent (has_id 1) 2 (race (quiet venue) overlapping).app ≤ 1)
race-sent_example = race-sent venue overlapping 1 2 any_report 1 venue-IsFresh venue-Roles

morning-Roles : Roles (run venue morning) 1 2
morning-Roles =
    Steps-Roles (run-Steps venue morning (IsFresh-IsWellFormed venue venue-IsFresh)) venue-Roles

morning_loud : (run venue morning).silenced ≡ false
morning_loud =
    Steps-silenced
      (run-Steps_loud venue morning (IsFresh-IsWellFormed venue venue-IsFresh) morning_speaks)
    ∙ venue_loud

live_order-CanTrade : CanTrade (pos 1) live_order
unfolding leaves_qty fix_session_lab.Order.status_is_open fix_session_lab.Base.Int.◌-ℤ◌
live_order-CanTrade = record { live = refl; positive = refl; fits = refl }

traded-CanTrade : CanTrade (pos 2) (traded (pos 1) (pos 8) live_order)
unfolding traded leaves_qty fix_session_lab.Order.status_is_open fix_session_lab.Base.Int.◌-ℤ◌
    fix_session_lab.Base.Int.◌+ℤ◌ fix_session_lab.Base.Int.◌*ℤ◌ fix_session_lab.Base.Int.ℤ_discrete
traded-CanTrade = record { live = refl; positive = refl; fits = refl }

race-Stale_example :
    Stale 1 one
      (traded (pos 1) (pos 8) live_order)
      (traded (pos 2) (pos 9) (traded (pos 1) (pos 8) live_order))
      (race
        (quiet (run venue morning))
        (trades one (pos 1) (pos 8) ∷ trades one (pos 2) (pos 9) ∷ runs_head ++ runs_head))
race-Stale_example =
    race-Stale (run venue morning) one (pos 1) (pos 8) (pos 2) (pos 9) live_order 1 2
      (venue-IsWellFormed morning) morning-Roles morning_loud live_order_found live_order-CanTrade
      traded-CanTrade

-- An order comes beside one that trades and is canceled by another call.
abbrev crossed : List RaceAct
crossed =
    trades one (pos 1) (pos 8)
    ∷ cancels one (codes "late")
    ∷ moves 1
    ∷ accepts live_order
    ∷ moves 0
    ∷ []

race-replay_example :
    (ledger_of (race (quiet (run venue morning)) crossed).app.book
      ≡ replay (ledger_of (run venue morning).book) crossed)
    × IsWellFormed (race (quiet (run venue morning)) crossed).app.book
race-replay_example = race-replay (run venue morning) crossed (venue-IsWellFormed morning)

race-swept_example :
    find_order one (
      all_orders
        (race
          (quiet (run venue morning))
          (trades one (pos 1) (pos 8) ∷ sweeps one (codes "halt") ∷ [])).app.book)
    ≡ some (record (traded (pos 1) (pos 8) live_order) { status = Status.canceled })
race-swept_example =
    race-swept (run venue morning) one (codes "halt") (pos 1) (pos 8) live_order
      (venue-IsWellFormed morning) live_order_found live_order-CanTrade

-- A trade that comes before the order is read for its acknowledgement shows in it.
abbrev late_read : List RaceAct
late_read = accepts live_order ∷ trades one (pos 1) (pos 7) ∷ moves 1 ∷ []

late_read_shows :
    map (λ (c : Call). c.report.order.cum_qty) (race (quiet venue) late_read).calls
    ≡ pos 5 ∷ pos 5 ∷ []
unfolding race race_step begin_report begin_accept move_at advance reread
    fix_session_lab.Base.Map.lookup fix_session_lab.Exchange.register_kind
    fix_session_lab.Exchange.new_app fix_session_lab.Book.new_book fix_session_lab.Base.Map.insert
    fix_session_lab.Base.Text.text_dec fix_session_lab.Order.status_is_open leaves_qty
    fix_session_lab.Base.Int.◌-ℤ◌ fix_session_lab.Base.Int.◌+ℤ◌
late_read_shows = refl
