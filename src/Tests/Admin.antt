-- ===== src/Tests/Admin.antt =====
-- Concrete requests to a venue, and its reports on their way to the clients.
use fix_session_lab.Base.{
  ℕ_discrete, ℕ, true, ◌≡◌, refl, sym, append-nil, ◌+◌, ◌-◌, ◌^◌, List, [], ◌∷◌, ◌++◌, Option, none,
  some, arith,
}
use fix_session_lab.Admin.{serve}
use fix_session_lab.Admin.Asked.{param, given, commands, meaning}
use fix_session_lab.Admin.Params.{Request, query_get}
use fix_session_lab.Admin.Served.{Served}
use fix_session_lab.Admin.Serves.{serve_all, serve-Served, serve_all-run, performed_events}
use fix_session_lab.Base.Map.{lookup}
use fix_session_lab.Base.Int.{ℤ, pos, negsuc}
use fix_session_lab.Base.Lists.{length, ltb, if◌then◌else◌}
use fix_session_lab.Base.Text.{Text, codes, text_dec}
use fix_session_lab.Client.DropCopy.{new_drop_copy, reports, duplicates}
use fix_session_lab.Client.OrderEntry.{OrderView, order}
use fix_session_lab.Deps.{Result, ok}
use fix_session_lab.Exchange.{ExecutionReport, order_entry}
use fix_session_lab.Exchange.Commands.{set_silenced, is_silenced}
use fix_session_lab.Exchange.Events.{cancels_one, run}
use fix_session_lab.Exchange.Fanout.{reports_to}
use fix_session_lab.Exchange.Intake.{Taken, on_new_order_single-Taken}
use fix_session_lab.Exchange.Reports.{on_new_order_single}
use fix_session_lab.Exchange.Sessions.{advance_seq_num, sessions, sort_statuses}
use fix_session_lab.Exchange.Standing.Listed.{lines_of, sessions-lines_of}
use fix_session_lab.Exchange.Sessions.Advance.{stored, advance_seq_num-wraps}
use fix_session_lab.Feed.{
  Carries, Carried, nothing, one_more, Resent, at_first, again, newest, Fed, begins, goes_on,
  repeats,
}
use fix_session_lab.Feed.Copies.{Copied, reports-run}
use fix_session_lab.Feed.Views.{order-run}
use fix_session_lab.Order.{status_code, exec_type_code, leaves_qty}
use fix_session_lab.Tests.Clients.{creds, trader, filled}
use fix_session_lab.Tests.Concrete.{plain, text, number, Fields}
use fix_session_lab.Tests.Venue.{
  venue, venue-IsFresh, venue-Roles, venue_loud, order_message, one, morning, morning_speaks,
  live_order, live_order_found, venue-IsWellFormed,
}

-- A store that stands at 7 and takes every number.
abbrev seven : ℕ → Result Text ℤ
seven id = ok (pos 7)

abbrev takes_number : ℕ → ℤ → Option Text
takes_number id n = none

abbrev partial_request : Request
partial_request = record {
  method = codes "POST";
  path = codes "/admin/partial";
  query = (codes "clordid", one) ∷ (codes "qty", codes "6") ∷ (codes "px", codes "8") ∷ [];
}

abbrev cancel_request : Request
cancel_request = record {
  method = codes "POST";
  path = codes "/admin/cancel";
  query = (codes "clordid", one) ∷ [];
}

serve-Served_example :
    Served seven takes_number
      (run venue morning)
      cancel_request
      (serve seven takes_number (run venue morning) cancel_request)
serve-Served_example =
    serve-Served seven takes_number (run venue morning) cancel_request (venue-IsWellFormed morning)

-- What the request asks for.
cancel_asked : meaning cancel_request ≡ some (cancels_one one (codes "cancelled by venue"))
unfolding meaning commands param given query_get lookup text_dec ℕ_discrete
cancel_asked = refl

serve_all-run_example :
    serve_all seven takes_number (run venue morning) (partial_request ∷ cancel_request ∷ [])
    ≡ run
        (run venue morning)
        (performed_events (run venue morning) (partial_request ∷ cancel_request ∷ []))
serve_all-run_example =
    serve_all-run seven takes_number (run venue morning) (partial_request ∷ cancel_request ∷ [])
      (venue-IsWellFormed morning)

advance_seq_num-wraps_example :
    advance_seq_num seven takes_number venue order_entry (pos (2 ^ 63 - 1))
    ≡ stored takes_number 1 (
        if ltb (7 + (2 ^ 63 - 1)) (2 ^ 63)
        then pos (7 + (2 ^ 63 - 1))
        else negsuc (2 ^ 64 - (7 + (2 ^ 63 - 1)) - 1))
advance_seq_num-wraps_example =
    advance_seq_num-wraps seven takes_number venue order_entry 1 7 (2 ^ 63 - 1) venue-Roles.entry
      (λ e. omega (arith, e)) refl (omega arith) (omega arith) (omega arith)

on_new_order_single-Taken_example :
    Taken
      (run venue morning)
      (order_message one)
      (on_new_order_single (run venue morning) (order_message one))
on_new_order_single-Taken_example =
    on_new_order_single-Taken (run venue morning) (order_message one) (venue-IsWellFormed morning)

-- The message of a report, as an engine would write it.
abbrev message_of : ExecutionReport ℤ → Fields
message_of er =
    (35, text (codes "8"))
    ∷ (11, text er.cl_ord_id)
    ∷ (37, text er.order_id)
    ∷ (17, text er.exec_id)
    ∷ (150, text (exec_type_code er.exec_type))
    ∷ (39, text (status_code er.ord_status))
    ∷ (14, number er.cum_qty)
    ∷ (151, number er.leaves_qty)
    ∷ (6, number er.avg_px)
    ∷ []

message_of-Carries : (er : ExecutionReport ℤ) → Carries (message_of er) er
unfolding ℕ_discrete
message_of-Carries er = record {
  msg_type = refl;
  cl_ord_id = refl;
  order_id = refl;
  exec_id = refl;
  exec_type = refl;
  ord_status = refl;
  cum_qty = refl;
  leaves_qty = refl;
  avg_px = refl;
}

-- Reports, the newest first, as messages, the oldest first.
abbrev feed : List (ExecutionReport ℤ) → List Fields
feed [] = []
feed (er ∷ ers) = feed ers ++ message_of er ∷ []

feed-Carried : (ers : List (ExecutionReport ℤ)) → Carried (feed ers) ers
feed-Carried [] = nothing
feed-Carried (er ∷ ers) =
    one_more (feed ers) (feed (er ∷ ers)) (message_of er) er (feed-Carried ers)
      (message_of-Carries er) refl

-- The same, and all of it once more.
abbrev feed_resent : List (ExecutionReport ℤ) → List Fields
feed_resent ers = feed ers ++ feed ers

feed_resent-Resent : (ers : List (ExecutionReport ℤ)) → Resent ers (feed_resent ers)
feed_resent-Resent ers =
    again (feed ers) (feed_resent ers) (feed ers) ers [] (at_first (feed ers) (feed-Carried ers))
      (sym (append-nil ers)) (feed-Carried ers) refl

order-run_example :
    (v : OrderView) × (order
        (fix_session_lab.Feed.Views.deliver trader 5
          (filled ∷ [] ++ feed_resent (reports_to 1 (run venue morning).outbox)))
        one
      ≡ some v)
    × (v.ord_status ≡ status_code live_order.status)
    × (v.cum_qty ≡ live_order.cum_qty)
    × (v.leaves_qty ≡ leaves_qty live_order)
    × (v.avg_px ≡ live_order.avg_px)
order-run_example =
    order-run venue morning 1 2 one live_order trader 5 (filled ∷ [])
      (feed_resent (reports_to 1 (run venue morning).outbox)) venue-IsFresh venue-Roles venue_loud
      morning_speaks live_order_found (feed_resent-Resent (reports_to 1 (run venue morning).outbox))

-- What the functions given to OnInbound act on.
abbrev idle_world : ℕ
idle_world = 0

-- The same, with each message twice.
abbrev feed_twice : List (ExecutionReport ℤ) → List Fields
feed_twice [] = []
feed_twice (er ∷ ers) = (feed_twice ers ++ message_of er ∷ []) ++ message_of er ∷ []

feed_twice-Fed : (ers : List (ExecutionReport ℤ)) → Fed (length ers) (feed_twice ers) ers
feed_twice-Fed [] = begins
feed_twice-Fed (er ∷ ers) =
    let once = feed_twice ers ++ message_of er ∷ [] in
    repeats (length ers) once (feed_twice (er ∷ ers)) (message_of er) er
      (goes_on (length ers) (feed_twice ers) once (message_of er) er (feed_twice-Fed ers)
        (message_of-Carries er) refl)
      (message_of-Carries er) (newest refl) refl

reports-run_example :
    Copied
      (reports (
        fix_session_lab.Feed.Copies.deliver
          (new_drop_copy creds idle_world)
          5
          (feed_twice (reports_to 2 (run venue morning).outbox))))
      (reports_to 1 (run venue morning).outbox)
    × (duplicates (
          fix_session_lab.Feed.Copies.deliver
            (new_drop_copy creds idle_world)
            5
            (feed_twice (reports_to 2 (run venue morning).outbox)))
        ≡ length (reports_to 2 (run venue morning).outbox))
reports-run_example =
    reports-run venue morning 1 2 creds idle_world 5
      (feed_twice (reports_to 2 (run venue morning).outbox))
      (length (reports_to 2 (run venue morning).outbox)) venue-IsFresh venue-Roles
      (feed_twice-Fed (reports_to 2 (run venue morning).outbox))

sessions-lines_of_example :
    sessions (run venue morning) ≡ sort_statuses (lines_of venue morning venue.kinds)
sessions-lines_of_example = sessions-lines_of venue morning

-- An operator silences the venue.
silence_shown : is_silenced (set_silenced venue true) ≡ true
unfolding set_silenced is_silenced
silence_shown = refl
