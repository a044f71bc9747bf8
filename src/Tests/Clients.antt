-- ===== src/Tests/Clients.antt =====
-- Concrete clients: a Logon, a watched session and an order-entry session.
use fix_session_lab.Base.{
  arith, ◌+◌, true, ℕ, ◌≡◌, refl, List, [], ◌∷◌, Option, none, some, ite, ℕ_discrete,
}
use fix_session_lab.Base.Int.{pos, ℤ_discrete}
use fix_session_lab.Base.Lists.{length}
use fix_session_lab.Base.Text.{Text, codes}
use fix_session_lab.Client.OrderEntry.{
  OrderEntry, new_order_entry, order, replay_count, NewOrder, NewOrderSingle,
}
use fix_session_lab.Client.OrderEntry.Views.{
  newest, told, hear, order-newest, handed_ids, Distinct, handed_ids-Distinct,
}
use fix_session_lab.Session.{LogonCredentials, inject_logon, parse_logon, cod_disabled}
use fix_session_lab.Session.Client.{admin, app}
use fix_session_lab.Session.RoundTrip.{IsBare, password_or_empty, parse_logon-inject_logon}
use fix_session_lab.Deps.{ok}
use fix_session_lab.Session.Supervisor.{
  Supervisor, starts, start, stop, restart, start_locked, stop_locked,
}
use fix_session_lab.Session.Supervisor.Turns.{
  Request, starts_it, stops_it, restarts_it, answer, answer_all,
}
use fix_session_lab.Session.Watchdog.{Watched, check, fired}
use fix_session_lab.Session.Watchdog.Alarms.{InOrder, Alarmed, alarms_of, step_all-Alarmed}
use fix_session_lab.Session.Watchdog.Fires.{step_all}
use fix_session_lab.Session.Watchdog.Silence.{Signal, ticks, inbound, step}
use fix_session_lab.Tests.Concrete.{plain, plain-MessageLaws, Fields, text, number}

abbrev pub creds : LogonCredentials
creds = record { app_id = codes "lab"; cod_type = pos 3; cod_timeout_window = pos 1000 }

abbrev pub env : Text → Text
env var = codes "secret"

abbrev pub logon : Fields
logon = (35, text (codes "A")) ∷ []

pub logon-IsBare : IsBare logon
unfolding ℕ_discrete
logon-IsBare = record { no_password = refl; no_cod_type = refl; no_cod_window = refl }

parse_logon-inject_logon_example : parse_logon (inject_logon env logon 5 creds).0 1 ≡ record {
  session_id = 1;
  password = password_or_empty env (codes "CLIENT");
  app_id = codes "lab";
  cod_type = pos 3;
  cod_timeout_window = ite (ℤ_discrete (pos 3) cod_disabled) (pos 0) (pos 1000);
}
parse_logon-inject_logon_example =
    parse_logon-inject_logon env logon 5 1 creds plain-MessageLaws logon-IsBare

-- Nothing was heard for 60 of the 50 units that are allowed.
abbrev pub watched : Watched ℕ
watched = record {
  clock = 40;
  dog = record {
    timeout = 50;
    interval = 0;
    active = none;
    restart = none;
    last_app = 40;
    fired = 0;
    stopping = true;
  };
  world = 0;
}

-- The silence has been long enough.
silence_fires : fired (step watched (ticks 100)).dog ≡ 1
unfolding fired step check
silence_fires = refl

-- A watched session with a Restart that counts, and a day of it.
abbrev counting : Watched ℕ
counting = record watched { dog = record watched.dog { restart = some (λ n. (n + 1, none)) } }

abbrev day : List Signal
day = ticks 80 ∷ inbound 1 app 95 ∷ ticks 120 ∷ inbound 1 admin 130 ∷ ticks 150 ∷ ticks 210 ∷ []

day_restarts : (step_all counting day).world ≡ 2
unfolding step_all step check
day_restarts = refl

day-InOrder : InOrder 40 day
day-InOrder =
    (omega arith, (omega arith, (omega arith, (omega arith, (omega arith, (omega arith, tt))))))

step_all-Alarmed_example : Alarmed counting (alarms_of counting day) (step_all counting day)
step_all-Alarmed_example = step_all-Alarmed counting day day-InOrder

abbrev pub trader : OrderEntry ℕ
trader = new_order_entry creds 0

abbrev pub filled : Fields
filled =
    (35, text (codes "8"))
    ∷ (11, text (codes "CL000001"))
    ∷ (150, text (codes "F"))
    ∷ (39, text (codes "2"))
    ∷ (14, number (pos 10))
    ∷ (151, number (pos 0))
    ∷ (6, number (pos 7))
    ∷ (17, text (codes "EXE000002"))
    ∷ []

order-newest_example :
    order (hear trader (filled ∷ filled ∷ [])) (codes "CL000001")
    ≡ told (newest (codes "CL000001") (filled ∷ filled ∷ [])) (order trader (codes "CL000001"))
order-newest_example = order-newest trader (filled ∷ filled ∷ []) (codes "CL000001")

abbrev pub new_order : NewOrder
new_order = record {
  symbol = codes "VALE3";
  side = codes "1";
  order_qty = pos 10;
  price = pos 7;
  account = [];
}

-- An engine that takes every message.
abbrev pub takes_all : NewOrderSingle → ℕ → Option Text
takes_all o id = none

-- An engine that refuses every message.
abbrev takes_none : NewOrderSingle → ℕ → Option Text
takes_none o id = some (codes "no session")

handed_ids-Distinct_example :
    Distinct (handed_ids takes_none trader ((1, new_order) ∷ (1, new_order) ∷ []))
    × (length (handed_ids takes_none trader ((1, new_order) ∷ (1, new_order) ∷ [])) ≡ 2)
handed_ids-Distinct_example =
    handed_ids-Distinct takes_none trader ((1, new_order) ∷ (1, new_order) ∷ [])

abbrev pub requests : List (Request ℕ)
requests =
    starts_it (ok 1) none
    ∷ restarts_it (ok 2) (some (codes "port in use"))
    ∷ restarts_it (ok 3) none
    ∷ stops_it
    ∷ []

abbrev idle : Supervisor ℕ
idle = record { current = none; starts = 0 }

-- Three initiators were built, and two of them started.
requests_starts : starts (answer_all idle requests).0 ≡ 2
unfolding starts answer_all answer start stop restart start_locked stop_locked
requests_starts = refl

-- A report that is marked as a replay and one that is not.
replay_counted : replay_count (hear trader (filled ∷ ((43, text (codes "Y")) ∷ filled) ∷ [])) ≡ 1
unfolding replay_count hear fix_session_lab.Client.OrderEntry.on_execution_report ℕ_discrete
    fix_session_lab.Base.Text.text_dec new_order_entry
replay_counted = refl
