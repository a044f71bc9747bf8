-- ===== src/Tests/OeClient.antt =====
-- Concrete runs of the order-entry program.
use fix_session_lab.Base.{
  ℕ_discrete, ℕ, ◌+◌, ◌^◌, ◌≢◌, ◌≡◌, refl, ◌↔◌, ◌<◌, ◌++◌, ◌⊎◌, inl, inr, Bool, true, false, List,
  [], ◌∷◌, map, Option, none, some, ite, if_pos, arith, zero, suc,
}
use fix_session_lab.Base.Int.{pos}
use fix_session_lab.Base.Text.{Text, codes}
use fix_session_lab.Client.OrderEntry.{cl_ord_id_of}
use fix_session_lab.Cmd.OeClient.{
  prefix_at, Options, Sender, checking, waiting, sending, Process, Act, signal, run_receives,
  sender_checks, sender_receives, sender_wakes, sender_sends, rebuilds, act, acts,
}
use fix_session_lab.Cmd.OeClient.Runs.{runs-Distinct}
use fix_session_lab.Cmd.OeClient.Ends.{Ends, receipts, acts-Ends}
use fix_session_lab.Cmd.OeClient.Watching.{Reconnecting, reconnect, watchdog_of, arm}
use fix_session_lab.Cmd.OeClient.Recovery.{Supervised, StartFrom, arm-Supervised}
use fix_session_lab.Session.Watchdog.{Watched, start_watch}
use fix_session_lab.Cmd.OeClient.Rebuild.{nth_send, rebuilds-repeats}
use fix_session_lab.Cmd.OeClient.Shutdown.{sender_receives-swallows}
use fix_session_lab.Deps.{Result, ok}
use fix_session_lab.Session.Client.{admin}
use fix_session_lab.Session.Watchdog.Fires.{step_all}
use fix_session_lab.Session.Watchdog.Silence.{Signal, ticks, inbound}
use fix_session_lab.Tests.Clients.{watched, new_order, takes_all}
use fix_session_lab.Tests.Concrete.{plain}

runs-Distinct_example :
    cl_ord_id_of (prefix_at (2 ^ 60)) 1 ≢ cl_ord_id_of (prefix_at (2 ^ 60 + 1)) 1
runs-Distinct_example =
    runs-Distinct (2 ^ 60) (2 ^ 60 + 1) 1 1 (λ e. omega (arith, e)) (omega arith) (omega arith)
      (omega arith) (omega arith)

abbrev once : Options
once = record {
  config = codes "oe.cfg";
  host = [];
  symbol = codes "VALE3";
  qty = codes "10";
  price = codes "7";
  every = pos 0;
  cod_type = pos 3;
  cod_window = pos 1000;
  watchdog = pos 0;
}

abbrev guarded : Options
guarded = record once { watchdog = pos 50 }

abbrev first_fails : ℕ → Result Text ℕ × Option Text
first_fails zero = (ok 0, some (codes "port in use"))
first_fails (suc n) = (ok (suc n), none)

-- An engine runs, and the calls of Restart build and start others, but for the first, whose engine does
-- not start.
abbrev running : Reconnecting ℕ
running = record {
  supervisor = record { current = some 100; starts = 1 };
  answers = first_fails;
  tried = 0;
  calls = [];
}

abbrev guarded_state : Watched (Reconnecting ℕ)
guarded_state = record {
  clock = 40;
  dog = record {
    timeout = 50;
    interval = 0;
    active = none;
    restart = some reconnect;
    last_app = 40;
    fired = 0;
    stopping = true;
  };
  world = running;
}

abbrev numbers : ℕ → ℕ
numbers n = n

abbrev signals : List Signal
signals = inbound 1 admin 60 ∷ ticks 70 ∷ [] ++ ticks 100 ∷ ticks 160 ∷ []

later_StartFrom : StartFrom 1 running numbers
later_StartFrom zero h = absurd (omega (arith, h))
later_StartFrom (suc n) h = refl

arm-Supervised_example :
    Supervised running 1 numbers
      (step_all guarded_state signals).dog.fired
      (step_all guarded_state signals).world
    × (0 < (step_all guarded_state signals).dog.fired)
unfolding arm watchdog_of start_watch reconnect
arm-Supervised_example =
    arm-Supervised guarded 40 running 1 numbers guarded_state (inbound 1 admin 60 ∷ ticks 70 ∷ [])
      100 (ticks 160 ∷ []) refl (omega arith) later_StartFrom (tt, (tt, tt)) (omega arith)

abbrev often : Options
often = record once { every = pos 1000 }

abbrev start : Process ℕ
start = record { current = none; signaled = false; finished = false; sender = checking; sends = [] }

abbrev or_start : Option (Process ℕ) → Process ℕ
or_start none = start
or_start (some p) = p

abbrev after : Options → Process ℕ → List Act → Process ℕ
after o p xs = or_start (acts o (codes "z") 1 new_order takes_all watched p xs)

-- A signal has come while the sender waits for its client to log on.
abbrev signaled : Process ℕ
signaled = record start { signaled = true; sender = waiting }

sender_receives-swallows_example :
    (act once (codes "z") 1 new_order takes_all watched signaled sender_receives
      ≡ some (record start { signaled = false; sender = Sender.returned }))
    × ((after once signaled (sender_receives ∷ rebuilds ∷ [])).finished ≡ false)
    × (act once
          (codes "z")
          1
          new_order
          takes_all
          watched
          (after once signaled (sender_receives ∷ rebuilds ∷ []))
          run_receives
        ≡ none)
unfolding acts
sender_receives-swallows_example =
    sender_receives-swallows once (codes "z") 1 new_order takes_all watched signaled (rebuilds ∷ [])
      (after once signaled (sender_receives ∷ rebuilds ∷ [])) (inl refl) refl refl (tt, tt) refl

-- A signal that the sender takes as it waits.
abbrev taken : List Act
taken = rebuilds ∷ sender_checks ∷ signal ∷ sender_receives ∷ []

acts-Ends_example :
    Ends once (codes "z") 1 new_order takes_all watched (receipts taken) (after once start taken)
unfolding acts fix_session_lab.Base.Map.lookup ℕ_discrete
acts-Ends_example = acts-Ends once (codes "z") 1 new_order takes_all watched start taken refl

abbrev about_to_send : Process ℕ
about_to_send = record start { sender = sending }

rebuilds-repeats_example :
    (q : Process ℕ) × (q' : Process ℕ) × (acts often
        (codes "z")
        1
        new_order
        takes_all
        watched
        about_to_send
        (rebuilds ∷ sender_sends ∷ [])
      ≡ some q)
    × (acts often
          (codes "z")
          1
          new_order
          takes_all
          watched
          q
          (sender_wakes ∷ rebuilds ∷ sender_sends ∷ [])
        ≡ some q')
    × (q'.sends
        ≡ nth_send 1 new_order takes_all (codes "z") 1
          ∷ nth_send 1 new_order takes_all (codes "z") 1
          ∷ [])
rebuilds-repeats_example =
    rebuilds-repeats often (codes "z") 1 new_order takes_all watched about_to_send refl refl refl
