-- ===== src/Cmd/Startup/Teardown.antt =====
-- The engines of the programs of cmd/oe-client and cmd/dc-client, from their start to their stop.
use fix_session_lab.Base.{ℕ, List, inl, inr, Option, none, some}
use fix_session_lab.Base.Text.{Text}
use fix_session_lab.Cmd.OeClient.{Options}
use fix_session_lab.Cmd.Startup.{
  StartupError, load_settings, prepare, with_engine, supervise, run_dc_client, run_oe_client,
  run_venue, load_venue, or_fail,
}
use fix_session_lab.Deps.{Deps, Result, ok, err, Result-cases}
use fix_session_lab.Base.Lists.{Option-cases}
use fix_session_lab.Exchange.{App}
use fix_session_lab.Session.Supervisor.{Supervisor, start, stop, start_locked, stop_locked}
use fix_session_lab.Session.Supervisor.Turns.{
  Turns, rest, starting, failing, stopping, Turns-append, Request, answer_all, answer_all-Led,
}

module _ ⦃L : Deps⦄ {I : Type 0} where
  with_engine-Turns :
      (i : Result Text I) (start_error : Option Text) (after : Option StartupError)
      → Turns none (with_engine i start_error after).0 none
  unfolding with_engine
  with_engine-Turns (err e) start_error after = rest
  with_engine-Turns (ok i) (some e) after = failing i rest
  with_engine-Turns (ok i) none after = starting i (stopping i rest)

  stop-Turns : (s : Supervisor I) → Turns s.current (stop s).1 none
  unfolding stop stop_locked
  stop-Turns s = go s.current s.starts
    where
      go : (c : Option I) (n : ℕ) → Turns c (stop (record { current = c; starts = n })).1 none
      go none n = rest
      go (some i) n = stopping i rest

  supervise-Turns :
      (built : Result Text I) (start_error : Option Text) (requests : List (Request I))
      → Turns none (supervise built start_error (λ s. answer_all s requests)).0 none
  unfolding supervise start start_locked
  supervise-Turns (err e) start_error requests = rest
  supervise-Turns (ok i) (some e) requests = failing i rest
  supervise-Turns (ok i) none requests =
      let s : Supervisor I = record { current = some i; starts = 1 } in
      starting i
        (Turns-append (answer_all-Led s requests).turns (stop-Turns (answer_all s requests).0))

  module _ {S : Type 0} (open_config : Text → Result Text Text)
      (parse_settings : Text → Result Text S) (set_global : S → Text → Text → S)
      (session_settings : S → List (L.SessionId × (Text → Result Text Text))) where
    -- Whatever fails as the order-entry program starts, and whatever its watchdog asks of the
    -- supervisor, engines are started only when none runs, only the one that runs is stopped, and none
    -- runs when the program returns.
    pub run_oe_client-Turns :
        (new_initiator : S → Result Text I) (start_error : Option Text)
        (requests : List (Request I)) (o : Options)
        → Turns none
            (run_oe_client open_config parse_settings set_global session_settings new_initiator
              start_error
              (λ s. answer_all s requests)
              o).0
            none
    unfolding run_oe_client
    run_oe_client-Turns new_initiator start_error requests o =
        elim (Result-cases (prepare open_config parse_settings set_global session_settings o)) [
          | inr (e, bad) ↦ rw (bad, run_oe_client) rest
          | inl (ready, good) ↦
              rw (good, run_oe_client)
                (supervise-Turns (new_initiator ready.settings) start_error requests)
        ]

    -- Whatever fails in the drop-copy program, also after its engine has started, no engine runs when
    -- the program returns.
    pub run_dc_client-Turns :
        (new_initiator : S → Result Text I) (start_error : Option Text) (path host : Text)
        → Turns none
            (run_dc_client open_config parse_settings set_global session_settings new_initiator
              start_error path host).0
            none
    unfolding run_dc_client
    run_dc_client-Turns new_initiator start_error path host =
        elim (Result-cases
          (load_settings open_config parse_settings set_global session_settings path host)) [
            | inr (e, bad) ↦ rw (bad, run_dc_client) rest
            | inl (s, good) ↦
                rw (good, run_dc_client) (with_engine-Turns (new_initiator s) start_error _)
          ]

    -- Whatever fails at the venue, also its control plane's shutdown, no engine runs when the program
    -- returns.
    pub run_venue-Turns :
        (env : Text → Text) (new_acceptor : S → App → Result Text I)
        (start_error shutdown_error : Option Text) (path : Text)
        → Turns none
            (run_venue open_config parse_settings set_global session_settings env new_acceptor
              start_error shutdown_error path).0
            none
    unfolding run_venue or_fail
    run_venue-Turns env new_acceptor start_error shutdown_error path =
        elim (Result-cases (open_config path)) [
          | inr (e, bad) ↦ rw (bad, run_venue) rest
          | inl (cfg, good) ↦ elim (Result-cases (parse_settings cfg)) [
            | inr (e, bad) ↦ rw (good, bad, run_venue) rest
            | inl (s, parsed) ↦ elim (Option-cases (load_venue session_settings env s).1) [
              | inr (e, bad) ↦ rw (good, parsed, bad, run_venue) rest
              | inl loaded ↦
                  rw (good, parsed, loaded, run_venue) (with_engine-Turns _ start_error _)
            ]
          ]
        ]
