-- ===== src/Cmd/Main/Exits.antt =====
-- How the processes of cmd end, and what their engines do until then.
use fix_session_lab.Base.{ℕ, ◌≡◌, refl, List, [], Option, none, some, inl, inr}
use fix_session_lab.Base.Lists.{Option-cases}
use fix_session_lab.Base.Text.{Text}
use fix_session_lab.Cmd.Main.{
  DcOptions, VenueOptions, default_options, default_dc_options, default_venue_options, main_of,
  oe_main, dc_main, venue_main,
}
use fix_session_lab.Cmd.OeClient.{Options}
use fix_session_lab.Cmd.Startup.{StartupError, run_oe_client, run_dc_client, run_venue}
use fix_session_lab.Cmd.Startup.Teardown.{run_oe_client-Turns, run_dc_client-Turns, run_venue-Turns}
use fix_session_lab.Deps.{Deps, Result, ok, err}
use fix_session_lab.Exchange.{App}
use fix_session_lab.Session.Supervisor.{Call}
use fix_session_lab.Session.Supervisor.Turns.{Turns, Request, answer_all}

module _ ⦃L : Deps⦄ {I : Type 0} where
  -- A process ends with the status of its flags before any engine is made, or after `run`, with 1 if
  -- that made an error and with 0 if not; then its engines took turns, and none runs.
  pub data Exits {O : Type 0} (parsed : Result ℕ O) (run : O → List (Call I) × Option StartupError)
      (q : List (Call I) × ℕ) : Type 0 where
    refuses : (status : ℕ) → parsed ≡ err status → q ≡ ([], status) → Exits parsed run q
    fails :
        (o : O) (e : StartupError)
        → parsed ≡ ok o
        → (run o).1 ≡ some e
        → q.1 ≡ 1
        → Turns none q.0 none
        → Exits parsed run q
    returns :
        (o : O)
        → parsed ≡ ok o
        → (run o).1 ≡ none
        → q.1 ≡ 0
        → Turns none q.0 none
        → Exits parsed run q

  main_of-Exits :
      {O : Type 0} (parsed : Result ℕ O) (run : O → List (Call I) × Option StartupError)
      → ((o : O) → Turns none (run o).0 none)
      → Exits parsed run (main_of parsed run)
  unfolding main_of
  main_of-Exits (err status) run turns = refuses status refl refl
  main_of-Exits (ok o) run turns = elim (Option-cases (run o).1) [
    | inl e ↦ returns o refl e (rw e refl) (turns o)
    | inr (x, e) ↦ fails o x refl e (rw e refl) (turns o)
  ]

  module _ {S : Type 0} (open_config : Text → Result Text Text)
      (parse_settings : Text → Result Text S) (set_global : S → Text → Text → S)
      (session_settings : S → List (L.SessionId × (Text → Result Text Text)))
      (start_error : Option Text) where
    -- Each of the three programs, with whatever flags, and whatever fails as it starts or shuts down,
    -- and whatever the watchdog asks of the supervisor of the order-entry program: it ends with the
    -- status of its flags and no engine made, or with status 1 if its `run` makes an error and with 0
    -- if not, and then engines were started only when none ran, only the one that ran was stopped, and
    -- none runs in the end.
    pub mains-Exits :
        (oe_flags : Options → List Text → Result ℕ Options)
        (dc_flags : DcOptions → List Text → Result ℕ DcOptions)
        (venue_flags : VenueOptions → List Text → Result ℕ VenueOptions)
        (new_initiator : S → Result Text I) (new_acceptor : S → App → Result Text I)
        (requests : List (Request I)) (env : Text → Text) (shutdown_error : Option Text)
        (args : List Text)
        → Exits
            (oe_flags default_options args)
            (run_oe_client open_config parse_settings set_global session_settings new_initiator
              start_error
              (λ s. answer_all s requests))
            (oe_main open_config parse_settings set_global session_settings start_error oe_flags
              new_initiator
              (λ s. answer_all s requests)
              args)
          × Exits
              (dc_flags default_dc_options args)
              (λ o.
                run_dc_client open_config parse_settings set_global session_settings new_initiator
                  start_error o.config o.host)
              (dc_main open_config parse_settings set_global session_settings start_error dc_flags
                new_initiator args)
          × Exits
              (venue_flags default_venue_options args)
              (λ o.
                run_venue open_config parse_settings set_global session_settings env new_acceptor
                  start_error shutdown_error o.config)
              (venue_main open_config parse_settings set_global session_settings start_error
                venue_flags env new_acceptor shutdown_error args)
    unfolding oe_main dc_main venue_main
    mains-Exits oe_flags dc_flags venue_flags new_initiator new_acceptor requests env shutdown_error
          args =
        (
          main_of-Exits (oe_flags default_options args) _ (
              run_oe_client-Turns open_config parse_settings set_global session_settings
                new_initiator start_error requests),
          main_of-Exits (dc_flags default_dc_options args) _ (λ o.
              run_dc_client-Turns open_config parse_settings set_global session_settings
                new_initiator start_error o.config o.host),
          main_of-Exits (venue_flags default_venue_options args) _ (λ o.
              run_venue-Turns open_config parse_settings set_global session_settings env
                new_acceptor start_error shutdown_error o.config),
        )
