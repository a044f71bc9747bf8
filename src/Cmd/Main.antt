-- ===== src/Cmd/Main.antt =====
-- The main functions of cmd/oe-client/main.go, cmd/dc-client/main.go and cmd/exchange/main.go. The
-- package flag is a parameter: from the defaults and the command line it makes the options, or it ends
-- the process with a status.
pub mod Exits
use fix_session_lab.Base.{ℕ, List, [], Option, none, some}
use fix_session_lab.Base.Int.{pos}
use fix_session_lab.Base.Text.{Text, codes}
use fix_session_lab.Cmd.OeClient.{Options}
use fix_session_lab.Cmd.Startup.{StartupError, run_oe_client, run_dc_client, run_venue}
use fix_session_lab.Deps.{Deps, Result, ok, err}
use fix_session_lab.Exchange.{App}
use fix_session_lab.Session.Supervisor.{Call, Supervisor}

abbrev pub default_options : Options
default_options = record {
  config = codes "config/oe-client.cfg";
  host = [];
  symbol = codes "PETR4";
  qty = codes "100";
  price = codes "25.50";
  every = pos 0;
  cod_type = pos 0;
  cod_window = pos 30000;
  watchdog = pos 0;
}

pub record DcOptions : Type 0 where
  pub config : Text
  pub host : Text

abbrev pub default_dc_options : DcOptions
default_dc_options = record { config = codes "config/dc-client.cfg"; host = [] }

pub record VenueOptions : Type 0 where
  pub config : Text
  pub admin : Text

abbrev pub default_venue_options : VenueOptions
default_venue_options = record { config = codes "config/exchange.cfg"; admin = codes ":8081" }

-- Fatalf ends a process with status 1; a main that returns ends it with 0.
abbrev pub exit_status : {E : Type 0} → Option E → ℕ
exit_status none = 0
exit_status (some e) = 1

module _ ⦃L : Deps⦄ {I : Type 0} where
  -- What a program does after its flags, and the status with which it ends.
  unfoldable pub main_of :
      {O : Type 0} → Result ℕ O → (O → List (Call I) × Option StartupError) → List (Call I) × ℕ
  main_of (err status) run = ([], status)
  main_of (ok o) run = let (calls, e) = run o in (calls, exit_status e)

  module _ {S : Type 0} (open_config : Text → Result Text Text)
      (parse_settings : Text → Result Text S) (set_global : S → Text → Text → S)
      (session_settings : S → List (L.SessionId × (Text → Result Text Text)))
      (start_error : Option Text) where
    unfoldable pub oe_main :
        (Options → List Text → Result ℕ Options)
        → (S → Result Text I)
        → (Supervisor I → Supervisor I × List (Call I))
        → List Text
        → List (Call I) × ℕ
    unfolding main_of run_oe_client
    oe_main parse_flags new_initiator restarts args = main_of (parse_flags default_options args) (
        run_oe_client open_config parse_settings set_global session_settings new_initiator
          start_error restarts)

    unfoldable pub dc_main :
        (DcOptions → List Text → Result ℕ DcOptions)
        → (S → Result Text I)
        → List Text
        → List (Call I) × ℕ
    unfolding main_of run_dc_client
    dc_main parse_flags new_initiator args = main_of (parse_flags default_dc_options args) (λ o.
        run_dc_client open_config parse_settings set_global session_settings new_initiator
          start_error o.config o.host)

    unfoldable pub venue_main :
        (VenueOptions → List Text → Result ℕ VenueOptions)
        → (Text → Text)
        → (S → App → Result Text I)
        → Option Text
        → List Text
        → List (Call I) × ℕ
    unfolding main_of run_venue
    venue_main parse_flags env new_acceptor shutdown_error args =
        main_of (parse_flags default_venue_options args) (λ o.
          run_venue open_config parse_settings set_global session_settings env new_acceptor
            start_error shutdown_error o.config)
