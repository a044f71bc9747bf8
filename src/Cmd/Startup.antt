-- ===== src/Cmd/Startup.antt =====
-- What the three programs of cmd do from their flags to the wait for a signal, and after it. Opening
-- and parsing a settings file, and making and starting engines, are parameters; so are quickfix's
-- settings. The calls that a program makes of its engine are values, in their order.
pub mod Teardown
pub mod Venue
use fix_session_lab.Base.{ℕ, List, [], ◌∷◌, ◌++◌, map, Option, none, some, Bool, true, false}
use fix_session_lab.Base.Text.{Text, codes}
use fix_session_lab.Book.{new_book}
use fix_session_lab.Client.OrderEntry.{NewOrder}
use fix_session_lab.Cmd.OeClient.{Options}
use fix_session_lab.Deps.{Deps, Result, ok, err, ◌>>=◌, ok?}
use fix_session_lab.Exchange.{App, new_app}
use fix_session_lab.Exchange.Callbacks.{KindError, load_kinds}
use fix_session_lab.Session.Settings.{HostError, override_connect_host, sole_session}
use fix_session_lab.Session.Supervisor.{
  Call, started, failed, stopped, StartError, Supervisor, start, stop,
}

module _ ⦃L : Deps⦄ where
  pub data StartupError : Type 0 where
    bad_number : Text → StartupError
    no_config : Text → StartupError
    bad_settings : Text → StartupError
    bad_host : HostError → StartupError
    bad_sessions : ℕ → StartupError
    bad_kinds : KindError L.SessionId → StartupError
    no_engine : Text → StartupError
    not_started : Text → StartupError
    not_supervised : StartError → StartupError
    bad_shutdown : Text → StartupError

  -- `if err != nil { return err }`, with the place where the error came up.
  unfoldable pub or_fail : {E A : Type 0} → (E → StartupError) → Result E A → Result StartupError A
  or_fail f (ok a) = ok a
  or_fail f (err e) = err (f e)

  unfoldable pub or_host_error : {S : Type 0} → S × Option HostError → Result StartupError S
  or_host_error (s, none) = ok s
  or_host_error (s, some e) = err (bad_host e)

  -- What the order-entry program has before it starts its supervisor.
  pub record Prepared (S : Type 0) : Type 0 where
    pub settings : S
    pub session : L.SessionId
    pub order : NewOrder

  abbrev pub session_kind : Text
  session_kind = codes "SessionKind"

  -- An engine that was made, started if it can be, and stopped when `after` returns.
  unfoldable pub with_engine :
      {I : Type 0}
      → Result Text I
      → Option Text
      → Option StartupError
      → List (Call I) × Option StartupError
  with_engine (err e) start_error after = ([], some (no_engine e))
  with_engine (ok i) (some e) after = (failed i ∷ [], some (not_started e))
  with_engine (ok i) none after = (started i ∷ stopped i ∷ [], after)

  -- A supervisor from its start to its stop, with the restarts that `restarts` makes in between.
  unfoldable pub supervise :
      {I : Type 0}
      → Result Text I
      → Option Text
      → (Supervisor I → Supervisor I × List (Call I))
      → List (Call I) × Option StartupError
  unfolding start stop
  supervise built start_error restarts =
      let (s, calls, e) = start (record { current = none; starts = 0 }) built start_error in
      elim e [
        | some e ↦ (calls, some (not_supervised e))
        | none ↦
            let (s', more) = restarts s in
            let (s'', last) = stop s' in (calls ++ (more ++ last), none)
      ]

  -- The venue's application once its sessions have their roles.
  unfoldable pub load_venue :
      {S : Type 0}
      → (S → List (L.SessionId × (Text → Result Text Text)))
      → (Text → Text)
      → S
      → App × Option (KindError L.SessionId)
  unfolding new_app new_book load_kinds
  load_venue session_settings env s =
      load_kinds env (new_app new_book)
        (map (λ b. (b.0, ok? (b.1 session_kind))) (session_settings s))

  module _ {S : Type 0} (open_config : Text → Result Text Text)
      (parse_settings : Text → Result Text S) (set_global : S → Text → Text → S)
      (session_settings : S → List (L.SessionId × (Text → Result Text Text))) where
    -- The settings with the host of the flag.
    unfoldable pub load_settings : Text → Text → Result StartupError S
    unfolding or_fail or_host_error override_connect_host
    load_settings path host = do
      cfg ← or_fail no_config (open_config path)
      s ← or_fail bad_settings (parse_settings cfg)
      or_host_error (override_connect_host set_global session_settings s host)

    -- The order-entry program up to its supervisor.
    unfoldable pub prepare : Options → Result StartupError (Prepared S)
    unfolding or_fail load_settings sole_session
    prepare o = do
      qty ← or_fail bad_number (L.decimal_of_text o.qty)
      price ← or_fail bad_number (L.decimal_of_text o.price)
      s ← load_settings o.config o.host
      id ← or_fail bad_sessions (sole_session session_settings s)
      ok (record {
        settings = s;
        session = id;
        order = record {
          symbol = o.symbol;
          side = codes "1";
          order_qty = qty;
          price = price;
          account = [];
        };
      })

    -- The drop-copy program: its engine runs before it counts its sessions.
    unfoldable pub run_dc_client :
        {I : Type 0}
        → (S → Result Text I)
        → Option Text
        → Text
        → Text
        → List (Call I) × Option StartupError
    unfolding load_settings with_engine sole_session
    run_dc_client new_initiator start_error path host = elim (load_settings path host) [
      | err e ↦ ([], some e)
      | ok s ↦
          with_engine (new_initiator s) start_error (elim (sole_session session_settings s) [
            | err n ↦ some (bad_sessions n)
            | ok id ↦ none
          ])
    ]

    -- The order-entry program, with the restarts that its watchdog makes.
    unfoldable pub run_oe_client :
        {I : Type 0}
        → (S → Result Text I)
        → Option Text
        → (Supervisor I → Supervisor I × List (Call I))
        → Options
        → List (Call I) × Option StartupError
    unfolding prepare supervise
    run_oe_client new_initiator start_error restarts o = elim (prepare o) [
      | err e ↦ ([], some e)
      | ok ready ↦ supervise (new_initiator ready.settings) start_error restarts
    ]

    -- The venue: `shutdown_error` is that of the admin server's Shutdown.
    unfoldable pub run_venue :
        {I : Type 0}
        → (Text → Text)
        → (S → App → Result Text I)
        → Option Text
        → Option Text
        → Text
        → List (Call I) × Option StartupError
    unfolding or_fail load_venue with_engine
    run_venue env new_acceptor start_error shutdown_error path =
        elim (do
          cfg ← or_fail no_config (open_config path)
          or_fail bad_settings (parse_settings cfg)) [
            | err e ↦ ([], some e)
            | ok s ↦
                let (a, e) = load_venue session_settings env s in
                elim e [
                  | some e ↦ ([], some (bad_kinds e))
                  | none ↦
                      with_engine (new_acceptor s a) start_error
                        (elim shutdown_error [ none ↦ none | some e ↦ some (bad_shutdown e) ])
                ]
          ]
