-- ===== src/Tests/Programs.antt =====
-- Concrete settings, programs and logs.
use fix_session_lab.Base.{
  ℕ, ◌≡◌, refl, ◌↔◌, inl, List, [], ◌∷◌, map, Option, none, some, ite, if_pos, arith,
}
use fix_session_lab.Base.Lists.{All}
use fix_session_lab.Base.Text.{Text, codes, text_dec}
use fix_session_lab.Cmd.Startup.{session_kind, run_oe_client, run_dc_client, run_venue, load_venue}
use fix_session_lab.Cmd.Main.{
  default_options, default_dc_options, default_venue_options, oe_main, dc_main, venue_main,
}
use fix_session_lab.Cmd.Main.Exits.{Exits, mains-Exits}
use fix_session_lab.Cmd.Startup.Venue.{Starts, load_venue-Starts}
use fix_session_lab.Deps.{Result, ok}
use fix_session_lab.Exchange.{App, order_entry, drop_copy}
use fix_session_lab.Fixlog.Logger.{Logger, incoming, event}
use fix_session_lab.Fixlog.{soh}
use fix_session_lab.Fixlog.Fields.{join}
use fix_session_lab.Fixlog.Logger.Secrets.{log_all, done, came_in, noted, log_all-SameButSecrets}
use fix_session_lab.Session.Settings.{connect_host, override_connect_host}
use fix_session_lab.Session.Settings.Overlay.{
  overlaid, Overlays, Allows, Points, override_connect_host-Allows,
}
use fix_session_lab.Session.Supervisor.Turns.{answer_all}
use fix_session_lab.Tests.Clients.{requests}
use fix_session_lab.Tests.Concrete.{plain}
use fix_session_lab.Tests.Feeds.{logons}

-- Settings as global ones and blocks.
record Settings : Type 0 where
  global : Text → Option Text
  blocks : List (ℕ × (Text → Option Text))

abbrev set_setting : Settings → Text → Text → Settings
set_setting s key v = record s { global = λ k. ite (text_dec k key) (some v) (s.global k) }

abbrev copied : Settings → List (ℕ × (Text → Result Text Text))
copied s = map (λ b. (b.0, λ key. overlaid (b.1 key) (s.global key))) s.blocks

settings-Overlays : Overlays set_setting copied
settings-Overlays = record {
  blocks = λ s. s.blocks;
  globals = λ s. s.global;
  copies = λ s. refl;
  same_blocks = λ s key v. refl;
  written = λ s key v. if_pos (text_dec key key) refl _ _;
}

-- A block that says nothing of the host and one that names it.
abbrev venue_block : Text → Option Text
venue_block key = ite (text_dec key session_kind) (some (codes " order_entry")) none

abbrev copy_block : Text → Option Text
copy_block key =
    ite (text_dec key session_kind) (some (codes "DROP_COPY"))
      (ite (text_dec key connect_host) (some (codes "lab")) none)

abbrev settings : Settings
settings = record { global = λ key. none; blocks = (1, venue_block) ∷ (2, copy_block) ∷ [] }

override_connect_host-Allows_example :
    (((override_connect_host set_setting copied settings (codes "lab")).1 ≡ none)
      ↔ All (Allows (codes "lab")) settings.blocks)
    × ((override_connect_host set_setting copied settings (codes "lab")).1 ≡ none
        → All
            (Points (codes "lab"))
            (copied (override_connect_host set_setting copied settings (codes "lab")).0))
unfolding settings-Overlays
override_connect_host-Allows_example =
    override_connect_host-Allows set_setting copied settings-Overlays settings (codes "lab")
      (λ e. cc)

load_venue-Starts_example : Starts 1 2 (load_venue copied (λ var. []) settings)
unfolding text_dec fix_session_lab.Exchange.kind_of_text
    fix_session_lab.Exchange.Callbacks.trim_space fix_session_lab.Session.to_upper
load_venue-Starts_example =
    load_venue-Starts copied (λ var. []) settings 1 2 (λ key. overlaid (venue_block key) none)
      (λ key. overlaid (copy_block key) none) (codes " order_entry") (codes "DROP_COPY") (inl refl)
      (λ e. omega (arith, e)) refl refl refl refl

abbrev log : Logger
log = record { prefix = codes "FIX.4.4:VENUE->CLIENT" }

log_all-SameButSecrets_example :
    log_all [] (
      (log, event (codes "Connected"))
      ∷ (log, incoming (join soh (codes "35=A" ∷ codes "96=abc" ∷ [])))
      ∷ [])
    ≡ log_all [] (
        (log, event (codes "Connected"))
        ∷ (log, incoming (join soh (codes "35=A" ∷ codes "96=hunter2" ∷ [])))
        ∷ [])
log_all-SameButSecrets_example =
    log_all-SameButSecrets [] (noted log (codes "Connected") (came_in log logons refl refl done))

abbrev opens : Text → Result Text Text
opens path = ok []

abbrev parses : Text → Result Text Settings
parses cfg = ok settings

abbrev makes : Settings → Result Text ℕ
makes s = ok 1

abbrev makes_acceptor : Settings → App → Result Text ℕ
makes_acceptor s a = ok 1

-- A command line of which each program takes its defaults.
abbrev no_flags : {O : Type 0} → O → List Text → Result ℕ O
no_flags o args = ok o

mains-Exits_example :
    Exits
      (no_flags default_options [])
      (run_oe_client opens parses set_setting copied makes none (λ s. answer_all s requests))
      (oe_main opens parses set_setting copied none no_flags makes (λ s. answer_all s requests) [])
    × Exits
        (no_flags default_dc_options [])
        (λ o. run_dc_client opens parses set_setting copied makes none o.config o.host)
        (dc_main opens parses set_setting copied none no_flags makes [])
    × Exits
        (no_flags default_venue_options [])
        (λ o.
          run_venue opens parses set_setting copied (λ var. []) makes_acceptor none none o.config)
        (venue_main opens parses set_setting copied none no_flags
          (λ var. [])
          makes_acceptor
          none
          [])
mains-Exits_example =
    mains-Exits opens parses set_setting copied none no_flags no_flags no_flags makes makes_acceptor
      requests (λ var. []) none []
