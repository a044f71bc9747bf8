-- ===== src/Session/Watchdog.antt =====
-- The watchdog for a session that is up but says nothing, internal/session/watchdog.go. Times are
-- nanoseconds since the epoch; a timeout and an interval are not negative. What the select of the goroutine receives is
-- a list; the clock that Notify reads is a field that stands for the time of the call.
pub mod Silence
pub mod Fires
pub mod Alarms
use fix_session_lab.Base.{
  ℕ, ◌+◌, ◌/◌, List, [], ◌∷◌, Bool, true, false, not, ◌&&◌, Option, none, some, ite,
}
use fix_session_lab.Base.Lists.{if◌then◌else◌, ltb}
use fix_session_lab.Base.Text.{Text}
use fix_session_lab.Deps.{Deps}
use fix_session_lab.Session.Client.{InboundClass, admin, app, Client, subscribe}

-- What Restart acts on is `W`.
pub record Watchdog (W : Type 0) : Type 0 where
  pub timeout : ℕ
  pub interval : ℕ
  -- nil means always
  pub active : Option (ℕ → Bool)
  pub restart : Option (W → W × Option Text)
  pub last_app : ℕ
  pub fired : ℕ
  -- whether there is a channel to stop the goroutine by
  pub stopping : Bool

-- The watchdog, the clock and what it restarts.
pub record Watched (W : Type 0) : Type 0 where
  pub clock : ℕ
  pub dog : Watchdog W
  pub world : W

module _ {W : Type 0} where
  unfoldable pub notify : ℕ → Watchdog W → Watchdog W
  notify now w = record w { last_app = now }

  abbrev pub is_active : Watchdog W → ℕ → Bool
  is_active w now = elim (w.active) [ none ↦ true | some f ↦ f now ]

  -- An error of Restart is only logged.
  unfoldable pub call_restart : Option (W → W × Option Text) → W → W
  call_restart none x = x
  call_restart (some f) x = (f x).0

  -- `now.Sub(w.lastApp) < w.Timeout`, with the subtraction brought to the other side.
  unfoldable pub check : Watched W → ℕ → Watched W
  unfolding call_restart
  check s now =
      if not (is_active s.dog now)
      then s
      else (if ltb now (s.dog.last_app + s.dog.timeout) then s else record s {
        dog = record s.dog { last_app = now; fired = s.dog.fired + 1 };
        world = call_restart s.dog.restart s.world;
      })

module _ {W : Type 0} where
  unfoldable pub fired : Watchdog W → ℕ
  fired w = w.fired

-- What the goroutine's select receives.
pub data Wake : Type 0 where
  stop_closed : Wake
  tick : ℕ → Wake

module _ {W : Type 0} where
  -- The interval of the ticker, in nanoseconds.
  unfoldable pub ticker_interval : Watchdog W → ℕ
  ticker_interval w =
      let quarter = w.timeout / 4 in
      if ltb 0 w.interval then w.interval else (if ltb 0 quarter then quarter else 1000000000)

  -- Start, at a time; the goroutine that it starts is `watch`.
  unfoldable pub start_watch : ℕ → Watchdog W → Watchdog W
  start_watch now w = record w { last_app = now; stopping = true }

  unfoldable pub watch : Watched W → List Wake → Watched W
  unfolding check
  watch s [] = s
  watch s (stop_closed ∷ ws) = s
  watch s (tick now ∷ ws) = watch (check s now) ws

  -- Stop, and whether it closed the channel and waited.
  unfoldable pub stop_watch : Watchdog W → Watchdog W × Bool
  stop_watch w = (record w { stopping = false }, w.stopping)

module _ ⦃L : Deps⦄ {W : Type 0} where
  -- The function that WatchClient gives to OnInbound.
  unfoldable pub watcher : L.SessionId → InboundClass → Watched W → Watched W
  unfolding notify
  watcher id app s = record s { dog = notify s.clock s.dog }
  watcher id admin s = s

  unfoldable pub watch_client : Client (Watched W) → Client (Watched W)
  unfolding subscribe watcher
  watch_client c = subscribe c watcher
