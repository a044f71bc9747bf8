-- ===== src/Session/Watchdog/Silence.antt =====
-- When the watchdog of internal/session/watchdog.go fires.
use fix_session_lab.Base.{ℕ, ◌+◌, ◌<◌, ◌≤◌, ◌≡◌, refl, ◌⊎◌, inl, inr, true, false, arith}
use fix_session_lab.Base.Lists.{ltb, Bool-cases}
use fix_session_lab.Deps.{Deps}
use fix_session_lab.Session.Client.{InboundClass, admin, app}
use fix_session_lab.Session.Watchdog.{Watched, is_active, call_restart, check, watcher, notify}

module _ ⦃L : Deps⦄ where
  -- What reaches the watchdog, each with its time.
  pub data Signal : Type 0 where
    ticks : ℕ → Signal
    inbound : L.SessionId → InboundClass → ℕ → Signal

module _ ⦃L : Deps⦄ {W : Type 0} where
  unfoldable pub step : Watched W → Signal → Watched W
  unfolding check watcher
  step s (ticks now) = check s now
  step s (inbound id class now) = watcher id class (record s { clock = now })

  -- The specification of one step: heartbeats count for nothing, and a tick fires exactly when the
  -- hour is one to watch and nothing was heard or fired for the whole timeout.
  pub data Watch (s : Watched W) : Signal → Watched W → Type 0 where
    hears :
        (id : L.SessionId) (now : ℕ) {t : Watched W}
        → t.dog ≡ record s.dog { last_app = now }
        → t.world ≡ s.world
        → Watch s (inbound id app now) t
    beats :
        (id : L.SessionId) (now : ℕ) {t : Watched W}
        → t.dog ≡ s.dog
        → t.world ≡ s.world
        → Watch s (inbound id admin now) t
    waits :
        (now : ℕ)
        → (is_active s.dog now ≡ false) ⊎ (now < s.dog.last_app + s.dog.timeout)
        → Watch s (ticks now) s
    fires :
        (now : ℕ) {t : Watched W}
        → is_active s.dog now ≡ true
        → s.dog.last_app + s.dog.timeout ≤ now
        → t.dog ≡ record s.dog { last_app = now; fired = s.dog.fired + 1 }
        → t.world ≡ call_restart s.dog.restart s.world
        → Watch s (ticks now) t

  -- The watchdog does at every signal what its specification says: an application message starts the
  -- silence anew, an admin message leaves the watchdog as it is, and a tick fires exactly when the
  -- hour is one to watch and the last application message or firing is a timeout or more ago, which it
  -- then counts and starts the silence anew.
  pub step-Watch : (s : Watched W) (x : Signal) → Watch s x (step s x)
  unfolding step check watcher notify
  step-Watch s (inbound id app now) = hears id now refl refl
  step-Watch s (inbound id admin now) = beats id now refl refl
  step-Watch s (ticks now) = elim (Bool-cases (is_active s.dog now)) [
    | inr idle ↦ rw (idle, step) (waits now (inl idle))
    | inl on ↦ elim (Bool-cases (ltb now (s.dog.last_app + s.dog.timeout))) [
      | inl soon ↦ rw (on, soon, step) (waits now (inr (ground arith)))
      | inr silent ↦ rw (on, silent, step) (fires now on (ground arith) refl refl)
    ]
  ]
