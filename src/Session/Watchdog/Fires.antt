-- ===== src/Session/Watchdog/Fires.antt =====
-- The watchdog of internal/session/watchdog.go on a silent session.
use fix_session_lab.Base.{
  ℕ, ◌+◌, ◌<◌, ◌≤◌, ◌≡◌, refl, sym, ap, ◌∙◌, subst, ◌⊎◌, inl, inr, true, List, [], ◌∷◌, ◌++◌, arith,
}
use fix_session_lab.Base.Lists.{All}
use fix_session_lab.Deps.{Deps}
use fix_session_lab.Session.Client.{admin, app}
use fix_session_lab.Session.Watchdog.{Watchdog, Watched, is_active}
use fix_session_lab.Session.Watchdog.Silence.{
  Signal, ticks, inbound, step, Watch, hears, beats, waits, fires, step-Watch,
}

module _ ⦃L : Deps⦄ where
  -- Anything but a message of the application.
  abbrev pub IsSilent : Signal → Type 0
  IsSilent (inbound id app now) = ⊥
  IsSilent (inbound id admin now) = Unit {0}
  IsSilent (ticks now) = Unit {0}

module _ ⦃L : Deps⦄ {W : Type 0} where
  unfoldable pub step_all : Watched W → List Signal → Watched W
  step_all s [] = s
  step_all s (x ∷ xs) = step_all (step s x) xs

  fired_by : (s : Watched W) (x : Signal) {t : Watched W} → Watch s x t → s.dog.fired ≤ t.dog.fired
  fired_by s x (hears id now e same) = omega (arith, ap (λ (w : Watchdog W). w.fired) e)
  fired_by s x (beats id now e same) = omega (arith, ap (λ (w : Watchdog W). w.fired) e)
  fired_by s x (waits now e) = omega arith
  fired_by s x (fires now on late e called) = omega (arith, ap (λ (w : Watchdog W). w.fired) e)

  fired-step_all : (s : Watched W) (xs : List Signal) → s.dog.fired ≤ (step_all s xs).dog.fired
  unfolding step_all
  fired-step_all s [] = omega arith
  fired-step_all s (x ∷ xs) =
      omega (arith, fired_by s x (step-Watch s x), fired-step_all (step s x) xs)

  -- At a silent signal the watchdog fires or stays as it is.
  silent_step :
      (s : Watched W) (x : Signal) {t : Watched W}
      → IsSilent x
      → Watch s x t
      → (s.dog.fired < t.dog.fired) ⊎ (t.dog ≡ s.dog)
  silent_step s x h (hears id now e same) = absurd h
  silent_step s x h (beats id now e same) = inr e
  silent_step s x h (waits now e) = inr refl
  silent_step s x h (fires now on late e called) =
      inl (omega (arith, ap (λ (w : Watchdog W). w.fired) e))

  -- A tick that is late enough fires.
  late_tick :
      (s : Watched W) (now : ℕ) {t : Watched W}
      → is_active s.dog now ≡ true
      → s.dog.last_app + s.dog.timeout ≤ now
      → Watch s (ticks now) t
      → s.dog.fired < t.dog.fired
  late_tick s now on late (waits _ (inl off)) = cc
  late_tick s now on late (waits _ (inr soon)) = omega arith
  late_tick s now on late (fires _ _ _ e _) = omega (arith, ap (λ (w : Watchdog W). w.fired) e)

  -- If a tick comes a timeout or more after the last application message or firing, at an hour that is
  -- one to watch, and no application message comes before it, then the watchdog has fired once more at
  -- least in the end, whatever admin messages and ticks came before and whatever comes after.
  pub step_all-fires :
      (s : Watched W) (before : List Signal) (now : ℕ) (after : List Signal)
      → All IsSilent before
      → is_active s.dog now ≡ true
      → s.dog.last_app + s.dog.timeout ≤ now
      → s.dog.fired < (step_all s (before ++ ticks now ∷ after)).dog.fired
  unfolding step_all
  step_all-fires s [] now after h on late = omega (
    arith,
    late_tick s now on late (step-Watch s (ticks now)),
    fired-step_all (step s (ticks now)) after,
  )
  step_all-fires s (x ∷ before) now after (hx, h) on late =
      elim (silent_step s x hx (step-Watch s x)) [
        | inl up ↦ omega (arith, up, fired-step_all (step s x) (before ++ ticks now ∷ after))
        | inr same ↦
            subst (λ n. n < (step_all (step s x) (before ++ ticks now ∷ after)).dog.fired)
              (ap (λ (w : Watchdog W). w.fired) same)
              (step_all-fires (step s x) before now after h
                (ap (λ (w : Watchdog W). is_active w now) same ∙ on)
                (subst (λ (w : Watchdog W). w.last_app + w.timeout ≤ now) (sym same) late))
      ]
