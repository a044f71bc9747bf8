-- ===== src/Session/Watchdog/Alarms.antt =====
-- How often and how far apart the watchdog of internal/session/watchdog.go fires, and what it has
-- restarted by then.
use fix_session_lab.Base.{
  ℕ, ◌+◌, ◌≤◌, ◌≡◌, refl, ◌&&◌, List, [], ◌∷◌, arith, inl, inr, Bool, true, false,
}
use fix_session_lab.Base.Lists.{length, Bool-cases, leb, if◌then◌else◌}
use fix_session_lab.Deps.{Deps}
use fix_session_lab.Session.Client.{admin, app}
use fix_session_lab.Session.Watchdog.{Watched, is_active, call_restart, check, watcher, notify}
use fix_session_lab.Session.Watchdog.Fires.{step_all}
use native.Mathlib.Numerals.{unary_clauses}
use fix_session_lab.Session.Watchdog.Silence.{Signal, ticks, inbound, step}

module _ ⦃L : Deps⦄ where
  abbrev pub time_of : Signal → ℕ
  time_of (ticks now) = now
  time_of (inbound id class now) = now

  -- The clock does not run backwards.
  abbrev pub InOrder : ℕ → List Signal → Type 0
  InOrder since [] = Unit {0}
  InOrder since (x ∷ xs) = (since ≤ time_of x) × InOrder (time_of x) xs

  -- The ticks at which there is an alarm, when `since` is the time of the last sign of life: those at
  -- an hour to watch with no sign of life for a timeout. A message of the application is a sign of
  -- life, and an alarm counts for one.
  unfoldable pub alarms : ℕ → (ℕ → Bool) → ℕ → List Signal → List ℕ
  alarms timeout watched since [] = []
  alarms timeout watched since (inbound id app now ∷ xs) = alarms timeout watched now xs
  alarms timeout watched since (inbound id admin now ∷ xs) = alarms timeout watched since xs
  alarms timeout watched since (ticks now ∷ xs) =
      let alarm = now ∷ alarms timeout watched now xs in
      let quiet = alarms timeout watched since xs in
      if watched now && leb (since + timeout) now then alarm else quiet

-- Each time is a timeout or more after the one before it, the first after `since`.
abbrev pub Spaced : ℕ → ℕ → List ℕ → Type 0
Spaced timeout since [] = Unit {0}
Spaced timeout since (n ∷ ns) = (since + timeout ≤ n) × Spaced timeout n ns

Spaced-since :
    (timeout since last : ℕ) (ns : List ℕ)
    → since ≤ last
    → Spaced timeout last ns
    → Spaced timeout since ns
Spaced-since timeout since last [] le h = tt
Spaced-since timeout since last (n ∷ ns) le (late, h) = (omega arith, h)

-- A function called once at each of the times.
unfoldable pub call_at : {A : Type 0} → List ℕ → (A → A) → A → A
call_at [] f x = x
call_at (n ∷ ns) f x = call_at ns f (f x)

module _ ⦃L : Deps⦄ where
  InOrder-since :
      (since last : ℕ) (xs : List Signal) → since ≤ last → InOrder last xs → InOrder since xs
  InOrder-since since last [] le h = tt
  InOrder-since since last (x ∷ xs) le (later, h) = (omega arith, h)

module _ ⦃L : Deps⦄ {W : Type 0} where
  abbrev pub alarms_of : Watched W → List Signal → List ℕ
  alarms_of s = alarms s.dog.timeout (is_active s.dog) s.dog.last_app

  -- What has become of the watchdog and of what it restarts when it has fired at these times.
  pub record Alarmed (s : Watched W) (ns : List ℕ) (t : Watched W) : Type 0 where
    pub counted : t.dog.fired ≡ s.dog.fired + length ns
    pub restarted : t.world ≡ call_at ns (call_restart s.dog.restart) s.world
    pub spaced : Spaced s.dog.timeout s.dog.last_app ns

  alarm_at : Watched W → ℕ → Watched W
  alarm_at s now = record s {
    dog = record s.dog { last_app = now; fired = s.dog.fired + 1 };
    world = call_restart s.dog.restart s.world;
  }

  no_alarm :
      (s : Watched W) (now : ℕ) (xs : List Signal)
      → is_active s.dog now && leb (s.dog.last_app + s.dog.timeout) now ≡ false
      → (check s now ≡ s) × (alarms_of s (ticks now ∷ xs) ≡ alarms_of s xs)
  unfolding check alarms
  no_alarm s now xs e = (ground arith, rw (e, alarms) refl)

  one_alarm :
      (s : Watched W) (now : ℕ) (xs : List Signal)
      → is_active s.dog now && leb (s.dog.last_app + s.dog.timeout) now ≡ true
      → (check s now ≡ alarm_at s now)
        × (alarms_of s (ticks now ∷ xs) ≡ now ∷ alarms_of (alarm_at s now) xs)
        × (s.dog.last_app + s.dog.timeout ≤ now)
  unfolding check alarms alarm_at
  one_alarm s now xs e = (ground arith, rw (e, alarms) refl, ground arith)

  first_alarm :
      (s : Watched W) (now : ℕ) (ns : List ℕ) (t : Watched W)
      → s.dog.last_app + s.dog.timeout ≤ now
      → Alarmed (alarm_at s now) ns t
      → Alarmed s (now ∷ ns) t
  unfolding alarm_at call_at
  first_alarm s now ns t late h = record {
    counted = simp unary_clauses (omega (arith, h.counted));
    restarted = h.restarted;
    spaced = (late, h.spaced);
  }

  -- If the clock does not run backwards, then after any ticks and inbound messages the watchdog has
  -- fired once at each tick at an hour to watch that came a timeout or more after the last message of
  -- the application or the last such tick, has called Restart once for each of these and has done
  -- nothing else to what Restart acts on, and each of these came a timeout or more after the one
  -- before it and the first a timeout or more after the start of the silence.
  pub step_all-Alarmed :
      (s : Watched W) (xs : List Signal)
      → InOrder s.dog.last_app xs
      → Alarmed s (alarms_of s xs) (step_all s xs)
  unfolding step_all step watcher notify alarms call_at alarm_at
  step_all-Alarmed s [] h = record { counted = omega arith; restarted = refl; spaced = tt }
  step_all-Alarmed s (inbound id app now ∷ xs) (le, h) =
      let rest = step_all-Alarmed (step s (inbound id app now)) xs h in
      record {
        counted = rest.counted;
        restarted = rest.restarted;
        spaced = Spaced-since s.dog.timeout s.dog.last_app now _ le rest.spaced;
      }
  step_all-Alarmed s (inbound id admin now ∷ xs) (le, h) =
      let rest =
        step_all-Alarmed (step s (inbound id admin now)) xs
          (InOrder-since s.dog.last_app now xs le h) in
      record { counted = rest.counted; restarted = rest.restarted; spaced = rest.spaced }
  step_all-Alarmed s (ticks now ∷ xs) (le, h) =
      elim (Bool-cases (is_active s.dog now && leb (s.dog.last_app + s.dog.timeout) now)) [
        | inr quiet ↦
            let (same, none_new) = no_alarm s now xs quiet in
            rw (none_new, same) (step_all-Alarmed s xs (InOrder-since s.dog.last_app now xs le h))
        | inl loud ↦
            let (fired, one_new, late) = one_alarm s now xs loud in
            rw (one_new, fired)
              (first_alarm s now _ _ late (step_all-Alarmed (alarm_at s now) xs h))
      ]
