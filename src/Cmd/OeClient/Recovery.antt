-- ===== src/Cmd/OeClient/Recovery.antt =====
-- The order-entry program's watchdog, whose Restart is that of its supervisor: cmd/oe-client/main.go
-- over internal/session/watchdog.go and internal/session/supervisor.go.
use fix_session_lab.Base.{
  ℕ, suc, ◌+◌, ◌<◌, ◌≤◌, ◌≡◌, refl, sym, ap, ◌∙◌, subst, inl, inr, true, List, [], ◌∷◌, ◌++◌,
  append_assoc, append-nil, Option, none, some, arith,
}
use mathlib.Core.Option.{some-injective}
use fix_session_lab.Base.Int.{pos, leb_ℤ, pos_part}
use fix_session_lab.Base.Lists.{All, Bool-cases, ltb}
use fix_session_lab.Base.Text.{Text}
use fix_session_lab.Cmd.OeClient.{Options}
use fix_session_lab.Cmd.OeClient.Watching.{Reconnecting, reconnect, watchdog_of, arm}
use fix_session_lab.Deps.{Deps, Result, ok}
use fix_session_lab.Session.Client.{admin, app}
use fix_session_lab.Session.Supervisor.{Call, Supervisor}
use fix_session_lab.Session.Supervisor.Turns.{
  Turns, rest, Turns-append, restarts_it, answer, answer-Led,
}
use fix_session_lab.Session.Watchdog.{
  Watched, start_watch, check, watcher, notify, call_restart, is_active,
}
use fix_session_lab.Session.Watchdog.Fires.{IsSilent, step_all, step_all-fires}
use fix_session_lab.Session.Watchdog.Silence.{Signal, ticks, inbound, step}

module _ {I : Type 0} where
  -- Every call of Restart from the `j`-th on builds and starts an engine.
  abbrev pub StartFrom : ℕ → Reconnecting I → (ℕ → I) → Type 0
  StartFrom j w engine = (n : ℕ) → j ≤ n → w.answers n ≡ (ok (engine n), none)

  -- How the supervisor stands that a watchdog has restarted from `w` on: Restart was called once for
  -- each time that the watchdog fired, the engines took turns, and if the last call was the `j`-th or a
  -- later one, the engine runs that it built.
  pub record Supervised (w : Reconnecting I) (j : ℕ) (engine : ℕ → I) (fired : ℕ)
      (t : Reconnecting I) : Type 0 where
    pub attempts : t.tried ≡ w.tried + fired
    pub made : List (Call I)
    pub called : t.calls ≡ w.calls ++ made
    pub turns : Turns w.supervisor.current made t.supervisor.current
    pub runs :
        (last : ℕ) → j ≤ last → t.tried ≡ suc last → t.supervisor.current ≡ some (engine last)

  restart_runs :
      (s : Supervisor I) (i : I) → (answer s (restarts_it (ok i) none)).0.current ≡ some i
  unfolding answer fix_session_lab.Session.Supervisor.restart
      fix_session_lab.Session.Supervisor.stop_locked fix_session_lab.Session.Supervisor.start_locked
  restart_runs s i = go s.current s.starts
    where
      go :
          (c : Option I) (n : ℕ)
          → (answer (record { current = c; starts = n }) (restarts_it (ok i) none)).0.current
            ≡ some i
      go none n = refl
      go (some j) n = refl

module _ ⦃L : Deps⦄ {I : Type 0} (w : Reconnecting I) (j : ℕ) (engine : ℕ → I) where
  record Since (s : Watched (Reconnecting I)) : Type 0 where
    wired : s.dog.restart ≡ some reconnect
    same : s.world.answers ≡ w.answers
    supervised : Supervised w j engine s.dog.fired s.world

  -- The supervisor's part of a firing.
  reconnect-Supervised :
      (n : ℕ) (v : Reconnecting I)
      → StartFrom j w engine
      → v.answers ≡ w.answers
      → Supervised w j engine n v
      → Supervised w j engine (n + 1) (reconnect v).0
  unfolding reconnect answer
  reconnect-Supervised n v all same h =
      let q = v.answers v.tried in
      let led = answer-Led v.supervisor (restarts_it q.0 q.1) in
      let more = (answer v.supervisor (restarts_it q.0 q.1)).1 in
      record {
        attempts = omega (arith, h.attempts);
        made = h.made ++ more;
        called = ap (λ cs. cs ++ more) h.called ∙ append_assoc w.calls h.made more;
        turns = Turns-append h.turns led.turns;
        runs = λ last late tried.
            let here : v.tried ≡ last = omega (arith, tried) in
            let good : q ≡ (ok (engine last), none) =
              ap (λ (f : ℕ → Result Text I × Option Text). f v.tried) same
              ∙ ap w.answers here
              ∙ all last late in
            ap
              (λ (x : Result Text I × Option Text).
                (answer v.supervisor (restarts_it x.0 x.1)).0.current)
              good
            ∙ restart_runs v.supervisor (engine last);
      }

  fired-Since :
      (now : ℕ) (s : Watched (Reconnecting I))
      → StartFrom j w engine
      → Since s
      → Since (record s {
        dog = record s.dog { last_app = now; fired = s.dog.fired + 1 };
        world = call_restart s.dog.restart s.world;
      })
  unfolding call_restart reconnect
  fired-Since now s all h = rw h.wired (record {
    wired = refl;
    same = h.same;
    supervised = reconnect-Supervised s.dog.fired s.world all h.same h.supervised;
  })

  step-Since :
      (s : Watched (Reconnecting I)) (x : Signal)
      → StartFrom j w engine
      → Since s
      → Since (step s x)
  unfolding step check watcher notify
  step-Since s (inbound id app now) all h = record {
    wired = h.wired;
    same = h.same;
    supervised = h.supervised;
  }
  step-Since s (inbound id admin now) all h = record {
    wired = h.wired;
    same = h.same;
    supervised = h.supervised;
  }
  step-Since s (ticks now) all h = elim (Bool-cases (is_active s.dog now)) [
    | inr idle ↦ rw (idle, step) h
    | inl on ↦ elim (Bool-cases (ltb now (s.dog.last_app + s.dog.timeout))) [
      | inl soon ↦ rw (on, soon, step) h
      | inr late ↦ rw (on, late, step) (fired-Since now s all h)
    ]
  ]

  step_all-Since :
      (s : Watched (Reconnecting I)) (xs : List Signal)
      → StartFrom j w engine
      → Since s
      → Since (step_all s xs)
  unfolding step_all
  step_all-Since s [] all h = h
  step_all-Since s (x ∷ xs) all h = step_all-Since (step s x) xs all (step-Since s x all h)

module _ ⦃L : Deps⦄ {I : Type 0} where
  armed_at : ℕ → ℕ → Reconnecting I → Watched (Reconnecting I)
  unfolding reconnect
  armed_at start timeout w = record {
    clock = start;
    dog = record {
      timeout = timeout;
      interval = 0;
      active = none;
      restart = some reconnect;
      last_app = start;
      fired = 0;
      stopping = true;
    };
    world = w;
  }

  arm-armed_at :
      (o : Options) (start : ℕ) (w : Reconnecting I) {s : Watched (Reconnecting I)}
      → arm o start w ≡ some s
      → s ≡ armed_at start (pos_part o.watchdog) w
  unfolding arm watchdog_of start_watch armed_at
  arm-armed_at o start w armed = elim (Bool-cases (leb_ℤ o.watchdog (pos 0))) [
    | inl off ↦ cc (rw (off, arm, watchdog_of) at armed)
    | inr on ↦ sym (some-injective _ _ (rw (on, arm, watchdog_of) at armed))
  ]

  armed_at-Since :
      (start timeout j : ℕ) (w : Reconnecting I) (engine : ℕ → I)
      → w.tried ≤ j
      → Since w j engine (armed_at start timeout w)
  unfolding armed_at
  armed_at-Since start timeout j w engine to_come = record {
    wired = refl;
    same = refl;
    supervised = record {
      attempts = omega arith;
      made = [];
      called = sym (append-nil w.calls);
      turns = rest;
      runs = λ last late tried. absurd (omega (arith, to_come, late, tried));
    };
  }

  -- If the order-entry program arms a watchdog, every call of Restart from the `j`-th on, which is yet
  -- to come, builds and starts an engine, and a tick comes a timeout or more after the watchdog's
  -- start with no application message before it, then in the end, whatever comes after: the watchdog
  -- has fired; Restart was called once for each time that it fired; engines were started only when
  -- none ran and only the one that ran was stopped, also by calls that failed; and if the last call
  -- was the `j`-th or a later one, the engine that it built runs.
  pub arm-Supervised :
      (o : Options) (start : ℕ) (w : Reconnecting I) (j : ℕ) (engine : ℕ → I)
      (s : Watched (Reconnecting I)) (before : List Signal) (now : ℕ) (after : List Signal)
      → arm o start w ≡ some s
      → w.tried ≤ j
      → StartFrom j w engine
      → All IsSilent before
      → start + pos_part o.watchdog ≤ now
      → Supervised w j engine
          (step_all s (before ++ ticks now ∷ after)).dog.fired
          (step_all s (before ++ ticks now ∷ after)).world
        × (0 < (step_all s (before ++ ticks now ∷ after)).dog.fired)
  unfolding armed_at
  arm-Supervised o start w j engine s before now after armed to_come all silent late =
      let s₀ = armed_at start (pos_part o.watchdog) w in
      let xs = before ++ ticks now ∷ after in
      subst
        (λ v.
          Supervised w j engine (step_all v xs).dog.fired (step_all v xs).world
          × (0 < (step_all v xs).dog.fired))
        (sym (arm-armed_at o start w armed))
        (
          (step_all-Since w j engine s₀ xs all
              (armed_at-Since start (pos_part o.watchdog) j w engine to_come)).supervised,
          step_all-fires s₀ before now after silent refl late,
        )
