-- ===== src/Exchange/LostTwice.antt =====
-- A session that is lost, comes back and is lost again: OnLogout, OnLogon and onSessionLost of
-- internal/exchange.
use fix_session_lab.Base.{
  ℕ, ◌+◌, ◌≡◌, ◌≢◌, refl, sym, ap, ◌∙◌, subst, true, false, [], ◌∷◌, some, none, Option, Bool, map,
  if_neg,
}
use fix_session_lab.Base.Int.{ℤ_discrete}
use fix_session_lab.Base.Map.{lookup, insert, lookup-insert_self}
use fix_session_lab.Book.{all_orders}
use fix_session_lab.Book.View.{IsWellFormed}
use fix_session_lab.Deps.{Deps}
use fix_session_lab.Exchange.{App, Timer, on_logon, is_logged_on}
use fix_session_lab.Exchange.Callbacks.{on_logout, on_lost}
use fix_session_lab.Exchange.Events.{react, run, logs_on, logs_out, timer_runs}
use fix_session_lab.Exchange.MassCancel.{cancel_open_day, cancel_all_open_day-MassCanceled}
use fix_session_lab.Exchange.Reports.{on_session_lost, window_nanoseconds, cod_timer, cod_reason}
use fix_session_lab.Session.{LogonRequest, cod_disabled}

module _ ⦃L : Deps⦄ where
  -- The check that a session lost at a time starts.
  abbrev pub check_for : ℕ → L.SessionId → LogonRequest → Timer
  check_for now id req = record {
    session = id;
    due = now + window_nanoseconds req.cod_timeout_window;
  }

  pub armed_logout :
      (a : App) (now : ℕ) (id : L.SessionId) (req : LogonRequest)
      → lookup L.session_dec id a.cod ≡ some req
      → req.cod_type ≢ cod_disabled
      → on_logout a now id ≡ record a {
        logged_on = insert L.session_dec id false a.logged_on;
        timers = check_for now id req ∷ a.timers;
      }
  unfolding on_logout on_lost on_session_lost
  armed_logout a now id req armed on =
      rw (armed, if_neg (ℤ_discrete req.cod_type cod_disabled) on) refl

  -- What is left of the venue when the session has been lost twice.
  abbrev pub lost_twice : App → ℕ → ℕ → L.SessionId → App
  lost_twice a t₁ t₂ id = run a (logs_out t₁ id ∷ logs_on id ∷ logs_out t₂ id ∷ [])

  lost_twice_lem :
      (a : App) (t₁ t₂ : ℕ) (id : L.SessionId) (req : LogonRequest)
      → lookup L.session_dec id a.cod ≡ some req
      → req.cod_type ≢ cod_disabled
      → lost_twice a t₁ t₂ id ≡ record a {
        logged_on =
            insert L.session_dec id false
              (insert L.session_dec id true (insert L.session_dec id false a.logged_on));
        timers = check_for t₂ id req ∷ check_for t₁ id req ∷ a.timers;
      }
  unfolding run react on_logon
  lost_twice_lem a t₁ t₂ id req armed on =
      ap (λ (b : App). on_logout (on_logon b id) t₂ id) (armed_logout a t₁ id req armed on)
      ∙ armed_logout _ t₂ id req armed on

  -- The check cancels where the session is off.
  pub timer-cancels :
      (b : App) (id : L.SessionId)
      → IsWellFormed b.book
      → is_logged_on b id ≡ false
      → all_orders (cod_timer b id).book ≡ map cancel_open_day (all_orders b.book)
  unfolding cod_timer
  timer-cancels b id w off =
      rw (off, cod_timer) (cancel_all_open_day-MassCanceled b (cod_reason id) w).orders

  -- If a session with cancel-on-disconnect armed is lost at one time, comes back, and is lost at
  -- another, in a well-formed book, then both checks are pending, each due a window after its loss,
  -- and a check that runs now, the first as well as the second, cancels each open day order of the
  -- book and changes no other.
  pub lost_twice-cancels :
      (a : App) (t₁ t₂ : ℕ) (id : L.SessionId) (req : LogonRequest)
      → IsWellFormed a.book
      → lookup L.session_dec id a.cod ≡ some req
      → req.cod_type ≢ cod_disabled
      → ((lost_twice a t₁ t₂ id).timers ≡ check_for t₂ id req ∷ check_for t₁ id req ∷ a.timers)
        × (all_orders (react (lost_twice a t₁ t₂ id) (timer_runs id)).book
            ≡ map cancel_open_day (all_orders a.book))
  unfolding react
  lost_twice-cancels a t₁ t₂ id req w armed on =
      subst
        (λ (b : App).
          (b.timers ≡ check_for t₂ id req ∷ check_for t₁ id req ∷ a.timers)
          × (all_orders (cod_timer b id).book ≡ map cancel_open_day (all_orders a.book)))
        (sym (lost_twice_lem a t₁ t₂ id req armed on))
        (
          refl,
          timer-cancels
              (record a {
                logged_on =
                    insert L.session_dec id false
                      (insert L.session_dec id true (insert L.session_dec id false a.logged_on));
                timers = check_for t₂ id req ∷ check_for t₁ id req ∷ a.timers;
              })
              id w
              (ap (λ (o : Option Bool). elim o [ none ↦ false | some v ↦ v ])
                (lookup-insert_self L.session_dec id false _)),
        )
