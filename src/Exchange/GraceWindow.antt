-- ===== src/Exchange/GraceWindow.antt =====
-- A session that is lost, and what happens until its check runs: OnLogout and onSessionLost of
-- internal/exchange.
use fix_session_lab.Base.{
  ℕ, ◌≡◌, ◌≢◌, refl, ap, ◌∙◌, Bool, true, false, List, [], ◌∷◌, some, map, ite, if_pos, arith,
}
use fix_session_lab.Book.{all_orders}
use fix_session_lab.Book.View.{IsWellFormed}
use fix_session_lab.Deps.{Deps}
use fix_session_lab.Exchange.{App, is_logged_on}
use fix_session_lab.Exchange.Events.{
  Event, app_message, admin_message, sends_app, sends_admin, logs_on, logs_out, timer_runs, fills,
  fills_part, cancels_one, rejects_one, cancels_all, refuses_logons, silences, react, run,
  run-Steps,
}
use fix_session_lab.Exchange.LostTwice.{check_for, armed_logout, timer-cancels}
use fix_session_lab.Exchange.MassCancel.{cancel_open_day}
use fix_session_lab.Exchange.Reports.{cod_timer}
use fix_session_lab.Exchange.Standing.{
  Standing, standing_of, follow, follow_all, was_sent, was_received, asks,
}
use fix_session_lab.Exchange.Standing.Follows.{run-follow_all}
use fix_session_lab.Exchange.Steps.{Steps-IsWellFormed}
use fix_session_lab.Base.Map.{lookup}
use fix_session_lab.Session.{LogonRequest, cod_disabled}

module _ ⦃L : Deps⦄ where
  abbrev next_on : L.SessionId → Bool → Event → Bool
  next_on id on (logs_on i) = ite (L.session_dec i id) true on
  next_on id on (logs_out now i) = ite (L.session_dec i id) false on
  next_on id on _ = on

  -- Whether the session is back after these events, on the last word of its logons and losses, with
  -- `on` as the word before them.
  unfoldable pub is_back : L.SessionId → Bool → List Event → Bool
  is_back id on [] = on
  is_back id on (e ∷ es) = is_back id (next_on id on e) es

  was_sent-logged_on : (s : Standing) (m : L.Message) → (was_sent s m).logged_on ≡ s.logged_on
  unfolding was_sent
  was_sent-logged_on s m = ground arith

  was_received-logged_on :
      (s : Standing) (m : L.Message) → (was_received s m).logged_on ≡ s.logged_on
  unfolding was_received
  was_received-logged_on s m = ground arith

  asks-logged_on :
      (id : L.SessionId) (s : Standing) (m : L.Message) → (asks id s m).logged_on ≡ s.logged_on
  unfolding asks
  asks-logged_on id s m = ground arith

  ite-logged_on :
      {P : Type 0} (d : Dec P) (x y : Standing)
      → x.logged_on ≡ y.logged_on
      → (ite d x y).logged_on ≡ y.logged_on
  ite-logged_on (yes p) x y e = e
  ite-logged_on (no p) x y e = refl

  logged_on-ite :
      {P : Type 0} (d : Dec P) (s : Standing) (v : Bool)
      → (ite d (record s { logged_on = v }) s).logged_on ≡ ite d v s.logged_on
  logged_on-ite (yes p) s v = refl
  logged_on-ite (no p) s v = refl

  follow-next_on :
      (id : L.SessionId) (s : Standing) (e : Event)
      → (follow id s e).logged_on ≡ next_on id s.logged_on e
  unfolding follow
  follow-next_on id s (app_message m i) =
      ite-logged_on (L.session_dec i id) _ s (was_received-logged_on s m)
  follow-next_on id s (admin_message m i) =
      ite-logged_on (L.session_dec i id) _ s
        (asks-logged_on id (was_received s m) m ∙ was_received-logged_on s m)
  follow-next_on id s (sends_app m i) =
      ite-logged_on (L.session_dec i id) _ s (was_sent-logged_on s m)
  follow-next_on id s (sends_admin m i) =
      ite-logged_on (L.session_dec i id) _ s (was_sent-logged_on s m)
  follow-next_on id s (logs_on i) = logged_on-ite (L.session_dec i id) s true
  follow-next_on id s (logs_out now i) = logged_on-ite (L.session_dec i id) s false
  follow-next_on id s (timer_runs i) = refl
  follow-next_on id s (fills k px) = refl
  follow-next_on id s (fills_part k qty px) = refl
  follow-next_on id s (cancels_one k reason) = refl
  follow-next_on id s (rejects_one k reason) = refl
  follow-next_on id s (cancels_all reason) = refl
  follow-next_on id s (refuses_logons reason) = refl
  follow-next_on id s (silences v) = refl

  follow_all-is_back :
      (id : L.SessionId) (s : Standing) (es : List Event)
      → (follow_all id s es).logged_on ≡ is_back id s.logged_on es
  unfolding follow_all is_back
  follow_all-is_back id s [] = refl
  follow_all-is_back id s (e ∷ es) =
      follow_all-is_back id (follow id s e) es ∙ ap (λ v. is_back id v es) (follow-next_on id s e)

  lost-is_back :
      (a : App) (now : ℕ) (id : L.SessionId) (es : List Event)
      → is_logged_on (run a (logs_out now id ∷ es)) id ≡ is_back id false es
  lost-is_back a now id es =
      ap (λ (s : Standing). s.logged_on) (run-follow_all a id (logs_out now id ∷ es))
      ∙ follow_all-is_back id (standing_of a id) (logs_out now id ∷ es)
      ∙ unfold is_back in ap (λ v. is_back id v es) (if_pos (L.session_dec id id) refl false _)

  -- What the check of a lost session does, when it runs after more events.
  pub data Checked (a : App) (id : L.SessionId) (back : Bool) : App → Type 0 where
    stands_down : back ≡ true → Checked a id back a
    sweeps :
        (b : App)
        → back ≡ false
        → all_orders b.book ≡ map cancel_open_day (all_orders a.book)
        → Checked a id back b

  timer-Checked :
      (b : App) (id : L.SessionId) (back : Bool)
      → IsWellFormed b.book
      → is_logged_on b id ≡ back
      → Checked b id back (cod_timer b id)
  unfolding cod_timer
  timer-Checked b id true w on = rw (on, cod_timer) (stands_down refl)
  timer-Checked b id false w off = sweeps (cod_timer b id) refl (timer-cancels b id w off)

  -- In a well-formed book, if a session with cancel-on-disconnect armed is lost, a check is set, due a
  -- window after the loss; and if a check of that session runs after any further events, then, exactly
  -- if the session logged on in these events and was not lost again after that, it stands down and
  -- changes nothing, and otherwise each open day order of the book is canceled and no other order is
  -- changed.
  pub lost-Checked :
      (a : App) (now : ℕ) (id : L.SessionId) (req : LogonRequest) (es : List Event)
      → IsWellFormed a.book
      → lookup L.session_dec id a.cod ≡ some req
      → req.cod_type ≢ cod_disabled
      → ((react a (logs_out now id)).timers ≡ check_for now id req ∷ a.timers)
        × Checked
            (run a (logs_out now id ∷ es))
            id
            (is_back id false es)
            (react (run a (logs_out now id ∷ es)) (timer_runs id))
  unfolding react
  lost-Checked a now id req es w armed on =
      let b = run a (logs_out now id ∷ es) in
      (
        ap (λ (x : App). x.timers) (armed_logout a now id req armed on),
        timer-Checked b id (is_back id false es)
            (Steps-IsWellFormed (run-Steps a (logs_out now id ∷ es) w) w)
            (lost-is_back a now id es),
      )
