-- ===== src/Admin/Handlers.antt =====
-- The handlers of POSTs on their own: internal/admin/admin.go over internal/exchange.
use fix_session_lab.Base.{
  ◌≡◌, refl, sym, ap, ◌∙◌, inl, inr, true, false, not, [], Option, none, some, ite,
}
use fix_session_lab.Admin.{
  Response, answer, param_error, command_error, text_of, flag_of, number_of, conclude, fill_params,
  serve_fill, partial_params, serve_partial, serve_cancel, serve_reject, serve_silence,
  serve_reject_logon, logon_reason, serve_cancel_all, status_ok, status_conflict,
  status_bad_request,
}
use fix_session_lab.Admin.Asked.{
  given, is_off, commands, meaning, fault, first_fault-bad, first_fault-good, refusal, said,
  meaning-event, fault-first_fault,
}
use fix_session_lab.Admin.Params.{Request, query_get, or_default, ParamError, required}
use fix_session_lab.Admin.Reads.{str_cases, dec_cases, or_default-given}
use fix_session_lab.Base.Lists.{if◌then◌else◌}
use fix_session_lab.Base.Map.{lookup}
use fix_session_lab.Base.Text.{codes, text_dec}
use fix_session_lab.Book.{Error}
use fix_session_lab.Book.View.{IsWellFormed}
use fix_session_lab.Deps.{Deps}
use fix_session_lab.Exchange.{App}
use fix_session_lab.Exchange.Commands.{set_silenced, set_reject_logons}
use fix_session_lab.Exchange.Reports.{cancel_all_open_day}
use fix_session_lab.Exchange.Events.{
  Event, fills, fills_part, cancels_one, rejects_one, cancels_all, silences, react,
}
use fix_session_lab.Exchange.MassCancel.{cancel_all_open_day-MassCanceled}
use fix_session_lab.Exchange.Updates.{
  Ends, refused, done, partial-Ends, fill-Ends, cancel-Ends, reject-Ends,
}
use fix_session_lab.Order.{ExecType}

module _ ⦃L : Deps⦄ where
  -- How a POST to the path of a command is answered: the event that it is took place, or the venue
  -- refused it, or it is none for a fault in its parameters.
  pub data Answered (a : App) (r : Request) (q : App × Response) : Type 0 where
    does :
        (e : Event)
        → meaning r ≡ some e
        → refusal a e ≡ none
        → q ≡ (react a e, answer status_ok (said a e))
        → Answered a r q
    conflicts :
        (e : Event) (x : Error L.Decimal)
        → meaning r ≡ some e
        → refusal a e ≡ some x
        → q ≡ (a, answer status_conflict (command_error x))
        → Answered a r q
    faulty :
        (x : ParamError)
        → r.method ≡ codes "POST"
        → fault r ≡ some x
        → meaning r ≡ none
        → q ≡ (a, answer status_bad_request (param_error x))
        → Answered a r q

  conclude-Answered :
      (a : App) (r : Request) (x : ExecType) (c : App × Option (Error L.Decimal)) (e : Event)
      → Ends a x c
      → c ≡ (react a e, refusal a e)
      → meaning r ≡ some e
      → Answered a r (conclude c (said a e))
  unfolding conclude
  conclude-Answered a r x c e (refused er p) same means =
      conflicts e er means (ap (λ (d : App × Option (Error L.Decimal)). d.1) (sym same ∙ p))
        (rw p refl)
  conclude-Answered a r x c e (done b o report ch t p) same means =
      does e means (ap (λ (d : App × Option (Error L.Decimal)). d.1) (sym same ∙ p)) (
        rw p (
          ap (λ (b : App). (b, answer status_ok (said a e)))
            (ap (λ (d : App × Option (Error L.Decimal)). d.0) (sym p ∙ same))))

  pub serve_cancel-Answered :
      (a : App) (r : Request)
      → IsWellFormed a.book
      → r.method ≡ codes "POST"
      → r.path ≡ codes "/admin/cancel"
      → Answered a r (serve_cancel a r)
  unfolding serve_cancel react refusal said commands lookup text_dec
  serve_cancel-Answered a r w post at = elim (str_cases r (codes "clordid")) [
    | inl (id, e, e', e'') ↦
        rw (e, or_default-given r (codes "reason") (codes "cancelled by venue"), serve_cancel)
          (conclude-Answered a r ExecType.canceled _
            (cancels_one id (given r (codes "reason") (codes "cancelled by venue")))
            (cancel-Ends a id _ w) refl (meaning-event r _ _ post at refl ∙ rw e' refl))
    | inr (e, e', e'') ↦
        rw (e, serve_cancel)
          (faulty (required (codes "clordid")) post
            (fault-first_fault r _ _ at refl ∙ first_fault-bad r _ _ _ e'')
            (meaning-event r _ _ post at refl ∙ rw e' refl) refl)
  ]

  pub serve_reject-Answered :
      (a : App) (r : Request)
      → IsWellFormed a.book
      → r.method ≡ codes "POST"
      → r.path ≡ codes "/admin/reject"
      → Answered a r (serve_reject a r)
  unfolding serve_reject react refusal said commands lookup text_dec
  serve_reject-Answered a r w post at = elim (str_cases r (codes "clordid")) [
    | inl (id, e, e', e'') ↦
        rw (e, or_default-given r (codes "reason") (codes "rejected by venue"), serve_reject)
          (conclude-Answered a r ExecType.rejected _
            (rejects_one id (given r (codes "reason") (codes "rejected by venue")))
            (reject-Ends a id _ w) refl (meaning-event r _ _ post at refl ∙ rw e' refl))
    | inr (e, e', e'') ↦
        rw (e, serve_reject)
          (faulty (required (codes "clordid")) post
            (fault-first_fault r _ _ at refl ∙ first_fault-bad r _ _ _ e'')
            (meaning-event r _ _ post at refl ∙ rw e' refl) refl)
  ]

  pub serve_fill-Answered :
      (a : App) (r : Request)
      → IsWellFormed a.book
      → r.method ≡ codes "POST"
      → r.path ≡ codes "/admin/fill"
      → Answered a r (serve_fill a r)
  unfolding serve_fill fill_params react refusal said commands lookup text_dec
  serve_fill-Answered a r w post at = elim (str_cases r (codes "clordid")) [
    | inr (e, e', e'') ↦
        rw (e, serve_fill, fill_params)
          (faulty (required (codes "clordid")) post
            (fault-first_fault r _ _ at refl ∙ first_fault-bad r _ _ _ e'')
            (meaning-event r _ _ post at refl ∙ rw e' refl) refl)
    | inl (id, e, e', e'') ↦ elim (dec_cases r (codes "px")) [
      | inr (x, f, f', f'') ↦
          rw (e, f, serve_fill, fill_params)
            (faulty x post
              (fault-first_fault r _ _ at refl
                ∙ first_fault-good r _ _ _ e''
                ∙ first_fault-bad r _ _ _ f'')
              (meaning-event r _ _ post at refl ∙ rw (e', f') refl) refl)
      | inl (px, f, f', f'') ↦
          rw (e, f, serve_fill, fill_params)
            (conclude-Answered a r ExecType.trade _ (fills id px) (fill-Ends a id px w) refl
              (meaning-event r _ _ post at refl ∙ rw (e', f') refl))
    ]
  ]

  pub serve_partial-Answered :
      (a : App) (r : Request)
      → IsWellFormed a.book
      → r.method ≡ codes "POST"
      → r.path ≡ codes "/admin/partial"
      → Answered a r (serve_partial a r)
  unfolding serve_partial partial_params react refusal said commands lookup text_dec
  serve_partial-Answered a r w post at = elim (str_cases r (codes "clordid")) [
    | inr (e, e', e'') ↦
        rw (e, serve_partial, partial_params)
          (faulty (required (codes "clordid")) post
            (fault-first_fault r _ _ at refl ∙ first_fault-bad r _ _ _ e'')
            (meaning-event r _ _ post at refl ∙ rw e' refl) refl)
    | inl (id, e, e', e'') ↦ elim (dec_cases r (codes "qty")) [
      | inr (x, f, f', f'') ↦
          rw (e, f, serve_partial, partial_params)
            (faulty x post
              (fault-first_fault r _ _ at refl
                ∙ first_fault-good r _ _ _ e''
                ∙ first_fault-bad r _ _ _ f'')
              (meaning-event r _ _ post at refl ∙ rw (e', f') refl) refl)
      | inl (qty, f, f', f'') ↦ elim (dec_cases r (codes "px")) [
        | inr (x, g, g', g'') ↦
            rw (e, f, g, serve_partial, partial_params)
              (faulty x post
                (fault-first_fault r _ _ at refl
                  ∙ first_fault-good r _ _ _ e''
                  ∙ first_fault-good r _ _ _ f''
                  ∙ first_fault-bad r _ _ _ g'')
                (meaning-event r _ _ post at refl ∙ rw (e', f', g') refl) refl)
        | inl (px, g, g', g'') ↦
            rw (e, f, g, serve_partial, partial_params)
              (conclude-Answered a r ExecType.trade _ (fills_part id qty px)
                (partial-Ends a id qty px w) refl
                (meaning-event r _ _ post at refl ∙ rw (e', f', g') refl))
      ]
    ]
  ]

  is_off_lem :
      (r : Request)
      → ite (text_dec (query_get r.query (codes "on")) (codes "false")) false true ≡ not (is_off r)
  unfolding is_off
  is_off_lem r =
      elim (text_dec (query_get r.query (codes "on")) (codes "false"))
        as (λ d. ite d false true ≡ not (ite d true false)) [ yes e ↦ refl | no n ↦ refl ]

  pub serve_silence-Answered :
      (a : App) (r : Request)
      → r.method ≡ codes "POST"
      → r.path ≡ codes "/admin/silence"
      → Answered a r (serve_silence a r)
  unfolding serve_silence react refusal said commands lookup text_dec
  serve_silence-Answered a r post at =
      does (silences (not (is_off r))) (meaning-event r _ _ post at refl) refl (
        ap (λ on. (set_silenced a on, answer status_ok (flag_of (codes "silenced") on)))
          (is_off_lem r))

  logon_reason_lem :
      (r : Request)
      → logon_reason r
        ≡ (if is_off r then [] else given r (codes "reason") (codes "invalid credentials"))
  unfolding logon_reason is_off
  logon_reason_lem r =
      rw (sym (or_default-given r (codes "reason") (codes "invalid credentials")))
        (elim (text_dec (query_get r.query (codes "on")) (codes "false"))
          as (λ d.
            ite d [] (or_default (query_get r.query (codes "reason")) (codes "invalid credentials"))
            ≡ (if ite d true false
                then []
                else or_default (query_get r.query (codes "reason"))
                    (codes "invalid credentials"))) [ yes e ↦ refl | no n ↦ refl ])

  pub serve_reject_logon-Answered :
      (a : App) (r : Request)
      → r.method ≡ codes "POST"
      → r.path ≡ codes "/admin/reject-logon"
      → Answered a r (serve_reject_logon a r)
  unfolding serve_reject_logon react refusal said commands lookup text_dec
  serve_reject_logon-Answered a r post at = does _ (meaning-event r _ _ post at refl) refl (
      ap (λ t. (set_reject_logons a t, answer status_ok (text_of (codes "reject_logon_reason") t)))
        (logon_reason_lem r))

  pub serve_cancel_all-Answered :
      (a : App) (r : Request)
      → IsWellFormed a.book
      → r.method ≡ codes "POST"
      → r.path ≡ codes "/admin/cancel-all"
      → Answered a r (serve_cancel_all a r)
  unfolding serve_cancel_all react refusal said commands lookup text_dec
  serve_cancel_all-Answered a r w post at =
      let reason = given r (codes "reason") (codes "mass cancel by venue") in
      does (cancels_all reason) (meaning-event r _ _ post at refl) refl (
        rw (or_default-given r (codes "reason") (codes "mass cancel by venue"), serve_cancel_all)
          (ap
            (λ n. (
              (cancel_all_open_day a reason).0,
              answer status_ok (number_of (codes "cancelled") n),
            ))
            ((cancel_all_open_day-MassCanceled a reason w).counted)))
