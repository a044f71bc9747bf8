-- ===== src/Admin.antt =====
-- The venue's control plane, internal/admin/admin.go: what each request does to the venue and what it
-- answers. A body is the value that is encoded as JSON. The two functions of the engine that
-- AdvanceSeqNum calls are parameters. Paths are taken as ServeMux takes clean ones.
pub mod Params
pub mod Asked
pub mod Reads
pub mod Handlers
pub mod Served
pub mod Serves
use fix_session_lab.Base.{ℕ, Bool, true, false, not, List, [], ◌∷◌, Option, none, some, ite}
use fix_session_lab.Base.Atoi.{Parsed, number, bad_syntax, out_of_range, atoi}
use fix_session_lab.Base.Int.{ℤ}
use fix_session_lab.Base.Lists.{if◌then◌else◌}
use fix_session_lab.Base.Text.{Text, codes, text_dec}
use fix_session_lab.Admin.Params.{
  Request, query_get, or_default, ParamError, require_str, require_int, require_dec,
}
use fix_session_lab.Book.{Error}
use fix_session_lab.Deps.{Deps, Result, ok, err, ◌>>=◌}
use fix_session_lab.Exchange.{App, Kind, order_entry, kind_of_text}
use fix_session_lab.Exchange.Commands.{
  fill, partial, cancel, reject, set_reject_logons, set_silenced, orders,
}
use fix_session_lab.Exchange.Reports.{cancel_all_open_day}
use fix_session_lab.Exchange.Sessions.{SessionStatus, sessions, advance_seq_num, AdvanceError}
use fix_session_lab.Order.{OrderState}

abbrev pub status_ok : ℕ
status_ok = 200

abbrev pub status_bad_request : ℕ
status_bad_request = 400

abbrev pub status_not_found : ℕ
status_not_found = 404

abbrev pub status_method_not_allowed : ℕ
status_method_not_allowed = 405

abbrev pub status_conflict : ℕ
status_conflict = 409

module _ ⦃L : Deps⦄ where
  pub data Body : Type 0 where
    session_list : List SessionStatus → Body
    order_list : List (OrderState L.Decimal) → Body
    -- an object with one text, flag or number
    text_of : Text → Text → Body
    flag_of : Text → Bool → Body
    number_of : Text → ℕ → Body
    next_seqnum : Kind → ℤ → Body
    param_error : ParamError → Body
    command_error : Error L.Decimal → Body
    advance_error : AdvanceError → Body
    no_body : Body

  pub record Response : Type 0 where
    pub code : ℕ
    pub body : Body

  abbrev pub answer : ℕ → Body → Response
  answer code body = record { code = code; body = body }

  abbrev pub bad_request : ParamError → Response
  bad_request e = answer status_bad_request (param_error e)

  -- What a handler answers when the command has returned.
  unfoldable pub conclude : App × Option (Error L.Decimal) → Body → App × Response
  conclude (a, none) body = (a, answer status_ok body)
  conclude (a, some e) body = (a, answer status_conflict (command_error e))

  unfoldable pub serve_sessions : App → App × Response
  serve_sessions a = (a, answer status_ok (session_list (sessions a)))

  unfoldable pub serve_orders : App → App × Response
  serve_orders a = (a, answer status_ok (order_list (orders a)))

  unfoldable pub fill_params : Request → Result ParamError (Text × L.Decimal)
  unfolding require_str require_dec
  fill_params r = do
    id ← require_str r (codes "clordid")
    px ← require_dec r (codes "px")
    ok (id, px)

  unfoldable pub serve_fill : App → Request → App × Response
  unfolding fill_params conclude
  serve_fill a r = elim (fill_params r) [
    | err e ↦ (a, bad_request e)
    | ok (id, px) ↦ conclude (fill a id px) (text_of (codes "filled") id)
  ]

  unfoldable pub partial_params : Request → Result ParamError (Text × L.Decimal × L.Decimal)
  unfolding require_str require_dec
  partial_params r = do
    id ← require_str r (codes "clordid")
    qty ← require_dec r (codes "qty")
    px ← require_dec r (codes "px")
    ok (id, qty, px)

  unfoldable pub serve_partial : App → Request → App × Response
  unfolding partial_params conclude
  serve_partial a r = elim (partial_params r) [
    | err e ↦ (a, bad_request e)
    | ok (id, qty, px) ↦ conclude (partial a id qty px) (text_of (codes "partial") id)
  ]

  unfoldable pub serve_cancel : App → Request → App × Response
  unfolding require_str conclude query_get or_default
  serve_cancel a r = elim (require_str r (codes "clordid")) [
    | err e ↦ (a, bad_request e)
    | ok id ↦
        let reason = or_default (query_get r.query (codes "reason")) (codes "cancelled by venue") in
        conclude (cancel a id reason) (text_of (codes "cancelled") id)
  ]

  unfoldable pub serve_reject : App → Request → App × Response
  unfolding require_str conclude query_get or_default
  serve_reject a r = elim (require_str r (codes "clordid")) [
    | err e ↦ (a, bad_request e)
    | ok id ↦
        let reason = or_default (query_get r.query (codes "reason")) (codes "rejected by venue") in
        conclude (reject a id reason) (text_of (codes "rejected") id)
  ]

  -- Anything but `false` silences.
  unfoldable pub serve_silence : App → Request → App × Response
  unfolding query_get set_silenced
  serve_silence a r =
      let on = ite (text_dec (query_get r.query (codes "on")) (codes "false")) false true in
      (set_silenced a on, answer status_ok (flag_of (codes "silenced") on))

  unfoldable pub logon_reason : Request → Text
  unfolding query_get or_default
  logon_reason r =
      ite (text_dec (query_get r.query (codes "on")) (codes "false")) []
        (or_default (query_get r.query (codes "reason")) (codes "invalid credentials"))

  unfoldable pub serve_reject_logon : App → Request → App × Response
  unfolding logon_reason set_reject_logons
  serve_reject_logon a r = (
    set_reject_logons a (logon_reason r),
    answer status_ok (text_of (codes "reject_logon_reason") (logon_reason r)),
  )

  unfoldable pub serve_cancel_all : App → Request → App × Response
  unfolding query_get or_default
  serve_cancel_all a r =
      let reason = or_default (query_get r.query (codes "reason")) (codes "mass cancel by venue") in
      let (a', n) = cancel_all_open_day a reason in
      (a', answer status_ok (number_of (codes "cancelled") n))

  -- The kind that a query names; none is the order-entry role.
  unfoldable pub kind_param : Request → Kind
  unfolding query_get
  kind_param r =
      let t = query_get r.query (codes "kind") in ite (text_dec t []) order_entry (kind_of_text t)

  unfoldable pub gap_params : Request → Result ParamError (ℤ × Kind)
  unfolding require_int kind_param
  gap_params r = do n ← require_int r (codes "n"); ok (n, kind_param r)

  -- A path with the handlers of its methods: ServeMux gives HEAD to the one of GET.
  unfoldable pub on_get : Request → App × Response → App → App × Response
  on_get r reply a =
      ite (text_dec r.method (codes "GET")) reply
        (ite (text_dec r.method (codes "HEAD")) reply (a, answer status_method_not_allowed no_body))

  unfoldable pub on_post : Request → App × Response → App → App × Response
  on_post r reply a =
      ite (text_dec r.method (codes "POST")) reply (a, answer status_method_not_allowed no_body)

  module _ (expected_sender_num : L.SessionId → Result Text ℤ)
      (set_next : L.SessionId → ℤ → Option Text) where
    unfoldable pub serve_gap : App → Request → App × Response
    unfolding gap_params
    serve_gap a r = elim (gap_params r) [
      | err e ↦ (a, bad_request e)
      | ok (n, kind) ↦ elim (advance_seq_num expected_sender_num set_next a kind n) [
        | err e ↦ (a, answer status_conflict (advance_error e))
        | ok next ↦ (a, answer status_ok (next_seqnum kind next))
      ]
    ]

    unfoldable pub serve : App → Request → App × Response
    unfolding on_get on_post serve_sessions serve_orders serve_fill serve_partial serve_cancel
        serve_reject serve_silence serve_gap serve_reject_logon serve_cancel_all
    serve a r =
        let at =
          λ (path : Text) (reply other : App × Response). ite (text_dec r.path path) reply other in
        at (codes "/admin/sessions") (on_get r (serve_sessions a) a) (
          at (codes "/admin/orders") (on_get r (serve_orders a) a) (
            at (codes "/admin/fill") (on_post r (serve_fill a r) a) (
              at (codes "/admin/partial") (on_post r (serve_partial a r) a) (
                at (codes "/admin/cancel") (on_post r (serve_cancel a r) a) (
                  at (codes "/admin/reject") (on_post r (serve_reject a r) a) (
                    at (codes "/admin/silence") (on_post r (serve_silence a r) a) (
                      at (codes "/admin/gap") (on_post r (serve_gap a r) a) (
                        at (codes "/admin/reject-logon") (on_post r (serve_reject_logon a r) a) (
                          at (codes "/admin/cancel-all") (on_post r (serve_cancel_all a r) a)
                            (a, answer status_not_found no_body))))))))))
