-- ===== src/Exchange/Callbacks.antt =====
-- The parts of quickfix.Application that authenticate, route and time: LoadKinds, OnLogout,
-- FromAdmin and FromApp of internal/exchange/exchange.go.
use fix_session_lab.Base.{
  ℕ, Bool, true, false, ◌||◌, ◌&&◌, List, [], ◌∷◌, map, Option, none, some, ite,
}
use mathlib.Core.List.{reverse}
use fix_session_lab.Base.Int.{ℤ_discrete}
use fix_session_lab.Base.Lists.{if◌then◌else◌, ◌==◌, leb}
use fix_session_lab.Base.Map.{lookup, insert}
use fix_session_lab.Base.Text.{Text, codes, text_dec}
use fix_session_lab.Deps.{
  Deps, Result, ok, err, Rejection, business_reject, drop_copy_read_only, unsupported_type,
}
use fix_session_lab.Exchange.{
  App, Kind, order_entry, drop_copy, other, kind_dec, kind_of_text, kind_of, register_kind,
  note_received, check_password,
}
use fix_session_lab.Exchange.Reports.{on_new_order_single, on_session_lost}
use fix_session_lab.Session.{
  LogonRequest, parse_logon, reject_logon, password, to_upper, cod_disabled,
}

-- strings.TrimSpace on ASCII text.
is_space : ℕ → Bool
is_space c = c == 32 || (leb 9 c && leb c 13)

skip_spaces : Text → Text
unfolding is_space
skip_spaces [] = []
skip_spaces (c ∷ s) = if is_space c then skip_spaces s else c ∷ s

unfoldable pub trim_space : Text → Text
unfolding skip_spaces
trim_space s = reverse (skip_spaces (reverse (skip_spaces s)))

-- Why LoadKinds fails: a session with no SessionKind, or with one that is no role.
pub data KindError (S : Type 0) : Type 0 where
  kind_required : S → KindError S
  not_a_kind : S → Text → KindError S

module _ ⦃L : Deps⦄ where
  unfoldable pub expect_password : (Text → Text) → App → L.SessionId → App
  unfolding password
  expect_password env a id = elim (password env (L.target_comp_id id)) [
    | err e ↦ a
    | ok pw ↦ record a { expect = insert text_dec (L.target_comp_id id) pw a.expect }
  ]

  abbrev pub is_role : Kind → Bool
  is_role order_entry = true
  is_role drop_copy = true
  is_role (other t) = false

  -- One session of the settings; `raw` is its SessionKind.
  unfoldable pub load_kind :
      (Text → Text) → App → L.SessionId → Option Text → Result (KindError L.SessionId) App
  unfolding trim_space to_upper kind_of_text register_kind expect_password
  load_kind env a id none = err (kind_required id)
  load_kind env a id (some raw) =
      let kind = kind_of_text (map to_upper (trim_space raw)) in
      if is_role kind
      then ok (expect_password env (register_kind a id kind) id)
      else err (not_a_kind id raw)

  -- The sessions in the order of Go's loop over the map. What was registered before an error stays.
  unfoldable pub load_kinds :
      (Text → Text) → App → List (L.SessionId × Option Text) → App × Option (KindError L.SessionId)
  unfolding load_kind
  load_kinds env a [] = (a, none)
  load_kinds env a ((id, raw) ∷ rest) = elim (load_kind env a id raw) [
    | err e ↦ (a, some e)
    | ok a' ↦ load_kinds env a' rest
  ]

  unfoldable pub on_lost : App → ℕ → L.SessionId → Option LogonRequest → App
  unfolding on_session_lost
  on_lost a now id none = a
  on_lost a now id (some req) =
      ite (ℤ_discrete req.cod_type cod_disabled) a (on_session_lost a now id req)

  unfoldable pub on_logout : App → ℕ → L.SessionId → App
  unfolding on_lost
  on_logout a now id =
      on_lost (record a { logged_on = insert L.session_dec id false a.logged_on }) now id
        (lookup L.session_dec id a.cod)

  -- A Logon that the venue's operator does not refuse.
  unfoldable pub on_logon_request : App → L.Message → L.SessionId → App × Option Rejection
  unfolding check_password parse_logon reject_logon
  on_logon_request a m id =
      let req = parse_logon m id in
      if check_password a id req.password
      then (record a { cod = insert L.session_dec id req a.cod }, none)
      else (a, some (reject_logon (codes "invalid credentials")))

  unfoldable pub admit_logon : App → L.Message → L.SessionId → App × Option Rejection
  unfolding on_logon_request reject_logon
  admit_logon a m id =
      ite (text_dec a.reject_logons []) (on_logon_request a m id)
        (a, some (reject_logon a.reject_logons))

  unfoldable pub from_admin : App → L.Message → L.SessionId → App × Option Rejection
  unfolding note_received admit_logon
  from_admin a m id =
      let a' = note_received a m id in
      elim (L.header_string m 35) [
        | err e ↦ (a', some e)
        | ok msg_type ↦ ite (text_dec msg_type (codes "A")) (admit_logon a' m id) (a', none)
      ]

  -- `msg_type` is tag 35 of a message on a session that is no drop copy.
  unfoldable pub from_order_entry : App → L.Message → Text → App × Option Rejection
  unfolding on_new_order_single
  from_order_entry a m msg_type = ite (text_dec msg_type (codes "D")) (on_new_order_single a m) (
      ite (text_dec msg_type (codes "j")) (a, none)
        (ite (text_dec msg_type (codes "3")) (a, none)
          (a, some (business_reject (unsupported_type msg_type) 3))))

  unfoldable pub from_app : App → L.Message → L.SessionId → App × Option Rejection
  unfolding note_received kind_of from_order_entry
  from_app a m id =
      let a' = note_received a m id in
      ite (kind_dec (kind_of a' id) drop_copy) (a', some (business_reject drop_copy_read_only 3))
        (elim (L.header_string m 35) [
          | err e ↦ (a', some e)
          | ok msg_type ↦ from_order_entry a' m msg_type
        ])
