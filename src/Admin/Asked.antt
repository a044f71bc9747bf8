-- ===== src/Admin/Asked.antt =====
-- What a request asks of the venue, told from tables of the control plane's commands apart from the
-- handlers of internal/admin/admin.go.
use fix_session_lab.Base.{
  ◌≡◌, ◌≢◌, refl, ap, ◌∙◌, if_neg, Bool, true, false, not, List, [], ◌∷◌, Option, none, some, ite,
}
use fix_session_lab.Admin.{Body, text_of, flag_of, number_of, no_body}
use fix_session_lab.Admin.Params.{
  Request, query_get, ParamError, required, not_an_integer, not_a_number,
}
use fix_session_lab.Base.Atoi.{Parsed, number, bad_syntax, out_of_range, atoi}
use fix_session_lab.Base.Int.{ℤ}
use fix_session_lab.Base.Lists.{length, keep, if◌then◌else◌}
use fix_session_lab.Base.Map.{lookup}
use fix_session_lab.Base.Text.{Text, codes, text_dec}
use fix_session_lab.Book.{Error, all_orders, is_open_day}
use fix_session_lab.Deps.{Deps, Result, ok, err}
use fix_session_lab.Exchange.{App, Kind, order_entry, kind_of_text}
use fix_session_lab.Exchange.Commands.{fill, partial, cancel, reject}
use fix_session_lab.Exchange.Events.{
  Event, fills, fills_part, cancels_one, rejects_one, cancels_all, refuses_logons, silences,
}

infixl 5 ◌>>=◌
abbrev ◌>>=◌ : {A B : Type 0} → Option A → (A → Option B) → Option B
none >>= f = none
some x >>= f = f x

-- A parameter that is given; an empty one is not.
unfoldable pub param : Request → Text → Option Text
unfolding query_get
param r key = let v = query_get r.query key in ite (text_dec v []) none (some v)

unfoldable pub given : Request → Text → Text → Text
unfolding param
given r key default = elim (param r key) [ none ↦ default | some v ↦ v ]

-- Whether a parameter is there and is the text `false`.
unfoldable pub is_off : Request → Bool
unfolding query_get
is_off r = ite (text_dec (query_get r.query (codes "on")) (codes "false")) true false

unfoldable pub kind_asked : Request → Kind
unfolding param
kind_asked r = elim (param r (codes "kind")) [ none ↦ order_entry | some t ↦ kind_of_text t ]

-- How a parameter that a command needs is read.
pub data Need : Type 0 where
  some_text an_integer a_decimal : Need

unfoldable integer_fault : Text → Parsed ℤ → Option ParamError
integer_fault key (number n) = none
integer_fault key bad_syntax = some (not_an_integer key bad_syntax)
integer_fault key out_of_range = some (not_an_integer key out_of_range)

module _ ⦃L : Deps⦄ where
  unfoldable decimal_fault : Text → Result Text L.Decimal → Option ParamError
  decimal_fault key (ok d) = none
  decimal_fault key (err e) = some (not_a_number key e)

  -- What is wrong with a parameter that is there.
  unfoldable misread : Text → Need → Text → Option ParamError
  unfolding integer_fault decimal_fault
  misread key some_text t = none
  misread key an_integer t = integer_fault key (atoi t)
  misread key a_decimal t = decimal_fault key (L.decimal_of_text t)

  unfoldable pub fault_at : Text → Need → Option Text → Option ParamError
  unfolding misread
  fault_at key need none = some (required key)
  fault_at key need (some t) = misread key need t

  -- What is wrong with the first parameter with which something is.
  unfoldable pub first_fault : Request → List (Text × Need) → Option ParamError
  unfolding fault_at param
  first_fault r [] = none
  first_fault r ((key, need) ∷ needs) =
      let rest = first_fault r needs in
      elim (fault_at key need (param r key)) [ some x ↦ some x | none ↦ rest ]

  unfoldable decimal_read : Result Text L.Decimal → Option L.Decimal
  decimal_read (ok d) = some d
  decimal_read (err e) = none

  unfoldable pub decimal_param : Request → Text → Option L.Decimal
  unfolding param decimal_read
  decimal_param r key = elim (param r key) [
    | none ↦ none
    | some t ↦ decimal_read (L.decimal_of_text t)
  ]

  -- A command: what it needs, and the event that a request for it is when it has that.
  pub record Command : Type 0 where
    pub needs : List (Text × Need)
    pub event : Request → Option Event

  unfoldable pub commands : List (Text × Command)
  unfolding param decimal_param given is_off
  commands =
      (
        codes "/admin/fill",
        record {
          needs = (codes "clordid", some_text) ∷ (codes "px", a_decimal) ∷ [];
          event = λ r. do
            id ← param r (codes "clordid")
            px ← decimal_param r (codes "px")
            some (fills id px);
        },
      )
      ∷ (
        codes "/admin/partial",
        record {
          needs =
              (codes "clordid", some_text)
              ∷ (codes "qty", a_decimal)
              ∷ (codes "px", a_decimal)
              ∷ [];
          event = λ r. do
            id ← param r (codes "clordid")
            qty ← decimal_param r (codes "qty")
            px ← decimal_param r (codes "px")
            some (fills_part id qty px);
        },
      )
      ∷ (
        codes "/admin/cancel",
        record {
          needs = (codes "clordid", some_text) ∷ [];
          event = λ r. do
            id ← param r (codes "clordid")
            some (cancels_one id (given r (codes "reason") (codes "cancelled by venue")));
        },
      )
      ∷ (
        codes "/admin/reject",
        record {
          needs = (codes "clordid", some_text) ∷ [];
          event = λ r. do
            id ← param r (codes "clordid")
            some (rejects_one id (given r (codes "reason") (codes "rejected by venue")));
        },
      )
      ∷ (
        codes "/admin/silence",
        record { needs = []; event = λ r. some (silences (not (is_off r))) },
      )
      ∷ (codes "/admin/gap", record { needs = (codes "n", an_integer) ∷ []; event = λ r. none })
      ∷ (
        codes "/admin/reject-logon",
        record {
          needs = [];
          event = λ r. some (
              refuses_logons
                (if is_off r then [] else given r (codes "reason") (codes "invalid credentials")));
        },
      )
      ∷ (
        codes "/admin/cancel-all",
        record {
          needs = [];
          event = λ r. some (cancels_all (given r (codes "reason") (codes "mass cancel by venue")));
        },
      )
      ∷ []

  unfoldable event_of : Request → Option Command → Option Event
  event_of r none = none
  event_of r (some c) = c.event r

  -- The event that a request is: a POST to the path of a command, with what the command needs.
  unfoldable pub meaning : Request → Option Event
  unfolding commands event_of
  meaning r =
      ite (text_dec r.method (codes "POST")) (event_of r (lookup text_dec r.path commands)) none

  unfoldable fault_of : Request → Option Command → Option ParamError
  unfolding first_fault
  fault_of r none = none
  fault_of r (some c) = first_fault r c.needs

  -- What is wrong with the parameters of a request.
  unfoldable pub fault : Request → Option ParamError
  unfolding commands fault_of
  fault r = fault_of r (lookup text_dec r.path commands)

  -- The error that the venue makes at an event of an operator.
  unfoldable pub refusal : App → Event → Option (Error L.Decimal)
  unfolding fill partial cancel reject
  refusal a (fills id px) = (fill a id px).1
  refusal a (fills_part id qty px) = (partial a id qty px).1
  refusal a (cancels_one id reason) = (cancel a id reason).1
  refusal a (rejects_one id reason) = (reject a id reason).1
  refusal a _ = none

  -- What the operator is told when there is none.
  unfoldable pub said : App → Event → Body
  unfolding all_orders is_open_day
  said a (fills id px) = text_of (codes "filled") id
  said a (fills_part id qty px) = text_of (codes "partial") id
  said a (cancels_one id reason) = text_of (codes "cancelled") id
  said a (rejects_one id reason) = text_of (codes "rejected") id
  said a (cancels_all reason) =
      number_of (codes "cancelled") (length (keep is_open_day (all_orders a.book)))
  said a (refuses_logons reason) = text_of (codes "reject_logon_reason") reason
  said a (silences v) = flag_of (codes "silenced") v
  said a _ = no_body

  -- The event that the venue goes through with at a request.
  unfoldable pub perform : App → Option Event → Option Event
  unfolding refusal
  perform a none = none
  perform a (some e) = elim (refusal a e) [ none ↦ some e | some x ↦ none ]

  -- The events of the requests that the venue goes through with, one after the other.
  unfoldable pub performed : App → Request → Option Event
  unfolding perform meaning
  performed a r = perform a (meaning r)

  pub meaning-event :
      (r : Request) (path : Text) (c : Command)
      → r.method ≡ codes "POST"
      → r.path ≡ path
      → lookup text_dec path commands ≡ some c
      → meaning r ≡ c.event r
  unfolding meaning event_of text_dec
  meaning-event r path c post at found = rw (post, at, meaning) (rw (found, event_of) refl)

  pub fault-first_fault :
      (r : Request) (path : Text) (c : Command)
      → r.path ≡ path
      → lookup text_dec path commands ≡ some c
      → fault r ≡ first_fault r c.needs
  unfolding fault fault_of
  fault-first_fault r path c at found =
      ap (λ p. fault_of r (lookup text_dec p commands)) at ∙ ap (fault_of r) found

  pub meaning-not_post : (r : Request) → r.method ≢ codes "POST" → meaning r ≡ none
  unfolding meaning
  meaning-not_post r other =
      if_neg (text_dec r.method (codes "POST")) other (event_of r (lookup text_dec r.path commands))
        none

  pub meaning-no_command : (r : Request) → lookup text_dec r.path commands ≡ none → meaning r ≡ none
  unfolding meaning event_of
  meaning-no_command r missing =
      elim (text_dec r.method (codes "POST"))
        as (λ d. ite d (event_of r (lookup text_dec r.path commands)) none ≡ none) [
          | yes post ↦ ap (event_of r) missing
          | no other ↦ refl
        ]

  pub first_fault-bad :
      (r : Request) (key : Text) (need : Need) (needs : List (Text × Need)) {x : ParamError}
      → fault_at key need (param r key) ≡ some x
      → first_fault r ((key, need) ∷ needs) ≡ some x
  unfolding first_fault
  first_fault-bad r key need needs {x} e = rw (e, first_fault) refl

  pub first_fault-good :
      (r : Request) (key : Text) (need : Need) (needs : List (Text × Need))
      → fault_at key need (param r key) ≡ none
      → first_fault r ((key, need) ∷ needs) ≡ first_fault r needs
  unfolding first_fault
  first_fault-good r key need needs e = rw (e, first_fault) refl
