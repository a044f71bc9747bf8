-- ===== src/Feed/Rejects.antt =====
-- A venue and a client that answer each other's messages: FromApp and FromAdmin of
-- internal/exchange/exchange.go and of internal/client. The message that the engine sends for an
-- error of these is a parameter.
pub mod Settle
use fix_session_lab.Base.{
  ℕ, suc, zero, ◌+◌, ◌≤◌, ◌≡◌, ◌≢◌, refl, sym, ap, ◌∙◌, subst, ◌⊎◌, inl, inr, Bool, true, false,
  not, List, [], ◌∷◌, Option, none, some, ite, arith,
}
use fix_session_lab.Base.Lists.{Option-cases, if◌then◌else◌, any_of}
use fix_session_lab.Base.Map.{lookup_or}
use fix_session_lab.Base.Text.{Text, codes, text_dec}
use fix_session_lab.Client.DropCopy.{DropCopy}
use fix_session_lab.Client.OrderEntry.{OrderEntry}
use fix_session_lab.Deps.{Deps, Result, ok, err, Rejection, Result-cases}
use fix_session_lab.Exchange.{App, Kind, drop_copy, order_entry, kind_of, kind_dec, note_received}
use fix_session_lab.Exchange.Callbacks.{from_admin, from_app, from_order_entry}
use fix_session_lab.Session.Client.{client_from_admin}

-- The types of FIX 4.4 that the engine hands to FromAdmin; all others go to FromApp.
abbrev pub admin_types : List Text
admin_types = codes "0" ∷ codes "1" ∷ codes "2" ∷ codes "3" ∷ codes "4" ∷ codes "5" ∷ codes "A" ∷ []

unfoldable pub is_admin_type : Text → Bool
is_admin_type t = any_of (λ u. ite (text_dec t u) true false) admin_types

module _ ⦃L : Deps⦄ where
  -- What an end does with a message, and what it has against it.
  abbrev pub Receives : Type 0 → Type 0
  Receives C = C → L.Message → L.SessionId → C × Option Rejection

  -- A message whose type cannot be read does not reach the application.
  unfoldable pub dispatch : {C : Type 0} → Receives C → Receives C → Receives C
  dispatch admin app c m id = elim (L.header_string m 35) [
    | err e ↦ (c, none)
    | ok t ↦ if is_admin_type t then admin c m id else app c m id
  ]

  unfoldable pub venue_receives : Receives App
  unfolding dispatch from_admin from_app
  venue_receives = dispatch from_admin from_app

  unfoldable pub order_entry_receives : {W : Type 0} → Receives (OrderEntry W)
  unfolding dispatch client_from_admin
  order_entry_receives =
      dispatch
        (λ c m id. let (b, r) = client_from_admin c.client m id in (record c { client = b }, r))
        fix_session_lab.Client.OrderEntry.from_app

  unfoldable pub drop_copy_receives : {W : Type 0} → Receives (DropCopy W)
  unfolding dispatch client_from_admin
  drop_copy_receives =
      dispatch
        (λ c m id. let (b, r) = client_from_admin c.client m id in (record c { client = b }, r))
        fix_session_lab.Client.DropCopy.from_app

  -- quickfix answers an error with a BusinessMessageReject, a Reject or a Logout.
  pub record AnswersErrors (reject_message : Rejection → L.Message) : Type 0 where
    pub types :
        (r : Rejection)
        → (L.header_string (reject_message r) 35 ≡ ok (codes "j"))
          ⊎ (L.header_string (reject_message r) 35 ≡ ok (codes "3"))
          ⊎ (L.header_string (reject_message r) 35 ≡ ok (codes "5"))

  module _ (reject_message : Rejection → L.Message) {C : Type 0} (receives : Receives C)
      (at_venue at_client : L.SessionId) where
    -- The end that a message goes to.
    abbrev pub answers : Bool → App → C → L.Message → App × C × Option Rejection
    answers true a c m = let (a', r) = venue_receives a m at_venue in (a', c, r)
    answers false a c m = let (c', r) = receives c m at_client in (a, c', r)

    -- A message to the venue, if the flag is set, or to the client, and the answers to it, back and
    -- forth, on fuel; none if the fuel runs out. With both ends there comes the number of the answers.
    unfoldable pub talk : ℕ → Bool → App → C → L.Message → Option (App × C × ℕ)
    talk zero venue a c m = none
    talk (suc fuel) venue a c m =
        let (a', c', r) = answers venue a c m in
        elim r [
          | none ↦ some (a', c', 0)
          | some r ↦ elim (talk fuel (not venue) a' c' (reject_message r)) [
            | none ↦ none
            | some (a'', c'', n) ↦ some (a'', c'', n + 1)
          ]
        ]
