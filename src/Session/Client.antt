-- ===== src/Session/Client.antt =====
-- The shared half of an initiator application, internal/session/client.go. The functions given to
-- OnInbound act on a state `W` that they own together, which the client carries as `world`.
use fix_session_lab.Base.{◌++◌, Bool, true, false, List, [], ◌∷◌, Option, none, ite}
use fix_session_lab.Base.Map.{lookup_or, insert}
use fix_session_lab.Base.Text.{Text, codes, text_dec}
use fix_session_lab.Deps.{Deps, ok, err, Rejection}
use fix_session_lab.Session.{LogonCredentials, inject_logon}

pub data InboundClass : Type 0 where
  admin app : InboundClass

module _ ⦃L : Deps⦄ where
  pub record Client (W : Type 0) : Type 0 where
    pub creds : LogonCredentials
    pub logged_on : List (L.SessionId × Bool)
    pub on_inbound : List (L.SessionId → InboundClass → W → W)
    pub world : W

  module _ {W : Type 0} where
    unfoldable pub new_client : LogonCredentials → W → Client W
    new_client creds w = record { creds = creds; logged_on = []; on_inbound = []; world = w }

    unfoldable pub subscribe : Client W → (L.SessionId → InboundClass → W → W) → Client W
    subscribe c fn = record c { on_inbound = c.on_inbound ++ fn ∷ [] }

    -- Calls the functions in the order of their registration.
    unfoldable pub call_each :
        List (L.SessionId → InboundClass → W → W) → L.SessionId → InboundClass → W → W
    call_each [] id class w = w
    call_each (fn ∷ fns) id class w = call_each fns id class (fn id class w)

    unfoldable pub note_inbound : Client W → L.SessionId → InboundClass → Client W
    unfolding call_each
    note_inbound c id class = record c { world = call_each c.on_inbound id class c.world }

    unfoldable pub is_up : Client W → L.SessionId → Bool
    is_up c id = lookup_or L.session_dec false id c.logged_on

    unfoldable pub client_on_logon : Client W → L.SessionId → Client W
    client_on_logon c id = record c { logged_on = insert L.session_dec id true c.logged_on }

    unfoldable pub client_on_logout : Client W → L.SessionId → Client W
    client_on_logout c id = record c { logged_on = insert L.session_dec id false c.logged_on }

    -- The message as it leaves: a Logon gets its fields, anything else stays as it is.
    unfoldable pub client_to_admin : (Text → Text) → Client W → L.Message → L.SessionId → L.Message
    unfolding inject_logon
    client_to_admin env c m id = elim (L.header_string m 35) [
      | err e ↦ m
      | ok t ↦ ite (text_dec t (codes "A")) (inject_logon env m id c.creds).0 m
    ]

    unfoldable pub client_from_admin :
        Client W → L.Message → L.SessionId → Client W × Option Rejection
    unfolding note_inbound
    client_from_admin c m id = (note_inbound c id admin, none)
