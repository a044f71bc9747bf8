-- ===== src/Session/Settings.antt =====
-- The settings helpers, internal/session/settings.go. quickfix.Settings is a parameter, with the
-- write to its global settings and the copies of its sessions' settings; a copy is its Setting method.
-- Go's order of the loop over the sessions is that of the list.
pub mod Overlay
use fix_session_lab.Base.{ℕ, List, [], ◌∷◌, Option, none, some, ite}
use fix_session_lab.Base.Lists.{length}
use fix_session_lab.Base.Text.{Text, codes, text_dec}
use fix_session_lab.Deps.{Deps, Result, ok, err}

abbrev pub connect_host : Text
connect_host = codes "SocketConnectHost"

module _ ⦃L : Deps⦄ where
  pub data HostError : Type 0 where
    no_host : L.SessionId → Text → HostError
    other_host : L.SessionId → Text → HostError

  -- The loop that verifies the override.
  unfoldable pub check_hosts :
      Text → List (L.SessionId × (Text → Result Text Text)) → Option HostError
  check_hosts host [] = none
  check_hosts host ((id, setting) ∷ all) = elim (setting connect_host) [
    | err e ↦ some (no_host id e)
    | ok got ↦ ite (text_dec got host) (check_hosts host all) (some (other_host id got))
  ]

  module _ {S : Type 0} (set_global : S → Text → Text → S)
      (session_settings : S → List (L.SessionId × (Text → Result Text Text))) where
    unfoldable pub override_connect_host : S → Text → S × Option HostError
    unfolding check_hosts
    override_connect_host s [] = (s, none)
    override_connect_host s (c ∷ host) =
        let s' = set_global s connect_host (c ∷ host) in
        (s', check_hosts (c ∷ host) (session_settings s'))

  -- The error tells how many there were.
  unfoldable pub the_only : List (L.SessionId × (Text → Result Text Text)) → Result ℕ L.SessionId
  the_only ((id, setting) ∷ []) = ok id
  the_only all = err (length all)

  unfoldable pub sole_session :
      {S : Type 0} → (S → List (L.SessionId × (Text → Result Text Text))) → S → Result ℕ L.SessionId
  unfolding the_only
  sole_session session_settings s = the_only (session_settings s)
