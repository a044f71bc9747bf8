-- ===== src/Feed/Logons/Arrives.antt =====
-- The Logon that a client's ToAdmin writes, at a venue that has just loaded its sessions:
-- internal/session/client.go and logon.go, internal/exchange/exchange.go.
use fix_session_lab.Base.{
  ◌≡◌, refl, sym, ap, ◌∙◌, List, [], ◌∷◌, ◌++◌, Option, none, if_pos, if_neg, arith, inl, inr,
}
use fix_session_lab.Base.Int.{pos, ℤ_discrete}
use fix_session_lab.Base.Lists.{length}
use fix_session_lab.Base.Map.{lookup}
use fix_session_lab.Base.Text.{Text, codes, text_dec}
use fix_session_lab.Book.{Book}
use fix_session_lab.Deps.{Deps, ok, MessageLaws, Result-cases}
use fix_session_lab.Exchange.{App, new_app, register_kind}
use fix_session_lab.Exchange.Callbacks.{expect_password, load_kinds, from_admin}
use fix_session_lab.Exchange.Passwords.{Expects, load_kind-cases, load_kinds-Expects}
use fix_session_lab.Session.{
  LogonCredentials, password, parse_logon, inject_logon, inject_cod, tag_text, tag_encrypt_method,
  tag_raw_data, tag_raw_data_length, cod_disabled,
}
use fix_session_lab.Session.Client.{Client, client_to_admin}
use fix_session_lab.Session.RoundTrip.{IsBare, parse_logon-inject_logon}
use fix_session_lab.Feed.Logons.{
  HeaderLaws, Handshake, All-middle, from_admin-Handshake, request_of,
}

module _ ⦃L : Deps⦄ where
  expect_password-reject_logons :
      (env : Text → Text) (a : App) (id : L.SessionId)
      → (expect_password env a id).reject_logons ≡ a.reject_logons
  unfolding expect_password
  expect_password-reject_logons env a id =
      elim (Result-cases (password env (L.target_comp_id id))) [
        | inl (pw, e) ↦ rw (e, expect_password) refl
        | inr (x, e) ↦ rw (e, expect_password) refl
      ]

  client_to_admin-inject_logon :
      {W : Type 0} (env : Text → Text) (c : Client W) (m : L.Message) (id : L.SessionId)
      → L.header_string m 35 ≡ ok (codes "A")
      → client_to_admin env c m id ≡ (inject_logon env m id c.creds).0
  unfolding client_to_admin text_dec
  client_to_admin-inject_logon env c m id e = rw (e, client_to_admin) refl

  header-inject_cod :
      (m : L.Message) (creds : LogonCredentials)
      → HeaderLaws L
      → L.header_string (inject_cod m creds) 35 ≡ L.header_string m 35
  unfolding inject_cod
  header-inject_cod m creds h = elim (ℤ_discrete creds.cod_type cod_disabled) [
    | yes p ↦ rw (if_pos (ℤ_discrete creds.cod_type cod_disabled) p m _) refl
    | no p ↦ rw (if_neg (ℤ_discrete creds.cod_type cod_disabled) p m _) (
        h.string_set_int _ _ 35 _ (λ e. omega (arith, e))
        ∙ h.string_set_int _ _ 35 _ (λ e. omega (arith, e)))
  ]

  header-inject_logon :
      (env : Text → Text) (m : L.Message) (id : L.SessionId) (creds : LogonCredentials)
      → HeaderLaws L
      → L.header_string (inject_logon env m id creds).0 35 ≡ L.header_string m 35
  unfolding inject_logon
  header-inject_logon env m id creds h =
      let m₁ = L.set_int (L.set_string m tag_text creds.app_id) tag_encrypt_method (pos 0) in
      let m₂ = inject_cod m₁ creds in
      let before : L.header_string m₂ 35 ≡ L.header_string m 35 =
        header-inject_cod m₁ creds h
        ∙ h.string_set_int (L.set_string m tag_text creds.app_id) tag_encrypt_method 35 (pos 0)
            (λ e. omega (arith, e))
        ∙ h.string_set_string m tag_text 35 creds.app_id (λ e. omega (arith, e)) in
      elim (Result-cases (password env (L.sender_comp_id id))) [
        | inr (x, e) ↦ rw (e, inject_logon) before
        | inl (pw, e) ↦
            let sized : L.header_string (L.set_int m₂ tag_raw_data_length (pos (length pw))) 35
                ≡ L.header_string m₂ 35 =
              h.string_set_int m₂ tag_raw_data_length 35 (pos (length pw))
                (λ e. omega (arith, e)) in
            let secret : L.header_string
                  (L.set_string (L.set_int m₂ tag_raw_data_length (pos (length pw))) tag_raw_data
                    pw)
                  35
                ≡ L.header_string (L.set_int m₂ tag_raw_data_length (pos (length pw))) 35 =
              h.string_set_string _ tag_raw_data 35 pw (λ e. omega (arith, e)) in
            rw (e, inject_logon) (secret ∙ sized ∙ before)
      ]

  load_kinds-reject_logons :
      (env : Text → Text) (a : App) (all : List (L.SessionId × Option Text)) {b : App}
      → load_kinds env a all ≡ (b, none)
      → b.reject_logons ≡ a.reject_logons
  unfolding load_kinds register_kind
  load_kinds-reject_logons env a [] e = ap (λ q. q.0.reject_logons) (sym e)
  load_kinds-reject_logons env a ((id, raw) ∷ all) e =
      let (k, rest) = load_kind-cases env a id raw all e in
      load_kinds-reject_logons env (expect_password env (register_kind a id k) id) all rest
      ∙ expect_password-reject_logons env (register_kind a id k) id

  -- At a venue whose sessions have loaded, the Logon that a client makes for the other end of one of
  -- these sessions, from a message with no password and no cancel-on-disconnect fields, and given that
  -- a field that is set is read back and leaves the others: it is taken exactly if the venue had no
  -- password of that CompID at its start or the client's is the same, and is refused with the reason
  -- otherwise, which keeps the requests that the venue has; if it is taken, the venue keeps what the
  -- client asked for, and a loss of the session at any time starts a check, due after the client's
  -- window, exactly if the client armed it.
  pub client_to_admin-Handshake :
      {W : Type 0} (at_venue at_client : Text → Text) (book : Book L.Decimal)
      (before after : List (L.SessionId × Option Text)) (raw : Option Text) (a : App) (c : Client W)
      (m : L.Message) (from id : L.SessionId)
      → load_kinds at_venue (new_app book) (before ++ (id, raw) ∷ after) ≡ (a, none)
      → L.sender_comp_id from ≡ L.target_comp_id id
      → MessageLaws L
      → HeaderLaws L
      → IsBare m
      → L.header_string m 35 ≡ ok (codes "A")
      → Handshake at_venue at_client c.creds id a
          (from_admin a (client_to_admin at_client c m from) id)
  unfolding new_app lookup
  client_to_admin-Handshake at_venue at_client book before after raw a c m from id loaded same laws
        headers bare is_logon =
      let m' = client_to_admin at_client c m from in
      let injected : m' ≡ (inject_logon at_client m from c.creds).0 =
        client_to_admin-inject_logon at_client c m from is_logon in
      from_admin-Handshake at_venue at_client c.creds a m' id
        (ap (λ x. L.header_string x 35) injected
          ∙ header-inject_logon at_client m from c.creds headers
          ∙ is_logon)
        (ap (λ x. parse_logon x id) injected
          ∙ parse_logon-inject_logon at_client m from id c.creds laws bare
          ∙ ap (request_of at_client c.creds id) same)
        (All-middle (λ s. Expects at_venue a (L.target_comp_id s.0)) before (id, raw) after
          (load_kinds-Expects at_venue (new_app book) _ (λ k. inl refl) loaded))
        (load_kinds-reject_logons at_venue (new_app book) _ loaded)
