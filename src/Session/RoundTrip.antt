-- ===== src/Session/RoundTrip.antt =====
-- InjectLogon and ParseLogon of internal/session/logon.go, one after the other.
use fix_session_lab.Base.{
  ℕ, ◌≡◌, ◌≢◌, refl, sym, ap, ◌∙◌, [], ite, if_neg, arith, Option, none, some, ℕ_discrete,
}
use fix_session_lab.Base.Int.{pos, ℤ_discrete}
use fix_session_lab.Base.Lists.{length}
use fix_session_lab.Base.Text.{Text}
use fix_session_lab.Deps.{Deps, Rejection, MessageLaws, Result, ok, err, ok?, ok_or}
use fix_session_lab.Session.{
  LogonCredentials, password, inject_cod, inject_logon, parse_logon, tag_text, tag_raw_data,
  tag_raw_data_length, tag_encrypt_method, tag_cod_type, tag_cod_timeout_window, cod_disabled,
}

abbrev pub password_or_empty : (Text → Text) → Text → Text
password_or_empty env id = ok_or [] (password env id)

module _ ⦃L : Deps⦄ where
  -- The engine hands ToAdmin a Logon with none of the fields that the program sets.
  pub record IsBare (m : L.Message) : Type 0 where
    pub no_password : ok? (L.body_string m tag_raw_data) ≡ none
    pub no_cod_type : ok? (L.body_int m tag_cod_type) ≡ none
    pub no_cod_window : ok? (L.body_int m tag_cod_timeout_window) ≡ none

  ok_or-none : {A : Type 0} (d : A) (r : Result Rejection A) → ok? r ≡ none → ok_or d r ≡ d
  ok_or-none d (ok a) e = cc
  ok_or-none d (err x) e = refl

  cod_text :
      (m : L.Message) (creds : LogonCredentials) (u : ℕ)
      → MessageLaws L
      → tag_cod_type ≢ u
      → tag_cod_timeout_window ≢ u
      → L.body_string (inject_cod m creds) u ≡ L.body_string m u
  unfolding inject_cod
  cod_text m creds u laws h k =
      elim (ℤ_discrete creds.cod_type cod_disabled)
        as (λ d.
          L.body_string
            (ite d m (
              L.set_int (L.set_int m tag_cod_type creds.cod_type) tag_cod_timeout_window
                creds.cod_timeout_window))
            u
          ≡ L.body_string m u) [
            | yes off ↦ refl
            | no on ↦ laws.string_set_int _ _ u _ k ∙ laws.string_set_int _ _ u _ h
          ]

  cod_fields :
      (m : L.Message) (creds : LogonCredentials)
      → MessageLaws L
      → ok? (L.body_int m tag_cod_type) ≡ none
      → ok? (L.body_int m tag_cod_timeout_window) ≡ none
      → (ok_or (pos 0) (L.body_int (inject_cod m creds) tag_cod_type) ≡ creds.cod_type)
        × (ok_or (pos 0) (L.body_int (inject_cod m creds) tag_cod_timeout_window)
            ≡ ite (ℤ_discrete creds.cod_type cod_disabled) (pos 0) creds.cod_timeout_window)
  unfolding inject_cod ℕ_discrete
  cod_fields m creds laws t w =
      elim (ℤ_discrete creds.cod_type cod_disabled)
        as (λ d.
          (ok_or (pos 0) (
              L.body_int
                (ite d m (
                  L.set_int (L.set_int m tag_cod_type creds.cod_type) tag_cod_timeout_window
                    creds.cod_timeout_window))
                tag_cod_type)
            ≡ creds.cod_type)
          × (ok_or (pos 0) (
                L.body_int
                  (ite d m (
                    L.set_int (L.set_int m tag_cod_type creds.cod_type) tag_cod_timeout_window
                      creds.cod_timeout_window))
                  tag_cod_timeout_window)
              ≡ ite d (pos 0) creds.cod_timeout_window)) [
                | yes off ↦ (ok_or-none (pos 0) _ t ∙ sym off, ok_or-none (pos 0) _ w)
                | no on ↦ (
                  ap (ok_or (pos 0)) (
                      laws.int_set_int _ tag_cod_timeout_window tag_cod_type _
                      ∙ laws.int_set_int _ tag_cod_type tag_cod_type _),
                  ap (ok_or (pos 0))
                      (laws.int_set_int _ tag_cod_timeout_window tag_cod_timeout_window _),
                )
              ]

  -- The message with all that does not depend on the password.
  abbrev with_app_id : L.Message → LogonCredentials → L.Message
  with_app_id m creds = L.set_int (L.set_string m tag_text creds.app_id) tag_encrypt_method (pos 0)

  abbrev bare_int :
      (m : L.Message) (creds : LogonCredentials) (u : ℕ)
      → MessageLaws L
      → tag_encrypt_method ≢ u
      → tag_text ≢ u
      → ok? (L.body_int m u) ≡ none
      → ok? (L.body_int (with_app_id m creds) u) ≡ none
  bare_int m creds u laws h k e =
      rw
        (
          laws.int_set_int (L.set_string m tag_text creds.app_id) tag_encrypt_method u (pos 0),
          if_neg (ℕ_discrete tag_encrypt_method u) h,
          laws.int_set_string m tag_text u creds.app_id k,
        )
        e

  app_id_text :
      (m : L.Message) (creds : LogonCredentials)
      → MessageLaws L
      → L.body_string (inject_cod (with_app_id m creds) creds) tag_text ≡ ok creds.app_id
  unfolding ℕ_discrete
  app_id_text m creds laws =
      cod_text (with_app_id m creds) creds tag_text laws (ground arith) (ground arith)
      ∙ laws.string_set_int _ _ tag_text _ (ground arith)
      ∙ laws.string_set_string m tag_text tag_text creds.app_id

  no_password_text :
      (m : L.Message) (creds : LogonCredentials)
      → MessageLaws L
      → L.body_string (inject_cod (with_app_id m creds) creds) tag_raw_data
        ≡ L.body_string m tag_raw_data
  unfolding ℕ_discrete
  no_password_text m creds laws =
      cod_text (with_app_id m creds) creds tag_raw_data laws (ground arith) (ground arith)
      ∙ laws.string_set_int _ _ tag_raw_data _ (ground arith)
      ∙ laws.string_set_string m tag_text tag_raw_data creds.app_id

  cod_after :
      (m : L.Message) (creds : LogonCredentials)
      → MessageLaws L
      → IsBare m
      → (ok_or (pos 0) (L.body_int (inject_cod (with_app_id m creds) creds) tag_cod_type)
          ≡ creds.cod_type)
        × (ok_or
              (pos 0)
              (L.body_int (inject_cod (with_app_id m creds) creds) tag_cod_timeout_window)
            ≡ ite (ℤ_discrete creds.cod_type cod_disabled) (pos 0) creds.cod_timeout_window)
  cod_after m creds laws bare =
      cod_fields (with_app_id m creds) creds laws
        (bare_int m creds tag_cod_type laws (ground arith) (ground arith) bare.no_cod_type)
        (bare_int m creds tag_cod_timeout_window laws (ground arith) (ground arith)
          bare.no_cod_window)

  abbrev with_password : L.Message → Result Text Text → L.Message × Option Text
  with_password m (err e) = (m, some e)
  with_password m (ok pw) =
      (L.set_string (L.set_int m tag_raw_data_length (pos (length pw))) tag_raw_data pw, none)

  parse_logon-with_password :
      (m : L.Message) (at_venue : L.SessionId) (creds : LogonCredentials) (pw : Result Text Text)
      → MessageLaws L
      → IsBare m
      → parse_logon (with_password (inject_cod (with_app_id m creds) creds) pw).0 at_venue
        ≡ record {
          session_id = at_venue;
          password = ok_or [] pw;
          app_id = creds.app_id;
          cod_type = creds.cod_type;
          cod_timeout_window =
              ite (ℤ_discrete creds.cod_type cod_disabled) (pos 0) creds.cod_timeout_window;
        }
  unfolding parse_logon ℕ_discrete
  parse_logon-with_password m at_venue creds (err e) laws bare =
      let (type, window) = cod_after m creds laws bare in
      let pw = ap (ok_or []) (no_password_text m creds laws) ∙ ok_or-none [] _ bare.no_password in
      let app = ap (ok_or []) (app_id_text m creds laws) in rw (type, window, pw, app) refl
  parse_logon-with_password m at_venue creds (ok w) laws bare =
      let (type, window) = cod_after m creds laws bare in
      let m₃ =
        L.set_int (inject_cod (with_app_id m creds) creds) tag_raw_data_length (pos (length w)) in
      let kept = λ (u : ℕ) (h : tag_raw_data ≢ u) (k : tag_raw_data_length ≢ u).
        laws.int_set_string m₃ tag_raw_data u w h
        ∙ laws.int_set_int _ tag_raw_data_length u _
        ∙ if_neg (ℕ_discrete tag_raw_data_length u) k _ _ in
      let pw = ap (ok_or []) (laws.string_set_string m₃ tag_raw_data tag_raw_data w) in
      let app = ap (ok_or []) (
        laws.string_set_string m₃ tag_raw_data tag_text w
        ∙ laws.string_set_int _ tag_raw_data_length tag_text _ (ground arith)
        ∙ app_id_text m creds laws) in
      let t = ap (ok_or (pos 0)) (kept tag_cod_type (ground arith) (ground arith)) ∙ type in
      let v =
        ap (ok_or (pos 0)) (kept tag_cod_timeout_window (ground arith) (ground arith)) ∙ window in
      rw (t, v, pw, app) refl

  -- If set fields are read back and the Logon had no password and no cancel-on-disconnect fields
  -- before, the venue reads off the Logon that InjectLogon made the application's name, the password
  -- of the client's CompID, or the empty one if none is set, and the arming of cancel-on-disconnect,
  -- with no window if it is off.
  pub parse_logon-inject_logon :
      (env : Text → Text) (m : L.Message) (id at_venue : L.SessionId) (creds : LogonCredentials)
      → MessageLaws L
      → IsBare m
      → parse_logon (inject_logon env m id creds).0 at_venue ≡ record {
        session_id = at_venue;
        password = password_or_empty env (L.sender_comp_id id);
        app_id = creds.app_id;
        cod_type = creds.cod_type;
        cod_timeout_window =
            ite (ℤ_discrete creds.cod_type cod_disabled) (pos 0) creds.cod_timeout_window;
      }
  unfolding inject_logon
  parse_logon-inject_logon env m id at_venue creds laws bare =
      parse_logon-with_password m at_venue creds (password env (L.sender_comp_id id)) laws bare
