-- ===== src/Session.antt =====
-- The Logon both sides share, internal/session/logon.go. The environment is the argument `env`, which
-- gives the empty text for a variable that is not set, as os.Getenv does.
pub mod RoundTrip
pub mod Client
pub mod Watchdog
pub mod Supervisor
pub mod Settings
use fix_session_lab.Base.{
  ℕ, ◌+◌, ◌-◌, ◌≡◌, ◌++◌, Bool, ◌&&◌, List, [], ◌∷◌, map, Option, none, some, ite,
}
use fix_session_lab.Base.Int.{ℤ, pos, ℤ_discrete}
use fix_session_lab.Base.Lists.{length, leb, if◌then◌else◌}
use fix_session_lab.Base.Text.{Text, codes, text_dec}
use fix_session_lab.Deps.{Deps, Result, ok, err, ok_or, Rejection, logon_reject}

-- The tags that a Logon's fields have.
abbrev pub tag_text : ℕ
tag_text = 58

abbrev pub tag_raw_data_length : ℕ
tag_raw_data_length = 95

abbrev pub tag_raw_data : ℕ
tag_raw_data = 96

abbrev pub tag_encrypt_method : ℕ
tag_encrypt_method = 98

abbrev pub tag_cod_type : ℕ
tag_cod_type = 35002

abbrev pub tag_cod_timeout_window : ℕ
tag_cod_timeout_window = 35003

abbrev pub cod_disabled : ℤ
cod_disabled = pos 0

abbrev pub cod_on_disconnect : ℤ
cod_on_disconnect = pos 1

abbrev pub cod_on_logout : ℤ
cod_on_logout = pos 2

abbrev pub cod_on_disconnect_or_logout : ℤ
cod_on_disconnect_or_logout = pos 3

-- strings.ToUpper on one ASCII character.
unfoldable pub to_upper : ℕ → ℕ
to_upper c = if leb b'a' c && leb c b'z' then c - 32 else c

unfoldable pub password_env_var : Text → Text
password_env_var id = codes "FIXLAB_" ++ map to_upper id ++ codes "_PASSWORD"

-- The error names the variable that is not set.
unfoldable pub password : (Text → Text) → Text → Result Text Text
password env id =
    let var = password_env_var id in ite (text_dec (env var) []) (err var) (ok (env var))

pub record LogonCredentials : Type 0 where
  pub app_id : Text
  pub cod_type : ℤ
  pub cod_timeout_window : ℤ

module _ ⦃L : Deps⦄ where
  pub record LogonRequest : Type 0 where
    pub session_id : L.SessionId
    pub password : Text
    pub app_id : Text
    pub cod_type : ℤ
    pub cod_timeout_window : ℤ

  unfoldable pub inject_cod : L.Message → LogonCredentials → L.Message
  inject_cod m creds = ite (ℤ_discrete creds.cod_type cod_disabled) m (
      L.set_int (L.set_int m tag_cod_type creds.cod_type) tag_cod_timeout_window
        creds.cod_timeout_window)

  -- The message as it leaves, and the error if there is no password.
  unfoldable pub inject_logon :
      (Text → Text) → L.Message → L.SessionId → LogonCredentials → L.Message × Option Text
  unfolding inject_cod
  inject_logon env m id creds =
      let m₁ = L.set_int (L.set_string m tag_text creds.app_id) tag_encrypt_method (pos 0) in
      let m₂ = inject_cod m₁ creds in
      elim (password env (L.sender_comp_id id)) [
        | err e ↦ (m₂, some e)
        | ok pw ↦ (
          L.set_string (L.set_int m₂ tag_raw_data_length (pos (length pw))) tag_raw_data pw,
          none,
        )
      ]

  unfoldable pub parse_logon : L.Message → L.SessionId → LogonRequest
  parse_logon m id = record {
    session_id = id;
    password = ok_or [] (L.body_string m tag_raw_data);
    app_id = ok_or [] (L.body_string m tag_text);
    cod_type = ok_or (pos 0) (L.body_int m tag_cod_type);
    cod_timeout_window = ok_or (pos 0) (L.body_int m tag_cod_timeout_window);
  }

unfoldable pub reject_logon : Text → Rejection
reject_logon reason = logon_reject reason
