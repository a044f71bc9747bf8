-- ===== src/Feed/Logons.antt =====
-- A client's Logon at the venue: ToAdmin of internal/session/client.go, then FromAdmin of
-- internal/exchange/exchange.go after its LoadKinds, then OnLogout when the session is lost.
pub mod Arrives
use fix_session_lab.Base.{
  ◌+◌, ◌≡◌, ◌≢◌, refl, sym, ap, ◌∙◌, subst, Bool, true, false, List, [], ◌∷◌, ◌++◌, Option, none,
  some, ite, if_pos, if_neg, ℕ, arith, inl, inr,
}
use fix_session_lab.Base.Int.{ℤ, pos, ℤ_discrete}
use fix_session_lab.Base.Lists.{All, length, Bool-cases}
use fix_session_lab.Base.Map.{lookup, insert, lookup-insert_self}
use fix_session_lab.Base.Text.{Text, codes, text_dec}
use fix_session_lab.Book.{Book}
use fix_session_lab.Deps.{Deps, ok, err, Rejection, logon_reject, MessageLaws, Result-cases}
use fix_session_lab.Exchange.{App, new_app, register_kind, Timer, note_received, check_password}
use fix_session_lab.Exchange.Callbacks.{
  expect_password, load_kinds, from_admin, admit_logon, on_logon_request, on_logout, on_lost,
}
use fix_session_lab.Exchange.Passwords.{Expects, load_kind-cases, load_kinds-Expects}
use fix_session_lab.Exchange.Reports.{window_nanoseconds, on_session_lost}
use fix_session_lab.Session.{
  LogonCredentials, LogonRequest, password, parse_logon, inject_logon, inject_cod, tag_text,
  tag_encrypt_method, tag_raw_data, tag_raw_data_length, cod_disabled, reject_logon,
}
use fix_session_lab.Session.Client.{Client, client_to_admin}
use fix_session_lab.Session.RoundTrip.{IsBare, password_or_empty, parse_logon-inject_logon}

-- Whether the password of a CompID in the client's environment is the one that the venue had in its
-- own; a venue that had none takes any.
abbrev pub agrees : (Text → Text) → (Text → Text) → Text → Bool
agrees at_venue at_client k = elim (password at_venue k) [
  | err e ↦ true
  | ok pw ↦ ite (text_dec (password_or_empty at_client k) pw) true false
]

-- What is set in the body of a message leaves the other tags of its header.
pub record HeaderLaws (L : Deps) : Type 0 where
  pub string_set_string :
      (m : L.Message) (t u : ℕ) (v : Text)
      → t ≢ u
      → L.header_string (L.set_string m t v) u ≡ L.header_string m u
  pub string_set_int :
      (m : L.Message) (t u : ℕ) (v : ℤ)
      → t ≢ u
      → L.header_string (L.set_int m t v) u ≡ L.header_string m u

module _ ⦃L : Deps⦄ where
  -- What the venue reads off the client's Logon.
  abbrev pub request_of : (Text → Text) → LogonCredentials → L.SessionId → Text → LogonRequest
  request_of env creds at_venue k = record {
    session_id = at_venue;
    password = password_or_empty env k;
    app_id = creds.app_id;
    cod_type = creds.cod_type;
    cod_timeout_window =
        ite (ℤ_discrete creds.cod_type cod_disabled) (pos 0) creds.cod_timeout_window;
  }

  -- The checks of cancel-on-disconnect that are pending when the session is lost.
  abbrev pub timers_after : LogonCredentials → L.SessionId → ℕ → List Timer → List Timer
  timers_after creds id now ts =
      ite (ℤ_discrete creds.cod_type cod_disabled) ts
        (record { session = id; due = now + window_nanoseconds creds.cod_timeout_window } ∷ ts)

  -- How the handshake ends: the Logon is taken exactly if the passwords agree, and then a loss of the
  -- session at any time starts a check if the client asked for it.
  pub data Handshake (at_venue at_client : Text → Text) (creds : LogonCredentials)
      (id : L.SessionId) (a : App) (q : App × Option Rejection) : Type 0 where
    admits :
        agrees at_venue at_client (L.target_comp_id id) ≡ true
        → q.1 ≡ none
        → lookup L.session_dec id q.0.cod
          ≡ some (request_of at_client creds id (L.target_comp_id id))
        → ((now : ℕ) → (on_logout q.0 now id).timers ≡ timers_after creds id now q.0.timers)
        → Handshake at_venue at_client creds id a q
    refuses :
        agrees at_venue at_client (L.target_comp_id id) ≡ false
        → q.1 ≡ some (logon_reject (codes "invalid credentials"))
        → q.0.cod ≡ a.cod
        → Handshake at_venue at_client creds id a q

  pub All-middle :
      {A : Type 0} (P : A → Type 0) (xs : List A) (x : A) (ys : List A) → All P (xs ++ x ∷ ys) → P x
  All-middle P [] x ys (h, _) = h
  All-middle P (y ∷ xs) x ys (_, h) = All-middle P xs x ys h

  check_password-agrees :
      (at_venue at_client : Text → Text) (a : App) (id : L.SessionId)
      → Expects at_venue a (L.target_comp_id id)
      → check_password a id (password_or_empty at_client (L.target_comp_id id))
        ≡ agrees at_venue at_client (L.target_comp_id id)
  unfolding check_password
  check_password-agrees at_venue at_client a id h =
      elim (Result-cases (password at_venue (L.target_comp_id id))) [
        | inl (pw, e) ↦ rw (h, e, check_password, agrees) refl
        | inr (x, e) ↦ rw (h, e, check_password, agrees) refl
      ]

  -- What is lost with a request that is kept.
  on_logout-armed :
      (a : App) (now : ℕ) (id : L.SessionId) (env : Text → Text) (creds : LogonCredentials)
      (k : Text)
      → lookup L.session_dec id a.cod ≡ some (request_of env creds id k)
      → (on_logout a now id).timers ≡ timers_after creds id now a.timers
  unfolding on_logout on_lost on_session_lost
  on_logout-armed a now id env creds k h = rw (h, on_logout) (ground arith)

  on_logon_request-Handshake :
      (at_venue at_client : Text → Text) (creds : LogonCredentials) (a : App) (m : L.Message)
      (id : L.SessionId)
      → parse_logon m id ≡ request_of at_client creds id (L.target_comp_id id)
      → Expects at_venue a (L.target_comp_id id)
      → Handshake at_venue at_client creds id a (on_logon_request a m id)
  unfolding on_logon_request reject_logon
  on_logon_request-Handshake at_venue at_client creds a m id read h =
      let checked : check_password a id (parse_logon m id).password
          ≡ agrees at_venue at_client (L.target_comp_id id) =
        ap (λ (r : LogonRequest). check_password a id r.password) read
        ∙ check_password-agrees at_venue at_client a id h in
      elim (Bool-cases (agrees at_venue at_client (L.target_comp_id id))) [
        | inl same ↦
            let kept =
              lookup-insert_self L.session_dec id (parse_logon m id) a.cod ∙ ap some read in
            rw (checked ∙ same, on_logon_request)
              (admits same refl kept (λ now.
                on_logout-armed
                  (record a { cod = insert L.session_dec id (parse_logon m id) a.cod }) now id
                  at_client creds (L.target_comp_id id) kept))
        | inr other ↦ rw (checked ∙ other, on_logon_request) (refuses other refl refl)
      ]

  -- note_received changes the sequence numbers only.
  note_received-parts :
      (a : App) (m : L.Message) (id : L.SessionId)
      → ((note_received a m id).expect ≡ a.expect)
        × ((note_received a m id).reject_logons ≡ a.reject_logons)
        × ((note_received a m id).cod ≡ a.cod)
  unfolding note_received
  note_received-parts a m id = elim (Result-cases (L.header_int m 34)) [
    | inl (n, e) ↦ rw (e, note_received) (refl, refl, refl)
    | inr (x, e) ↦ rw (e, note_received) (refl, refl, refl)
  ]

  Handshake-of :
      (at_venue at_client : Text → Text) (creds : LogonCredentials) (id : L.SessionId) (a a' : App)
      (q : App × Option Rejection)
      → a'.cod ≡ a.cod
      → Handshake at_venue at_client creds id a' q
      → Handshake at_venue at_client creds id a q
  Handshake-of at_venue at_client creds id a a' q e (admits same fine kept armed) =
      admits same fine kept armed
  Handshake-of at_venue at_client creds id a a' q e (refuses other no_ cod) =
      refuses other no_ (cod ∙ e)

  admit_logon-lets :
      (a : App) (m : L.Message) (id : L.SessionId)
      → a.reject_logons ≡ []
      → admit_logon a m id ≡ on_logon_request a m id
  unfolding admit_logon
  admit_logon-lets a m id h = if_pos (text_dec a.reject_logons []) h _ _

  pub from_admin-Handshake :
      (at_venue at_client : Text → Text) (creds : LogonCredentials) (a : App) (m : L.Message)
      (id : L.SessionId)
      → L.header_string m 35 ≡ ok (codes "A")
      → parse_logon m id ≡ request_of at_client creds id (L.target_comp_id id)
      → Expects at_venue a (L.target_comp_id id)
      → a.reject_logons ≡ []
      → Handshake at_venue at_client creds id a (from_admin a m id)
  unfolding from_admin text_dec
  from_admin-Handshake at_venue at_client creds a m id is_logon read h opened =
      let (expect, rejects, cod) = note_received-parts a m id in
      Handshake-of at_venue at_client creds id a (note_received a m id) (from_admin a m id) cod (
        rw (is_logon, from_admin)
          (subst (Handshake at_venue at_client creds id (note_received a m id))
            (sym (admit_logon-lets (note_received a m id) m id (rejects ∙ opened)))
            (on_logon_request-Handshake at_venue at_client creds (note_received a m id) m id read
              (ap (lookup text_dec (L.target_comp_id id)) expect ∙ h))))
