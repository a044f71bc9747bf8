-- ===== src/Exchange/Standing.antt =====
-- What the venue keeps of a session, beside the session followed alone: the callbacks of
-- internal/exchange/exchange.go and SetRejectLogons of commands.go.
pub mod Untouched
pub mod Admits
pub mod Follows
pub mod Kinds
pub mod Listed
use fix_session_lab.Base.{
  ℕ, ◌≡◌, refl, sym, ap, ◌∙◌, inl, inr, Bool, true, false, List, [], ◌∷◌, Option, none, some, ite,
  if_pos, if_neg, arith,
}
use fix_session_lab.Base.Lists.{Bool-cases, if◌then◌else◌}
use fix_session_lab.Base.Map.{lookup, lookup_or, insert, lookup-insert}
use fix_session_lab.Base.Text.{Text, codes, text_dec}
use fix_session_lab.Book.{Book}
use fix_session_lab.Deps.{Deps, Result, ok, err, Rejection, Result-cases}
use fix_session_lab.Exchange.{
  App, SeqNums, no_seqnums, tag_msg_seq_num, note_sent, note_received, is_logged_on, check_password,
}
use fix_session_lab.Exchange.Events.{
  Event, app_message, admin_message, sends_app, sends_admin, logs_on, logs_out, timer_runs, fills,
  fills_part, cancels_one, rejects_one, cancels_all, refuses_logons, silences, react, run,
}
use fix_session_lab.Exchange.Reports.{Report, publish}
use fix_session_lab.Session.{LogonRequest, parse_logon}

module _ ⦃L : Deps⦄ where
  pub record Standing : Type 0 where
    pub seqnums : SeqNums
    pub logged_on : Bool
    -- what the last Logon that was taken asked for
    pub asked : Option LogonRequest
    -- the password that the venue expects of it, and the operator's reason to refuse all Logons
    pub expected : Option Text
    pub refusing : Text

  abbrev pub standing_of : App → L.SessionId → Standing
  standing_of a id = record {
    seqnums = lookup_or L.session_dec no_seqnums id a.seqnums;
    logged_on = is_logged_on a id;
    asked = lookup L.session_dec id a.cod;
    expected = lookup text_dec (L.target_comp_id id) a.expect;
    refusing = a.reject_logons;
  }

  unfoldable pub was_sent : Standing → L.Message → Standing
  was_sent s m = elim (L.header_int m 34) [
    | err e ↦ s
    | ok n ↦ record s { seqnums = record s.seqnums { last_sent = n } }
  ]

  unfoldable pub was_received : Standing → L.Message → Standing
  was_received s m = elim (L.header_int m 34) [
    | err e ↦ s
    | ok n ↦ record s { seqnums = record s.seqnums { last_received = n } }
  ]

  abbrev pub fits : Option Text → Text → Bool
  fits none pw = true
  fits (some p) pw = ite (text_dec pw p) true false

  -- A Logon is taken if no reason stands against all of them and its password fits.
  unfoldable pub asks : L.SessionId → Standing → L.Message → Standing
  asks id s m = elim (L.header_string m 35) [
    | err e ↦ s
    | ok t ↦
        ite (text_dec t (codes "A"))
          (ite (text_dec s.refusing [])
            (if fits s.expected (parse_logon m id).password
              then record s { asked = some (parse_logon m id) }
              else s)
            s)
          s
  ]

  -- The session alone: what happens on others, and all trading, leaves it as it is.
  unfoldable pub follow : L.SessionId → Standing → Event → Standing
  unfolding was_sent was_received asks
  follow id s (app_message m i) = ite (L.session_dec i id) (was_received s m) s
  follow id s (admin_message m i) = ite (L.session_dec i id) (asks id (was_received s m) m) s
  follow id s (sends_app m i) = ite (L.session_dec i id) (was_sent s m) s
  follow id s (sends_admin m i) = ite (L.session_dec i id) (was_sent s m) s
  follow id s (logs_on i) = ite (L.session_dec i id) (record s { logged_on = true }) s
  follow id s (logs_out now i) = ite (L.session_dec i id) (record s { logged_on = false }) s
  follow id s (refuses_logons reason) = record s { refusing = reason }
  follow id s _ = s

  unfoldable pub follow_all : L.SessionId → Standing → List Event → Standing
  unfolding follow
  follow_all id s [] = s
  follow_all id s (e ∷ es) = follow_all id (follow id s e) es
