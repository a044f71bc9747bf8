-- ===== src/Exchange/Standing/Listed.antt =====
-- What Sessions of internal/exchange/commands.go reports after events.
use fix_session_lab.Base.{◌≡◌, refl, ap, ◌∙◌, List, [], ◌∷◌, none, some, map}
use fix_session_lab.Base.Int.{pos}
use fix_session_lab.Deps.{Deps}
use fix_session_lab.Exchange.{App, Kind}
use fix_session_lab.Exchange.Events.{Event, run}
use fix_session_lab.Exchange.Sessions.{SessionStatus, session_status, sort_statuses, sessions}
use fix_session_lab.Exchange.Standing.{Standing, standing_of, follow_all}
use fix_session_lab.Exchange.Standing.Follows.{run-follow_all}
use fix_session_lab.Exchange.Standing.Kinds.{run-kinds}

module _ ⦃L : Deps⦄ where
  -- A session's line.
  abbrev pub line_of : Standing → L.SessionId × Kind → SessionStatus
  line_of s (id, kind) = record {
    session_id = L.session_string id;
    kind = kind;
    logged_on = s.logged_on;
    seqnums = s.seqnums;
    cod_type = elim (s.asked) [ none ↦ pos 0 | some r ↦ r.cod_type ];
    cod_timeout = elim (s.asked) [ none ↦ pos 0 | some r ↦ r.cod_timeout_window ];
  }

  -- The lines of the sessions, each followed alone.
  abbrev pub lines_of : App → List Event → List (L.SessionId × Kind) → List SessionStatus
  lines_of a es [] = []
  lines_of a es ((id, kind) ∷ qs) =
      line_of (follow_all id (standing_of a id) es) (id, kind) ∷ lines_of a es qs

  map-line_of :
      (a : App) (es : List Event) (qs : List (L.SessionId × Kind))
      → map (session_status (run a es)) qs ≡ lines_of a es qs
  unfolding session_status
  map-line_of a es [] = refl
  map-line_of a es ((id, kind) ∷ qs) =
      ap (λ (s : Standing). line_of s (id, kind) ∷ map (session_status (run a es)) qs)
        (run-follow_all a id es)
      ∙ ap (λ ls. line_of (follow_all id (standing_of a id) es) (id, kind) ∷ ls)
          (map-line_of a es qs)

  -- After any sequence of events, from any state of the venue, Sessions reports the sessions that it
  -- had, sorted by their text, each with what following that session alone gives: whether it last
  -- logged on or out, the last readable numbers that it was sent and that came from it, and the
  -- cancel-on-disconnect fields of its last Logon that was taken, which is one that came when no
  -- reason stood against all Logons and whose password was the expected one, if one was; what happens
  -- on other sessions and all trading change none of this.
  pub sessions-lines_of :
      (a : App) (es : List Event) → sessions (run a es) ≡ sort_statuses (lines_of a es a.kinds)
  unfolding sessions
  sessions-lines_of a es =
      ap (λ (m : List (L.SessionId × Kind)). sort_statuses (map (session_status (run a es)) m))
        (run-kinds a es)
      ∙ ap sort_statuses (map-line_of a es a.kinds)
