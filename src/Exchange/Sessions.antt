-- ===== src/Exchange/Sessions.antt =====
-- The gap drill and the sessions' report, AdvanceSeqNum and Sessions of internal/exchange/commands.go.
-- GetExpectedSenderNum and SetNextSenderMsgSeqNum of the engine are arguments.
pub mod Sorting
pub mod Advance
use fix_session_lab.Base.{ℕ, Bool, true, false, List, [], ◌∷◌, Option, none, some, ite, map}
use fix_session_lab.Base.Int.{ℤ, pos, leb_ℤ, ◌+ℤ◌, wrap64}
use fix_session_lab.Base.Lists.{if◌then◌else◌, ltb}
use fix_session_lab.Base.Map.{lookup, lookup_or}
use fix_session_lab.Base.Text.{Text}
use fix_session_lab.Deps.{Deps, Result, ok, err, ◌>>=◌}
use fix_session_lab.Exchange.{App, Kind, SeqNums, no_seqnums, session_of, is_logged_on}
use fix_session_lab.Session.{LogonRequest}

pub data AdvanceError : Type 0 where
  not_positive : ℤ → AdvanceError
  no_session_configured : Kind → AdvanceError
  store_failed : Text → AdvanceError

-- Go's `<` on strings.
unfoldable pub text_less : Text → Text → Bool
text_less s [] = false
text_less [] (b ∷ t) = true
text_less (a ∷ s) (b ∷ t) =
    let rest = text_less s t in if ltb a b then true else (if ltb b a then false else rest)

module _ ⦃L : Deps⦄ where
  unfoldable pub advance_store :
      (L.SessionId → Result Text ℤ)
      → (L.SessionId → ℤ → Option Text)
      → L.SessionId
      → ℤ
      → Result AdvanceError ℤ
  advance_store expected_sender_num set_next id n = elim (expected_sender_num id) [
    | err e ↦ err (store_failed e)
    | ok current ↦
        let next = wrap64 (current +ℤ n) in
        elim (set_next id next) [ none ↦ ok next | some e ↦ err (store_failed e) ]
  ]

  -- A session whose id is the zero value counts as none.
  unfoldable pub advance_seq_num :
      (L.SessionId → Result Text ℤ)
      → (L.SessionId → ℤ → Option Text)
      → App
      → Kind
      → ℤ
      → Result AdvanceError ℤ
  unfolding advance_store
  advance_seq_num expected_sender_num set_next a kind n =
      if leb_ℤ n (pos 0) then err (not_positive n) else elim (session_of a kind) [
        | none ↦ err (no_session_configured kind)
        | some id ↦
            ite (L.session_dec id L.no_session) (err (no_session_configured kind))
              (advance_store expected_sender_num set_next id n)
      ]

  pub record SessionStatus : Type 0 where
    pub session_id : Text
    pub kind : Kind
    pub logged_on : Bool
    pub seqnums : SeqNums
    pub cod_type : ℤ
    pub cod_timeout : ℤ

  -- A session that never armed cancel-on-disconnect reads as one that did so with zeros.
  unfoldable pub session_status : App → L.SessionId × Kind → SessionStatus
  session_status a (id, kind) = record {
    session_id = L.session_string id;
    kind = kind;
    logged_on = is_logged_on a id;
    seqnums = lookup_or L.session_dec no_seqnums id a.seqnums;
    cod_type = elim (lookup L.session_dec id a.cod) [ none ↦ pos 0 | some r ↦ r.cod_type ];
    cod_timeout = elim (lookup L.session_dec id a.cod) [
      | none ↦ pos 0
      | some r ↦ r.cod_timeout_window
    ];
  }

  -- sort.Slice, as an insertion sort; it leaves the order of equal keys open.
  unfoldable pub insert_status : SessionStatus → List SessionStatus → List SessionStatus
  unfolding text_less
  insert_status x [] = x ∷ []
  insert_status x (y ∷ ys) =
      let rest = insert_status x ys in
      if text_less y.session_id x.session_id then y ∷ rest else x ∷ y ∷ ys

  unfoldable pub sort_statuses : List SessionStatus → List SessionStatus
  unfolding insert_status
  sort_statuses [] = []
  sort_statuses (x ∷ xs) = insert_status x (sort_statuses xs)

  unfoldable pub sessions : App → List SessionStatus
  unfolding session_status sort_statuses
  sessions a = sort_statuses (map (session_status a) a.kinds)
