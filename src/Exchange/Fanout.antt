-- ===== src/Exchange/Fanout.antt =====
-- What the two sessions are sent: publish of internal/exchange/reports.go.
use fix_session_lab.Base.{
  ◌≡◌, ◌≢◌, refl, ap, ◌∙◌, ◌⊎◌, inl, inr, Bool, true, false, List, [], ◌∷◌, some, arith, ite,
}
use fix_session_lab.Base.Lists.{if◌then◌else◌}
use fix_session_lab.Book.{Book}
use fix_session_lab.Deps.{Deps}
use fix_session_lab.Exchange.{
  App, ExecutionReport, Kind, order_entry, drop_copy, session_of, session_with,
}
use fix_session_lab.Exchange.Publish.{published_report, outbox_after, publish_lem, publish-kinds}
use fix_session_lab.Exchange.Reports.{Report, publish}
use fix_session_lab.Exchange.Steps.{Step, quiet, accepts, changes, hushes, Steps, here, next}

module _ ⦃L : Deps⦄ where
  -- The reports to one session, newest first.
  unfoldable pub reports_to :
      L.SessionId
      → List (L.SessionId × ExecutionReport L.Decimal)
      → List (ExecutionReport L.Decimal)
  reports_to id [] = []
  reports_to id ((j, er) ∷ out) =
      ite (L.session_dec j id) (er ∷ reports_to id out) (reports_to id out)

  -- One session plays each role, and not the same one.
  pub record Roles (a : App) (oe dc : L.SessionId) : Type 0 where
    pub entry : session_of a order_entry ≡ some oe
    pub copy : session_of a drop_copy ≡ some dc
    pub apart : oe ≢ dc

  session_of-kinds : (a a' : App) (k : Kind) → a'.kinds ≡ a.kinds → session_of a' k ≡ session_of a k
  unfolding session_of
  session_of-kinds a a' k e = ap (session_with k) e

  pub Step-kinds : {h : Bool} {a a' : App} → Step h a a' → a'.kinds ≡ a.kinds
  Step-kinds (quiet a' b o k v) = k
  Step-kinds (hushes e v) = refl
  Step-kinds {a = a} (accepts b r c x) = publish-kinds (record a { book = b }) r
  Step-kinds {a = a} (changes b r o c) = publish-kinds (record a { book = b }) r

  pub Step-Roles :
      {h : Bool} {a a' : App} {oe dc : L.SessionId} → Step h a a' → Roles a oe dc → Roles a' oe dc
  Step-Roles {a = a} {a' = a'} st roles = record {
    entry = session_of-kinds a a' order_entry (Step-kinds st) ∙ roles.entry;
    copy = session_of-kinds a a' drop_copy (Step-kinds st) ∙ roles.copy;
    apart = roles.apart;
  }

  pub same-Roles :
      {oe dc : L.SessionId} (a : App) (b : Book L.Decimal)
      → Roles a oe dc
      → Roles (record a { book = b }) oe dc
  same-Roles a b roles = record {
    entry = session_of-kinds a (record a { book = b }) order_entry refl ∙ roles.entry;
    copy = session_of-kinds a (record a { book = b }) drop_copy refl ∙ roles.copy;
    apart = roles.apart;
  }

  fanned :
      (oe dc id : L.SessionId) (er : ExecutionReport L.Decimal)
      (out : List (L.SessionId × ExecutionReport L.Decimal)) (silenced : Bool)
      → oe ≢ dc
      → (id ≡ oe) ⊎ (id ≡ dc)
      → reports_to id (if silenced then out else (dc, er) ∷ (oe, er) ∷ out)
        ≡ (if silenced then reports_to id out else er ∷ reports_to id out)
  unfolding reports_to
  fanned oe dc id er out true apart role = refl
  fanned oe dc id er out false apart (inl e) = ground arith
  fanned oe dc id er out false apart (inr e) = ground arith

  -- What a session is sent when a report is published: the report if it plays a role and the venue
  -- is not silenced.
  pub reports_to-role :
      (a : App) (r : Report L.Decimal) (oe dc id : L.SessionId)
      → Roles a oe dc
      → (id ≡ oe) ⊎ (id ≡ dc)
      → reports_to id (publish a r).outbox ≡ (
          if a.silenced
          then reports_to id a.outbox
          else published_report a r ∷ reports_to id a.outbox)
  unfolding outbox_after
  reports_to-role a r oe dc id roles role =
      rw (publish_lem a r, outbox_after, roles.copy, roles.entry)
        (fanned oe dc id (published_report a r) a.outbox a.silenced roles.apart role)

  -- Venue and drop copy agree: what the order-entry session was sent, the drop copy was sent too, the
  -- same reports with the same ExecIDs in the same order.
  abbrev pub IsMirrored : L.SessionId → L.SessionId → App → Type 0
  IsMirrored oe dc a = reports_to oe a.outbox ≡ reports_to dc a.outbox

  publish-IsMirrored :
      (a : App) (r : Report L.Decimal) (oe dc : L.SessionId)
      → Roles a oe dc
      → IsMirrored oe dc a
      → IsMirrored oe dc (publish a r)
  publish-IsMirrored a r oe dc roles h = rw (
    reports_to-role a r oe dc oe roles (inl refl),
    reports_to-role a r oe dc dc roles (inr refl),
    h,
  )

  Step-IsMirrored :
      {h : Bool} {a a' : App} {oe dc : L.SessionId}
      → Step h a a'
      → Roles a oe dc
      → IsMirrored oe dc a
      → IsMirrored oe dc a'
  Step-IsMirrored (quiet a' b o k v) roles h = rw o h
  Step-IsMirrored (hushes e v) roles h = h
  Step-IsMirrored {a = a} {oe = oe} {dc = dc} (accepts b r c x) roles h =
      publish-IsMirrored (record a { book = b }) r oe dc (same-Roles a b roles) h
  Step-IsMirrored {a = a} {oe = oe} {dc = dc} (changes b r o c) roles h =
      publish-IsMirrored (record a { book = b }) r oe dc (same-Roles a b roles) h

  pub Steps-Roles :
      {h : Bool} {a a' : App} {oe dc : L.SessionId} → Steps h a a' → Roles a oe dc → Roles a' oe dc
  Steps-Roles here roles = roles
  Steps-Roles (next s st) roles = Step-Roles st (Steps-Roles s roles)

  pub Steps-IsMirrored :
      {h : Bool} {a a' : App} {oe dc : L.SessionId}
      → Steps h a a'
      → Roles a oe dc
      → IsMirrored oe dc a
      → IsMirrored oe dc a'
  Steps-IsMirrored here roles h = h
  Steps-IsMirrored (next s st) roles h =
      Step-IsMirrored st (Steps-Roles s roles) (Steps-IsMirrored s roles h)
