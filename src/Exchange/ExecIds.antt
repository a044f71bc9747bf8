-- ===== src/Exchange/ExecIds.antt =====
-- The ExecIDs of the reports that a session is sent: publish of internal/exchange/reports.go.
use fix_session_lab.Base.{
  ℕ, ◌+◌, ◌<◌, ◌≤◌, ◌≡◌, ◌≢◌, refl, sym, ◌∙◌, ◌⊎◌, inl, inr, Bool, List, [], ◌∷◌, arith,
}
use fix_session_lab.Base.Lists.{All, Bool-cases}
use fix_session_lab.Book.{exec_id_of}
use fix_session_lab.Book.Ids.{exec_id_of-injective}
use fix_session_lab.Deps.{Deps}
use fix_session_lab.Exchange.{App, ExecutionReport}
use fix_session_lab.Exchange.Fanout.{reports_to, reports_to-role, Roles, Steps-Roles, same-Roles}
use fix_session_lab.Exchange.Publish.{publish_lem}
use fix_session_lab.Exchange.Reports.{Report, publish, build_execution_report}
use fix_session_lab.Exchange.Steps.{Step, quiet, accepts, changes, hushes, Steps, here, next}

module _ {D : Type 0} where
  -- Numbers below `n` that fall along the list make the ExecIDs.
  abbrev pub Below : ℕ → List (ExecutionReport D) → Type 0
  Below n [] = Unit {0}
  Below n (er ∷ ers) = (k : ℕ) × (k < n) × (er.exec_id ≡ exec_id_of k) × Below k ers

  Below-mono : {m n : ℕ} (ers : List (ExecutionReport D)) → m ≤ n → Below m ers → Below n ers
  Below-mono [] h b = tt
  Below-mono (er ∷ ers) h (k, lt, e, rest) = (k, omega arith, e, rest)

  -- No ExecID stands twice.
  abbrev pub Unrepeated : List (ExecutionReport D) → Type 0
  Unrepeated [] = Unit {0}
  Unrepeated (er ∷ ers) = All (λ f. f.exec_id ≢ er.exec_id) ers × Unrepeated ers

  Below-All :
      (n k : ℕ) (ers : List (ExecutionReport D))
      → n ≤ k
      → Below n ers
      → All (λ f. f.exec_id ≢ exec_id_of k) ers
  Below-All n k [] h b = tt
  Below-All n k (er ∷ ers) h (j, lt, e, rest) = (
    λ same. absurd (omega (arith, exec_id_of-injective j k (sym e ∙ same))),
    Below-All j k ers (omega arith) rest,
  )

  pub Below-Unrepeated : (n : ℕ) (ers : List (ExecutionReport D)) → Below n ers → Unrepeated ers
  Below-Unrepeated n [] b = tt
  Below-Unrepeated n (er ∷ ers) (k, lt, e, rest) =
      (rw e (Below-All k k ers (omega arith) rest), Below-Unrepeated k ers rest)

module _ ⦃L : Deps⦄ where
  -- The reports to a session have ExecIDs that the book has given.
  abbrev pub IsNumbered : L.SessionId → App → Type 0
  IsNumbered id a = Below (a.book.exec_seq + 1) (reports_to id a.outbox)

  publish-IsNumbered :
      (a : App) (r : Report L.Decimal) (oe dc id : L.SessionId)
      → Roles a oe dc
      → (id ≡ oe) ⊎ (id ≡ dc)
      → IsNumbered id a
      → IsNumbered id (publish a r)
  unfolding build_execution_report
  publish-IsNumbered a r oe dc id roles role h =
      rw (reports_to-role a r oe dc id roles role, publish_lem a r)
        (elim (Bool-cases a.silenced) [
          | inl s ↦ rw s (Below-mono (reports_to id a.outbox) (omega arith) h)
          | inr s ↦ rw s (a.book.exec_seq + 1, omega arith, refl, h)
        ])

  Step-IsNumbered :
      {h : Bool} {a a' : App} {oe dc : L.SessionId} (id : L.SessionId)
      → Step h a a'
      → Roles a oe dc
      → (id ≡ oe) ⊎ (id ≡ dc)
      → IsNumbered id a
      → IsNumbered id a'
  Step-IsNumbered id (quiet a' b o k v) roles role h = rw (o, b) h
  Step-IsNumbered id (hushes e v) roles role h = h
  Step-IsNumbered {a = a} {oe = oe} {dc = dc} id (accepts b r c x) roles role h =
      publish-IsNumbered (record a { book = b }) r oe dc id (same-Roles a b roles) role
        (rw c.same_exec_seq h)
  Step-IsNumbered {a = a} {oe = oe} {dc = dc} id (changes b r o c) roles role h =
      publish-IsNumbered (record a { book = b }) r oe dc id (same-Roles a b roles) role
        (rw c.same_exec_seq h)

  pub Steps-IsNumbered :
      {h : Bool} {a a' : App} {oe dc : L.SessionId} (id : L.SessionId)
      → Steps h a a'
      → Roles a oe dc
      → (id ≡ oe) ⊎ (id ≡ dc)
      → IsNumbered id a
      → IsNumbered id a'
  Steps-IsNumbered id here roles role h = h
  Steps-IsNumbered id (next s st) roles role h =
      Step-IsNumbered id st (Steps-Roles s roles) role (Steps-IsNumbered id s roles role h)
