-- ===== src/Exchange/Races/Balance.antt =====
-- What two sessions are sent while calls overlap: publish of internal/exchange/reports.go.
use fix_session_lab.Base.{
  ℕ, zero, suc, ◌+◌, ◌≡◌, ◌≢◌, refl, sym, Bool, true, false, List, [], ◌∷◌, Option, none, some,
  arith,
}
use fix_session_lab.Base.Lists.{if◌then◌else◌, keep, length}
use fix_session_lab.Book.{exec_id_of}
use fix_session_lab.Deps.{Deps}
use fix_session_lab.Exchange.{App, ExecutionReport}
use fix_session_lab.Exchange.Fanout.{reports_to, Roles}
use fix_session_lab.Exchange.Races.{
  Stage, inserted, called, asked, numbered, half_sent, Call, advance, move_at,
}
use fix_session_lab.Exchange.Reports.{Report, build_execution_report}

module _ ⦃L : Deps⦄ where
  -- A test of reports.
  abbrev pub Test : Type 0
  Test = ExecutionReport L.Decimal → Bool

  abbrev weight : Test → ExecutionReport L.Decimal → ℕ
  weight p er = if p er then 1 else 0

  -- The reports that a session has been sent and that pass a test.
  abbrev pub sent : Test → L.SessionId → App → ℕ
  sent p id a = length (keep p (reports_to id a.outbox))

  -- The reports that a call has still to send to the order-entry session, and to the drop copy.
  abbrev pub due_entry : Test → Call → ℕ
  due_entry p c = elim (c.stage) [
    | numbered k ↦ if p (build_execution_report c.report k) then 1 else 0
    | _ ↦ 0
  ]

  abbrev pub due_copy : Test → Call → ℕ
  due_copy p c = elim (c.stage) [
    | numbered k ↦ if p (build_execution_report c.report k) then 1 else 0
    | half_sent k ↦ if p (build_execution_report c.report k) then 1 else 0
    | _ ↦ 0
  ]

  abbrev pub total : (Call → ℕ) → List Call → ℕ
  total f [] = 0
  total f (c ∷ cs) = f c + total f cs

  abbrev total_left : (Call → ℕ) → Option Call → ℕ
  total_left f none = 0
  total_left f (some c) = f c

  -- The report that a call makes by taking a number.
  abbrev pub fresh : Test → App → Call → ℕ
  fresh p a c = elim (c.stage) [
    | asked false ↦
        if p (build_execution_report c.report (exec_id_of (a.book.exec_seq + 1))) then 1 else 0
    | _ ↦ 0
  ]

  sent-other :
      (p : Test) (id at : L.SessionId) (er : ExecutionReport L.Decimal)
      (out : List (L.SessionId × ExecutionReport L.Decimal))
      → at ≢ id
      → length (keep p (reports_to id ((at, er) ∷ out))) ≡ length (keep p (reports_to id out))
  unfolding reports_to
  sent-other p id at er out apart = ground arith

  sent-same :
      (p : Test) (id : L.SessionId) (er : ExecutionReport L.Decimal)
      (out : List (L.SessionId × ExecutionReport L.Decimal))
      → length (keep p (reports_to id ((id, er) ∷ out)))
        ≡ length (keep p (reports_to id out)) + weight p er
  unfolding reports_to
  sent-same p id er out = ground arith

  -- What a move sends it no longer owes, and what it owes anew is a report with a new number.
  pub record Moved (p : Test) (oe dc : L.SessionId) (a : App) (a' : App)
      (due_e due_c due_e' due_c' new : ℕ) : Type 0 where
    pub entry : sent p oe a' + due_e' ≡ sent p oe a + due_e + new
    pub copy : sent p dc a' + due_c' ≡ sent p dc a + due_c + new

  abbrev call : Report L.Decimal → Stage → Call
  call r st = record { report = r; stage = st }

  abbrev AdvanceMoved : Test → L.SessionId → L.SessionId → App → Call → Type 0
  AdvanceMoved p oe dc a c =
      Moved p oe dc a (advance a c).0 (due_entry p c) (due_copy p c)
        (total_left (due_entry p) (advance a c).1) (total_left (due_copy p) (advance a c).1)
        (fresh p a c)

  stage-Moved :
      (p : Test) (oe dc : L.SessionId) (a : App) (r : Report L.Decimal) (st : Stage)
      → Roles a oe dc
      → AdvanceMoved p oe dc a (call r st)
  unfolding advance
  stage-Moved p oe dc a r inserted roles = record { entry = omega arith; copy = omega arith }
  stage-Moved p oe dc a r called roles = record { entry = omega arith; copy = omega arith }
  stage-Moved p oe dc a r (asked true) roles = record { entry = omega arith; copy = omega arith }
  stage-Moved p oe dc a r (asked false) roles = record { entry = omega arith; copy = omega arith }
  stage-Moved p oe dc a r (numbered k) roles =
      let er = build_execution_report r k in
      let same = sent-same p oe er a.outbox in
      let other = sent-other p dc oe er a.outbox roles.apart in
      rw (roles.entry, advance)
        (record { entry = omega (arith, same); copy = omega (arith, other) })
  stage-Moved p oe dc a r (half_sent k) roles =
      let er = build_execution_report r k in
      let same = sent-same p dc er a.outbox in
      let other = sent-other p oe dc er a.outbox (λ e. roles.apart (sym e)) in
      rw (roles.copy, advance) (record { entry = omega (arith, other); copy = omega (arith, same) })

  advance-Moved :
      (p : Test) (oe dc : L.SessionId) (a : App) (c : Call)
      → Roles a oe dc
      → AdvanceMoved p oe dc a c
  advance-Moved p oe dc a c roles = stage-Moved p oe dc a c.report c.stage roles

  abbrev pub fresh_at : Test → App → List Call → ℕ → ℕ
  fresh_at p a [] n = 0
  fresh_at p a (c ∷ cs) zero = fresh p a c
  fresh_at p a (c ∷ cs) (suc n) = fresh_at p a cs n

  total-left :
      (f : Call → ℕ) (left : Option Call) (cs : List Call)
      → total f (elim left [ none ↦ cs | some c ↦ c ∷ cs ]) ≡ total_left f left + total f cs
  total-left f none cs = omega arith
  total-left f (some c) cs = refl

  pub move_at-Moved :
      (p : Test) (oe dc : L.SessionId) (a : App) (cs : List Call) (n : ℕ)
      → Roles a oe dc
      → Moved p oe dc a
          (move_at a cs n).0
          (total (due_entry p) cs)
          (total (due_copy p) cs)
          (total (due_entry p) (move_at a cs n).1)
          (total (due_copy p) (move_at a cs n).1)
          (fresh_at p a cs n)
  unfolding move_at
  move_at-Moved p oe dc a [] n roles = record { entry = omega arith; copy = omega arith }
  move_at-Moved p oe dc a (c ∷ cs) zero roles =
      let m = advance-Moved p oe dc a c roles in
      record {
        entry = omega (arith, m.entry, total-left (due_entry p) (advance a c).1 cs);
        copy = omega (arith, m.copy, total-left (due_copy p) (advance a c).1 cs);
      }
  move_at-Moved p oe dc a (c ∷ cs) (suc n) roles =
      let m = move_at-Moved p oe dc a cs n roles in
      record { entry = omega (arith, m.entry); copy = omega (arith, m.copy) }
