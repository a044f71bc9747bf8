-- ===== src/Exchange/Races/Once.antt =====
-- ExecIDs while calls overlap: NextExecID of internal/exchange/book.go in publish of reports.go.
use fix_session_lab.Base.{ℕ, ◌+◌, ◌≤◌, ◌<◌, ◌≡◌, refl, ap, ◌∙◌, ◌⊎◌, inl, inr, List, [], ◌∷◌, arith}
use fix_session_lab.Base.Lists.{Bool-cases}
use fix_session_lab.Base.Text.{Text}
use fix_session_lab.Book.{Book, Error, update, insert_order, Change, change_at}
use fix_session_lab.Deps.{Deps, Result, ok, err}
use fix_session_lab.Exchange.{App, order_entry, drop_copy, session_of, session_with}
use fix_session_lab.Exchange.Fanout.{reports_to, Roles}
use fix_session_lab.Exchange.Guarantees.{IsFresh}
use fix_session_lab.Exchange.Races.{
  inserted, called, Call, Busy, begin_report, begin_accept, RaceAct, trades, cancels, rejects,
  sweeps, accepts, silences, moves, race_step, race,
}
use fix_session_lab.Exchange.Races.Numbering.{has_id, move_at-Numbering}
use fix_session_lab.Exchange.Races.Balance.{
  Test, sent, due_entry, due_copy, total, fresh, move_at-Moved,
}
use fix_session_lab.Exchange.Commands.{fill_change, cancel_change, reject_change, trade_report}
use fix_session_lab.Exchange.Reports.{Report, simple_report, set_canceled}
use fix_session_lab.Order.{OrderState, ExecType, restatement_cancel_on_disconnect}

module _ ⦃L : Deps⦄ where
  -- The reports that a session has been sent, with those that are due to it.
  abbrev entry_all : Test → L.SessionId → Busy → ℕ
  entry_all p oe s = sent p oe s.app + total (due_entry p) s.calls

  record Balanced (oe dc : L.SessionId) (s : Busy) : Type 0 where
    roles : Roles s.app oe dc
    same : (p : Test) → entry_all p oe s ≡ sent p dc s.app + total (due_copy p) s.calls
    once : (k : ℕ) → entry_all (has_id k) oe s ≤ 1
    later : (k : ℕ) → s.app.book.exec_seq < k → entry_all (has_id k) oe s ≡ 0

  pub same_kinds-Roles :
      {oe dc : L.SessionId} (a a' : App) → a'.kinds ≡ a.kinds → Roles a oe dc → Roles a' oe dc
  unfolding session_of
  same_kinds-Roles a a' e roles = record {
    entry = ap (session_with order_entry) e ∙ roles.entry;
    copy = ap (session_with drop_copy) e ∙ roles.copy;
    apart = roles.apart;
  }

  moved-Balanced :
      (oe dc : L.SessionId) (s : Busy) (n : ℕ)
      → Balanced oe dc s
      → Balanced oe dc (race_step s (moves n))
  unfolding race_step
  moved-Balanced oe dc s n b =
      let m = λ (p : Test). move_at-Moved p oe dc s.app s.calls n b.roles in
      let t = λ (k : ℕ). move_at-Numbering k s.app s.calls n in
      record {
        roles = same_kinds-Roles s.app _ (t 0).same_kinds b.roles;
        same = λ p. omega (arith, (m p).entry, (m p).copy, b.same p);
        once = λ k. elim ((t k).which) [
          | inl old ↦ omega (arith, (m (has_id k)).entry, b.once k, old)
          | inr (new, up) ↦
              omega (arith, (m (has_id k)).entry, b.later k (omega (arith, new)), (t k).few)
        ];
        later = λ k h. elim ((t k).which) [
          | inl old ↦
              omega (arith, (m (has_id k)).entry, b.later k (omega (arith, h, (t k).up)), old)
          | inr (new, up) ↦ absurd (omega (arith, new, up, h))
        ];
      }

  -- What was due to a session is due when a call has begun to which nothing is.
  total-begun :
      (f : Call → ℕ) (c : Call) (cs cs' : List Call)
      → cs' ≡ c ∷ cs
      → f c ≡ 0
      → total f cs' ≡ total f cs
  total-begun f c cs cs' e z = ap (total f) e ∙ omega (arith, z)

  -- No call has begun, or one has begun that has sent nothing.
  data Begun (cs cs' : List Call) : Type 0 where
    none_begun : cs' ≡ cs → Begun cs cs'
    one_begun : (c : Call) → cs' ≡ c ∷ cs → (c.stage ≡ called) ⊎ (c.stage ≡ inserted) → Begun cs cs'

  total-Begun_entry :
      (p : Test) {cs cs' : List Call}
      → Begun cs cs'
      → total (due_entry p) cs' ≡ total (due_entry p) cs
  total-Begun_entry p (none_begun e) = ap (total (due_entry p)) e
  total-Begun_entry p (one_begun c e (inl st)) = total-begun (due_entry p) c _ _ e (rw st refl)
  total-Begun_entry p (one_begun c e (inr st)) = total-begun (due_entry p) c _ _ e (rw st refl)

  total-Begun_copy :
      (p : Test) {cs cs' : List Call}
      → Begun cs cs'
      → total (due_copy p) cs' ≡ total (due_copy p) cs
  total-Begun_copy p (none_begun e) = ap (total (due_copy p)) e
  total-Begun_copy p (one_begun c e (inl st)) = total-begun (due_copy p) c _ _ e (rw st refl)
  total-Begun_copy p (one_begun c e (inr st)) = total-begun (due_copy p) c _ _ e (rw st refl)

  -- The same venue but for its book and its switches, with a call that has sent nothing.
  began-Balanced :
      (oe dc : L.SessionId) (s t : Busy)
      → Balanced oe dc s
      → t.app.kinds ≡ s.app.kinds
      → t.app.outbox ≡ s.app.outbox
      → t.app.book.exec_seq ≡ s.app.book.exec_seq
      → Begun s.calls t.calls
      → Balanced oe dc t
  began-Balanced oe dc s t b kinds out seq calls =
      let e : (p : Test) → total (due_entry p) t.calls ≡ total (due_entry p) s.calls =
        λ p. total-Begun_entry p calls in
      let d : (p : Test) → total (due_copy p) t.calls ≡ total (due_copy p) s.calls =
        λ p. total-Begun_copy p calls in
      record {
        roles = same_kinds-Roles s.app t.app kinds b.roles;
        same = λ p. rw (out, e p, d p) (b.same p);
        once = λ k. rw (out, e (has_id k)) (b.once k);
        later = λ k h. rw (out, e (has_id k)) (b.later k (omega (arith, h, seq)));
      }

  update-exec_seq :
      (b : Book L.Decimal) (id : Text) (f : Change L.Decimal)
      → (update b id f).0.exec_seq ≡ b.exec_seq
  unfolding update change_at
  update-exec_seq b id f = ground arith

  begin_report-Balanced :
      (oe dc : L.SessionId) (s : Busy)
      (q : Book L.Decimal × Result (Error L.Decimal) (OrderState L.Decimal))
      (report : OrderState L.Decimal → Report L.Decimal)
      → Balanced oe dc s
      → q.0.exec_seq ≡ s.app.book.exec_seq
      → Balanced oe dc (begin_report s q report)
  unfolding begin_report
  begin_report-Balanced oe dc s (book, err e) report b seq =
      began-Balanced oe dc s _ b refl refl seq (none_begun refl)
  begin_report-Balanced oe dc s (book, ok o) report b seq =
      began-Balanced oe dc s _ b refl refl seq (one_begun _ refl (inl refl))

  insert_order-exec_seq :
      (b : Book L.Decimal) (o : OrderState L.Decimal) (q : Book L.Decimal × OrderState L.Decimal)
      → insert_order b o ≡ ok q
      → q.0.exec_seq ≡ b.exec_seq
  unfolding insert_order
  insert_order-exec_seq b o q e = ground arith

  begin_accept-Balanced :
      (oe dc : L.SessionId) (s : Busy)
      (q : Result (Error L.Decimal) (Book L.Decimal × OrderState L.Decimal))
      → Balanced oe dc s
      → ((q' : Book L.Decimal × OrderState L.Decimal)
          → q ≡ ok q'
          → q'.0.exec_seq ≡ s.app.book.exec_seq)
      → Balanced oe dc (begin_accept s q)
  unfolding begin_accept
  begin_accept-Balanced oe dc s (err e) b seq = b
  begin_accept-Balanced oe dc s (ok (book, o)) b seq =
      began-Balanced oe dc s _ b refl refl (seq _ refl) (one_begun _ refl (inr refl))

  updated-Balanced :
      (oe dc : L.SessionId) (s : Busy) (id : Text) (f : Change L.Decimal)
      (report : OrderState L.Decimal → Report L.Decimal)
      → Balanced oe dc s
      → Balanced oe dc (begin_report s (update s.app.book id f) report)
  updated-Balanced oe dc s id f report b =
      begin_report-Balanced oe dc s (update s.app.book id f) report b
        (update-exec_seq s.app.book id f)

  race_step-Balanced :
      (oe dc : L.SessionId) (s : Busy) (x : RaceAct)
      → Balanced oe dc s
      → Balanced oe dc (race_step s x)
  unfolding race_step
  race_step-Balanced oe dc s (trades id qty px) b = elim (Bool-cases (L.less_eq qty L.zero_dec)) [
    | inl bad ↦ rw bad b
    | inr good ↦
        rw good (updated-Balanced oe dc s id (fill_change id qty px) (trade_report qty px) b)
  ]
  race_step-Balanced oe dc s (cancels id reason) b =
      updated-Balanced oe dc s id (cancel_change id)
        (λ o. simple_report o ExecType.canceled reason 0) b
  race_step-Balanced oe dc s (rejects id reason) b =
      updated-Balanced oe dc s id (reject_change id)
        (λ o. simple_report o ExecType.rejected reason 0) b
  race_step-Balanced oe dc s (sweeps id reason) b =
      updated-Balanced oe dc s id set_canceled
        (λ o. simple_report o ExecType.canceled reason restatement_cancel_on_disconnect) b
  race_step-Balanced oe dc s (accepts o) b =
      begin_accept-Balanced oe dc s (insert_order s.app.book o) b
        (insert_order-exec_seq s.app.book o)
  race_step-Balanced oe dc s (silences v) b =
      began-Balanced oe dc s _ b refl refl refl (none_begun refl)
  race_step-Balanced oe dc s (moves n) b = moved-Balanced oe dc s n b

  race-Balanced :
      (oe dc : L.SessionId) (s : Busy) (xs : List RaceAct)
      → Balanced oe dc s
      → Balanced oe dc (race s xs)
  unfolding race
  race-Balanced oe dc s [] b = b
  race-Balanced oe dc s (x ∷ xs) b =
      race-Balanced oe dc (race_step s x) xs (race_step-Balanced oe dc s x b)

  -- No call is on its way.
  abbrev pub quiet : App → Busy
  quiet a = record { app = a; calls = [] }

  quiet-Balanced :
      (oe dc : L.SessionId) (a : App) → IsFresh a → Roles a oe dc → Balanced oe dc (quiet a)
  unfolding reports_to
  quiet-Balanced oe dc a fresh roles = record {
    roles = roles;
    same = λ p. rw fresh.nothing_sent refl;
    once = λ k. rw fresh.nothing_sent (omega arith);
    later = λ k h. rw fresh.nothing_sent refl;
  }

  -- From a venue with no order and nothing sent, with one order-entry and one other drop-copy session,
  -- and with no call on its way: after any acts, in whatever order the moves of calls that overlap
  -- come, the reports that pass a test and that the order-entry session was sent or is still due are
  -- as many as those that the drop copy was sent or is still due, and neither session was sent an
  -- ExecID twice.
  pub race-sent :
      (a : App) (xs : List RaceAct) (oe dc : L.SessionId) (p : Test) (k : ℕ)
      → IsFresh a
      → Roles a oe dc
      → (sent p oe (race (quiet a) xs).app + total (due_entry p) (race (quiet a) xs).calls
          ≡ sent p dc (race (quiet a) xs).app + total (due_copy p) (race (quiet a) xs).calls)
        × (sent (has_id k) oe (race (quiet a) xs).app ≤ 1)
        × (sent (has_id k) dc (race (quiet a) xs).app ≤ 1)
  race-sent a xs oe dc p k fresh roles =
      let b = race-Balanced oe dc (quiet a) xs (quiet-Balanced oe dc a fresh roles) in
      (b.same p, omega (arith, b.once k), omega (arith, b.once k, b.same (has_id k)))
