-- ===== src/Exchange/Races/Replay.antt =====
-- The book while calls overlap, beside a list of orders that changes one act at a time: Update and
-- Insert of internal/exchange/book.go under the methods of commands.go and reports.go.
use fix_session_lab.Base.{
  ℕ, zero, suc, ◌+◌, ◌≡◌, refl, sym, ap, ◌∙◌, subst, inl, inr, List, [], ◌∷◌, Option, none, some,
  arith,
}
use fix_session_lab.Base.Lists.{if◌then◌else◌, Bool-cases}
use fix_session_lab.Base.Text.{Text}
use fix_session_lab.Book.{Book, Error, Change, update, insert_order, all_orders, next_exec_id}
use fix_session_lab.Book.Spec.{spec_insert, spec_update, KeepsId}
use fix_session_lab.Book.Refines.{viewed, IsWellFormedIfOk, insert_order-refines, update-refines}
use fix_session_lab.Book.View.{IsWellFormed}
use fix_session_lab.Deps.{Deps, Result, ok, err, Result-cases}
use fix_session_lab.Exchange.{App, order_entry, drop_copy, session_of}
use fix_session_lab.Exchange.Commands.{fill_change, cancel_change, reject_change, trade_report}
use fix_session_lab.Exchange.Races.{
  Call, advance, Busy, move_at, begin_report, begin_accept, RaceAct, trades, cancels, rejects,
  sweeps, accepts, silences, moves, race_step, race, Stage, inserted, called, asked, numbered,
  half_sent,
}
use fix_session_lab.Exchange.Reports.{Report, send_to, set_canceled}
use fix_session_lab.Exchange.Updates.{
  fill_change-KeepsId, cancel_change-KeepsId, reject_change-KeepsId,
}
use fix_session_lab.Exchange.MassCancel.{set_canceled-KeepsId}
use fix_session_lab.Exchange.Races.Once.{quiet}
use fix_session_lab.Order.{OrderState}

module _ ⦃L : Deps⦄ where
  -- The list of orders, and how many were taken.
  pub record Ledger : Type 0 where
    pub orders : List (OrderState L.Decimal)
    pub taken : ℕ

  abbrev pub ledger_of : Book L.Decimal → Ledger
  ledger_of b = record { orders = all_orders b; taken = b.order_seq }

  abbrev pub changed : Ledger → Text → Change L.Decimal → Ledger
  changed l id f = record l { orders = (spec_update l.orders id f).0 }

  -- An act on the list, all at once; what is left of a method has no effect on it.
  unfoldable pub replay_step : Ledger → RaceAct → Ledger
  unfolding spec_update spec_insert fill_change cancel_change reject_change set_canceled
  replay_step l (trades id qty px) =
      if L.less_eq qty L.zero_dec then l else changed l id (fill_change id qty px)
  replay_step l (cancels id reason) = changed l id (cancel_change id)
  replay_step l (rejects id reason) = changed l id (reject_change id)
  replay_step l (sweeps id reason) = changed l id set_canceled
  replay_step l (accepts o) = elim (spec_insert l.taken l.orders o) [
    | err e ↦ l
    | ok (os, o') ↦ record { orders = os; taken = l.taken + 1 }
  ]
  replay_step l (silences v) = l
  replay_step l (moves n) = l

  unfoldable pub replay : Ledger → List RaceAct → Ledger
  unfolding replay_step
  replay l [] = l
  replay l (x ∷ xs) = replay (replay_step l x) xs

  -- The orders of a book are those of a ledger, and it is well-formed.
  record Keeps (l : Ledger) (b : Book L.Decimal) : Type 0 where
    same : ledger_of b ≡ l
    well_formed : IsWellFormed b

  ledger-same :
      (b : Book L.Decimal) (l : Ledger)
      → all_orders b ≡ l.orders
      → b.order_seq ≡ l.taken
      → ledger_of b ≡ l
  ledger-same b l e f = cc

  update-order_seq :
      (b : Book L.Decimal) (id : Text) (f : Change L.Decimal)
      → (update b id f).0.order_seq ≡ b.order_seq
  unfolding update fix_session_lab.Book.change_at
  update-order_seq b id f = ground arith

  update-Keeps :
      (b : Book L.Decimal) (id : Text) (f : Change L.Decimal)
      → IsWellFormed b
      → KeepsId f
      → Keeps (changed (ledger_of b) id f) (update b id f).0
  update-Keeps b id f w keeps =
      let (os, answered, w') = update-refines b id f w keeps in
      record {
        same = ledger-same _ (changed (ledger_of b) id f) os (update-order_seq b id f);
        well_formed = w';
      }

  begin_report-book :
      (s : Busy) (q : Book L.Decimal × Result (Error L.Decimal) (OrderState L.Decimal))
      (report : OrderState L.Decimal → Report L.Decimal)
      → (begin_report s q report).app.book ≡ q.0
  unfolding begin_report
  begin_report-book s (b, err e) report = refl
  begin_report-book s (b, ok o) report = refl

  begin_report-Keeps :
      (s : Busy) (id : Text) (f : Change L.Decimal)
      (report : OrderState L.Decimal → Report L.Decimal)
      → IsWellFormed s.app.book
      → KeepsId f
      → Keeps
          (changed (ledger_of s.app.book) id f)
          (begin_report s (update s.app.book id f) report).app.book
  begin_report-Keeps s id f report w keeps =
      subst (Keeps (changed (ledger_of s.app.book) id f))
        (sym (begin_report-book s (update s.app.book id f) report))
        (update-Keeps s.app.book id f w keeps)

  send_to-Keeps :
      (a : App) (r : Report L.Decimal) (k : Text) (id : Option L.SessionId)
      → IsWellFormed a.book
      → Keeps (ledger_of a.book) (send_to a r k id).book
  unfolding send_to
  send_to-Keeps a r k none w = record { same = refl; well_formed = w }
  send_to-Keeps a r k (some id) w = record { same = refl; well_formed = w }

  -- A move of a call of publish keeps the orders.
  advance-Keeps :
      (a : App) (r : Report L.Decimal) (st : Stage)
      → IsWellFormed a.book
      → Keeps (ledger_of a.book) (advance a (record { report = r; stage = st })).0.book
  unfolding advance send_to next_exec_id all_orders
  advance-Keeps a r inserted w = record { same = refl; well_formed = w }
  advance-Keeps a r called w = record { same = refl; well_formed = w }
  advance-Keeps a r (asked silenced) w = record {
    same = refl;
    well_formed = record { mapped = w.mapped; in_sequence = w.in_sequence; distinct = w.distinct };
  }
  advance-Keeps a r (numbered k) w = send_to-Keeps a r k (session_of a order_entry) w
  advance-Keeps a r (half_sent k) w = send_to-Keeps a r k (session_of a drop_copy) w

  move_at-Keeps :
      (a : App) (cs : List Call) (n : ℕ)
      → IsWellFormed a.book
      → Keeps (ledger_of a.book) (move_at a cs n).0.book
  unfolding move_at
  move_at-Keeps a [] n w = record { same = refl; well_formed = w }
  move_at-Keeps a (c ∷ cs) zero w = advance-Keeps a c.report c.stage w
  move_at-Keeps a (c ∷ cs) (suc n) w = move_at-Keeps a cs n w

  insert_order-order_seq :
      (b : Book L.Decimal) (o : OrderState L.Decimal) (q : Book L.Decimal × OrderState L.Decimal)
      → insert_order b o ≡ ok q
      → q.0.order_seq ≡ b.order_seq + 1
  unfolding insert_order
  insert_order-order_seq b o q e = ground arith

  accepts-Keeps :
      (s : Busy) (o : OrderState L.Decimal)
      → IsWellFormed s.app.book
      → Keeps (replay_step (ledger_of s.app.book) (accepts o)) (race_step s (accepts o)).app.book
  unfolding race_step replay_step begin_accept
  accepts-Keeps s o w = elim (Result-cases (insert_order s.app.book o)) [
    | inr (e, bad) ↦
        let spec = sym (insert_order-refines s.app.book o w).0 ∙ ap viewed bad in
        rw (bad, spec, race_step, replay_step) (record { same = refl; well_formed = w })
    | inl ((b, o'), good) ↦
        let (view, fine) = insert_order-refines s.app.book o w in
        let spec = sym view ∙ ap viewed good in
        rw (good, spec, race_step, replay_step)
          (record {
            same = ledger-same b _ refl (insert_order-order_seq s.app.book o (b, o') good);
            well_formed = subst IsWellFormedIfOk good fine;
          })
  ]

  race_step-Keeps :
      (s : Busy) (x : RaceAct)
      → IsWellFormed s.app.book
      → Keeps (replay_step (ledger_of s.app.book) x) (race_step s x).app.book
  unfolding race_step replay_step
  race_step-Keeps s (trades id qty px) w = elim (Bool-cases (L.less_eq qty L.zero_dec)) [
    | inl bad ↦ rw bad (record { same = refl; well_formed = w })
    | inr good ↦ rw good (
        begin_report-Keeps s id (fill_change id qty px) (trade_report qty px) w
          (fill_change-KeepsId id qty px))
  ]
  race_step-Keeps s (cancels id reason) w =
      begin_report-Keeps s id (cancel_change id) _ w (cancel_change-KeepsId id)
  race_step-Keeps s (rejects id reason) w =
      begin_report-Keeps s id (reject_change id) _ w (reject_change-KeepsId id)
  race_step-Keeps s (sweeps id reason) w =
      begin_report-Keeps s id set_canceled _ w set_canceled-KeepsId
  race_step-Keeps s (accepts o) w = accepts-Keeps s o w
  race_step-Keeps s (silences v) w = record { same = refl; well_formed = w }
  race_step-Keeps s (moves n) w = move_at-Keeps s.app s.calls n w

  race-Keeps :
      (s : Busy) (xs : List RaceAct)
      → IsWellFormed s.app.book
      → Keeps (replay (ledger_of s.app.book) xs) (race s xs).app.book
  unfolding race replay
  race-Keeps s [] w = record { same = refl; well_formed = w }
  race-Keeps s (x ∷ xs) w =
      let k = race_step-Keeps s x w in
      subst (λ l. Keeps (replay l xs) (race s (x ∷ xs)).app.book) k.same
        (race-Keeps (race_step s x) xs k.well_formed)

  -- From a well-formed book with no call on its way, after any acts of calls that overlap, in whatever
  -- order their moves come, the orders and their number are those of a list of orders on which each
  -- act works all at once and what is left of a method has no effect, and the book is well-formed.
  pub race-replay :
      (a : App) (xs : List RaceAct)
      → IsWellFormed a.book
      → (ledger_of (race (quiet a) xs).app.book ≡ replay (ledger_of a.book) xs)
        × IsWellFormed (race (quiet a) xs).app.book
  race-replay a xs w = let k = race-Keeps (quiet a) xs w in (k.same, k.well_formed)
