-- ===== src/Exchange/Races.antt =====
-- Calls of the venue's methods that overlap: the control plane, a session and a timer each call from a
-- goroutine of their own, internal/exchange/commands.go and reports.go. A method locks only for its
-- change of the book and for each of the reads and writes of publish, so other calls come between
-- these; each is one move here, and what the scheduler chooses is the list of acts.
pub mod Balance
pub mod Numbering
pub mod Once
pub mod Replay
pub mod Swept
pub mod Overtaken
use fix_session_lab.Base.{ℕ, zero, suc, Bool, true, false, List, [], ◌∷◌, ◌++◌, Option, none, some}
use fix_session_lab.Base.Lists.{if◌then◌else◌}
use fix_session_lab.Base.Text.{Text}
use fix_session_lab.Book.{Book, Error, update, insert_order, get, next_exec_id}
use fix_session_lab.Deps.{Deps, Result, ok, err}
use fix_session_lab.Exchange.{App, order_entry, drop_copy, session_of}
use fix_session_lab.Exchange.Commands.{
  fill_change, cancel_change, reject_change, trade_report, set_silenced,
}
use fix_session_lab.Exchange.Reports.{Report, simple_report, send_to, set_canceled}
use fix_session_lab.Order.{OrderState, ExecType, restatement_cancel_on_disconnect}

-- How far a call of publish is.
pub data Stage : Type 0 where
  -- Insert has returned, and the order behind its pointer is yet to be read for the call
  inserted : Stage
  called : Stage
  -- it has read whether the venue is silenced
  asked : Bool → Stage
  -- it has its ExecID and has sent nothing
  numbered : Text → Stage
  -- it has sent to the order-entry session
  half_sent : Text → Stage

module _ ⦃L : Deps⦄ where
  pub record Call : Type 0 where
    pub report : Report L.Decimal
    pub stage : Stage

  -- `*o` after Insert: the order as the book has it by then.
  unfoldable pub reread : Book L.Decimal → Report L.Decimal → Report L.Decimal
  unfolding get
  reread b r = elim (get b r.order.cl_ord_id) [ none ↦ r | some o ↦ record r { order = o } ]

  -- The next move of a call of publish, and what is left of the call.
  unfoldable pub advance : App → Call → App × Option Call
  unfolding next_exec_id send_to session_of reread
  advance a c = elim (c.stage) [
    | inserted ↦ (a, some (record { report = reread a.book c.report; stage = called }))
    | called ↦ (a, some (record c { stage = asked a.silenced }))
    | asked silenced ↦
        let (book, exec_id) = next_exec_id a.book in
        (
          record a { book = book },
          if silenced then none else some (record c { stage = numbered exec_id }),
        )
    | numbered exec_id ↦ (
      send_to a c.report exec_id (session_of a order_entry),
      some (record c { stage = half_sent exec_id }),
    )
    | half_sent exec_id ↦ (send_to a c.report exec_id (session_of a drop_copy), none)
  ]

  -- The venue with the calls of publish that are on their way.
  pub record Busy : Type 0 where
    pub app : App
    pub calls : List Call

  -- The move of the call at a position; there is none behind the last one.
  unfoldable pub move_at : App → List Call → ℕ → App × List Call
  unfolding advance
  move_at a [] n = (a, [])
  move_at a (c ∷ cs) zero =
      let (a', left) = advance a c in (a', elim left [ none ↦ cs | some c' ↦ c' ∷ cs ])
  move_at a (c ∷ cs) (suc n) = let (a', cs') = move_at a cs n in (a', c ∷ cs')

  -- What follows a change of the book: nothing on an error, a call of publish otherwise.
  unfoldable pub begin_report :
      Busy
      → Book L.Decimal × Result (Error L.Decimal) (OrderState L.Decimal)
      → (OrderState L.Decimal → Report L.Decimal)
      → Busy
  begin_report s (book, err e) report = record s { app = record s.app { book = book } }
  begin_report s (book, ok o) report = record {
    app = record s.app { book = book };
    calls = record { report = report o; stage = called } ∷ s.calls;
  }

  -- The same of Insert, which changes nothing on an error; the order that it was given is read again,
  -- without the lock, when publish is called.
  unfoldable pub begin_accept :
      Busy → Result (Error L.Decimal) (Book L.Decimal × OrderState L.Decimal) → Busy
  unfolding simple_report
  begin_accept s (err e) = s
  begin_accept s (ok (book, o)) = record {
    app = record s.app { book = book };
    calls = record { report = simple_report o ExecType.new [] 0; stage = inserted } ∷ s.calls;
  }

  pub data RaceAct : Type 0 where
    -- Partial; Fill is one whose quantity it has read before
    trades : Text → L.Decimal → L.Decimal → RaceAct
    cancels : Text → Text → RaceAct
    rejects : Text → Text → RaceAct
    -- one round of the loop of CancelAllOpenDay
    sweeps : Text → Text → RaceAct
    accepts : OrderState L.Decimal → RaceAct
    silences : Bool → RaceAct
    moves : ℕ → RaceAct

  unfoldable pub race_step : Busy → RaceAct → Busy
  unfolding begin_report begin_accept move_at update insert_order fill_change cancel_change
      reject_change set_canceled trade_report simple_report set_silenced
  race_step s (trades id qty px) =
      if L.less_eq qty L.zero_dec
      then s
      else begin_report s (update s.app.book id (fill_change id qty px)) (trade_report qty px)
  race_step s (cancels id reason) =
      begin_report s (update s.app.book id (cancel_change id))
        (λ o. simple_report o ExecType.canceled reason 0)
  race_step s (rejects id reason) =
      begin_report s (update s.app.book id (reject_change id))
        (λ o. simple_report o ExecType.rejected reason 0)
  race_step s (sweeps id reason) =
      begin_report s (update s.app.book id set_canceled)
        (λ o. simple_report o ExecType.canceled reason restatement_cancel_on_disconnect)
  race_step s (accepts o) = begin_accept s (insert_order s.app.book o)
  race_step s (silences v) = record s { app = set_silenced s.app v }
  race_step s (moves n) = let (a, cs) = move_at s.app s.calls n in record { app = a; calls = cs }

  unfoldable pub race : Busy → List RaceAct → Busy
  unfolding race_step
  race s [] = s
  race s (x ∷ xs) = race (race_step s x) xs
