-- ===== src/Exchange/Publish.antt =====
-- What publishing a report does, in one equation: publish of internal/exchange/reports.go.
use fix_session_lab.Base.{
  ◌+◌, ◌≡◌, refl, Bool, true, false, List, [], ◌∷◌, ◌++◌, Option, none, some,
}
use fix_session_lab.Base.Lists.{if◌then◌else◌}
use fix_session_lab.Base.Text.{Text}
use fix_session_lab.Book.{exec_id_of}
use fix_session_lab.Book.View.{IsWellFormed}
use fix_session_lab.Deps.{Deps}
use fix_session_lab.Exchange.{App, ExecutionReport, order_entry, drop_copy, session_of}
use fix_session_lab.Exchange.Reports.{Report, publish, send_to, send, build_execution_report}

module _ ⦃L : Deps⦄ where
  abbrev pub copy_for :
      Option L.SessionId
      → ExecutionReport L.Decimal
      → List (L.SessionId × ExecutionReport L.Decimal)
  copy_for none er = []
  copy_for (some id) er = (id, er) ∷ []

  -- The report that publishing makes.
  abbrev pub published_report : App → Report L.Decimal → ExecutionReport L.Decimal
  published_report a r = build_execution_report r (exec_id_of (a.book.exec_seq + 1))

  unfoldable pub outbox_after :
      App → Report L.Decimal → List (L.SessionId × ExecutionReport L.Decimal)
  outbox_after a r =
      if a.silenced
      then a.outbox
      else copy_for (session_of a drop_copy) (published_report a r)
        ++ (copy_for (session_of a order_entry) (published_report a r) ++ a.outbox)

  send_to_lem :
      (a : App) (r : Report L.Decimal) (exec_id : Text) (id : Option L.SessionId)
      → send_to a r exec_id id
        ≡ record a { outbox = copy_for id (build_execution_report r exec_id) ++ a.outbox }
  unfolding send_to
  send_to_lem a r exec_id none = refl
  send_to_lem a r exec_id (some id) = refl

  send_both :
      (a : App) (r : Report L.Decimal) (exec_id : Text) (id : Option L.SessionId)
      → (let b = send_to a r exec_id id in send_to b r exec_id (session_of b drop_copy))
        ≡ record a {
          outbox =
              copy_for (session_of a drop_copy) (build_execution_report r exec_id)
              ++ (copy_for id (build_execution_report r exec_id) ++ a.outbox);
        }
  unfolding send_to session_of
  send_both a r exec_id none = send_to_lem a r exec_id (session_of a drop_copy)
  send_both a r exec_id (some id) =
      send_to_lem (send a r exec_id id) r exec_id (session_of a drop_copy)

  publish_if :
      (a : App) (r : Report L.Decimal) (exec_id : Text) (silenced : Bool)
      → (if silenced
          then a
          else let b = send_to a r exec_id (session_of a order_entry) in
            send_to b r exec_id (session_of b drop_copy))
        ≡ record a {
          outbox =
              if silenced
              then a.outbox
              else copy_for (session_of a drop_copy) (build_execution_report r exec_id)
                ++ (copy_for (session_of a order_entry) (build_execution_report r exec_id)
                    ++ a.outbox);
        }
  publish_if a r exec_id true = refl
  publish_if a r exec_id false = send_both a r exec_id (session_of a order_entry)

  pub publish_lem :
      (a : App) (r : Report L.Decimal)
      → publish a r ≡ record a {
        book = record a.book { exec_seq = a.book.exec_seq + 1 };
        outbox = outbox_after a r;
      }
  unfolding publish outbox_after session_of
  publish_lem a r =
      publish_if (record a { book = record a.book { exec_seq = a.book.exec_seq + 1 } }) r
        (exec_id_of (a.book.exec_seq + 1)) a.silenced

  pub publish-cells : (a : App) (r : Report L.Decimal) → (publish a r).book.cells ≡ a.book.cells
  publish-cells a r = rw (publish_lem a r) refl

  pub publish-kinds : (a : App) (r : Report L.Decimal) → (publish a r).kinds ≡ a.kinds
  publish-kinds a r = rw (publish_lem a r) refl

  pub publish-silenced : (a : App) (r : Report L.Decimal) → (publish a r).silenced ≡ a.silenced
  publish-silenced a r = rw (publish_lem a r) refl

  pub publish-IsWellFormed :
      (a : App) (r : Report L.Decimal) → IsWellFormed a.book → IsWellFormed (publish a r).book
  publish-IsWellFormed a r w =
      rw (publish_lem a r)
        (record { mapped = w.mapped; in_sequence = w.in_sequence; distinct = w.distinct })
