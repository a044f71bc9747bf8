-- ===== src/Exchange/Races/Numbering.antt =====
-- The number that a move of a call takes: NextExecID of internal/exchange/book.go.
use fix_session_lab.Base.{
  ℕ, zero, suc, ◌+◌, ◌≤◌, ◌<◌, ◌≡◌, refl, sym, ◌⊎◌, inl, inr, true, false, List, [], ◌∷◌, Option,
  none, some, ite, arith,
}
use fix_session_lab.Base.Text.{Text, text_dec}
use fix_session_lab.Book.{exec_id_of}
use fix_session_lab.Book.Ids.{exec_id_of-injective}
use fix_session_lab.Deps.{Deps}
use fix_session_lab.Exchange.{App, order_entry, drop_copy, session_of}
use fix_session_lab.Exchange.Races.{
  Stage, inserted, called, asked, numbered, half_sent, Call, advance, move_at,
}
use fix_session_lab.Exchange.Races.Balance.{Test, fresh, fresh_at}
use fix_session_lab.Exchange.Reports.{Report, send_to}

module _ ⦃L : Deps⦄ where
  -- The test for an ExecID.
  abbrev pub has_id : ℕ → Test
  has_id k er = ite (text_dec er.exec_id (exec_id_of k)) true false

  -- How a move takes a number.
  pub record Numbering (k : ℕ) (a a' : App) (new : ℕ) : Type 0 where
    pub same_kinds : a'.kinds ≡ a.kinds
    pub up : a.book.exec_seq ≤ a'.book.exec_seq
    pub few : new ≤ 1
    pub which : (new ≡ 0) ⊎ ((k ≡ a.book.exec_seq + 1) × (a.book.exec_seq < a'.book.exec_seq))

  no_number :
      (k : ℕ) (a a' : App)
      → a'.kinds ≡ a.kinds
      → a.book.exec_seq ≤ a'.book.exec_seq
      → Numbering k a a' 0
  no_number k a a' same up = record {
    same_kinds = same;
    up = up;
    few = omega arith;
    which = inl refl;
  }

  sent_to-Numbering :
      (k : ℕ) (a : App) (r : Report L.Decimal) (x : Text) (id : Option L.SessionId)
      → Numbering k a (send_to a r x id) 0
  unfolding send_to
  sent_to-Numbering k a r x none = no_number k a _ refl (omega arith)
  sent_to-Numbering k a r x (some id) = no_number k a _ refl (omega arith)

  stage-Numbering :
      (k : ℕ) (a : App) (r : Report L.Decimal) (st : Stage)
      → (let c : Call = record { report = r; stage = st } in
          Numbering k a (advance a c).0 (fresh (has_id k) a c))
  unfolding advance
  stage-Numbering k a r inserted = no_number k a _ refl (omega arith)
  stage-Numbering k a r called = no_number k a _ refl (omega arith)
  stage-Numbering k a r (asked true) = no_number k a _ refl (omega arith)
  stage-Numbering k a r (asked false) =
      elim (text_dec (exec_id_of (a.book.exec_seq + 1)) (exec_id_of k)) [
        | yes e ↦ record {
          same_kinds = refl;
          up = omega arith;
          few = ground arith;
          which = inr (exec_id_of-injective k (a.book.exec_seq + 1) (sym e), omega arith);
        }
        | no n ↦ record {
          same_kinds = refl;
          up = omega arith;
          few = ground arith;
          which = inl (ground arith);
        }
      ]
  stage-Numbering k a r (numbered x) = sent_to-Numbering k a r x (session_of a order_entry)
  stage-Numbering k a r (half_sent x) = sent_to-Numbering k a r x (session_of a drop_copy)

  pub move_at-Numbering :
      (k : ℕ) (a : App) (cs : List Call) (n : ℕ)
      → Numbering k a (move_at a cs n).0 (fresh_at (has_id k) a cs n)
  unfolding move_at
  move_at-Numbering k a [] n = no_number k a _ refl (omega arith)
  move_at-Numbering k a (c ∷ cs) zero = stage-Numbering k a c.report c.stage
  move_at-Numbering k a (c ∷ cs) (suc n) = move_at-Numbering k a cs n
