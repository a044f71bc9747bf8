-- ===== src/Session/Supervisor/Turns.antt =====
-- Which initiators run: the calls that internal/session/supervisor.go makes.
use fix_session_lab.Base.{ℕ, suc, ◌+◌, ◌≡◌, refl, ◌++◌, List, [], ◌∷◌, Option, none, some, arith}
use fix_session_lab.Base.Text.{Text}
use fix_session_lab.Deps.{Result, ok, err}
use fix_session_lab.Session.Supervisor.{
  Call, started, failed, stopped, Supervisor, start_locked, start, stop_locked, stop, restart,
}

-- What an operator or a watchdog asks of a supervisor, with the answers of Build and of Start.
pub data Request (I : Type 0) : Type 0 where
  starts_it : Result Text I → Option Text → Request I
  stops_it : Request I
  restarts_it : Result Text I → Option Text → Request I

module _ {I : Type 0} where
  -- The calls take turns, from an initiator that runs, or none, to one that runs, or none: only when
  -- none runs is one started, and only the one that runs is stopped.
  pub data Turns : Option I → List (Call I) → Option I → Type 0 where
    rest : {c : Option I} → Turns c [] c
    starting :
        (i : I) {cs : List (Call I)} {c : Option I}
        → Turns (some i) cs c
        → Turns none (started i ∷ cs) c
    failing :
        (i : I) {cs : List (Call I)} {c : Option I} → Turns none cs c → Turns none (failed i ∷ cs) c
    stopping :
        (i : I) {cs : List (Call I)} {c : Option I}
        → Turns none cs c
        → Turns (some i) (stopped i ∷ cs) c

  pub Turns-append :
      {a b c : Option I} {xs ys : List (Call I)}
      → Turns a xs b
      → Turns b ys c
      → Turns a (xs ++ ys) c
  Turns-append rest u = u
  Turns-append (starting i t) u = starting i (Turns-append t u)
  Turns-append (failing i t) u = failing i (Turns-append t u)
  Turns-append (stopping i t) u = stopping i (Turns-append t u)

  -- How many initiators the calls started.
  abbrev pub count_started : List (Call I) → ℕ
  count_started [] = 0
  count_started (started i ∷ cs) = suc (count_started cs)
  count_started (failed i ∷ cs) = count_started cs
  count_started (stopped i ∷ cs) = count_started cs

  count_started-append :
      (xs ys : List (Call I)) → count_started (xs ++ ys) ≡ count_started xs + count_started ys
  count_started-append [] ys = omega arith
  count_started-append (started i ∷ xs) ys = omega (arith, count_started-append xs ys)
  count_started-append (failed i ∷ xs) ys = count_started-append xs ys
  count_started-append (stopped i ∷ xs) ys = count_started-append xs ys

  unfoldable pub answer : Supervisor I → Request I → Supervisor I × List (Call I)
  unfolding start stop restart
  answer s (starts_it b e) = ((start s b e).0, (start s b e).1)
  answer s stops_it = stop s
  answer s (restarts_it b e) = ((restart s b e).0, (restart s b e).1)

  unfoldable pub answer_all : Supervisor I → List (Request I) → Supervisor I × List (Call I)
  answer_all s [] = (s, [])
  answer_all s (r ∷ rs) =
      let (s', calls) = answer s r in let (s'', more) = answer_all s' rs in (s'', calls ++ more)

  -- The calls lead from one state of the supervisor to another.
  pub record Led (s : Supervisor I) (q : Supervisor I × List (Call I)) : Type 0 where
    pub turns : Turns s.current q.1 q.0.current
    pub counted : q.0.starts ≡ s.starts + count_started q.1

  start_locked-Led :
      (s : Supervisor I) (b : Result Text I) (e : Option Text)
      → Led s ((start_locked s b e).0, (start_locked s b e).1)
  unfolding start_locked
  start_locked-Led s b e = go s.current s.starts b e
    where
      go :
          (c : Option I) (n : ℕ) (b : Result Text I) (e : Option Text)
          → let s : Supervisor I = record { current = c; starts = n } in
            Led s ((start_locked s b e).0, (start_locked s b e).1)
      go (some i) n b e = record { turns = rest; counted = omega arith }
      go none n (err x) e = record { turns = rest; counted = omega arith }
      go none n (ok i) (some x) = record { turns = failing i rest; counted = omega arith }
      go none n (ok i) none = record { turns = starting i rest; counted = refl }

  stop_locked-Led : (s : Supervisor I) → Led s (stop_locked s)
  unfolding stop_locked
  stop_locked-Led s = go s.current s.starts
    where
      go :
          (c : Option I) (n : ℕ)
          → let s : Supervisor I = record { current = c; starts = n } in Led s (stop_locked s)
      go none n = record { turns = rest; counted = omega arith }
      go (some i) n = record { turns = stopping i rest; counted = omega arith }

  Led-then :
      {s : Supervisor I} {q : Supervisor I × List (Call I)} {q' : Supervisor I × List (Call I)}
      → Led s q
      → Led q.0 q'
      → Led s (q'.0, q.1 ++ q'.1)
  Led-then {q = q} {q' = q'} l m = record {
    turns = Turns-append l.turns m.turns;
    counted = omega (arith, l.counted, m.counted, count_started-append q.1 q'.1);
  }

  pub answer-Led : (s : Supervisor I) (r : Request I) → Led s (answer s r)
  unfolding answer start stop restart
  answer-Led s (starts_it b e) = start_locked-Led s b e
  answer-Led s stops_it = stop_locked-Led s
  answer-Led s (restarts_it b e) =
      Led-then (stop_locked-Led s) (start_locked-Led (stop_locked s).0 b e)

  -- Whatever is asked of a supervisor, and whatever Build and Start answer, an initiator is started
  -- only when none runs, only the one that runs is stopped, the one that runs in the end is the one
  -- that the supervisor holds, and its counter has grown by the number of those that started.
  pub answer_all-Led : (s : Supervisor I) (rs : List (Request I)) → Led s (answer_all s rs)
  unfolding answer_all
  answer_all-Led s [] = record { turns = rest; counted = omega arith }
  answer_all-Led s (r ∷ rs) = Led-then (answer-Led s r) (answer_all-Led (answer s r).0 rs)
