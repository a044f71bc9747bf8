-- ===== src/Cmd/OeClient/Ends.antt =====
-- How many signals the order-entry program needs to end: cmd/oe-client/main.go.
use fix_session_lab.Base.{
  ℕ, ◌+◌, ◌≡◌, refl, subst, ◌⊎◌, inl, inr, true, false, List, [], ◌∷◌, Option, none, some, arith,
}
use mathlib.Core.Option.{some-injective}
use fix_session_lab.Base.Lists.{Bool-cases, Option-cases}
use fix_session_lab.Base.Text.{Text}
use fix_session_lab.Client.OrderEntry.{NewOrder, NewOrderSingle}
use fix_session_lab.Cmd.OeClient.{
  Options, returned, Process, Act, signal, run_receives, sender_receives, received, after_send, act,
  acts,
}
use fix_session_lab.Deps.{Deps}
use fix_session_lab.Session.Watchdog.{Watched}

module _ ⦃L : Deps⦄ where
  -- How many signals an act takes out of the channel.
  abbrev pub receipt : Act → ℕ
  receipt run_receives = 1
  receipt sender_receives = 1
  receipt _ = 0

  abbrev pub receipts : List Act → ℕ
  receipts [] = 0
  receipts (x ∷ xs) = receipt x + receipts xs

  -- None was received, or one, by the sender, which has returned.
  record Heard {V : Type 0} (n : ℕ) (p : Process V) : Type 0 where
    by_sender : (n ≡ 0) ⊎ ((n ≡ 1) × (p.sender ≡ returned))

module _ ⦃L : Deps⦄ {V : Type 0} where
  module _ (o : Options) (prefix : Text) (id : L.SessionId) (order : NewOrder)
      (send_to_target : NewOrderSingle → L.SessionId → Option Text) where
    act-Heard :
        (w : Watched V) (p : Process V) (x : Act) (n : ℕ) {q : Process V}
        → Heard n p
        → act o prefix id order send_to_target w p x ≡ some q
        → (q.finished ≡ true) ⊎ Heard (n + receipt x) q
    unfolding act received after_send
    act-Heard w p run_receives n h e = inl (ground arith)
    act-Heard w p x n h e = let b = h.by_sender in inr (record { by_sender = ground arith })

    finished_ends :
        (w : Watched V) (p : Process V) (xs : List Act) {q : Process V}
        → p.finished ≡ true
        → acts o prefix id order send_to_target w p xs ≡ some q
        → q.finished ≡ true
    unfolding acts
    finished_ends w p [] over e =
        subst (λ (r : Process V). r.finished ≡ true) (some-injective _ _ e) over
    finished_ends w p (x ∷ xs) over e = cc (rw (over, acts) at e)

    acts-Heard :
        (w : Watched V) (p : Process V) (xs : List Act) (n : ℕ) {q : Process V}
        → Heard n p
        → acts o prefix id order send_to_target w p xs ≡ some q
        → (q.finished ≡ true) ⊎ Heard (n + receipts xs) q
    unfolding acts
    acts-Heard w p [] n {q} h e =
        let e0 : n ≡ n + 0 = omega arith in
        inr (subst (λ k. Heard k q) e0 (subst (Heard n) (some-injective _ _ e) h))
    acts-Heard w p (x ∷ xs) n {q} h e = elim (Bool-cases p.finished) [
      | inl gone ↦ cc (rw (gone, acts) at e)
      | inr running ↦ elim (Option-cases (act o prefix id order send_to_target w p x)) [
        | inl stuck ↦ cc (rw (running, stuck, acts) at e)
        | inr (p', made) ↦
            let rest = rw (running, made, acts) at e in
            elim (act-Heard w p x n h made) [
              | inl over ↦ inl (finished_ends w p' xs over rest)
              | inr h' ↦ elim (acts-Heard w p' xs (n + receipt x) h' rest) [
                | inl over ↦ inl over
                | inr h'' ↦
                    let e1 : n + receipt x + receipts xs ≡ n + (receipt x + receipts xs) =
                      omega arith in
                    inr (subst (λ k. Heard k q) e1 h'')
              ]
            ]
      ]
    ]

    -- How a program stands that was heard of `n` receipts: it has ended, or one more signal is enough
    -- to end it, and no second one can be lost to the sender.
    pub data Ends (w : Watched V) (n : ℕ) (q : Process V) : Type 0 where
      ended : q.finished ≡ true → Ends w n q
      goes_on :
          (n ≡ 0) ⊎ ((n ≡ 1) × (act o prefix id order send_to_target w q sender_receives ≡ none))
          → (q' : Process V)
          → acts o prefix id order send_to_target w q (signal ∷ run_receives ∷ []) ≡ some q'
          → q'.finished ≡ true
          → Ends w n q

    -- After any acts of the order-entry program, either it has ended, or at most one signal was
    -- received and, if one was, the sender cannot receive another as it stands; and then one more
    -- signal that `run` receives ends the program.
    pub acts-Ends :
        (w : Watched V) (p : Process V) (xs : List Act) {q : Process V}
        → acts o prefix id order send_to_target w p xs ≡ some q
        → Ends w (receipts xs) q
    unfolding acts act
    acts-Ends w p xs {q} e = elim (Bool-cases q.finished) [
      | inl over ↦ ended over
      | inr running ↦ elim (acts-Heard w p xs 0 (record { by_sender = inl refl }) e) [
        | inl over ↦ ended over
        | inr h ↦
            let b = h.by_sender in
            goes_on (ground arith) (record q { signaled = false; finished = true })
              (rw (running, acts) refl) refl
      ]
    ]
