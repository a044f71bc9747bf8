-- ===== src/Cmd/OeClient/Shutdown.antt =====
-- Who receives the signal that is to end the order-entry program, and how many orders it sends:
-- cmd/oe-client/main.go.
use fix_session_lab.Base.{
  ◌≤◌, ◌≡◌, ◌≢◌, refl, subst, ◌⊎◌, inl, inr, true, false, List, [], ◌∷◌, Option, none, some, arith,
}
use mathlib.Core.Option.{some-injective}
use fix_session_lab.Base.Int.{pos, leb_ℤ}
use fix_session_lab.Base.Lists.{All, length, Bool-cases, Option-cases}
use fix_session_lab.Base.Text.{Text}
use fix_session_lab.Client.OrderEntry.{NewOrder, NewOrderSingle}
use fix_session_lab.Cmd.OeClient.{
  Options, waiting, pausing, returned, Process, Act, signal, run_receives, sender_receives,
  received, after_send, act, acts,
}
use fix_session_lab.Deps.{Deps}
use fix_session_lab.Session.Watchdog.{Watched}

module _ ⦃L : Deps⦄ where
  -- Any act but the coming of a signal.
  abbrev pub IsUnsignaled : Act → Type 0
  IsUnsignaled signal = ⊥
  IsUnsignaled _ = Unit {0}

module _ ⦃L : Deps⦄ {V : Type 0} where
  -- No signal is there, and none was received by `run`.
  record Unheard (p : Process V) : Type 0 where
    signaled : p.signaled ≡ false
    finished : p.finished ≡ false

  -- The sender has sent nothing and does not wait to send again, or it has returned with one send.
  record Once (p : Process V) : Type 0 where
    pub few : length p.sends ≤ 1
    pub none_yet : (p.sender ≡ returned) ⊎ ((length p.sends ≡ 0) × (p.sender ≢ pausing))

  of_some : {p q : Process V} → some p ≡ some q → Unheard p → Unheard q
  of_some e u = subst Unheard (some-injective _ _ e) u

  module _ (o : Options) (prefix : Text) (id : L.SessionId) (order : NewOrder)
      (send_to_target : NewOrderSingle → L.SessionId → Option Text) where
    act-Unheard :
        (w : Watched V) (p : Process V) (x : Act) {q : Process V}
        → IsUnsignaled x
        → Unheard p
        → act o prefix id order send_to_target w p x ≡ some q
        → Unheard q
    unfolding act
    act-Unheard w p x h u e =
        let a = u.signaled in
        let b = u.finished in record { signaled = ground arith; finished = ground arith }

    acts-Unheard :
        (w : Watched V) (p : Process V) (xs : List Act) {q : Process V}
        → All IsUnsignaled xs
        → Unheard p
        → acts o prefix id order send_to_target w p xs ≡ some q
        → Unheard q
    unfolding acts
    acts-Unheard w p [] h u e = of_some e u
    acts-Unheard w p (x ∷ xs) (hx, h) u e =
        elim (Option-cases (act o prefix id order send_to_target w p x)) [
          | inl stuck ↦ cc (rw (u.finished, stuck, acts) at e)
          | inr (p', made) ↦
              acts-Unheard w p' xs h (act-Unheard w p x hx u made)
                (rw (u.finished, made, acts) at e)
        ]

    received-Unheard : (p : Process V) → p.finished ≡ false → Unheard (received p)
    unfolding received
    received-Unheard p running = record { signaled = refl; finished = running }

    taken_by_sender :
        (w : Watched V) (p : Process V)
        → (p.sender ≡ waiting) ⊎ (p.sender ≡ pausing)
        → p.signaled ≡ true
        → act o prefix id order send_to_target w p sender_receives ≡ some (received p)
    unfolding act
    taken_by_sender w p at there = ground arith

    -- When a signal is in the channel of a running order-entry program whose sender stands in one of
    -- its selects, the sender can receive it, and then, through any acts that bring no further signal,
    -- `run` has not returned and cannot receive.
    pub sender_receives-swallows :
        (w : Watched V) (p : Process V) (xs : List Act) (q : Process V)
        → (p.sender ≡ waiting) ⊎ (p.sender ≡ pausing)
        → p.signaled ≡ true
        → p.finished ≡ false
        → All IsUnsignaled xs
        → acts o prefix id order send_to_target w p (sender_receives ∷ xs) ≡ some q
        → (act o prefix id order send_to_target w p sender_receives ≡ some (received p))
          × (q.finished ≡ false)
          × (act o prefix id order send_to_target w q run_receives ≡ none)
    unfolding acts
    sender_receives-swallows w p xs q at there running quiet e =
        let taken = taken_by_sender w p at there in
        let left =
          acts-Unheard w (received p) xs quiet (received-Unheard p running)
            (rw (running, taken, acts) at e) in
        (taken, left.finished, unfold act in rw left.signaled refl)

    act-Once :
        (w : Watched V) (p : Process V) (x : Act) {q : Process V}
        → leb_ℤ o.every (pos 0) ≡ true
        → Once p
        → act o prefix id order send_to_target w p x ≡ some q
        → Once q
    unfolding act received after_send
    act-Once w p x off u e =
        let a = u.few in
        let b = u.none_yet in record { few = ground arith; none_yet = ground arith }

    -- With an interval that is not positive, if the sender has sent nothing and does not wait to send
    -- again, or has returned with one send at most, this still holds after any acts: the program sends
    -- one order at most.
    acts-Once :
        (w : Watched V) (p : Process V) (xs : List Act) {q : Process V}
        → leb_ℤ o.every (pos 0) ≡ true
        → Once p
        → acts o prefix id order send_to_target w p xs ≡ some q
        → Once q
    unfolding acts
    acts-Once w p [] off u e = subst Once (some-injective _ _ e) u
    acts-Once w p (x ∷ xs) off u e = elim (Bool-cases p.finished) [
      | inl gone ↦ cc (rw (gone, acts) at e)
      | inr running ↦ elim (Option-cases (act o prefix id order send_to_target w p x)) [
        | inl stuck ↦ cc (rw (running, stuck, acts) at e)
        | inr (p', made) ↦
            acts-Once w p' xs off (act-Once w p x off u made) (rw (running, made, acts) at e)
      ]
    ]
