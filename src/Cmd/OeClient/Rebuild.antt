-- ===== src/Cmd/OeClient/Rebuild.antt =====
-- The ClOrdIDs of a client that a restart rebuilt: cmd/oe-client/main.go and Send of
-- internal/client/oe.go.
use fix_session_lab.Base.{
  ℕ, ◌+◌, ◌≡◌, refl, ap, ◌∙◌, false, List, [], ◌∷◌, Option, none, some, arith,
}
use fix_session_lab.Base.Int.{pos, leb_ℤ}
use fix_session_lab.Base.Text.{Text}
use fix_session_lab.Client.OrderEntry.{
  OrderEntry, NewOrder, NewOrderSingle, send, cl_ord_id_of, order_single, new_order_entry,
  set_cl_ord_id_prefix,
}
use fix_session_lab.Cmd.OeClient.{
  Options, sending, pausing, Process, sender_sends, sender_wakes, rebuilds, build, after_send,
  world_of, act, acts, Act,
}
use fix_session_lab.Deps.{Deps, Result, ok, err}
use fix_session_lab.Session.Watchdog.{Watched}

module _ ⦃L : Deps⦄ (id : L.SessionId) (order : NewOrder)
    (send_to_target : NewOrderSingle → L.SessionId → Option Text) where
  -- What the n-th Send with this prefix returns.
  abbrev pub nth_send : Text → ℕ → Result Text Text
  nth_send prefix n =
      let k = cl_ord_id_of prefix n in
      elim (send_to_target (order_single k order) id) [ none ↦ ok k | some e ↦ err e ]

module _ ⦃L : Deps⦄ {V : Type 0} where
  build-prefix : (o : Options) (prefix : Text) (w : Watched V) → (build o prefix w).prefix ≡ prefix
  unfolding build set_cl_ord_id_prefix
  build-prefix o prefix w = ground arith

  build-seq : (o : Options) (prefix : Text) (w : Watched V) → (build o prefix w).seq ≡ 0
  unfolding build set_cl_ord_id_prefix new_order_entry
  build-seq o prefix w = ground arith

  module _ (o : Options) (prefix : Text) (id : L.SessionId) (order : NewOrder)
      (send_to_target : NewOrderSingle → L.SessionId → Option Text) where
    after_send_lem :
        (p : Process V) (c : OrderEntry (Watched V))
        → leb_ℤ o.every (pos 0) ≡ false
        → ((after_send o prefix id order send_to_target p c).sends
            ≡ nth_send id order send_to_target c.prefix (c.seq + 1) ∷ p.sends)
          × ((after_send o prefix id order send_to_target p c).sender ≡ pausing)
          × ((after_send o prefix id order send_to_target p c).finished ≡ p.finished)
    unfolding after_send send
    after_send_lem p c every = (refl, ground arith, refl)

    -- A rebuilt client that sends, in the process that pauses after it.
    rebuilt_send :
        (w : Watched V) (p : Process V)
        → leb_ℤ o.every (pos 0) ≡ false
        → p.finished ≡ false
        → p.sender ≡ sending
        → (q : Process V) × (acts o prefix id order send_to_target w p
              (rebuilds ∷ sender_sends ∷ [])
            ≡ some q)
          × (q.sends ≡ nth_send id order send_to_target prefix 1 ∷ p.sends)
          × (q.sender ≡ pausing)
          × (q.finished ≡ false)
    unfolding acts act
    rebuilt_send w p every running there =
        let b = build o prefix (world_of w p.current) in
        let p₁ : Process V = record p { current = some b } in
        let (sent, paused, alive) = after_send_lem p₁ b every in
        (
          after_send o prefix id order send_to_target p₁ b,
          ground arith,
          sent
              ∙ rw
                  (
                    build-prefix o prefix (world_of w p.current),
                    build-seq o prefix (world_of w p.current),
                  )
                  refl,
          paused,
          alive ∙ running,
        )

    woken :
        (w : Watched V) (p : Process V) (xs : List Act)
        → p.finished ≡ false
        → p.sender ≡ pausing
        → acts o prefix id order send_to_target w p (sender_wakes ∷ xs)
          ≡ acts o prefix id order send_to_target w (record p { sender = sending }) xs
    unfolding acts act
    woken w p xs running paused = ground arith

    -- A running order-entry program that sends on an interval and is about to send can be rebuilt
    -- twice, with one Send behind each rebuild, and both of these return what sending the first
    -- ClOrdID of the same prefix returns.
    pub rebuilds-repeats :
        (w : Watched V) (p : Process V)
        → leb_ℤ o.every (pos 0) ≡ false
        → p.finished ≡ false
        → p.sender ≡ sending
        → (q : Process V) × (q' : Process V) × (acts o prefix id order send_to_target w p
              (rebuilds ∷ sender_sends ∷ [])
            ≡ some q)
          × (acts o prefix id order send_to_target w q (sender_wakes ∷ rebuilds ∷ sender_sends ∷ [])
              ≡ some q')
          × (q'.sends
              ≡ nth_send id order send_to_target prefix 1
                ∷ nth_send id order send_to_target prefix 1
                ∷ p.sends)
    rebuilds-repeats w p every running there =
        let (q, made, sent, paused, alive) = rebuilt_send w p every running there in
        let (q', made', sent', _, _) =
          rebuilt_send w (record q { sender = sending }) every alive refl in
        (
          q,
          q',
          made,
          woken w q _ alive paused ∙ made',
          sent' ∙ ap (◌∷◌ (nth_send id order send_to_target prefix 1)) sent,
        )
