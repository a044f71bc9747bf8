-- ===== src/Cmd/OeClient.antt =====
-- The order-entry program while it runs, cmd/oe-client/main.go: the application that a restart
-- rebuilds, the goroutine that sends orders, and the channel of signals from which both it and `run`
-- receive. What happens is a list of acts, in the order in which the scheduler makes them.
pub mod Shutdown
pub mod Rebuild
pub mod Runs
pub mod Ends
pub mod Watching
pub mod Recovery
use fix_session_lab.Base.{
  ℕ, zero, suc, ◌+◌, ◌-◌, ◌/◌, ◌%◌, Bool, true, false, not, List, [], ◌∷◌, Option, none, some, ite,
}
use fix_session_lab.Base.Int.{ℤ, pos, leb_ℤ}
use fix_session_lab.Base.Lists.{if◌then◌else◌, ltb}
use fix_session_lab.Base.Text.{Text, codes}
use fix_session_lab.Client.OrderEntry.{
  OrderEntry, NewOrder, NewOrderSingle, new_order_entry, set_cl_ord_id_prefix, send, from_app,
}
use fix_session_lab.Deps.{Deps, Result}
use fix_session_lab.Session.{LogonCredentials}
use fix_session_lab.Session.Client.{client_on_logon, client_on_logout, is_up}
use fix_session_lab.Session.Watchdog.{Watched, watch_client}

-- The flags that matter while the program runs; durations are in nanoseconds.
pub record Options : Type 0 where
  pub config : Text
  pub host : Text
  pub symbol : Text
  pub qty : Text
  pub price : Text
  pub every : ℤ
  pub cod_type : ℤ
  pub cod_window : ℤ
  pub watchdog : ℤ

-- The digits of `n` in base 36 in front of `out`, on fuel of which each digit takes one.
unfoldable pub digits_36 : ℕ → ℕ → Text → Text
digits_36 zero n out = out
digits_36 (suc fuel) n out =
    let d = n % 36 in
    let c = if ltb d 10 then b'0' + d else b'a' + (d - 10) in
    let rest = digits_36 fuel (n / 36) (c ∷ out) in if ltb n 36 then c ∷ out else rest

-- strconv.FormatInt(now, 36), at a time after the epoch.
unfoldable pub prefix_at : ℕ → Text
unfolding digits_36
prefix_at now = digits_36 (suc now) now []

-- Where the sending goroutine stands: before the test of waitForLogon, in its select, before Send, in
-- the select after it, or returned.
pub data Sender : Type 0 where
  checking waiting sending pausing returned : Sender

abbrev pub creds_of : Options → LogonCredentials
creds_of o = record {
  app_id = codes "fixlab-oe/1.0";
  cod_type = o.cod_type;
  cod_timeout_window = o.cod_window;
}

module _ ⦃L : Deps⦄ {V : Type 0} where
  -- What Supervisor's Build makes and stores.
  unfoldable pub build : Options → Text → Watched V → OrderEntry (Watched V)
  unfolding new_order_entry set_cl_ord_id_prefix watch_client
  build o prefix w =
      let next = set_cl_ord_id_prefix (new_order_entry (creds_of o) w) prefix in
      if leb_ℤ o.watchdog (pos 0) then next else record next { client = watch_client next.client }

module _ ⦃L : Deps⦄ where
  pub record Process (V : Type 0) : Type 0 where
    -- the application, once there is one
    pub current : Option (OrderEntry (Watched V))
    -- whether a signal is in the channel, which holds one
    pub signaled : Bool
    -- `run` has received a signal and returned
    pub finished : Bool
    pub sender : Sender
    -- what Send returned, the last first
    pub sends : List (Result Text Text)

  pub data Act : Type 0 where
    -- a signal comes; one that the channel has no room for is dropped
    signal : Act
    run_receives : Act
    sender_checks : Act
    sender_receives : Act
    sender_wakes : Act
    sender_sends : Act
    -- Build is called again, by a restart
    rebuilds : Act
    logs_on : L.SessionId → Act
    logs_out : L.SessionId → Act
    hears : L.Message → L.SessionId → Act

module _ ⦃L : Deps⦄ {V : Type 0} where
  unfoldable pub received : Process V → Process V
  received p = record p { signaled = false; sender = returned }

  -- The watchdog and what it restarts, which outlive a client; `w` before there is one.
  abbrev pub world_of : Watched V → Option (OrderEntry (Watched V)) → Watched V
  world_of w none = w
  world_of w (some c) = c.client.world

  -- waitForLogon's test.
  unfoldable pub ready : Option (OrderEntry (Watched V)) → L.SessionId → Bool
  unfolding is_up
  ready none id = false
  ready (some c) id = is_up c.client id

  module _ (o : Options) (prefix : Text) (id : L.SessionId) (order : NewOrder)
      (send_to_target : NewOrderSingle → L.SessionId → Option Text) where
    unfoldable pub after_send : Process V → OrderEntry (Watched V) → Process V
    unfolding send
    after_send p c =
        let (c', r) = send send_to_target c id order in
        record p {
          current = some c';
          sender = if leb_ℤ o.every (pos 0) then returned else pausing;
          sends = r ∷ p.sends;
        }

    -- An act of a process that has not finished; `none` is one that cannot happen there.
    unfoldable pub act : Watched V → Process V → Act → Option (Process V)
    unfolding received ready after_send build client_on_logon client_on_logout from_app
    act w p signal = some (record p { signaled = true })
    act w p run_receives =
        if p.signaled then some (record p { signaled = false; finished = true }) else none
    act w p sender_checks = elim (p.sender) [
      | checking ↦ some (record p { sender = if ready p.current id then sending else waiting })
      | _ ↦ none
    ]
    act w p sender_receives = elim (p.sender) [
      | waiting ↦ if p.signaled then some (received p) else none
      | pausing ↦ if p.signaled then some (received p) else none
      | _ ↦ none
    ]
    act w p sender_wakes = elim (p.sender) [
      | waiting ↦ some (record p { sender = checking })
      | pausing ↦ some (record p { sender = sending })
      | _ ↦ none
    ]
    act w p sender_sends = elim (p.sender) [
      | sending ↦ elim (p.current) [ none ↦ none | some c ↦ some (after_send p c) ]
      | _ ↦ none
    ]
    act w p rebuilds = some (record p { current = some (build o prefix (world_of w p.current)) })
    act w p (logs_on at) = elim (p.current) [
      | none ↦ none
      | some c ↦
          some (record p { current = some (record c { client = client_on_logon c.client at }) })
    ]
    act w p (logs_out at) = elim (p.current) [
      | none ↦ none
      | some c ↦
          some (record p { current = some (record c { client = client_on_logout c.client at }) })
    ]
    act w p (hears m at) = elim (p.current) [
      | none ↦ none
      | some c ↦ some (record p { current = some (from_app c m at).0 })
    ]

    -- The acts in their order, none of them after `run` has returned; `w` is what the first client
    -- watches with.
    unfoldable pub acts : Watched V → Process V → List Act → Option (Process V)
    unfolding act
    acts w p [] = some p
    acts w p (x ∷ xs) =
        if p.finished then none else elim (act w p x) [ none ↦ none | some p' ↦ acts w p' xs ]
