-- ===== src/Feed/Rejects/Settle.antt =====
-- How long a venue and a client answer each other: FromApp and FromAdmin of
-- internal/exchange/exchange.go and of internal/client.
use fix_session_lab.Base.{
  ℕ, suc, ◌+◌, ◌≤◌, ◌≡◌, refl, ap, ◌∙◌, ◌⊎◌, inl, inr, Bool, true, false, not, [], Option, none,
  some, arith,
}
use fix_session_lab.Base.Lists.{Option-cases}
use fix_session_lab.Base.Map.{lookup_or}
use fix_session_lab.Base.Text.{codes, text_dec}
use fix_session_lab.Client.DropCopy.{DropCopy}
use fix_session_lab.Client.OrderEntry.{OrderEntry}
use fix_session_lab.Deps.{Deps, ok, Rejection}
use fix_session_lab.Exchange.{App, other, order_entry, kind_of, kind_dec, note_received}
use fix_session_lab.Exchange.Callbacks.{from_admin, from_app, from_order_entry}
use fix_session_lab.Feed.Rejects.{
  is_admin_type, Receives, dispatch, venue_receives, order_entry_receives, drop_copy_receives,
  AnswersErrors, answers, talk,
}
use fix_session_lab.Session.Client.{client_from_admin}

module _ ⦃L : Deps⦄ where
  -- A message that answers an error.
  abbrev IsReject : L.Message → Type 0
  IsReject m =
      (L.header_string m 35 ≡ ok (codes "j"))
      ⊎ (L.header_string m 35 ≡ ok (codes "3"))
      ⊎ (L.header_string m 35 ≡ ok (codes "5"))

  -- The talk ends, with no more answers than these.
  pub record Settles {C : Type 0} (limit : ℕ) (q : Option (App × C × ℕ)) : Type 0 where
    pub ends : (r : App × C × ℕ) × (q ≡ some r) × (r.2 ≤ limit)

  Settles-mono :
      {C : Type 0} {m n : ℕ} {q : Option (App × C × ℕ)} → m ≤ n → Settles m q → Settles n q
  Settles-mono h s = let (r, same, few) = s.ends in record { ends = (r, same, omega arith) }

  order_entry-quiet :
      {W : Type 0} (c : OrderEntry W) (m : L.Message) (id : L.SessionId)
      → IsReject m
      → (order_entry_receives c m id).1 ≡ none
  unfolding order_entry_receives dispatch is_admin_type client_from_admin
      fix_session_lab.Client.OrderEntry.from_app text_dec
  order_entry-quiet c m id (inl e) =
      rw (e, order_entry_receives, dispatch)
        (rw (e, fix_session_lab.Client.OrderEntry.from_app) refl)
  order_entry-quiet c m id (inr (inl e)) = rw (e, order_entry_receives, dispatch) refl
  order_entry-quiet c m id (inr (inr e)) = rw (e, order_entry_receives, dispatch) refl

  drop_copy-quiet :
      {W : Type 0} (c : DropCopy W) (m : L.Message) (id : L.SessionId)
      → IsReject m
      → (drop_copy_receives c m id).1 ≡ none
  unfolding drop_copy_receives dispatch is_admin_type client_from_admin
      fix_session_lab.Client.DropCopy.from_app text_dec
  drop_copy-quiet c m id (inl e) =
      rw (e, drop_copy_receives, dispatch) (rw (e, fix_session_lab.Client.DropCopy.from_app) refl)
  drop_copy-quiet c m id (inr (inl e)) = rw (e, drop_copy_receives, dispatch) refl
  drop_copy-quiet c m id (inr (inr e)) = rw (e, drop_copy_receives, dispatch) refl

  note_received-kinds :
      (a : App) (m : L.Message) (id : L.SessionId) → (note_received a m id).kinds ≡ a.kinds
  unfolding note_received
  note_received-kinds a m id = ground arith

  note_received-kind :
      (a : App) (m : L.Message) (id : L.SessionId)
      → kind_of (note_received a m id) id ≡ kind_of a id
  unfolding kind_of
  note_received-kind a m id =
      ap (lookup_or L.session_dec (other []) id) (note_received-kinds a m id)

  venue-quiet :
      (a : App) (m : L.Message) (id : L.SessionId)
      → kind_of a id ≡ order_entry
      → IsReject m
      → (venue_receives a m id).1 ≡ none
  unfolding venue_receives dispatch is_admin_type from_admin from_app from_order_entry text_dec
      kind_dec
  venue-quiet a m id k (inl e) =
      rw (e, venue_receives, dispatch) (rw (note_received-kind a m id ∙ k, e, from_app) refl)
  venue-quiet a m id k (inr (inl e)) = rw (e, venue_receives, dispatch) (rw (e, from_admin) refl)
  venue-quiet a m id k (inr (inr e)) = rw (e, venue_receives, dispatch) (rw (e, from_admin) refl)

  module _ (reject_message : Rejection → L.Message) {C : Type 0} (receives : Receives C)
      (at_venue at_client : L.SessionId) where
    talk-none :
        (f : ℕ) (v : Bool) (a : App) (c : C) (m : L.Message)
        → (answers reject_message receives at_venue at_client v a c m).2 ≡ none
        → Settles 0 (talk reject_message receives at_venue at_client (suc f) v a c m)
    unfolding talk
    talk-none f v a c m h =
        let q = answers reject_message receives at_venue at_client v a c m in
        record { ends = ((q.0, q.1, 0), rw (h, talk) refl, omega arith) }

    talk-some :
        (f n : ℕ) (v : Bool) (a : App) (c : C) (m : L.Message) (r : Rejection)
        → (answers reject_message receives at_venue at_client v a c m).2 ≡ some r
        → (let q = answers reject_message receives at_venue at_client v a c m in
            Settles n (
              talk reject_message receives at_venue at_client f (not v) q.0 q.1 (reject_message r)))
        → Settles (n + 1) (talk reject_message receives at_venue at_client (suc f) v a c m)
    unfolding talk
    talk-some f n v a c m r h s =
        let ((a', c', k), same, few) = s.ends in
        record { ends = ((a', c', k + 1), rw (h, same, talk) refl, omega (arith, few)) }

    module _ (laws : AnswersErrors reject_message)
        (quiet : (c : C) (m : L.Message) → IsReject m → (receives c m at_client).1 ≡ none) where
      to_venue-Settles :
          (f : ℕ) (a : App) (c : C) (m : L.Message)
          → Settles 1 (talk reject_message receives at_venue at_client (suc (suc f)) true a c m)
      to_venue-Settles f a c m = elim (Option-cases (venue_receives a m at_venue).1) [
        | inl h ↦ Settles-mono (omega arith) (talk-none (suc f) true a c m h)
        | inr (r, h) ↦ talk-some (suc f) 0 true a c m r h (
            talk-none f false (venue_receives a m at_venue).0 c (reject_message r)
              (quiet c (reject_message r) (laws.types r)))
      ]

      to_client-Settles :
          (f : ℕ) (a : App) (c : C) (m : L.Message)
          → Settles 2
              (talk reject_message receives at_venue at_client (suc (suc (suc f))) false a c m)
      to_client-Settles f a c m = elim (Option-cases (receives c m at_client).1) [
        | inl h ↦ Settles-mono (omega arith) (talk-none (suc (suc f)) false a c m h)
        | inr (r, h) ↦
            talk-some (suc (suc f)) 1 false a c m r h
              (to_venue-Settles f a (receives c m at_client).0 (reject_message r))
      ]

      -- At a venue that has nothing against a reject.
      to_client-Settles_once :
          (f : ℕ) (a : App) (c : C) (m : L.Message)
          → kind_of a at_venue ≡ order_entry
          → Settles 1 (talk reject_message receives at_venue at_client (suc (suc f)) false a c m)
      to_client-Settles_once f a c m k = elim (Option-cases (receives c m at_client).1) [
        | inl h ↦ Settles-mono (omega arith) (talk-none (suc f) false a c m h)
        | inr (r, h) ↦ talk-some (suc f) 0 false a c m r h (
            talk-none f true a (receives c m at_client).0 (reject_message r)
              (venue-quiet a (reject_message r) at_venue k (laws.types r)))
      ]

  -- If the engine answers an error of an application by a message of type j, 3 or 5, then, from any
  -- message to either end and with fuel for three messages, the answers between the venue's
  -- order-entry session and an order-entry client end after one answer at most, and those between any
  -- session of the venue and a drop-copy client end after two at most.
  pub talk-Settles :
      {W : Type 0} (reject_message : Rejection → L.Message) (a : App) (c : OrderEntry W)
      (d : DropCopy W) (oe dc at_c at_d : L.SessionId) (to_the_venue : Bool) (m : L.Message)
      → AnswersErrors reject_message
      → kind_of a oe ≡ order_entry
      → Settles 1 (talk reject_message order_entry_receives oe at_c 3 to_the_venue a c m)
        × Settles 2 (talk reject_message drop_copy_receives dc at_d 3 to_the_venue a d m)
  talk-Settles reject_message a c d oe dc at_c at_d true m laws k = (
    to_venue-Settles reject_message order_entry_receives oe at_c laws
        (λ c m. order_entry-quiet c m at_c) 1 a c m,
    Settles-mono (omega arith) (
        to_venue-Settles reject_message drop_copy_receives dc at_d laws
          (λ c m. drop_copy-quiet c m at_d) 1 a d m),
  )
  talk-Settles reject_message a c d oe dc at_c at_d false m laws k = (
    to_client-Settles_once reject_message order_entry_receives oe at_c laws
        (λ c m. order_entry-quiet c m at_c) 1 a c m k,
    to_client-Settles reject_message drop_copy_receives dc at_d laws
        (λ c m. drop_copy-quiet c m at_d) 0 a d m,
  )
