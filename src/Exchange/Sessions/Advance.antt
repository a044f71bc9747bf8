-- ===== src/Exchange/Sessions/Advance.antt =====
-- The sequence number that AdvanceSeqNum of internal/exchange/commands.go sets.
use fix_session_lab.Base.{
  ℕ, ◌+◌, ◌-◌, ◌^◌, ◌<◌, ◌≡◌, ◌≢◌, refl, ap, ◌∙◌, Option, none, some, false, if_neg, arith,
}
use fix_session_lab.Base.Int.{ℤ, pos, negsuc, ◌+ℤ◌, wrap64}
use fix_session_lab.Base.Lists.{ltb, leb, if◌then◌else◌}
use fix_session_lab.Base.Text.{Text}
use fix_session_lab.Deps.{Deps, Result, ok, err}
use fix_session_lab.Exchange.{App, Kind, session_of}
use fix_session_lab.Exchange.Sessions.{AdvanceError, store_failed, advance_store, advance_seq_num}

wrap64-pos :
    (m : ℕ)
    → m < 2 ^ 64
    → wrap64 (pos m) ≡ (if ltb m (2 ^ 63) then pos m else negsuc (2 ^ 64 - m - 1))
unfolding wrap64
wrap64-pos m h = ground arith

pos-add : (m n : ℕ) → pos m +ℤ pos n ≡ pos (m + n)
unfolding ◌+ℤ◌
pos-add m n = ground arith

module _ ⦃L : Deps⦄ where
  -- Writing a number to the store.
  abbrev pub stored : (L.SessionId → ℤ → Option Text) → L.SessionId → ℤ → Result AdvanceError ℤ
  stored set_next id next = elim (set_next id next) [
    | none ↦ ok next
    | some e ↦ err (store_failed e)
  ]

  advance_store-stored :
      (expected_sender_num : L.SessionId → Result Text ℤ) (set_next : L.SessionId → ℤ → Option Text)
      (id : L.SessionId) (current n : ℕ)
      → expected_sender_num id ≡ ok (pos current)
      → advance_store expected_sender_num set_next id (pos n)
        ≡ stored set_next id (wrap64 (pos current +ℤ pos n))
  unfolding advance_store
  advance_store-stored expected_sender_num set_next id current n known =
      rw (known, advance_store) refl

  -- At a known session whose number is below 2 ^ 63, advancing by a positive number below 2 ^ 63
  -- writes the sum if it is below 2 ^ 63 and the negative number that it wraps to if not, and answers
  -- what it wrote, or the error of the store.
  pub advance_seq_num-wraps :
      (expected_sender_num : L.SessionId → Result Text ℤ) (set_next : L.SessionId → ℤ → Option Text)
      (a : App) (kind : Kind) (id : L.SessionId) (current n : ℕ)
      → session_of a kind ≡ some id
      → id ≢ L.no_session
      → expected_sender_num id ≡ ok (pos current)
      → current < 2 ^ 63
      → 0 < n
      → n < 2 ^ 63
      → advance_seq_num expected_sender_num set_next a kind (pos n)
        ≡ stored set_next id (
            if ltb (current + n) (2 ^ 63)
            then pos (current + n)
            else negsuc (2 ^ 64 - (current + n) - 1))
  unfolding advance_seq_num
  advance_seq_num-wraps expected_sender_num set_next a kind id current n found real known small up
        fits =
      let positive : leb (n + 0) 0 ≡ false = ground arith in
      rw (positive, found, if_neg (L.session_dec id L.no_session) real, advance_seq_num)
        (advance_store-stored expected_sender_num set_next id current n known
          ∙ ap (stored set_next id)
              (ap wrap64 (pos-add current n) ∙ wrap64-pos (current + n) (omega arith)))
