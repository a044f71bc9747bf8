-- ===== src/Deps.antt =====
-- What the program takes from third-party packages, as one record: shopspring/decimal, and the
-- parts of quickfixgo/quickfix that its code calls. Nothing is assumed of it here; the laws that a
-- theorem needs are the records at the end, which the theorem takes as hypotheses.
use fix_session_lab.Base.{
  ℕ, ◌≡◌, refl, ◌⊎◌, inl, inr, ◌≢◌, ◌↔◌, Bool, true, false, not, ite, ℕ_discrete, Option, none,
  some,
}
use fix_session_lab.Base.Int.{ℤ}
use fix_session_lab.Base.Text.{Text}

-- A Go function's value, or its error.
pub data Result (E A : Type 0) : Type 0 where
  ok : A → Result E A
  err : E → Result E A

infixl 5 ◌>>=◌
abbrev pub ◌>>=◌ : {E A B : Type 0} → Result E A → (A → Result E B) → Result E B
ok a >>= f = f a
err e >>= f = err e

-- `if v, err := …; err == nil`: the value, or what stood there before.
abbrev pub ok_or : {E A : Type 0} → A → Result E A → A
ok_or d (ok a) = a
ok_or d (err e) = d

abbrev pub ok? : {E A : Type 0} → Result E A → Option A
ok? (ok a) = some a
ok? (err e) = none

pub Result-cases :
    {E A : Type 0} (r : Result E A) → ((a : A) × (r ≡ ok a)) ⊎ ((e : E) × (r ≡ err e))
Result-cases (ok a) = inl (a, refl)
Result-cases (err e) = inr (e, refl)

-- The text of a BusinessMessageReject: one constructor for each text that the code makes.
pub data RejectReason : Type 0 where
  drop_copy_read_only : RejectReason
  unsupported_type : Text → RejectReason
  duplicate_cl_ord_id : Text → RejectReason

-- quickfix.MessageRejectError: a business reject with its reason code, a refused Logon with its
-- text, or an error that a getter of the engine made, of which the code knows nothing.
pub data Rejection : Type 0 where
  business_reject : RejectReason → ℕ → Rejection
  logon_reject : Text → Rejection
  engine_reject : ℕ → Rejection

pub record Deps : Type 1 where
  -- decimal.Decimal up to Equal, which is all that the program observes of it
  pub Decimal : Type 0
  pub zero_dec : Decimal
  pub add : Decimal → Decimal → Decimal
  pub sub : Decimal → Decimal → Decimal
  pub mul : Decimal → Decimal → Decimal
  pub div : Decimal → Decimal → Decimal
  pub less_eq : Decimal → Decimal → Bool
  pub greater : Decimal → Decimal → Bool
  pub equal : Decimal → Decimal → Bool
  pub is_zero : Decimal → Bool
  -- the value that a field made with this scale has on the wire
  pub fixed : Decimal → ℕ → Decimal
  -- decimal.NewFromString
  pub decimal_of_text : Text → Result Text Decimal
  -- quickfix.SessionID
  pub SessionId : Type 0
  pub session_dec : Discrete SessionId
  pub no_session : SessionId
  pub sender_comp_id : SessionId → Text
  pub target_comp_id : SessionId → Text
  pub session_string : SessionId → Text
  -- quickfix.Message, read and written by tag
  pub Message : Type 0
  pub header_string : Message → ℕ → Result Rejection Text
  pub header_int : Message → ℕ → Result Rejection ℤ
  pub header_bool : Message → ℕ → Result Rejection Bool
  pub body_string : Message → ℕ → Result Rejection Text
  pub body_int : Message → ℕ → Result Rejection ℤ
  pub body_decimal : Message → ℕ → Result Rejection Decimal
  pub set_string : Message → ℕ → Text → Message
  pub set_int : Message → ℕ → ℤ → Message

-- The laws of exact decimal arithmetic and of its comparisons.
pub record DecimalLaws (L : Deps) : Type 0 where
  pub add_comm : (a b : L.Decimal) → L.add a b ≡ L.add b a
  pub add_assoc : (a b c : L.Decimal) → L.add (L.add a b) c ≡ L.add a (L.add b c)
  pub add_zero : (a : L.Decimal) → L.add a L.zero_dec ≡ a
  pub sub_add : (a b : L.Decimal) → L.add (L.sub a b) b ≡ a
  pub add_sub : (a b : L.Decimal) → L.sub (L.add a b) b ≡ a
  pub le_refl : (a : L.Decimal) → L.less_eq a a ≡ true
  pub le_trans :
      (a b c : L.Decimal) → L.less_eq a b ≡ true → L.less_eq b c ≡ true → L.less_eq a c ≡ true
  pub le_antisymm : (a b : L.Decimal) → L.less_eq a b ≡ true → L.less_eq b a ≡ true → a ≡ b
  pub le_total : (a b : L.Decimal) → L.less_eq a b ≡ false → L.less_eq b a ≡ true
  pub le_add : (a b c : L.Decimal) → L.less_eq a b ≡ true → L.less_eq (L.add a c) (L.add b c) ≡ true
  pub greater_lem : (a b : L.Decimal) → L.greater a b ≡ not (L.less_eq a b)
  pub equal_iff : (a b : L.Decimal) → (L.equal a b ≡ true) ↔ (a ≡ b)

-- A field that was set is read back, and setting one changes no other.
pub record MessageLaws (L : Deps) : Type 0 where
  pub string_set_string :
      (m : L.Message) (t u : ℕ) (v : Text)
      → L.body_string (L.set_string m t v) u ≡ ite (ℕ_discrete t u) (ok v) (L.body_string m u)
  pub string_set_int :
      (m : L.Message) (t u : ℕ) (v : ℤ)
      → t ≢ u
      → L.body_string (L.set_int m t v) u ≡ L.body_string m u
  pub int_set_int :
      (m : L.Message) (t u : ℕ) (v : ℤ)
      → L.body_int (L.set_int m t v) u ≡ ite (ℕ_discrete t u) (ok v) (L.body_int m u)
  pub int_set_string :
      (m : L.Message) (t u : ℕ) (v : Text)
      → t ≢ u
      → L.body_int (L.set_string m t v) u ≡ L.body_int m u
