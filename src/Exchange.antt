-- ===== src/Exchange.antt =====
-- The fake venue, internal/exchange/exchange.go: its state and the parts of quickfix.Application that
-- only read or note something. `outbox` holds what the venue has handed to quickfix.SendToTarget,
-- newest first, whether or not the session was up, and `timers` what it gave to time.AfterFunc and
-- has not run. Log lines and the clock's TransactTime are not modelled.
pub mod Reports
pub mod Commands
pub mod Callbacks
pub mod Lifecycle
pub mod Publish
pub mod Steps
pub mod Fanout
pub mod ExecIds
pub mod Updates
pub mod MassCancel
pub mod Events
pub mod Final
pub mod Trades
pub mod Intake
pub mod Standing
pub mod Passwords
pub mod Races
pub mod LostTwice
pub mod GraceWindow
pub mod Sessions
pub mod Guarantees
pub mod Latest
use fix_session_lab.Base.{ℕ, ◌≡◌, Bool, true, false, List, [], ◌∷◌, Option, none, some, ite, map}
use fix_session_lab.Base.Int.{ℤ, pos}
use fix_session_lab.Base.Map.{lookup, lookup_or, insert}
use fix_session_lab.Base.Text.{Text, codes, text_dec}
use fix_session_lab.Book.{Book}
use fix_session_lab.Deps.{Deps, Result, ok, err}
use fix_session_lab.Order.{OrderState, ExecType, Status}
use fix_session_lab.Session.{LogonRequest, password}

-- Go's Kind is a string: `other` holds the ones that name no role, the empty one among them.
pub data Kind : Type 0 where
  order_entry drop_copy : Kind
  other : Text → Kind

unfoldable pub kind_dec : Discrete Kind
unfolding text_dec
kind_dec = hlevel text_dec

unfoldable pub kind_of_text : Text → Kind
unfolding text_dec
kind_of_text t =
    ite (text_dec t (codes "ORDER_ENTRY")) order_entry
      (ite (text_dec t (codes "DROP_COPY")) drop_copy (other t))

pub record SeqNums : Type 0 where
  pub last_sent : ℤ
  pub last_received : ℤ

abbrev pub tag_msg_seq_num : ℕ
tag_msg_seq_num = 34

abbrev pub no_seqnums : SeqNums
no_seqnums = record { last_sent = pos 0; last_received = pos 0 }

-- The fields of an ExecutionReport as they stand on the wire.
pub record ExecutionReport (D : Type 0) : Type 0 where
  pub order_id : Text
  pub exec_id : Text
  pub exec_type : ExecType
  pub ord_status : Status
  pub side : Text
  pub leaves_qty : D
  pub cum_qty : D
  pub avg_px : D
  pub cl_ord_id : Text
  pub symbol : Text
  pub order_qty : D
  pub price : Option D
  pub account : Option Text
  pub last_qty : Option D
  pub last_px : Option D
  pub text : Option Text
  pub restatement : Option ℕ

module _ ⦃L : Deps⦄ where
  -- A cancel-on-disconnect check that is to run at `due` (nanoseconds).
  pub record Timer : Type 0 where
    pub session : L.SessionId
    pub due : ℕ

  pub record App : Type 0 where
    pub book : Book L.Decimal
    pub kinds : List (L.SessionId × Kind)
    pub logged_on : List (L.SessionId × Bool)
    pub cod : List (L.SessionId × LogonRequest)
    pub seqnums : List (L.SessionId × SeqNums)
    pub expect : List (Text × Text)
    pub reject_logons : Text
    pub silenced : Bool
    pub outbox : List (L.SessionId × ExecutionReport L.Decimal)
    pub timers : List Timer

  unfoldable pub new_app : Book L.Decimal → App
  new_app book = record {
    book = book;
    kinds = [];
    logged_on = [];
    cod = [];
    seqnums = [];
    expect = [];
    reject_logons = [];
    silenced = false;
    outbox = [];
    timers = [];
  }

  unfoldable pub note_sent : App → L.Message → L.SessionId → App
  note_sent a m id = elim (L.header_int m tag_msg_seq_num) [
    | err e ↦ a
    | ok n ↦
        let s = lookup_or L.session_dec no_seqnums id a.seqnums in
        record a { seqnums = insert L.session_dec id (record s { last_sent = n }) a.seqnums }
  ]

  unfoldable pub note_received : App → L.Message → L.SessionId → App
  note_received a m id = elim (L.header_int m tag_msg_seq_num) [
    | err e ↦ a
    | ok n ↦
        let s = lookup_or L.session_dec no_seqnums id a.seqnums in
        record a { seqnums = insert L.session_dec id (record s { last_received = n }) a.seqnums }
  ]

  unfoldable pub register_kind : App → L.SessionId → Kind → App
  register_kind a id kind = record a { kinds = insert L.session_dec id kind a.kinds }

  unfoldable pub kind_of : App → L.SessionId → Kind
  kind_of a id = lookup_or L.session_dec (other []) id a.kinds

  -- The first session of this role in the order of the list, which stands for the order that Go
  -- picks for its loop over the map.
  unfoldable pub session_with : Kind → List (L.SessionId × Kind) → Option L.SessionId
  session_with kind [] = none
  session_with kind ((id, k) ∷ m) = ite (kind_dec k kind) (some id) (session_with kind m)

  unfoldable pub session_of : App → Kind → Option L.SessionId
  session_of a kind = session_with kind a.kinds

  unfoldable pub on_logon : App → L.SessionId → App
  on_logon a id = record a { logged_on = insert L.session_dec id true a.logged_on }

  abbrev pub is_logged_on : App → L.SessionId → Bool
  is_logged_on a id = lookup_or L.session_dec false id a.logged_on

  unfoldable pub to_admin : App → L.Message → L.SessionId → App
  unfolding note_sent
  to_admin a m id = note_sent a m id

  unfoldable pub to_app : App → L.Message → L.SessionId → App
  unfolding note_sent
  to_app a m id = note_sent a m id

  -- `true` is a password that the venue takes.
  unfoldable pub check_password : App → L.SessionId → Text → Bool
  check_password a id got = elim (lookup text_dec (L.target_comp_id id) a.expect) [
    | none ↦ true
    | some expected ↦ ite (text_dec got expected) true false
  ]
