-- ===== src/Feed.antt =====
-- Between the venue and its clients: what the engine's messages carry of the reports that
-- internal/exchange hands to SendToTarget and that internal/client reads.
pub mod Views
pub mod Copies
pub mod Rejects
pub mod Logons
use fix_session_lab.Base.{ℕ, suc, ◌≡◌, ◌≢◌, List, [], ◌∷◌, ◌++◌, Option, none, some, ite}
use fix_session_lab.Base.Text.{Text, codes}
use fix_session_lab.Deps.{Deps, Result, ok, err}
use fix_session_lab.Exchange.{ExecutionReport}
use fix_session_lab.Order.{status_code, exec_type_code}

module _ ⦃L : Deps⦄ where
  -- The fields of an ExecutionReport, as a client reads them off the message. Whether the message is
  -- marked as a replay is left open.
  pub record Carries (m : L.Message) (er : ExecutionReport L.Decimal) : Type 0 where
    pub msg_type : L.header_string m 35 ≡ ok (codes "8")
    pub cl_ord_id : L.body_string m 11 ≡ ok er.cl_ord_id
    pub order_id : L.body_string m 37 ≡ ok er.order_id
    pub exec_id : L.body_string m 17 ≡ ok er.exec_id
    pub exec_type : L.body_string m 150 ≡ ok (exec_type_code er.exec_type)
    pub ord_status : L.body_string m 39 ≡ ok (status_code er.ord_status)
    pub cum_qty : L.body_decimal m 14 ≡ ok er.cum_qty
    pub leaves_qty : L.body_decimal m 151 ≡ ok er.leaves_qty
    pub avg_px : L.body_decimal m 6 ≡ ok er.avg_px

  -- Messages, the oldest first, that carry reports, the newest first.
  pub data Carried : List L.Message → List (ExecutionReport L.Decimal) → Type 0 where
    nothing : Carried [] []
    one_more :
        (ms ms' : List L.Message) (m : L.Message) (er : ExecutionReport L.Decimal)
        {ers : List (ExecutionReport L.Decimal)}
        → Carried ms ers
        → Carries m er
        → ms' ≡ ms ++ m ∷ []
        → Carried ms' (er ∷ ers)

  pub data Among (er : ExecutionReport L.Decimal) : List (ExecutionReport L.Decimal) → Type 0 where
    newest :
        {f : ExecutionReport L.Decimal} {ers : List (ExecutionReport L.Decimal)}
        → er ≡ f
        → Among er (f ∷ ers)
    older :
        {f : ExecutionReport L.Decimal} {ers : List (ExecutionReport L.Decimal)}
        → Among er ers
        → Among er (f ∷ ers)

  -- Messages, the oldest first, that carry reports, the newest first; between them there may be
  -- messages of other types, and any report may come again, which happens `n` times.
  pub data Fed : ℕ → List L.Message → List (ExecutionReport L.Decimal) → Type 0 where
    begins : Fed 0 [] []
    goes_on :
        (n : ℕ) (ms ms' : List L.Message) (m : L.Message) (er : ExecutionReport L.Decimal)
        {ers : List (ExecutionReport L.Decimal)}
        → Fed n ms ers
        → Carries m er
        → ms' ≡ ms ++ m ∷ []
        → Fed n ms' (er ∷ ers)
    repeats :
        (n : ℕ) (ms ms' : List L.Message) (m : L.Message) (er : ExecutionReport L.Decimal)
        {ers : List (ExecutionReport L.Decimal)}
        → Fed n ms ers
        → Carries m er
        → Among er ers
        → ms' ≡ ms ++ m ∷ []
        → Fed (suc n) ms' ers
    strays :
        (n : ℕ) (ms ms' : List L.Message) (m : L.Message) (t : Text)
        {ers : List (ExecutionReport L.Decimal)}
        → Fed n ms ers
        → L.header_string m 35 ≡ ok t
        → t ≢ codes "8"
        → ms' ≡ ms ++ m ∷ []
        → Fed n ms' ers

  -- Messages, the oldest first, that carry the reports, the newest first, and then, any number of times,
  -- the last ones of these again in their order, as an engine resends them.
  pub data Resent (ers : List (ExecutionReport L.Decimal)) : List L.Message → Type 0 where
    at_first : (ms : List L.Message) → Carried ms ers → Resent ers ms
    again :
        (ms ms' more : List L.Message) (newer elder : List (ExecutionReport L.Decimal))
        → Resent ers ms
        → ers ≡ newer ++ elder
        → Carried more newer
        → ms' ≡ ms ++ more
        → Resent ers ms'
