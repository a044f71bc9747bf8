-- ===== src/Feed/Copies.antt =====
-- From the venue's outbox to what the drop-copy client records: internal/exchange and
-- internal/client/dc.go.
use fix_session_lab.Base.{
  ℕ, suc, arith, true, Option, ite, if_pos, ◌≡◌, ◌≢◌, refl, sym, ap, ◌∙◌, subst, inl, inr, Bool,
  false, List, [], ◌∷◌, ◌++◌, none, if_neg,
}
use fix_session_lab.Base.Lists.{All}
use fix_session_lab.Base.Text.{Text, codes, text_dec}
use fix_session_lab.Client.DropCopy.{
  Report, DropCopy, is_replayed, report_of_message, new_drop_copy, record_report, on_report,
  from_app, reports, duplicates,
}
use fix_session_lab.Client.DropCopy.Dedup.{
  recorded, recorded-snoc, IsAligned, new_drop_copy-IsAligned, record_report-cases,
  record_report-IsAligned,
}
use fix_session_lab.Deps.{Deps, ok, Rejection}
use fix_session_lab.Exchange.{App, ExecutionReport}
use fix_session_lab.Exchange.Events.{Event, run}
use fix_session_lab.Exchange.ExecIds.{Unrepeated}
use fix_session_lab.Exchange.Fanout.{reports_to, Roles}
use fix_session_lab.Exchange.Guarantees.{IsFresh, run-IsMirrored, run-Unrepeated}
use fix_session_lab.Feed.{Carries, Among, newest, older, Fed, begins, goes_on, repeats, strays}
use fix_session_lab.Order.{status_code, exec_type_code}
use fix_session_lab.Session.{LogonCredentials}
use fix_session_lab.Session.Client.{note_inbound, app}

module _ ⦃L : Deps⦄ where
  -- The record that the consumer makes of a report, with its replay mark.
  abbrev pub copy_of : ExecutionReport L.Decimal → Bool → Report
  copy_of er replayed = record {
    exec_id = er.exec_id;
    cl_ord_id = er.cl_ord_id;
    order_id = er.order_id;
    exec_type = exec_type_code er.exec_type;
    ord_status = status_code er.ord_status;
    replayed = replayed;
  }

  -- Records, the oldest first, of reports, the newest first, one for each.
  pub data Copied : List Report → List (ExecutionReport L.Decimal) → Type 0 where
    no_copies : Copied [] []
    one_copied :
        (rs rs' : List Report) (er : ExecutionReport L.Decimal) (replayed : Bool)
        {ers : List (ExecutionReport L.Decimal)}
        → Copied rs ers
        → rs' ≡ rs ++ copy_of er replayed ∷ []
        → Copied rs' (er ∷ ers)

  recorded-Copied :
      (k : Text) {rs : List Report} {ers : List (ExecutionReport L.Decimal)}
      → Copied rs ers
      → All (λ f. f.exec_id ≢ k) ers
      → recorded rs k ≡ false
  recorded-Copied k no_copies h = refl
  recorded-Copied k (one_copied rs rs' er b c same) (hx, h) =
      ap (λ l. recorded l k) same
      ∙ recorded-snoc rs (copy_of er b) k
      ∙ if_neg (text_dec er.exec_id k) hx _ _
      ∙ recorded-Copied k c h

  ite_same : {P A : Type 0} (d : Dec P) (x : A) → ite d x x ≡ x
  ite_same (yes p) x = refl
  ite_same (no p) x = refl

  recorded-Among :
      {er : ExecutionReport L.Decimal} {rs : List Report} {ers : List (ExecutionReport L.Decimal)}
      → Copied rs ers
      → Among er ers
      → recorded rs er.exec_id ≡ true
  recorded-Among {er} no_copies h = elim h [ ]
  recorded-Among {er} (one_copied rs rs' f b c same) (newest e) =
      ap (λ l. recorded l er.exec_id) same
      ∙ recorded-snoc rs (copy_of f b) er.exec_id
      ∙ if_pos (text_dec f.exec_id er.exec_id)
          (ap (λ (x : ExecutionReport L.Decimal). x.exec_id) (sym e)) _ _
  recorded-Among {er} (one_copied rs rs' f b c same) (older h) =
      ap (λ l. recorded l er.exec_id) same
      ∙ recorded-snoc rs (copy_of f b) er.exec_id
      ∙ ap (λ x. ite (text_dec f.exec_id er.exec_id) true x) (recorded-Among c h)
      ∙ ite_same (text_dec f.exec_id er.exec_id) true

  Carries-report :
      {m : L.Message} {er : ExecutionReport L.Decimal}
      → Carries m er
      → report_of_message m ≡ ok (copy_of er (is_replayed m))
  unfolding report_of_message
  Carries-report c = rw (c.exec_id, c.exec_type, c.ord_status, c.order_id, c.cl_ord_id) refl

  module _ {W : Type 0} where
    -- The messages as the engine hands them to FromApp.
    unfoldable pub deliver : DropCopy W → L.SessionId → List L.Message → DropCopy W
    deliver c id [] = c
    deliver c id (m ∷ ms) = deliver (from_app c m id).0 id ms

    deliver-append :
        (c : DropCopy W) (id : L.SessionId) (xs ys : List L.Message)
        → deliver c id (xs ++ ys) ≡ deliver (deliver c id xs) id ys
    unfolding deliver
    deliver-append c id [] ys = refl
    deliver-append c id (m ∷ xs) ys = deliver-append (from_app c m id).0 id xs ys

    -- The consumer with its client told of the traffic.
    heard : DropCopy W → L.SessionId → DropCopy W
    heard c id = record c { client = note_inbound c.client id app }

    on_report-Carries :
        (c : DropCopy W) (m : L.Message) (er : ExecutionReport L.Decimal)
        → Carries m er
        → on_report c m ≡ (record_report c (copy_of er (is_replayed m)), none)
    unfolding on_report
    on_report-Carries c m er carries = rw (Carries-report carries, on_report) refl

    delivered_once :
        (c : DropCopy W) (id : L.SessionId) (m : L.Message) (er : ExecutionReport L.Decimal)
        → Carries m er
        → (from_app c m id).0 ≡ record_report (heard c id) (copy_of er (is_replayed m))
    unfolding from_app heard text_dec
    delivered_once c id m er carries =
        rw (carries.msg_type, from_app)
          (ap (λ q. q.0) (on_report-Carries (heard c id) m er carries))

    record Kept (n : ℕ) (c : DropCopy W) (ers : List (ExecutionReport L.Decimal)) : Type 0 where
      copied : Copied c.reports ers
      counted : c.dupes ≡ n
      aligned : IsAligned c

    heard-IsAligned : (c : DropCopy W) (id : L.SessionId) → IsAligned c → IsAligned (heard c id)
    unfolding heard
    heard-IsAligned c id al = record { same_ids = al.same_ids; distinct = al.distinct }

    delivered_once-Kept :
        (n : ℕ) (c : DropCopy W) (id : L.SessionId) (m : L.Message) (er : ExecutionReport L.Decimal)
        (ers : List (ExecutionReport L.Decimal))
        → Carries m er
        → Kept n c ers
        → All (λ f. f.exec_id ≢ er.exec_id) ers
        → Kept n (from_app c m id).0 (er ∷ ers)
    unfolding heard
    delivered_once-Kept n c id m er ers carries k new =
        let r = copy_of er (is_replayed m) in
        let al = heard-IsAligned c id k.aligned in
        subst (λ (d : DropCopy W). Kept n d (er ∷ ers)) (sym (delivered_once c id m er carries))
          (elim (record_report-cases (heard c id) r) [
            | inl (seen, q) ↦
                cc (sym seen ∙ al.same_ids er.exec_id ∙ recorded-Copied er.exec_id k.copied new)
            | inr (unseen, q) ↦ record {
              copied =
                  one_copied c.reports _ er (is_replayed m) k.copied
                    (ap (λ (d : DropCopy W). d.reports) q);
              counted = ap (λ (d : DropCopy W). d.dupes) q ∙ k.counted;
              aligned = record_report-IsAligned (heard c id) r al;
            }
          ])

    delivered_again-Kept :
        (n : ℕ) (c : DropCopy W) (id : L.SessionId) (m : L.Message) (er : ExecutionReport L.Decimal)
        (ers : List (ExecutionReport L.Decimal))
        → Carries m er
        → Kept n c ers
        → Among er ers
        → Kept (suc n) (from_app c m id).0 ers
    unfolding heard
    delivered_again-Kept n c id m er ers carries k old =
        let r = copy_of er (is_replayed m) in
        let al = heard-IsAligned c id k.aligned in
        subst (λ (d : DropCopy W). Kept (suc n) d ers) (sym (delivered_once c id m er carries))
          (elim (record_report-cases (heard c id) r) [
            | inl (seen, q) ↦ record {
              copied =
                  subst (λ rs. Copied rs ers) (sym (ap (λ (d : DropCopy W). d.reports) q)) k.copied;
              counted = omega (arith, ap (λ (d : DropCopy W). d.dupes) q, k.counted);
              aligned = record_report-IsAligned (heard c id) r al;
            }
            | inr (unseen, q) ↦
                cc (sym unseen ∙ al.same_ids er.exec_id ∙ recorded-Among k.copied old)
          ])

    strayed-Kept :
        (n : ℕ) (c : DropCopy W) (id : L.SessionId) (m : L.Message) (t : Text)
        (ers : List (ExecutionReport L.Decimal))
        → L.header_string m 35 ≡ ok t
        → t ≢ codes "8"
        → Kept n c ers
        → Kept n (from_app c m id).0 ers
    unfolding from_app heard
    strayed-Kept n c id m t ers e other k =
        let same : (from_app c m id).0 ≡ heard c id =
          rw (e, from_app)
            (ap (λ (q : DropCopy W × Option Rejection). q.0)
              (if_neg (text_dec t (codes "8")) other _ _)) in
        subst (λ (d : DropCopy W). Kept n d ers) (sym same)
          (record {
            copied = k.copied;
            counted = k.counted;
            aligned = heard-IsAligned c id k.aligned;
          })

    delivered-Kept :
        (c : DropCopy W) (id : L.SessionId) {n : ℕ} {ms : List L.Message}
        {ers : List (ExecutionReport L.Decimal)}
        → Kept 0 c []
        → Fed n ms ers
        → Unrepeated ers
        → Kept n (deliver c id ms) ers
    unfolding deliver
    delivered-Kept c id k begins u = k
    delivered-Kept c id k (goes_on n ms ms' m er {ers} rest carries same) (new, u) =
        rw (same, deliver-append c id ms (m ∷ []))
          (delivered_once-Kept n (deliver c id ms) id m er ers carries
            (delivered-Kept c id k rest u) new)
    delivered-Kept c id k (repeats n ms ms' m er {ers} rest carries old same) u =
        rw (same, deliver-append c id ms (m ∷ []))
          (delivered_again-Kept n (deliver c id ms) id m er ers carries
            (delivered-Kept c id k rest u) old)
    delivered-Kept c id k (strays n ms ms' m t {ers} rest e other same) u =
        rw (same, deliver-append c id ms (m ∷ []))
          (strayed-Kept n (deliver c id ms) id m t ers e other (delivered-Kept c id k rest u))

  -- From a venue with no order and nothing sent, with one order-entry and one other drop-copy session,
  -- after any sequence of events: a new drop-copy client to which messages are delivered that carry
  -- the reports that the drop-copy session was sent, in their order, and between them, any number of
  -- times, reports that have come before or messages of other types, has recorded exactly the reports
  -- that the order-entry session was sent, each once and in their order, with some replay mark each,
  -- and has counted one duplicate for each that came again.
  pub reports-run :
      {W : Type 0} (a : App) (es : List Event) (oe dc : L.SessionId) (creds : LogonCredentials)
      (w : W) (id : L.SessionId) (ms : List L.Message) (n : ℕ)
      → IsFresh a
      → Roles a oe dc
      → Fed n ms (reports_to dc (run a es).outbox)
      → Copied (reports (deliver (new_drop_copy creds w) id ms)) (reports_to oe (run a es).outbox)
        × (duplicates (deliver (new_drop_copy creds w) id ms) ≡ n)
  unfolding new_drop_copy reports duplicates
  reports-run a es oe dc creds w id ms n fresh roles fed =
      let kept =
        delivered-Kept (new_drop_copy creds w) id
          (record { copied = no_copies; counted = refl; aligned = new_drop_copy-IsAligned creds w })
          fed (run-Unrepeated a es oe dc dc fresh roles (inr refl)) in
      (rw (run-IsMirrored a es oe dc fresh roles) kept.copied, kept.counted)
