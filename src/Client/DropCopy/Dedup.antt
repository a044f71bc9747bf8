-- ===== src/Client/DropCopy/Dedup.antt =====
-- What the drop-copy consumer records: internal/client/dc.go.
use fix_session_lab.Base.{
  ℕ, suc, ◌+◌, ◌≡◌, refl, sym, ap, subst, ◌∙◌, ◌++◌, ◌⊎◌, inl, inr, Bool, true, false, List, [],
  ◌∷◌, ite, arith, append_assoc, append-nil,
}
use fix_session_lab.Base.Lists.{length, length-append, Bool-cases}
use fix_session_lab.Base.Text.{Text, text_dec}
use fix_session_lab.Client.DropCopy.{Report, DropCopy, contains, new_drop_copy, record_report}
use fix_session_lab.Deps.{Deps}
use fix_session_lab.Session.{LogonCredentials}

-- Whether a report with this ExecID is in the list.
abbrev pub recorded : List Report → Text → Bool
recorded [] k = false
recorded (r ∷ rs) k = ite (text_dec r.exec_id k) true (recorded rs k)

-- No ExecID occurs twice.
abbrev pub Distinct : List Report → Type 0
Distinct [] = Unit {0}
Distinct (r ∷ rs) = (recorded rs r.exec_id ≡ false) × Distinct rs

-- What reaches the consumer when the venue's feed is `feed` and what came before is `old`: each report
-- of the feed in its turn, with an ExecID of its own, and between them any report of an event that has
-- come before.
pub data Delivery : List Report → List Report → List Report → Type 0 where
  done : {old : List Report} → Delivery old [] []
  fresh :
      {old feed got : List Report} (r : Report)
      → recorded old r.exec_id ≡ false
      → Delivery (old ++ r ∷ []) feed got
      → Delivery old (r ∷ feed) (r ∷ got)
  replay :
      {old feed got : List Report} (r : Report)
      → recorded old r.exec_id ≡ true
      → Delivery old feed got
      → Delivery old feed (r ∷ got)

pub recorded-snoc :
    (rs : List Report) (r : Report) (k : Text)
    → recorded (rs ++ r ∷ []) k ≡ ite (text_dec r.exec_id k) true (recorded rs k)
recorded-snoc [] r k = refl
recorded-snoc (o ∷ rs) r k = ground (arith, recorded-snoc rs r k)

Distinct-snoc :
    (rs : List Report) (r : Report)
    → recorded rs r.exec_id ≡ false
    → Distinct rs
    → Distinct (rs ++ r ∷ [])
Distinct-snoc [] r new ds = (refl, tt)
Distinct-snoc (o ∷ rs) r new (d, ds) =
    (ground (arith, recorded-snoc rs r o.exec_id), Distinct-snoc rs r (ground arith) ds)

module _ ⦃L : Deps⦄ {W : Type 0} where
  unfoldable pub record_all : DropCopy W → List Report → DropCopy W
  record_all c [] = c
  record_all c (r ∷ rs) = record_all (record_report c r) rs

  -- The set holds the ExecIDs of the recorded reports, and none is recorded twice.
  pub record IsAligned (c : DropCopy W) : Type 0 where
    pub same_ids : (k : Text) → contains c.seen k ≡ recorded c.reports k
    pub distinct : Distinct c.reports

  pub new_drop_copy-IsAligned :
      (creds : LogonCredentials) (w : W) → IsAligned (new_drop_copy creds w)
  unfolding new_drop_copy contains
  new_drop_copy-IsAligned creds w = record { same_ids = λ k. refl; distinct = tt }

  -- A report of a known event is counted, one of a new event recorded.
  pub record_report-cases :
      (c : DropCopy W) (r : Report)
      → ((contains c.seen r.exec_id ≡ true)
          × (record_report c r ≡ record c { dupes = c.dupes + 1 }))
        ⊎ ((contains c.seen r.exec_id ≡ false)
            × (record_report c r
                ≡ record c { seen = r.exec_id ∷ c.seen; reports = c.reports ++ r ∷ [] }))
  unfolding record_report
  record_report-cases c r = elim (Bool-cases (contains c.seen r.exec_id)) [
    | inl e ↦ inl (e, rw e refl)
    | inr e ↦ inr (e, rw e refl)
  ]

  pub record_report-IsAligned :
      (c : DropCopy W) (r : Report) → IsAligned c → IsAligned (record_report c r)
  unfolding contains
  record_report-IsAligned c r al = elim (record_report-cases c r) [
    | inl (e, q) ↦
        subst (λ (d : DropCopy W). IsAligned d) (sym q)
          (record { same_ids = al.same_ids; distinct = al.distinct })
    | inr (e, q) ↦
        subst (λ (d : DropCopy W). IsAligned d) (sym q)
          (record {
            same_ids = λ k.
                ap (λ b. ite (text_dec r.exec_id k) true b) (al.same_ids k)
                ∙ sym (recorded-snoc c.reports r k);
            distinct = Distinct-snoc c.reports r (sym (al.same_ids r.exec_id) ∙ e) al.distinct;
          })
  ]

  abbrev count : DropCopy W → ℕ
  count c = length c.reports + c.dupes

  record_report-count : (c : DropCopy W) (r : Report) → count (record_report c r) ≡ suc (count c)
  record_report-count c r = elim (record_report-cases c r) [
    | inl (e, q) ↦ ap (λ (d : DropCopy W). length d.reports + d.dupes) q ∙ omega arith
    | inr (e, q) ↦
        ap (λ (d : DropCopy W). length d.reports + d.dupes) q
        ∙ rw (length-append c.reports (r ∷ [])) (omega arith)
  ]

  -- Whatever reports arrive at a drop-copy consumer whose set of seen ExecIDs holds those of its
  -- reports, none twice, this still holds in the end, and each arrival was either recorded or counted
  -- as a duplicate.
  record_all-IsAligned :
      (c : DropCopy W) (rs : List Report)
      → IsAligned c
      → IsAligned (record_all c rs)
        × (length (record_all c rs).reports + (record_all c rs).dupes
            ≡ length c.reports + c.dupes + length rs)
  unfolding record_all
  record_all-IsAligned c [] al = (al, omega arith)
  record_all-IsAligned c (r ∷ rs) al =
      let (kept, counted) =
        record_all-IsAligned (record_report c r) rs (record_report-IsAligned c r al) in
      let step = record_report-count c r in (kept, omega (arith, counted, step))

  -- However often reports of past events arrive between the reports of a feed, each of whose ExecIDs
  -- is new when it comes, a drop-copy consumer whose set of seen ExecIDs holds those of its reports,
  -- none twice, records the feed after what it had, each report once and in its order.
  pub record_all-Delivery :
      (c : DropCopy W) {feed got : List Report}
      → IsAligned c
      → Delivery c.reports feed got
      → (record_all c got).reports ≡ c.reports ++ feed
  unfolding record_all
  record_all-Delivery c {feed} al d = go c refl al d
    where
      go :
          (c : DropCopy W) {old feed got : List Report}
          → c.reports ≡ old
          → IsAligned c
          → Delivery old feed got
          → (record_all c got).reports ≡ old ++ feed
      go c e al done = e ∙ sym (append-nil _)
      go c {old} {feed = _ ∷ feed} e al (fresh r new d) = elim (record_report-cases c r) [
        | inl (seen, q) ↦ cc (al.same_ids r.exec_id, ap (λ l. recorded l r.exec_id) e)
        | inr (unseen, q) ↦
            go (record_report c r) (ap (λ (d : DropCopy W). d.reports) q ∙ ap (λ l. l ++ r ∷ []) e)
              (record_report-IsAligned c r al) d
            ∙ append_assoc old (r ∷ []) feed
      ]
      go c e al (replay r known d) = elim (record_report-cases c r) [
        | inl (seen, q) ↦
            go (record_report c r) (ap (λ (d : DropCopy W). d.reports) q ∙ e)
              (record_report-IsAligned c r al) d
        | inr (unseen, q) ↦ cc (al.same_ids r.exec_id, ap (λ l. recorded l r.exec_id) e)
      ]
