-- ===== src/Client/DropCopy.antt =====
-- The drop-copy consumer, internal/client/dc.go.
pub mod Dedup
use fix_session_lab.Base.{
  ℕ, suc, ◌+◌, ◌≡◌, ◌++◌, Bool, true, false, List, [], ◌∷◌, Option, none, some, ite,
}
use fix_session_lab.Base.Lists.{if◌then◌else◌}
use fix_session_lab.Base.Text.{Text, codes, text_dec}
use fix_session_lab.Deps.{Deps, Result, ok, err, ◌>>=◌, ok_or, Rejection}
use fix_session_lab.Session.Client.{Client, note_inbound, app, new_client}
use fix_session_lab.Session.{LogonCredentials}

pub record Report : Type 0 where
  pub exec_id : Text
  pub cl_ord_id : Text
  pub order_id : Text
  pub exec_type : Text
  pub ord_status : Text
  pub replayed : Bool

-- Whether a key is in the set.
unfoldable pub contains : List Text → Text → Bool
unfolding text_dec
contains [] k = false
contains (j ∷ s) k = ite (text_dec j k) true (contains s k)

module _ ⦃L : Deps⦄ where
  pub record DropCopy (W : Type 0) : Type 0 where
    pub client : Client W
    pub seen : List Text
    pub reports : List Report
    pub dupes : ℕ

  -- PossDupFlag, taken for false where it cannot be read.
  unfoldable pub is_replayed : L.Message → Bool
  is_replayed m = ok_or false (L.header_bool m 43)

  unfoldable pub report_of_message : L.Message → Result Rejection Report
  unfolding is_replayed
  report_of_message m = do
    exec_id ← L.body_string m 17
    exec_type ← L.body_string m 150
    ord_status ← L.body_string m 39
    order_id ← L.body_string m 37
    ok (record {
      exec_id = exec_id;
      cl_ord_id = ok_or [] (L.body_string m 11);
      order_id = order_id;
      exec_type = exec_type;
      ord_status = ord_status;
      replayed = is_replayed m;
    })

  module _ {W : Type 0} where
    unfoldable pub new_drop_copy : LogonCredentials → W → DropCopy W
    unfolding new_client
    new_drop_copy creds w = record {
      client = new_client creds w;
      seen = [];
      reports = [];
      dupes = 0;
    }

    unfoldable pub record_report : DropCopy W → Report → DropCopy W
    record_report c r =
        if contains c.seen r.exec_id
        then record c { dupes = c.dupes + 1 }
        else record c { seen = r.exec_id ∷ c.seen; reports = c.reports ++ r ∷ [] }

    unfoldable pub on_report : DropCopy W → L.Message → DropCopy W × Option Rejection
    unfolding report_of_message record_report
    on_report c m = elim (report_of_message m) [
      | err e ↦ (c, some e)
      | ok r ↦ (record_report c r, none)
    ]

    unfoldable pub from_app : DropCopy W → L.Message → L.SessionId → DropCopy W × Option Rejection
    unfolding note_inbound on_report
    from_app c m id =
        let c' = record c { client = note_inbound c.client id app } in
        elim (L.header_string m 35) [
          | err e ↦ (c', some e)
          | ok t ↦ ite (text_dec t (codes "8")) (on_report c' m) (c', none)
        ]

    unfoldable pub reports : DropCopy W → List Report
    reports c = c.reports

    unfoldable pub duplicates : DropCopy W → ℕ
    duplicates c = c.dupes
