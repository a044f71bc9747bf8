-- ===== src/Tests/Feeds.antt =====
-- Concrete log lines and drop-copy feeds.
use fix_session_lab.Base.{ℕ, ◌≡◌, refl, false, [], ◌∷◌, ◌++◌, arith}
use fix_session_lab.Base.Int.{pos}
use fix_session_lab.Base.Text.{Text, codes, text_dec}
use fix_session_lab.Client.DropCopy.{Report, DropCopy, new_drop_copy}
use fix_session_lab.Client.DropCopy.Dedup.{
  Delivery, done, fresh, replay, record_all, new_drop_copy-IsAligned, record_all-Delivery,
}
use fix_session_lab.Fixlog.{redact, soh, display_sep, mask, mask_field, is_secret}
use fix_session_lab.Fixlog.Fields.{masked, redact-masked}
use fix_session_lab.Fixlog.Masking.{
  same, secret, AllSameButSecret, last, more, redact-append, redact_tail-shown,
}
use fix_session_lab.Tests.Concrete.{plain}

pub logons :
    AllSameButSecret (codes "35=A" ∷ codes "96=abc" ∷ []) (codes "35=A" ∷ codes "96=hunter2" ∷ [])
unfolding is_secret
logons = more (same (codes "35=A") (ground arith)) (
    last (
      secret (codes "96") (codes "abc") (codes "hunter2") refl (ground arith) (ground arith)
        (ground arith) (ground arith)))

redact-append_example :
    redact (codes "35=A" ++ soh ∷ codes "96=abc")
    ≡ mask_field (codes "35=A") ++ display_sep ∷ redact (codes "96=abc")
redact-append_example = redact-append (codes "35=A") (codes "96=abc") (ground arith)

redact_tail-shown_example :
    redact (codes "96=ab" ++ soh ∷ codes "cd") ≡ codes "96=" ++ mask ++ display_sep ∷ codes "cd"
unfolding is_secret
redact_tail-shown_example =
    redact_tail-shown (codes "96") (codes "ab") (codes "cd") refl (ground arith) (ground arith)
      (ground arith) (ground arith) (ground arith)

abbrev report : Text → Report
report id = record {
  exec_id = id;
  cl_ord_id = codes "1";
  order_id = codes "ORD000001";
  exec_type = codes "0";
  ord_status = codes "0";
  replayed = false;
}

abbrev consumer : DropCopy ℕ
consumer =
    new_drop_copy (record { app_id = codes "lab"; cod_type = pos 0; cod_timeout_window = pos 0 }) 0

abbrev a : Report
a = report (codes "EXE000001")

abbrev b : Report
b = report (codes "EXE000002")

delivery : Delivery consumer.reports (a ∷ b ∷ []) (a ∷ a ∷ b ∷ a ∷ [])
unfolding new_drop_copy text_dec
delivery = fresh a refl (replay a refl (fresh b refl (replay a refl done)))

record_all-Delivery_example : (record_all consumer (a ∷ a ∷ b ∷ a ∷ [])).reports ≡ a ∷ b ∷ []
unfolding new_drop_copy
record_all-Delivery_example = record_all-Delivery consumer (new_drop_copy-IsAligned _ 0) delivery

redact-masked_example : redact (codes "35=A") ≡ masked (codes "35=A")
redact-masked_example = redact-masked (codes "35=A")
