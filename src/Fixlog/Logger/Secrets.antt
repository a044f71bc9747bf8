-- ===== src/Fixlog/Logger/Secrets.antt =====
-- Secrets in a whole log: internal/fixlog/redact.go.
use fix_session_lab.Base.{◌≡◌, refl, sym, ap, ◌∙◌, List, [], ◌∷◌}
use fix_session_lab.Base.Text.{Text, codes}
use fix_session_lab.Fixlog.{redact, soh}
use fix_session_lab.Fixlog.Fields.{join}
use fix_session_lab.Fixlog.Logger.{Logger, Entry, incoming, outgoing, event, write_line, log_entry}
use fix_session_lab.Fixlog.Masking.{AllSameButSecret, redact-SameButSecret}

-- Entries of several logs that share a writer.
unfoldable pub log_all : Text → List (Logger × Entry) → Text
log_all out [] = out
log_all out ((l, e) ∷ es) = log_all (log_entry l out e) es

-- Two histories, entry for entry: the same events, and messages whose fields differ at most in the
-- values behind secret tags.
pub data SameButSecrets : List (Logger × Entry) → List (Logger × Entry) → Type 0 where
  done : SameButSecrets [] []
  came_in :
      (l : Logger) {fs gs : List Text} {es es' : List (Logger × Entry)} {b b' : Text}
      → AllSameButSecret fs gs
      → b ≡ join soh fs
      → b' ≡ join soh gs
      → SameButSecrets es es'
      → SameButSecrets ((l, incoming b) ∷ es) ((l, incoming b') ∷ es')
  sent :
      (l : Logger) {fs gs : List Text} {es es' : List (Logger × Entry)} {b b' : Text}
      → AllSameButSecret fs gs
      → b ≡ join soh fs
      → b' ≡ join soh gs
      → SameButSecrets es es'
      → SameButSecrets ((l, outgoing b) ∷ es) ((l, outgoing b') ∷ es')
  noted :
      (l : Logger) (s : Text) {es es' : List (Logger × Entry)}
      → SameButSecrets es es'
      → SameButSecrets ((l, event s) ∷ es) ((l, event s) ∷ es')

redact-same :
    {fs gs : List Text} (b b' : Text)
    → AllSameButSecret fs gs
    → b ≡ join soh fs
    → b' ≡ join soh gs
    → redact b ≡ redact b'
redact-same b b' h e e' = ap redact e ∙ redact-SameButSecret h ∙ sym (ap redact e')

-- Two histories of several logs with one writer, entry for entry with the same events, and with
-- messages whose fields, taken in pairs, are equal and hold no SOH, or differ at most in the value
-- behind one secret tag, with no SOH in the field and no `=` in the tag, write the same text.
pub log_all-SameButSecrets :
    (out : Text) {es es' : List (Logger × Entry)}
    → SameButSecrets es es'
    → log_all out es ≡ log_all out es'
unfolding log_all log_entry
log_all-SameButSecrets out done = refl
log_all-SameButSecrets out (came_in l {es = es} {es' = es'} {b = b} {b' = b'} h e e' rest) =
    ap (λ s. log_all (write_line l (codes "<--") s out) es) (redact-same b b' h e e')
    ∙ log_all-SameButSecrets (write_line l (codes "<--") (redact b') out) rest
log_all-SameButSecrets out (sent l {es = es} {es' = es'} {b = b} {b' = b'} h e e' rest) =
    ap (λ s. log_all (write_line l (codes "-->") s out) es) (redact-same b b' h e e')
    ∙ log_all-SameButSecrets (write_line l (codes "-->") (redact b') out) rest
log_all-SameButSecrets out (noted l s rest) =
    log_all-SameButSecrets (write_line l (codes "   ") s out) rest
