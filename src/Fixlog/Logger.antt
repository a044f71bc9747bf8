-- ===== src/Fixlog/Logger.antt =====
-- The log factory of internal/fixlog/redact.go: the lines that a session's log writes. The writer is
-- the text that it has been given; a prefix is measured in ASCII characters.
pub mod Secrets
use fix_session_lab.Base.{ℕ, zero, suc, ◌-◌, ◌++◌, List, [], ◌∷◌}
use fix_session_lab.Base.Lists.{length}
use fix_session_lab.Base.Text.{Text, codes}
use fix_session_lab.Deps.{Deps}
use fix_session_lab.Fixlog.{redact}

-- The log's prefix; the writer and its mutex are shared by all logs of a factory.
pub record Logger : Type 0 where
  pub prefix : Text

unfoldable pub create_log : Logger
create_log = record { prefix = codes "GLOBAL" }

unfoldable pub create_session_log : ⦃L : Deps⦄ → L.SessionId → Logger
create_session_log ⦃L⦄ id = record { prefix = L.session_string id }

abbrev pub spaces : ℕ → Text
spaces zero = []
spaces (suc n) = b' ' ∷ spaces n

-- The line of "%-28s %s %s\n", behind what the writer has.
unfoldable pub write_line : Logger → Text → Text → Text → Text
write_line l dir s out =
    out ++ (l.prefix ++ (spaces (28 - length l.prefix) ++ b' ' ∷ (dir ++ b' ' ∷ (s ++ b'\n' ∷ []))))

-- What the engine tells a log. The text of OnEventf is the formatted one.
pub data Entry : Type 0 where
  incoming : Text → Entry
  outgoing : Text → Entry
  event : Text → Entry

unfoldable pub log_entry : Logger → Text → Entry → Text
unfolding write_line
log_entry l out (incoming b) = write_line l (codes "<--") (redact b) out
log_entry l out (outgoing b) = write_line l (codes "-->") (redact b) out
log_entry l out (event s) = write_line l (codes "   ") s out
