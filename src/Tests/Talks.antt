-- ===== src/Tests/Talks.antt =====
-- Concrete messages between a venue and its clients.
use fix_session_lab.Base.{
  ℕ, ◌≡◌, refl, ◌+◌, true, false, inl, List, [], ◌∷◌, ◌++◌, Option, none, some, arith, ℕ_discrete,
}
use fix_session_lab.Base.Text.{Text, codes}
use fix_session_lab.Book.{new_book}
use fix_session_lab.Client.DropCopy.{DropCopy, new_drop_copy}
use fix_session_lab.Deps.{Rejection}
use fix_session_lab.Exchange.{App, new_app}
use fix_session_lab.Exchange.Callbacks.{load_kinds, from_admin}
use fix_session_lab.Feed.Logons.{HeaderLaws, Handshake}
use fix_session_lab.Feed.Logons.Arrives.{client_to_admin-Handshake}
use fix_session_lab.Feed.Rejects.{AnswersErrors, talk, order_entry_receives, drop_copy_receives}
use fix_session_lab.Feed.Rejects.Settle.{Settles, talk-Settles}
use fix_session_lab.Session.Client.{Client, new_client, client_to_admin}
use fix_session_lab.Tests.Clients.{creds, trader, env, logon, logon-IsBare}
use fix_session_lab.Tests.Concrete.{plain, plain-MessageLaws, Fields, text}
use fix_session_lab.Tests.Venue.{venue}

-- Every error is answered by a BusinessMessageReject.
abbrev reject_message : Rejection → Fields
reject_message r = (35, text (codes "j")) ∷ []

reject_message-AnswersErrors : AnswersErrors reject_message
unfolding ℕ_discrete
reject_message-AnswersErrors = record { types = λ r. inl refl }

-- An ExecutionReport with none of its fields.
abbrev unreadable : Fields
unreadable = (35, text (codes "8")) ∷ []

abbrev listener : DropCopy ℕ
listener = new_drop_copy creds 0

talk-Settles_example :
    Settles 1 (talk reject_message order_entry_receives 1 5 3 false venue trader unreadable)
    × Settles 2 (talk reject_message drop_copy_receives 2 6 3 false venue listener unreadable)
unfolding fix_session_lab.Exchange.register_kind new_app fix_session_lab.Base.Map.insert ℕ_discrete
    fix_session_lab.Exchange.kind_of fix_session_lab.Base.Map.lookup
talk-Settles_example =
    talk-Settles reject_message venue trader listener 1 2 5 6 false unreadable
      reject_message-AnswersErrors refl

plain-HeaderLaws : HeaderLaws plain
plain-HeaderLaws = record {
  string_set_string = λ m t u v h. ground arith;
  string_set_int = λ m t u v h. ground arith;
}

abbrev venue_sessions : List (ℕ × Option Text)
venue_sessions = (1, some (codes "order_entry")) ∷ (2, some (codes "drop_copy")) ∷ []

abbrev base : Client ℕ
base = new_client creds 0

client_to_admin-Handshake_example :
    Handshake env env base.creds 1 (load_kinds env (new_app new_book) venue_sessions).0 (
      from_admin
        (load_kinds env (new_app new_book) venue_sessions).0
        (client_to_admin env base logon 5)
        1)
unfolding load_kinds ℕ_discrete fix_session_lab.Base.Text.text_dec
    fix_session_lab.Exchange.kind_of_text fix_session_lab.Exchange.Callbacks.trim_space
    fix_session_lab.Session.to_upper
client_to_admin-Handshake_example =
    client_to_admin-Handshake env env new_book [] ((2, some (codes "drop_copy")) ∷ [])
      (some (codes "order_entry")) (load_kinds env (new_app new_book) venue_sessions).0 base logon 5
      1 refl refl plain-MessageLaws plain-HeaderLaws logon-IsBare refl
