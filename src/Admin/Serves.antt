-- ===== src/Admin/Serves.antt =====
-- How each request is answered and what it does to the venue: internal/admin/admin.go.
use fix_session_lab.Base.{◌≡◌, refl, sym, ap, ◌∙◌, inl, inr, List, [], ◌∷◌, Option, none, some}
use fix_session_lab.Admin.{Response, serve_sessions, serve_orders, serve}
use fix_session_lab.Admin.Asked.{commands, meaning, refusal, performed, perform, meaning-no_command}
use fix_session_lab.Admin.Handlers.{
  Answered, does, conflicts, faulty, serve_cancel-Answered, serve_cancel_all-Answered,
  serve_fill-Answered, serve_partial-Answered, serve_reject-Answered, serve_reject_logon-Answered,
  serve_silence-Answered,
}
use fix_session_lab.Admin.Params.{Request}
use fix_session_lab.Admin.Served.{
  Served, unknown_path, wrong_method, not_posted, lists_sessions, lists_orders, commanded,
  gap_opened, gap_failed, known, unasked, at-Served, on_get-Served, on_post-Served,
  serve_gap-Served, lookup-none,
}
use fix_session_lab.Base.Int.{ℤ}
use fix_session_lab.Base.Map.{lookup}
use fix_session_lab.Base.Text.{Text, text_dec}
use fix_session_lab.Book.{Error}
use fix_session_lab.Book.View.{IsWellFormed}
use fix_session_lab.Deps.{Deps, Result}
use fix_session_lab.Exchange.{App}
use fix_session_lab.Exchange.Commands.{orders}
use fix_session_lab.Exchange.Events.{Event, react, run, run-Steps}
use fix_session_lab.Exchange.Steps.{Steps-IsWellFormed}

module _ ⦃L : Deps⦄ where
  unfoldable after : App → Option Event → App
  unfolding react
  after a none = a
  after a (some e) = react a e

  unfoldable listed : Option Event → List Event → List Event
  listed none es = es
  listed (some e) es = e ∷ es

  -- The events of the requests that the venue goes through with, each at the venue as it is by then.
  unfoldable pub performed_events : App → List Request → List Event
  unfolding performed after listed
  performed_events a [] = []
  performed_events a (r ∷ rs) = let o = performed a r in listed o (performed_events (after a o) rs)

  performed-none : (a : App) (r : Request) → meaning r ≡ none → performed a r ≡ none
  unfolding performed perform
  performed-none a r means = ap (perform a) means

  performed-some :
      (a : App) (r : Request) (e : Event)
      → meaning r ≡ some e
      → refusal a e ≡ none
      → performed a r ≡ some e
  unfolding performed perform
  performed-some a r e means fine = ap (perform a) means ∙ rw (fine, perform) refl

  performed-refused :
      (a : App) (r : Request) (e : Event) {x : Error L.Decimal}
      → meaning r ≡ some e
      → refusal a e ≡ some x
      → performed a r ≡ none
  unfolding performed perform
  performed-refused a r e means wrong = ap (perform a) means ∙ rw (wrong, perform) refl

  run-listed :
      (a : App) (o : Option Event) (es : List Event) → run a (listed o es) ≡ run (after a o) es
  unfolding run listed after
  run-listed a none es = refl
  run-listed a (some e) es = refl

  after-IsWellFormed :
      (a : App) (o : Option Event) → IsWellFormed a.book → IsWellFormed (after a o).book
  unfolding after run
  after-IsWellFormed a none w = w
  after-IsWellFormed a (some e) w = Steps-IsWellFormed (run-Steps a (e ∷ []) w) w

  idle : {a b : App} (r : Request) → performed a r ≡ none → b ≡ a → b ≡ after a (performed a r)
  unfolding after
  idle {a} r nothing same = same ∙ ap (after a) (sym nothing)

  Answered-after :
      {a : App} {r : Request} {q : App × Response} → Answered a r q → q.0 ≡ after a (performed a r)
  unfolding after
  Answered-after {a} {r} (does e means fine p) =
      ap (λ (q : App × Response). q.0) p ∙ ap (after a) (sym (performed-some a r e means fine))
  Answered-after {a} {r} (conflicts e x means wrong p) =
      idle r (performed-refused a r e means wrong) (ap (λ (q : App × Response). q.0) p)
  Answered-after {a} {r} (faulty x post f means p) =
      idle r (performed-none a r means) (ap (λ (q : App × Response). q.0) p)

  module _ (expected_sender_num : L.SessionId → Result Text ℤ)
      (set_next : L.SessionId → ℤ → Option Text) where
    quiet :
        (a : App) (r : Request) {q : App × Response} {x : Response}
        → meaning r ≡ none
        → q ≡ (a, x)
        → q.0 ≡ after a (performed a r)
    quiet a r means p = idle r (performed-none a r means) (ap (λ (q : App × Response). q.0) p)

    Served-after :
        {a : App} {r : Request} {q : App × Response}
        → Served expected_sender_num set_next a r q
        → q.0 ≡ after a (performed a r)
    Served-after {a} {r} (unknown_path _ _ _ means p) = quiet a r means p
    Served-after {a} {r} (wrong_method _ _ _ means p) = quiet a r means p
    Served-after {a} {r} (not_posted _ _ means p) = quiet a r means p
    Served-after {a} {r} (lists_sessions _ _ means p) = quiet a r means p
    Served-after {a} {r} (lists_orders _ _ means p) = quiet a r means p
    Served-after {a} {r} (commanded h) = Answered-after h
    Served-after {a} {r} (gap_opened _ _ _ _ _ _ _ means _ p) = quiet a r means p
    Served-after {a} {r} (gap_failed _ _ _ _ _ _ _ means _ p) = quiet a r means p

    -- At a venue with a well-formed book, each request ends in one of these ways: an unknown path is
    -- answered with 404 and another method than that of the path with 405; a read of the sessions or
    -- of the orders is answered with them; a POST to the path of a command that has what it needs is
    -- the event that the table of commands gives for its path and parameters, with the default where
    -- an optional one is not given, and is answered with 200 and what the event calls for if the venue
    -- does not refuse it, and with 409 and the error of the venue if it does; one that has not is
    -- answered with 400 and the first fault in its parameters; a POST to /admin/gap is answered by how
    -- advancing the numbers of the session asked for ended. The venue is the one after the event when
    -- it is answered with 200 for one, and otherwise as it was.
    pub serve-Served :
        (a : App) (r : Request)
        → IsWellFormed a.book
        → Served expected_sender_num set_next a r (serve expected_sender_num set_next a r)
    unfolding serve serve_sessions serve_orders orders commands lookup text_dec
    serve-Served a r w =
        at-Served expected_sender_num set_next _
          (λ p.
            let idle = unasked r p refl in
            on_get-Served expected_sender_num set_next a r _ (inl p) idle
              (λ m. lists_sessions p m idle refl))
          (λ n₁.
            at-Served expected_sender_num set_next _
              (λ p.
                let idle = unasked r p refl in
                on_get-Served expected_sender_num set_next a r _ (inr p) idle
                  (λ m. lists_orders p m idle refl))
              (λ n₂.
                at-Served expected_sender_num set_next _
                  (λ p.
                    on_post-Served expected_sender_num set_next a r _ (known r p refl)
                      (λ post. commanded (serve_fill-Answered a r w post p)))
                  (λ n₃.
                    at-Served expected_sender_num set_next _
                      (λ p.
                        on_post-Served expected_sender_num set_next a r _ (known r p refl)
                          (λ post. commanded (serve_partial-Answered a r w post p)))
                      (λ n₄.
                        at-Served expected_sender_num set_next _
                          (λ p.
                            on_post-Served expected_sender_num set_next a r _ (known r p refl)
                              (λ post. commanded (serve_cancel-Answered a r w post p)))
                          (λ n₅.
                            at-Served expected_sender_num set_next _
                              (λ p.
                                on_post-Served expected_sender_num set_next a r _ (known r p refl)
                                  (λ post. commanded (serve_reject-Answered a r w post p)))
                              (λ n₆.
                                at-Served expected_sender_num set_next _
                                  (λ p.
                                    on_post-Served expected_sender_num set_next a r _
                                      (known r p refl)
                                      (λ post. commanded (serve_silence-Answered a r post p)))
                                  (λ n₇.
                                    at-Served expected_sender_num set_next _
                                      (λ p.
                                        on_post-Served expected_sender_num set_next a r _
                                          (known r p refl)
                                          (λ post.
                                            serve_gap-Served expected_sender_num set_next a r post
                                              p))
                                      (λ n₈.
                                        at-Served expected_sender_num set_next _
                                          (λ p.
                                            on_post-Served expected_sender_num set_next a r _
                                              (known r p refl)
                                              (λ post.
                                                commanded (serve_reject_logon-Answered a r post p)))
                                          (λ n₉.
                                            at-Served expected_sender_num set_next _
                                              (λ p.
                                                on_post-Served expected_sender_num set_next a r _
                                                  (known r p refl)
                                                  (λ post.
                                                    commanded
                                                      (serve_cancel_all-Answered a r w post p)))
                                              (λ n₁₀.
                                                let missing = lookup-none r.path commands (
                                                  n₃,
                                                  (n₄, (n₅, (n₆, (n₇, (n₈, (n₉, (n₁₀, tt))))))),
                                                ) in
                                                unknown_path n₁ n₂ missing
                                                  (meaning-no_command r missing) refl))))))))))

    -- The venue after a list of requests.
    unfoldable pub serve_all : App → List Request → App
    unfolding serve
    serve_all a [] = a
    serve_all a (r ∷ rs) = serve_all (serve expected_sender_num set_next a r).0 rs

    -- At a venue with a well-formed book, the venue in the end, whatever requests the control plane
    -- has served, is the one after exactly the events of those requests that are POSTs to the path of
    -- a command with the parameters that it needs and that the venue, as it is by then, does not
    -- refuse, in their order: every other request has left the venue as it was.
    pub serve_all-run :
        (a : App) (rs : List Request)
        → IsWellFormed a.book
        → serve_all a rs ≡ run a (performed_events a rs)
    unfolding serve_all run performed_events
    serve_all-run a [] w = refl
    serve_all-run a (r ∷ rs) w =
        let o = performed a r in
        ap (λ b. serve_all b rs) (Served-after (serve-Served a r w))
        ∙ serve_all-run (after a o) rs (after-IsWellFormed a o w)
        ∙ sym (run-listed a o (performed_events (after a o) rs))
