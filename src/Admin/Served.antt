-- ===== src/Admin/Served.antt =====
-- The answers to requests, told from what they ask: internal/admin/admin.go.
use fix_session_lab.Base.{
  ◌≡◌, ◌≢◌, refl, sym, ap, ◌∙◌, ◌⊎◌, inl, inr, List, [], ◌∷◌, Option, none, some, ite, if_neg,
}
use fix_session_lab.Admin.{
  Response, answer, session_list, order_list, next_seqnum, advance_error, no_body, gap_params,
  kind_param, serve_gap, on_get, on_post, status_ok, status_not_found, status_method_not_allowed,
  status_conflict,
}
use fix_session_lab.Admin.Asked.{
  param, kind_asked, Command, commands, meaning, meaning-event, meaning-not_post,
  meaning-no_command, fault-first_fault, first_fault-bad,
}
use fix_session_lab.Admin.Handlers.{Answered, faulty}
use fix_session_lab.Admin.Params.{Request, query_get}
use fix_session_lab.Admin.Reads.{int_cases}
use fix_session_lab.Base.Atoi.{number, atoi}
use fix_session_lab.Base.Int.{ℤ}
use fix_session_lab.Base.Lists.{All}
use fix_session_lab.Base.Map.{lookup}
use fix_session_lab.Base.Text.{Text, codes, text_dec}
use fix_session_lab.Book.{all_orders}
use fix_session_lab.Deps.{Deps, Result, ok, err, Result-cases}
use fix_session_lab.Exchange.{App, Kind, order_entry, kind_of_text}
use fix_session_lab.Exchange.Sessions.{AdvanceError, advance_seq_num, sessions}

abbrev pub IsRead : Request → Type 0
IsRead r = (r.method ≡ codes "GET") ⊎ (r.method ≡ codes "HEAD")

pub lookup-none :
    {V : Type 0} (k : Text) (m : List (Text × V))
    → All (λ e. k ≢ e.0) m
    → lookup text_dec k m ≡ none
unfolding lookup
lookup-none k [] h = refl
lookup-none k ((j, v) ∷ m) (n, h) =
    if_neg (text_dec j k) (λ e. n (sym e)) (some v) (lookup text_dec k m) ∙ lookup-none k m h

module _ ⦃L : Deps⦄ where
  pub known :
      (r : Request) {path : Text} {c : Command}
      → r.path ≡ path
      → lookup text_dec path commands ≡ some c
      → lookup text_dec r.path commands ≢ none
  known r at found missing = absurd (cc)

  pub unasked :
      (r : Request) {path : Text}
      → r.path ≡ path
      → lookup text_dec path commands ≡ none
      → meaning r ≡ none
  unasked r at missing = meaning-no_command r (ap (λ p. lookup text_dec p commands) at ∙ missing)

  module _ (expected_sender_num : L.SessionId → Result Text ℤ)
      (set_next : L.SessionId → ℤ → Option Text) where
    -- The answer to a request, and the venue after it.
    pub data Served (a : App) (r : Request) (q : App × Response) : Type 0 where
      unknown_path :
          r.path ≢ codes "/admin/sessions"
          → r.path ≢ codes "/admin/orders"
          → lookup text_dec r.path commands ≡ none
          → meaning r ≡ none
          → q ≡ (a, answer status_not_found no_body)
          → Served a r q
      wrong_method :
          (r.path ≡ codes "/admin/sessions") ⊎ (r.path ≡ codes "/admin/orders")
          → r.method ≢ codes "GET"
          → r.method ≢ codes "HEAD"
          → meaning r ≡ none
          → q ≡ (a, answer status_method_not_allowed no_body)
          → Served a r q
      not_posted :
          r.method ≢ codes "POST"
          → lookup text_dec r.path commands ≢ none
          → meaning r ≡ none
          → q ≡ (a, answer status_method_not_allowed no_body)
          → Served a r q
      lists_sessions :
          r.path ≡ codes "/admin/sessions"
          → IsRead r
          → meaning r ≡ none
          → q ≡ (a, answer status_ok (session_list (sessions a)))
          → Served a r q
      lists_orders :
          r.path ≡ codes "/admin/orders"
          → IsRead r
          → meaning r ≡ none
          → q ≡ (a, answer status_ok (order_list (all_orders a.book)))
          → Served a r q
      commanded : Answered a r q → Served a r q
      gap_opened :
          (t : Text) (n next : ℤ)
          → r.method ≡ codes "POST"
          → r.path ≡ codes "/admin/gap"
          → param r (codes "n") ≡ some t
          → atoi t ≡ number n
          → meaning r ≡ none
          → advance_seq_num expected_sender_num set_next a (kind_asked r) n ≡ ok next
          → q ≡ (a, answer status_ok (next_seqnum (kind_asked r) next))
          → Served a r q
      gap_failed :
          (t : Text) (n : ℤ) (x : AdvanceError)
          → r.method ≡ codes "POST"
          → r.path ≡ codes "/admin/gap"
          → param r (codes "n") ≡ some t
          → atoi t ≡ number n
          → meaning r ≡ none
          → advance_seq_num expected_sender_num set_next a (kind_asked r) n ≡ err x
          → q ≡ (a, answer status_conflict (advance_error x))
          → Served a r q

    pub at-Served :
        {a : App} {r : Request} (path : Text) {reply other : App × Response}
        → (r.path ≡ path → Served a r reply)
        → (r.path ≢ path → Served a r other)
        → Served a r (ite (text_dec r.path path) reply other)
    at-Served {a} {r} path {reply} {other} h k =
        elim (text_dec r.path path) as (λ d. Served a r (ite d reply other)) [
          | yes e ↦ h e
          | no n ↦ k n
        ]

    pub on_get-Served :
        (a : App) (r : Request) (reply : App × Response)
        → (r.path ≡ codes "/admin/sessions") ⊎ (r.path ≡ codes "/admin/orders")
        → meaning r ≡ none
        → (IsRead r → Served a r reply)
        → Served a r (on_get r reply a)
    unfolding on_get
    on_get-Served a r reply at none_asked h =
        elim (text_dec r.method (codes "GET"))
          as (λ d. Served a r (
            ite d reply (
              ite (text_dec r.method (codes "HEAD")) reply
                (a, answer status_method_not_allowed no_body)))) [
                  | yes get ↦ h (inl get)
                  | no n ↦
                      elim (text_dec r.method (codes "HEAD"))
                        as (λ d.
                          Served a r (ite d reply (a, answer status_method_not_allowed no_body))) [
                            | yes head ↦ h (inr head)
                            | no m ↦ wrong_method at n m none_asked refl
                          ]
                ]

    pub on_post-Served :
        (a : App) (r : Request) (reply : App × Response)
        → lookup text_dec r.path commands ≢ none
        → (r.method ≡ codes "POST" → Served a r reply)
        → Served a r (on_post r reply a)
    unfolding on_post
    on_post-Served a r reply known h =
        elim (text_dec r.method (codes "POST"))
          as (λ d. Served a r (ite d reply (a, answer status_method_not_allowed no_body))) [
            | yes post ↦ h post
            | no n ↦ Served.not_posted n known (meaning-not_post r n) refl
          ]

    kind_param-kind_asked : (r : Request) → kind_param r ≡ kind_asked r
    unfolding kind_param kind_asked param
    kind_param-kind_asked r =
        let t = query_get r.query (codes "kind") in
        elim (text_dec t [])
          as (λ d. ite d order_entry (kind_of_text t) ≡ elim (ite d none (some t)) as (λ x. Kind) [
            | none ↦ order_entry
            | some t ↦ kind_of_text t
          ]) [ yes e ↦ refl | no n ↦ refl ]

    pub serve_gap-Served :
        (a : App) (r : Request)
        → r.method ≡ codes "POST"
        → r.path ≡ codes "/admin/gap"
        → Served a r (serve_gap expected_sender_num set_next a r)
    unfolding serve_gap gap_params commands lookup text_dec
    serve_gap-Served a r post at = elim (int_cases r (codes "n")) [
      | inr (x, e, e') ↦
          rw (e, serve_gap, gap_params)
            (commanded (
              faulty x post (fault-first_fault r _ _ at refl ∙ first_fault-bad r _ _ _ e')
                (meaning-event r _ _ post at refl) refl))
      | inl (t, n, e, given, reads) ↦
          rw (e, kind_param-kind_asked r, serve_gap, gap_params)
            (elim (Result-cases (advance_seq_num expected_sender_num set_next a (kind_asked r) n)) [
              | inr (x, e') ↦
                  rw (e') (
                    gap_failed t n x post at given reads (meaning-event r _ _ post at refl) e' refl)
              | inl (next, e') ↦ rw (e') (
                  gap_opened t n next post at given reads (meaning-event r _ _ post at refl) e' (
                    ap (λ k. (a, answer status_ok (next_seqnum k next))) (kind_param-kind_asked r)))
            ])
    ]
