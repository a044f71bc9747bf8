-- ===== src/Exchange/Sessions/Sorting.antt =====
-- The order of the report that Sessions of internal/exchange/commands.go makes.
use fix_session_lab.Base.{ℕ, ◌≡◌, refl, ◌∙◌, inl, inr, Bool, true, false, List, [], ◌∷◌, map, arith}
use fix_session_lab.Base.Lists.{Bool-cases, keep, length}
use fix_session_lab.Base.Text.{Text}
use fix_session_lab.Deps.{Deps}
use fix_session_lab.Exchange.{App}
use fix_session_lab.Exchange.Sessions.{
  text_less, SessionStatus, session_status, insert_status, sort_statuses, sessions,
}

text_less-asym : (s t : Text) → text_less s t ≡ true → text_less t s ≡ false
unfolding text_less
text_less-asym s [] h = cc
text_less-asym [] (b ∷ t) h = refl
text_less-asym (a ∷ s) (b ∷ t) h = ground (arith, text_less-asym s t)

module _ ⦃L : Deps⦄ where
  -- No entry stands behind one with a greater session text.
  abbrev pub IsSorted : List SessionStatus → Type 0
  IsSorted [] = Unit {0}
  IsSorted (x ∷ []) = Unit {0}
  IsSorted (x ∷ y ∷ ys) = (text_less y.session_id x.session_id ≡ false) × IsSorted (y ∷ ys)

  insert_status-IsSorted :
      (x : SessionStatus) (ys : List SessionStatus) → IsSorted ys → IsSorted (insert_status x ys)
  unfolding insert_status
  insert_status-IsSorted x [] s = tt
  insert_status-IsSorted x (y ∷ []) s = elim (Bool-cases (text_less y.session_id x.session_id)) [
    | inl lt ↦ rw (lt, insert_status) (text_less-asym y.session_id x.session_id lt, tt)
    | inr ge ↦ rw (ge, insert_status) (ge, tt)
  ]
  insert_status-IsSorted x (y ∷ z ∷ zs) (h, s) =
      elim (Bool-cases (text_less y.session_id x.session_id)) [
        | inr ge ↦ rw (ge, insert_status) (ge, (h, s))
        | inl lt ↦ elim (Bool-cases (text_less z.session_id x.session_id)) [
          | inl lt' ↦
              rw (lt, lt', insert_status)
                (h, rw (lt', insert_status) at (insert_status-IsSorted x (z ∷ zs) s))
          | inr ge ↦
              rw (lt, ge, insert_status) (text_less-asym y.session_id x.session_id lt, (ge, s))
        ]
      ]

  -- How many entries pass a test.
  abbrev pub count : (SessionStatus → Bool) → List SessionStatus → ℕ
  count p xs = length (keep p xs)

  insert_status-count :
      (p : SessionStatus → Bool) (x : SessionStatus) (ys : List SessionStatus)
      → count p (insert_status x ys) ≡ count p (x ∷ ys)
  unfolding insert_status
  insert_status-count p x [] = refl
  insert_status-count p x (y ∷ ys) = ground (arith, insert_status-count p x ys)

  sort_statuses-IsSorted : (xs : List SessionStatus) → IsSorted (sort_statuses xs)
  unfolding sort_statuses
  sort_statuses-IsSorted [] = tt
  sort_statuses-IsSorted (x ∷ xs) =
      insert_status-IsSorted x (sort_statuses xs) (sort_statuses-IsSorted xs)

  sort_statuses-count :
      (p : SessionStatus → Bool) (xs : List SessionStatus) → count p (sort_statuses xs) ≡ count p xs
  unfolding sort_statuses
  sort_statuses-count p [] = refl
  sort_statuses-count p (x ∷ xs) =
      insert_status-count p x (sort_statuses xs) ∙ ground (arith, sort_statuses-count p xs)

  -- Sessions reports the sessions of the map of roles, each as often as it stands there, counted by
  -- any test of its report, in an order in which none stands directly behind one with a greater
  -- session text.
  sessions-IsSorted :
      (a : App) (p : SessionStatus → Bool)
      → IsSorted (sessions a) × (count p (sessions a) ≡ count p (map (session_status a) a.kinds))
  unfolding sessions
  sessions-IsSorted a p = (
    sort_statuses-IsSorted (map (session_status a) a.kinds),
    sort_statuses-count p (map (session_status a) a.kinds),
  )
