-- ===== src/Cmd/Startup/Venue.antt =====
-- The venue that the program of cmd/exchange starts with: LoadKinds of internal/exchange/exchange.go.
use fix_session_lab.Base.{
  ◌≡◌, ◌≢◌, refl, sym, ap, ◌∙◌, subst, ◌⊎◌, inl, inr, true, List, [], ◌∷◌, map, Option, none, some,
  if_neg,
}
use fix_session_lab.Base.Map.{insert}
use fix_session_lab.Base.Text.{Text}
use fix_session_lab.Book.{new_book}
use fix_session_lab.Cmd.Startup.{session_kind, load_venue}
use fix_session_lab.Deps.{Deps, Result, ok, Result-cases}
use fix_session_lab.Exchange.{
  App, Kind, kind_dec, order_entry, drop_copy, kind_of_text, new_app, register_kind, session_of,
  session_with,
}
use fix_session_lab.Exchange.Callbacks.{
  KindError, expect_password, is_role, load_kind, load_kinds, trim_space,
}
use fix_session_lab.Exchange.Fanout.{Roles}
use fix_session_lab.Exchange.Guarantees.{IsFresh}
use fix_session_lab.Session.{password, to_upper}

-- A SessionKind that names a role, whatever its case and the spaces around it.
abbrev pub Names : Kind → Text → Type 0
Names kind raw = kind_of_text (map to_upper (trim_space raw)) ≡ kind

module _ ⦃L : Deps⦄ where
  -- Two venues with the same sessions, orders and reports.
  record Alike (a b : App) : Type 0 where
    kinds : a.kinds ≡ b.kinds
    book : a.book ≡ b.book
    outbox : a.outbox ≡ b.outbox

  expect_password-Alike :
      (env : Text → Text) (a : App) (id : L.SessionId) → Alike (expect_password env a id) a
  unfolding expect_password
  expect_password-Alike env a id = elim (Result-cases (password env (L.target_comp_id id))) [
    | inl (pw, e) ↦ rw (e, expect_password) (record { kinds = refl; book = refl; outbox = refl })
    | inr (x, e) ↦ rw (e, expect_password) (record { kinds = refl; book = refl; outbox = refl })
  ]

  load_kind-Names :
      (env : Text → Text) (a : App) (id : L.SessionId) (raw : Text) (k : Kind)
      → Names k raw
      → is_role k ≡ true
      → load_kind env a id (some raw) ≡ ok (expect_password env (register_kind a id k) id)
  unfolding load_kind
  load_kind-Names env a id raw k named role = rw (named, role) refl

  -- Two sessions loaded one after the other.
  two_kinds :
      (env : Text → Text) (a : App) (x y : L.SessionId) (raw_x raw_y : Text) (k l : Kind)
      → Names k raw_x
      → Names l raw_y
      → is_role k ≡ true
      → is_role l ≡ true
      → (b : App) × (load_kinds env a ((x, some raw_x) ∷ (y, some raw_y) ∷ []) ≡ (b, none))
        × (b.kinds ≡ insert L.session_dec y l (insert L.session_dec x k a.kinds))
        × (b.book ≡ a.book)
        × (b.outbox ≡ a.outbox)
  unfolding load_kinds register_kind
  two_kinds env a x y raw_x raw_y k l nx ny rx ry =
      let a₁ = expect_password env (register_kind a x k) x in
      let one = expect_password-Alike env (register_kind a x k) x in
      let two = expect_password-Alike env (register_kind a₁ y l) y in
      (
        expect_password env (register_kind a₁ y l) y,
        rw
            (
              load_kind-Names env a x raw_x k nx rx,
              load_kinds,
              load_kind-Names env a₁ y raw_y l ny ry,
            )
            refl,
        two.kinds ∙ ap (insert L.session_dec y l) one.kinds,
        two.book ∙ one.book,
        two.outbox ∙ one.outbox,
      )

  entry_first :
      (x y : L.SessionId)
      → x ≢ y
      → (session_with order_entry
            (insert L.session_dec y drop_copy (insert L.session_dec x order_entry []))
          ≡ some x)
        × (session_with drop_copy
              (insert L.session_dec y drop_copy (insert L.session_dec x order_entry []))
            ≡ some y)
  unfolding session_with insert kind_dec
  entry_first x y apart = rw (if_neg (L.session_dec x y) apart) (refl, refl)

  copy_first :
      (x y : L.SessionId)
      → x ≢ y
      → (session_with order_entry
            (insert L.session_dec x order_entry (insert L.session_dec y drop_copy []))
          ≡ some x)
        × (session_with drop_copy
              (insert L.session_dec x order_entry (insert L.session_dec y drop_copy []))
            ≡ some y)
  unfolding session_with insert kind_dec
  copy_first x y apart = rw (if_neg (L.session_dec y x) (λ e. apart (sym e))) (refl, refl)

  -- A venue to which the theorems on its runs apply.
  pub record Starts (oe dc : L.SessionId) (q : App × Option (KindError L.SessionId)) : Type 0 where
    pub no_error : q.1 ≡ none
    pub roles : Roles q.0 oe dc
    pub fresh : IsFresh q.0

  started :
      (env : Text → Text) (oe dc : L.SessionId) (all : List (L.SessionId × Option Text)) (b : App)
      → load_kinds env (new_app new_book) all ≡ (b, none)
      → (session_with order_entry b.kinds ≡ some oe) × (session_with drop_copy b.kinds ≡ some dc)
      → oe ≢ dc
      → b.book ≡ new_book
      → b.outbox ≡ []
      → Starts oe dc (load_kinds env (new_app new_book) all)
  unfolding session_of
  started env oe dc all b e (entry, copy) apart book outbox = subst (Starts oe dc) (sym e) (record {
    no_error = refl;
    roles = record { entry = entry; copy = copy; apart = apart };
    fresh = record { no_orders = book; nothing_sent = outbox };
  })

  -- With two different sessions in the settings, in either order, whose SessionKind names, whatever
  -- its case and the spaces around it, order entry for the one and drop copy for the other, the venue
  -- loads without an error and has these two roles, no order and nothing sent.
  pub load_venue-Starts :
      {S : Type 0} (session_settings : S → List (L.SessionId × (Text → Result Text Text)))
      (env : Text → Text) (s : S) (oe dc : L.SessionId) (of_oe of_dc : Text → Result Text Text)
      (raw_oe raw_dc : Text)
      → (session_settings s ≡ (oe, of_oe) ∷ (dc, of_dc) ∷ [])
        ⊎ (session_settings s ≡ (dc, of_dc) ∷ (oe, of_oe) ∷ [])
      → oe ≢ dc
      → of_oe session_kind ≡ ok raw_oe
      → of_dc session_kind ≡ ok raw_dc
      → Names order_entry raw_oe
      → Names drop_copy raw_dc
      → Starts oe dc (load_venue session_settings env s)
  unfolding load_venue new_app
  load_venue-Starts session_settings env s oe dc of_oe of_dc raw_oe raw_dc (inl order) apart e f ne
        nd =
      let (b, made, kinds, book, outbox) =
        two_kinds env (new_app new_book) oe dc raw_oe raw_dc order_entry drop_copy ne nd refl
          refl in
      rw (order, e, f)
        (started env oe dc ((oe, some raw_oe) ∷ (dc, some raw_dc) ∷ []) b made
          (subst
            (λ ks. (session_with order_entry ks ≡ some oe) × (session_with drop_copy ks ≡ some dc))
            (sym kinds) (entry_first oe dc apart))
          apart book outbox)
  load_venue-Starts session_settings env s oe dc of_oe of_dc raw_oe raw_dc (inr order) apart e f ne
        nd =
      let (b, made, kinds, book, outbox) =
        two_kinds env (new_app new_book) dc oe raw_dc raw_oe drop_copy order_entry nd ne refl
          refl in
      rw (order, e, f)
        (started env oe dc ((dc, some raw_dc) ∷ (oe, some raw_oe) ∷ []) b made
          (subst
            (λ ks. (session_with order_entry ks ≡ some oe) × (session_with drop_copy ks ≡ some dc))
            (sym kinds) (copy_first oe dc apart))
          apart book outbox)
