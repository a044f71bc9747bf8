-- ===== src/Session/Settings/Overlay.antt =====
-- OverrideConnectHost of internal/session/settings.go over blocks that overlay the global settings.
use fix_session_lab.Base.{
  ◌≡◌, ◌≢◌, refl, sym, subst, ◌⊎◌, ◌↔◌, List, [], ◌∷◌, map, Option, none, some, arith,
}
use fix_session_lab.Base.Lists.{All}
use fix_session_lab.Base.Text.{Text}
use fix_session_lab.Deps.{Deps, Result, ok, err}
use fix_session_lab.Session.Settings.{connect_host, check_hosts, override_connect_host}

-- A setting of a session's block goes before the global one.
abbrev pub overlaid : Option Text → Option Text → Result Text Text
overlaid (some v) global = ok v
overlaid none (some v) = ok v
overlaid none none = err []

module _ ⦃L : Deps⦄ where
  -- The blocks and the global settings that a copy is made of, as quickfix documents them.
  pub record Overlays {S : Type 0} (set_global : S → Text → Text → S)
      (session_settings : S → List (L.SessionId × (Text → Result Text Text))) : Type 0 where
    pub blocks : S → List (L.SessionId × (Text → Option Text))
    pub globals : S → Text → Option Text
    pub copies :
        (s : S)
        → session_settings s
          ≡ map (λ b. (b.0, λ key. overlaid (b.1 key) (globals s key))) (blocks s)
    pub same_blocks : (s : S) (key v : Text) → blocks (set_global s key v) ≡ blocks s
    pub written : (s : S) (key v : Text) → globals (set_global s key v) key ≡ some v

  -- What a block says of the host: nothing, or this one.
  abbrev pub Allows : Text → L.SessionId × (Text → Option Text) → Type 0
  Allows host b = (b.1 connect_host ≡ none) ⊎ (b.1 connect_host ≡ some host)

  abbrev pub Points : Text → L.SessionId × (Text → Result Text Text) → Type 0
  Points host b = b.1 connect_host ≡ ok host

  check_hosts-none :
      (host : Text) (all : List (L.SessionId × (Text → Result Text Text)))
      → check_hosts host all ≡ none
      → All (Points host) all
  unfolding check_hosts
  check_hosts-none host [] h = tt
  check_hosts-none host ((id, setting) ∷ all) h = ground (arith, check_hosts-none host all)

  All-check_hosts :
      (host : Text) (all : List (L.SessionId × (Text → Result Text Text)))
      → All (Points host) all
      → check_hosts host all ≡ none
  unfolding check_hosts
  All-check_hosts host [] h = refl
  All-check_hosts host ((id, setting) ∷ all) (p, h) = ground (arith, All-check_hosts host all h)

  overlay :
      (Text → Option Text)
      → L.SessionId × (Text → Option Text)
      → L.SessionId × (Text → Result Text Text)
  overlay global b = (b.0, λ key. overlaid (b.1 key) (global key))

  overlay-Points :
      (host : Text) (global : Text → Option Text) (bs : List (L.SessionId × (Text → Option Text)))
      → global connect_host ≡ some host
      → All (Allows host) bs
      → All (Points host) (map (overlay global) bs)
  unfolding overlay
  overlay-Points host global [] e h = tt
  overlay-Points host global ((id, block) ∷ bs) e (p, h) =
      (ground arith, overlay-Points host global bs e h)

  Points-overlay :
      (host : Text) (global : Text → Option Text) (bs : List (L.SessionId × (Text → Option Text)))
      → global connect_host ≡ some host
      → All (Points host) (map (overlay global) bs)
      → All (Allows host) bs
  unfolding overlay
  Points-overlay host global [] e h = tt
  Points-overlay host global ((id, block) ∷ bs) e (p, h) =
      (ground arith, Points-overlay host global bs e h)

  module _ {S : Type 0} (set_global : S → Text → Text → S)
      (session_settings : S → List (L.SessionId × (Text → Result Text Text))) where
    override_connect_host-Points :
        (s : S) (host : Text)
        → host ≢ []
        → (override_connect_host set_global session_settings s host).1 ≡ none
        → All
            (Points host)
            (session_settings (override_connect_host set_global session_settings s host).0)
    unfolding override_connect_host
    override_connect_host-Points s [] n h = absurd (n refl)
    override_connect_host-Points s (c ∷ host) n h = check_hosts-none (c ∷ host) _ h

    allowed_hosts :
        (laws : Overlays set_global session_settings) (s : S) (host : Text)
        → host ≢ []
        → ((override_connect_host set_global session_settings s host).1 ≡ none)
          ↔ All (Allows host) (laws.blocks s)
    unfolding override_connect_host overlay
    allowed_hosts laws s [] n = absurd (n refl)
    allowed_hosts laws s (c ∷ host) n =
        let s' = set_global s connect_host (c ∷ host) in
        let same = laws.same_blocks s connect_host (c ∷ host) in
        let set = laws.written s connect_host (c ∷ host) in
        (
          λ h. subst (All (Allows (c ∷ host))) same (
              Points-overlay (c ∷ host) (laws.globals s') (laws.blocks s') set (
                subst (All (Points (c ∷ host))) (laws.copies s')
                  (check_hosts-none (c ∷ host) _ h))),
          λ h. All-check_hosts (c ∷ host) _ (
              subst (All (Points (c ∷ host))) (sym (laws.copies s')) (
                overlay-Points (c ∷ host) (laws.globals s') (laws.blocks s') set
                  (subst (All (Allows (c ∷ host))) (sym same) h))),
        )

    -- If sessions' settings are the global ones overlaid by the sessions' blocks, overriding the host
    -- by a text that is not empty makes no error exactly if every block names either no host or this
    -- one, and if it makes none, every session points at the host.
    pub override_connect_host-Allows :
        (laws : Overlays set_global session_settings) (s : S) (host : Text)
        → host ≢ []
        → (((override_connect_host set_global session_settings s host).1 ≡ none)
            ↔ All (Allows host) (laws.blocks s))
          × ((override_connect_host set_global session_settings s host).1 ≡ none
              → All
                  (Points host)
                  (session_settings (override_connect_host set_global session_settings s host).0))
    override_connect_host-Allows laws s host n =
        (allowed_hosts laws s host n, override_connect_host-Points s host n)
