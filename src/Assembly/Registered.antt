-- ===== src/Assembly/Registered.antt =====
-- internal/server/server.go, Start: which providers the registry holds.
use jitsudo.Prelude.{◌≡◌, refl, ◌∙◌, false, Option, none, some, String, str_eq, eq_refl, [], ◌∷◌}
use jitsudo.Config.{ProvidersCfg}
use jitsudo.Assembly.{Adapters, named, register_configured, build_registry}
use jitsudo.Providers.{Provider, Registry, get, register}
use jitsudo.World.{Result, ok, err}

-- The provider that a configuration stands for: there is one where it is given and New succeeds.
unfoldable pub configured {ℓ} :
    {C : Type ℓ} → String → Option C → (C → Result Provider) → Option Provider
configured n none make = none
configured n (some cfg) make = elim (make cfg) [ err _ ↦ none | ok p ↦ some (named n p) ]

-- A registry with the provider p, if any, under a new name: others stay as they are.
record Extends (n : String) (p : Option Provider) (r r' : Registry) : Type 0 where
  here : get r' n ≡ p
  others : (m : String) → str_eq n m ≡ false → get r' m ≡ get r m

made-Extends {ℓ} :
    {C : Type ℓ} (n : String) (cfg : C) (make : C → Result Provider) (r : Registry)
    → get r n ≡ none
    → (made : Result Provider) → make cfg ≡ made
    → (r' : Registry) × (register_configured n (some cfg) make r ≡ some r')
      × Extends n (configured n (some cfg) make) r r'
unfolding register_configured configured register get
made-Extends n cfg make r free (err e) is_made = (
  r,
  rw (is_made, register_configured) refl,
  record { here = rw (is_made, configured) free; others = λ m h. refl },
)
made-Extends n cfg make r free (ok p) is_made = (
  (n, named n p) ∷ r,
  rw (is_made, register_configured, free, register) refl,
  record { here = rw (is_made, configured, eq_refl n) refl; others = λ m h. rw h refl },
)

register_configured-Extends {ℓ} :
    {C : Type ℓ} (n : String) (c : Option C) (make : C → Result Provider) (r : Registry)
    → get r n ≡ none
    → (r' : Registry) × (register_configured n c make r ≡ some r')
      × Extends n (configured n c make) r r'
unfolding register_configured configured
register_configured-Extends n none make r free =
    (r, refl, record { here = free; others = λ m h. refl })
register_configured-Extends n (some cfg) make r free =
    made-Extends n cfg make r free (make cfg) refl

-- The registry of the server.
pub record IsRegistry (new : Adapters) (cfg : ProvidersCfg) (r : Registry) : Type 0 where
  pub mock : get r "mock" ≡ some (named "mock" new.mock)
  pub kubernetes : get r "kubernetes" ≡ configured "kubernetes" cfg.kubernetes new.kubernetes
  pub aws : get r "aws" ≡ configured "aws" cfg.aws new.aws
  pub gcp : get r "gcp" ≡ configured "gcp" cfg.gcp new.gcp
  pub azure : get r "azure" ≡ configured "azure" cfg.azure new.azure

-- Start always gets a registry: no name is registered twice, so Register does not panic. The registry answers "mock"
-- with the mock provider, and each of "kubernetes", "aws", "gcp" and "azure" with the adapter that New made from its
-- configuration, or with nothing where there is no configuration or New failed, whatever becomes of the others.
pub build_registry-IsRegistry :
    (new : Adapters) (cfg : ProvidersCfg)
    → (r : Registry) × (build_registry new cfg ≡ some r) × IsRegistry new cfg r
unfolding build_registry register get
build_registry-IsRegistry new cfg =
    let r0 : Registry = ("mock", named "mock" new.mock) ∷ [] in
    let (r1, eq1, e1) =
      register_configured-Extends "kubernetes" cfg.kubernetes new.kubernetes r0 refl in
    let (r2, eq2, e2) =
      register_configured-Extends "aws" cfg.aws new.aws r1 (e1.others "aws" refl) in
    let (r3, eq3, e3) =
      register_configured-Extends "gcp" cfg.gcp new.gcp r2
        (e2.others "gcp" refl ∙ e1.others "gcp" refl) in
    let (r4, eq4, e4) =
      register_configured-Extends "azure" cfg.azure new.azure r3
        (e3.others "azure" refl ∙ e2.others "azure" refl ∙ e1.others "azure" refl) in
    (
      r4,
      rw (eq1, eq2, eq3) eq4,
      record {
        mock =
            e4.others "mock" refl
            ∙ e3.others "mock" refl
            ∙ e2.others "mock" refl
            ∙ e1.others "mock" refl;
        kubernetes =
            e4.others "kubernetes" refl
            ∙ e3.others "kubernetes" refl
            ∙ e2.others "kubernetes" refl
            ∙ e1.here;
        aws = e4.others "aws" refl ∙ e3.others "aws" refl ∙ e2.here;
        gcp = e4.others "gcp" refl ∙ e3.here;
        azure = e4.here;
      },
    )
