-- ===== src/Kit/PageOptions/Cascade.antt =====
-- The layout cascade: `Merge` applied along a chain of files, outermost layout first.
use sveltego.Kit.PageOptions.{PageOptions, PageOptionsOverride, overlay, merge, any}
use sveltego.Base.{◌≡◌, refl, Bool, false, Option, none, some, List, [], ◌∷◌, arith, if◌then◌else◌}

-- The options of a route, merged from the framework's or a layout's options along the chain.
unfoldable pub cascade : PageOptions → List PageOptionsOverride → PageOptions
cascade base [] = base
cascade base (o ∷ os) = cascade (merge base o) os

-- The value that the innermost file with a declaration gives.
abbrev pub last_declared {ℓ} :
    {A : Type ℓ}
    → (PageOptionsOverride → Bool)
    → (PageOptionsOverride → A)
    → List PageOptionsOverride
    → Option A
last_declared has value [] = none
last_declared has value (o ∷ os) = elim (last_declared has value os) [
  | some v ↦ some v
  | none ↦ if has o then some (value o) else none
]

abbrev pub or_base {ℓ} : {A : Type ℓ} → Option A → A → A
or_base none b = b
or_base (some v) b = v

field_lem {ℓ} :
    {A : Type ℓ} (field : PageOptions → A) (has : PageOptionsOverride → Bool)
    (value : PageOptionsOverride → A)
    → ((b : PageOptions) (o : PageOptionsOverride)
        → field (merge b o) ≡ overlay (has o) (value o) (field b))
    → (base : PageOptions) (os : List PageOptionsOverride)
    → field (cascade base os) ≡ or_base (last_declared has value os) (field base)
unfolding cascade
field_lem field has value step base [] = refl
field_lem field has value step base (o ∷ os) =
    let rest = field_lem field has value step (merge base o) os in ground (arith, step base o, rest)

-- Each option of `out` is what the innermost declaration says, or that of `base`.
pub record Resolves (base : PageOptions) (os : List PageOptionsOverride) (out : PageOptions)
    : Type 0 where
  pub prerender :
      out.prerender
      ≡ or_base (last_declared (λ o. o.has_prerender) (λ o. o.prerender) os) base.prerender
  pub prerender_auto :
      out.prerender_auto
      ≡ or_base
          (last_declared (λ o. o.has_prerender_auto) (λ o. o.prerender_auto) os)
          base.prerender_auto
  pub prerender_protected :
      out.prerender_protected
      ≡ or_base
          (last_declared (λ o. o.has_prerender_protected) (λ o. o.prerender_protected) os)
          base.prerender_protected
  pub ssr : out.ssr ≡ or_base (last_declared (λ o. o.has_ssr) (λ o. o.ssr) os) base.ssr
  pub csr : out.csr ≡ or_base (last_declared (λ o. o.has_csr) (λ o. o.csr) os) base.csr
  pub ssr_only :
      out.ssr_only
      ≡ or_base (last_declared (λ o. o.has_ssr_only) (λ o. o.ssr_only) os) base.ssr_only
  pub csrf : out.csrf ≡ or_base (last_declared (λ o. o.has_csrf) (λ o. o.csrf) os) base.csrf
  pub trailing_slash :
      out.trailing_slash
      ≡ or_base
          (last_declared (λ o. o.has_trailing_slash) (λ o. o.trailing_slash) os)
          base.trailing_slash
  pub templates :
      out.templates
      ≡ or_base (last_declared (λ o. o.has_templates) (λ o. o.templates) os) base.templates
  pub image_widths : out.image_widths ≡ base.image_widths

-- Merging a chain of overrides gives each option the value of its innermost declaration,
-- independently of the other options, and the base's value where no file declares it. The image
-- widths always stay the base's.
pub cascade-Resolves :
    (base : PageOptions) (os : List PageOptionsOverride) → Resolves base os (cascade base os)
unfolding merge cascade
cascade-Resolves base os = record {
  prerender =
      field_lem (λ p. p.prerender) (λ o. o.has_prerender) (λ o. o.prerender) (λ b o. refl) base os;
  prerender_auto =
      field_lem (λ p. p.prerender_auto) (λ o. o.has_prerender_auto) (λ o. o.prerender_auto)
        (λ b o. refl) base os;
  prerender_protected =
      field_lem (λ p. p.prerender_protected) (λ o. o.has_prerender_protected)
        (λ o. o.prerender_protected) (λ b o. refl) base os;
  ssr = field_lem (λ p. p.ssr) (λ o. o.has_ssr) (λ o. o.ssr) (λ b o. refl) base os;
  csr = field_lem (λ p. p.csr) (λ o. o.has_csr) (λ o. o.csr) (λ b o. refl) base os;
  ssr_only =
      field_lem (λ p. p.ssr_only) (λ o. o.has_ssr_only) (λ o. o.ssr_only) (λ b o. refl) base os;
  csrf = field_lem (λ p. p.csrf) (λ o. o.has_csrf) (λ o. o.csrf) (λ b o. refl) base os;
  trailing_slash =
      field_lem (λ p. p.trailing_slash) (λ o. o.has_trailing_slash) (λ o. o.trailing_slash)
        (λ b o. refl) base os;
  templates =
      field_lem (λ p. p.templates) (λ o. o.has_templates) (λ o. o.templates) (λ b o. refl) base os;
  image_widths = widths base os;
}
  where
    widths :
        (base : PageOptions) (os : List PageOptionsOverride)
        → (cascade base os).image_widths ≡ base.image_widths
    widths base [] = refl
    widths base (o ∷ os) = widths (merge base o) os

-- A file may be left out of the chain exactly when `Any` says that it declares nothing, whatever
-- options come from outside.
pub merge-any : (o : PageOptionsOverride) (base : PageOptions) → any o ≡ false → merge base o ≡ base
unfolding merge any
merge-any o base h = ground arith
