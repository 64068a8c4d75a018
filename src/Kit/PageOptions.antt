-- ===== src/Kit/PageOptions.antt =====
-- exports/kit/page_options.go: the options of a page, and the layout cascade.
pub mod Cascade
pub mod Equality
mod Tests
use sveltego.Base.{
  ℕ, Bool, true, false, ◌&&◌, ◌||◌, not, List, [], ◌∷◌, if◌then◌else◌, ◌==◌, Str, str, str_eq,
}

pub data TrailingSlash : Type 0 where
  default never always ignore : TrailingSlash

pub record PageOptions : Type 0 where
  pub prerender : Bool
  pub prerender_auto : Bool
  pub prerender_protected : Bool
  pub ssr : Bool
  pub csr : Bool
  pub ssr_only : Bool
  pub csrf : Bool
  pub trailing_slash : TrailingSlash
  pub image_widths : List ℕ
  pub templates : Str

-- A field with its `Has` flag.
pub record PageOptionsOverride : Type 0 where
  pub prerender : Bool
  pub has_prerender : Bool
  pub prerender_auto : Bool
  pub has_prerender_auto : Bool
  pub prerender_protected : Bool
  pub has_prerender_protected : Bool
  pub ssr : Bool
  pub has_ssr : Bool
  pub csr : Bool
  pub has_csr : Bool
  pub ssr_only : Bool
  pub has_ssr_only : Bool
  pub csrf : Bool
  pub has_csrf : Bool
  pub trailing_slash : TrailingSlash
  pub has_trailing_slash : Bool
  pub templates : Str
  pub has_templates : Bool

abbrev pub default_page_options : PageOptions
default_page_options = record {
  prerender = false;
  prerender_auto = false;
  prerender_protected = false;
  ssr = true;
  csr = true;
  ssr_only = false;
  csrf = true;
  trailing_slash = never;
  image_widths = [];
  templates = str "svelte";
}

-- `if has { out.F = v }`
abbrev pub overlay {ℓ} : {A : Type ℓ} → Bool → A → A → A
overlay has v old = if has then v else old

unfoldable pub merge : PageOptions → PageOptionsOverride → PageOptions
merge base o = record base {
  prerender = overlay o.has_prerender o.prerender base.prerender;
  prerender_auto = overlay o.has_prerender_auto o.prerender_auto base.prerender_auto;
  prerender_protected =
      overlay o.has_prerender_protected o.prerender_protected base.prerender_protected;
  ssr = overlay o.has_ssr o.ssr base.ssr;
  csr = overlay o.has_csr o.csr base.csr;
  ssr_only = overlay o.has_ssr_only o.ssr_only base.ssr_only;
  csrf = overlay o.has_csrf o.csrf base.csrf;
  trailing_slash = overlay o.has_trailing_slash o.trailing_slash base.trailing_slash;
  templates = overlay o.has_templates o.templates base.templates;
}

unfoldable pub any : PageOptionsOverride → Bool
any o =
    o.has_prerender || o.has_prerender_auto || o.has_prerender_protected || o.has_ssr || o.has_csr
    || o.has_ssr_only || o.has_csrf || o.has_trailing_slash || o.has_templates

abbrev pub slash_code : TrailingSlash → ℕ
slash_code default = 0
slash_code never = 1
slash_code always = 2
slash_code ignore = 3

unfoldable pub bool_eq : Bool → Bool → Bool
bool_eq true b = b
bool_eq false b = not b

-- the length test and the loop over the widths
unfoldable pub widths_equal : List ℕ → List ℕ → Bool
widths_equal [] [] = true
widths_equal (w ∷ ws) (v ∷ vs) = w == v && widths_equal ws vs
widths_equal _ _ = false

unfoldable pub equal : PageOptions → PageOptions → Bool
unfolding bool_eq widths_equal
equal a b =
    bool_eq a.prerender b.prerender
    && bool_eq a.prerender_auto b.prerender_auto
    && bool_eq a.prerender_protected b.prerender_protected
    && bool_eq a.ssr b.ssr
    && bool_eq a.csr b.csr
    && bool_eq a.ssr_only b.ssr_only
    && bool_eq a.csrf b.csrf
    && slash_code a.trailing_slash == slash_code b.trailing_slash
    && str_eq a.templates b.templates
    && widths_equal a.image_widths b.image_widths
