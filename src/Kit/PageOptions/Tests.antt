-- ===== src/Kit/PageOptions/Tests.antt =====
-- The cascade at a chain of two files.
use sveltego.Kit.PageOptions.{default_page_options, always, PageOptionsOverride, merge}
use sveltego.Kit.PageOptions.Cascade.{cascade, Resolves, cascade-Resolves}
use sveltego.Base.{◌≡◌, refl, true, false, [], ◌∷◌}

abbrev nothing : PageOptionsOverride
nothing = record {
  prerender = true;
  has_prerender = false;
  prerender_auto = true;
  has_prerender_auto = false;
  prerender_protected = true;
  has_prerender_protected = false;
  ssr = false;
  has_ssr = false;
  csr = false;
  has_csr = false;
  ssr_only = true;
  has_ssr_only = false;
  csrf = false;
  has_csrf = false;
  trailing_slash = always;
  has_trailing_slash = false;
  templates = [];
  has_templates = false;
}

abbrev layout : PageOptionsOverride
layout = record nothing { has_csrf = true; has_trailing_slash = true }

abbrev page : PageOptionsOverride
page = record nothing { csrf = true; has_csrf = true }

inner_wins : (cascade default_page_options (layout ∷ page ∷ [])).csrf ≡ true
unfolding cascade merge
inner_wins = refl

cascade-Resolves_example :
    Resolves default_page_options
      (layout ∷ page ∷ [])
      (cascade default_page_options (layout ∷ page ∷ []))
cascade-Resolves_example = cascade-Resolves default_page_options (layout ∷ page ∷ [])
