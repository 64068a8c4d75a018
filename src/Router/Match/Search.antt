-- ===== src/Router/Match/Search.antt =====
-- The reference for the matcher: every way to resolve a path, in resolution order, with no
-- mutable stack and no early return.
use sveltego.Router.Segment.{Route}
use sveltego.Router.Tree.{Node, node, Nodes, nil, cons, MaybeNode, absent, present, label}
use sveltego.Router.Table.{Matchers}
use sveltego.Router.State.{Capture}
use sveltego.Router.Match.{capture, accepts, join_segs}
use sveltego.Base.{Bool, Option, none, some, List, [], ◌∷◌, ◌++◌, map, if◌then◌else◌, Str, str_eq}

abbrev pub Hit : Type 0
Hit = Route × List Capture

abbrev pub under : Capture → Hit → Hit
under c (r, cs) = (r, c ∷ cs)

abbrev pub hits_if : Bool → List Hit → List Hit
hits_if b hs = if b then hs else []

abbrev pub rest_end_hits : MaybeNode → List Hit
rest_end_hits absent = []
rest_end_hits (present (node _ _ _ _ l none _)) = []
rest_end_hits (present (node _ _ _ _ l (some r) _)) =
    (r, record { name = l.name; value = [] } ∷ []) ∷ []

module _ (matchers : Option Matchers) where
  abbrev pub rest_hits : MaybeNode → List Str → List Hit
  rest_hits absent segs = []
  rest_hits (present (node _ _ _ _ l none _)) segs = []
  rest_hits (present (node _ _ _ _ l (some r) _)) segs =
      hits_if (accepts matchers l.matcher (join_segs segs))
        ((r, record { name = l.name; value = join_segs segs } ∷ []) ∷ [])

  unfoldable mutual
    pub hits : Node → List Str → List Hit
    hits (node ss ps o r l (some q) b) [] = (q, []) ∷ []
    hits (node ss ps o r l none b) [] = optional_end_hits o ++ rest_end_hits r
    hits (node ss ps o r l rt b) (seg ∷ segs) =
        static_hits ss seg segs
        ++ (param_hits ps seg segs ++ (optional_hits o seg segs ++ rest_hits r (seg ∷ segs)))

    pub optional_end_hits : MaybeNode → List Hit
    optional_end_hits absent = []
    optional_end_hits (present c) = map (under (capture c [])) (hits c [])

    pub static_hits : Nodes → Str → List Str → List Hit
    static_hits nil seg segs = []
    static_hits (cons c cs) seg segs =
        hits_if (str_eq (label c).value seg) (hits c segs) ++ static_hits cs seg segs

    pub param_hits : Nodes → Str → List Str → List Hit
    param_hits nil seg segs = []
    param_hits (cons c cs) seg segs =
        hits_if (accepts matchers (label c).matcher seg) (map (under (capture c seg)) (hits c segs))
        ++ param_hits cs seg segs

    pub optional_hits : MaybeNode → Str → List Str → List Hit
    optional_hits absent seg segs = []
    optional_hits (present c) seg segs =
        hits_if (accepts matchers (label c).matcher seg) (map (under (capture c seg)) (hits c segs))
        ++ map (under (capture c [])) (hits c (seg ∷ segs))
