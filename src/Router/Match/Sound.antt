-- ===== src/Router/Match/Sound.antt =====
-- Every hit is sound: it stands for a path of the tree that fits.
use mathlib.Core.List.Memᴰ
use mathlib.Core.List.{Memᴰ}
use sveltego.Router.Segment.{Segment, SegmentKind, static, param, optional, rest}
use sveltego.Router.Tree.{Node, node, Nodes, nil, cons, MaybeNode, absent, present, label, label_in}
use sveltego.Router.Table.{Matchers}
use sveltego.Router.State.{Capture}
use sveltego.Router.Match.{capture, accepts, join_segs}
use sveltego.Router.Match.Search.{
  Hit, under, hits_if, rest_end_hits, rest_hits, hits, optional_end_hits, static_hits, param_hits,
  optional_hits,
}
use sveltego.Router.Paths.{
  In, Is, Child, Leads, Fits, done, literal, required, given, omitted, remainder, no_remainder,
}
use sveltego.Base.{
  ◌≡◌, refl, sym, ap, subst, inl, inr, Bool, true, false, Option, none, some, List, [], ◌∷◌, map,
  Str, str_eq, str_eq_iff,
}

label_in-kind : (k : SegmentKind) (s : Segment) → (label_in k s).kind ≡ k
label_in-kind static s = refl
label_in-kind param s = refl
label_in-kind optional s = refl
label_in-kind rest s = refl

mem-hits_if : (b : Bool) {h : Hit} {hs : List Hit} → Memᴰ h (hits_if b hs) → (b ≡ true) × Memᴰ h hs
mem-hits_if true m = (refl, m)
mem-hits_if false m = absurd (Memᴰ.not-nil m)

module _ (matchers : Option Matchers) where
  -- A path of labels below the node, that fits and leads to the hit's route.
  abbrev pub Explains : Node → List Str → Hit → Type 0
  Explains n segs (q, cs) = (path : List Segment) × Leads n path q × Fits matchers path segs cs

  -- The same, below one of the children, with the child's own label in front.
  abbrev pub Through : SegmentKind → (Node → Type 0) → List Str → Hit → Type 0
  Through k child segs (q, cs) =
      (c : Node) × child c
      × (path : List Segment) × Leads c path q
      × Fits matchers (label_in k (label c) ∷ path) segs cs

  Explains-of_Through :
      (k : SegmentKind) (n : Node) {segs : List Str} (h : Hit)
      → Through k (Child k n) segs h
      → Explains n segs h
  Explains-of_Through k n (q, cs) (c, child, path, leads, fits) = (
    label_in k (label c) ∷ path,
    (
      c,
      subst (λ j. Child j n c) (sym (label_in-kind k (label c))) child,
      ap (λ j. label_in j (label c)) (sym (label_in-kind k (label c))),
      leads,
    ),
    fits,
  )

  Through-under :
      (k : SegmentKind) {child : Node → Type 0} (c : Node) (held : Capture) (part segs : List Str)
      {hs : List Hit} {h : Hit}
      → child c
      → Memᴰ h (map (under held) hs)
      → ((h' : Hit) → Memᴰ h' hs → Explains c part h')
      → ((path : List Segment) (cs : List Capture)
          → Fits matchers path part cs
          → Fits matchers (label_in k (label c) ∷ path) segs (held ∷ cs))
      → Through k child segs h
  Through-under k {child} c held part segs {hs} here m sound fit =
      let (h', mem, same) = Memᴰ.of_map (under held) hs m in
      let (path, leads, fits) = sound h' mem in
      subst (Through k child segs) same (c, here, path, leads, fit path h'.1 fits)

  Through-weaken :
      (k : SegmentKind) {P Q : Node → Type 0} {segs : List Str} (h : Hit)
      → ((c : Node) → P c → Q c)
      → Through k P segs h
      → Through k Q segs h
  Through-weaken k h f (c, p, path, leads, fits) = (c, f c p, path, leads, fits)

  rest_end_sound :
      (o : MaybeNode) (h : Hit) → Memᴰ h (rest_end_hits o) → Through rest (λ c. Is c o) [] h
  rest_end_sound absent h m = absurd (Memᴰ.not-nil m)
  rest_end_sound (present (node _ _ _ _ l none _)) h m = absurd (Memᴰ.not-nil m)
  rest_end_sound (present (node ss ps o r l (some q) b)) h m =
      subst (Through rest (λ c. c ≡ node ss ps o r l (some q) b) []) (sym (Memᴰ.eq_of_singleton m))
        (node ss ps o r l (some q) b, refl, [], refl, no_remainder refl)

  rest_sound :
      (o : MaybeNode) (v : Str) (vs : List Str) (h : Hit)
      → Memᴰ h (rest_hits matchers o (v ∷ vs))
      → Through rest (λ c. Is c o) (v ∷ vs) h
  rest_sound absent v vs h m = absurd (Memᴰ.not-nil m)
  rest_sound (present (node _ _ _ _ l none _)) v vs h m = absurd (Memᴰ.not-nil m)
  rest_sound (present (node ss ps o r l (some q) b)) v vs h m =
      let (ok', mem) = mem-hits_if (accepts matchers l.matcher (join_segs (v ∷ vs))) m in
      subst (Through rest (λ c. c ≡ node ss ps o r l (some q) b) (v ∷ vs))
        (sym (Memᴰ.eq_of_singleton mem))
        (node ss ps o r l (some q) b, refl, [], refl, remainder refl ok')

  mutual
    unfolding hits

    pub hits_sound :
        (n : Node) (segs : List Str) (h : Hit) → Memᴰ h (hits matchers n segs) → Explains n segs h
    hits_sound (node ss ps o r l (some q) b) [] h m =
        subst (Explains (node ss ps o r l (some q) b) []) (sym (Memᴰ.eq_of_singleton m))
          ([], refl, done)
    hits_sound (node ss ps o r l none b) [] h m =
        let n = node ss ps o r l none b in
        elim (Memᴰ.append_cases (optional_end_hits matchers o) m) [
          | inl m ↦ Explains-of_Through optional n h (optional_end_sound o h m)
          | inr m ↦ Explains-of_Through rest n h (rest_end_sound r h m)
        ]
    hits_sound (node ss ps o r l rt b) (seg ∷ segs) h m =
        let n = node ss ps o r l rt b in
        elim (Memᴰ.append_cases (static_hits matchers ss seg segs) m) [
          | inl m ↦ Explains-of_Through static n h (static_sound ss seg segs h m)
          | inr m ↦ elim (Memᴰ.append_cases (param_hits matchers ps seg segs) m) [
            | inl m ↦ Explains-of_Through param n h (param_sound ps seg segs h m)
            | inr m ↦ elim (Memᴰ.append_cases (optional_hits matchers o seg segs) m) [
              | inl m ↦ Explains-of_Through optional n h (optional_sound o seg segs h m)
              | inr m ↦ Explains-of_Through rest n h (rest_sound r seg segs h m)
            ]
          ]
        ]

    optional_end_sound :
        (o : MaybeNode) (h : Hit)
        → Memᴰ h (optional_end_hits matchers o)
        → Through optional (λ c. Is c o) [] h
    optional_end_sound absent h m = absurd (Memᴰ.not-nil m)
    optional_end_sound (present c) h m =
        Through-under optional c (capture c []) [] [] refl m (hits_sound c [])
          (λ path cs f. omitted refl f)

    static_sound :
        (ss : Nodes) (seg : Str) (segs : List Str) (h : Hit)
        → Memᴰ h (static_hits matchers ss seg segs)
        → Through static (λ c. In c ss) (seg ∷ segs) h
    static_sound nil seg segs h m = absurd (Memᴰ.not-nil m)
    static_sound (cons c cs) seg segs h m =
        elim (Memᴰ.append_cases (hits_if (str_eq (label c).value seg) (hits matchers c segs)) m) [
          | inl m ↦
              let (same, mem) = mem-hits_if (str_eq (label c).value seg) m in
              let (path, leads, fits) = hits_sound c segs h mem in
              (c, inl refl, path, leads, literal refl ((str_eq_iff _ _).0 same) fits)
          | inr m ↦ Through-weaken static h (λ d i. inr i) (static_sound cs seg segs h m)
        ]

    param_sound :
        (ps : Nodes) (seg : Str) (segs : List Str) (h : Hit)
        → Memᴰ h (param_hits matchers ps seg segs)
        → Through param (λ c. In c ps) (seg ∷ segs) h
    param_sound nil seg segs h m = absurd (Memᴰ.not-nil m)
    param_sound (cons c cs) seg segs h m =
        elim (Memᴰ.append_cases
          (hits_if (accepts matchers (label c).matcher seg)
            (map (under (capture c seg)) (hits matchers c segs)))
          m) [
            | inl m ↦
                let (ok', mem) = mem-hits_if (accepts matchers (label c).matcher seg) m in
                Through-under param c (capture c seg) segs (seg ∷ segs) (inl refl) mem
                  (hits_sound c segs) (λ path cs' f. required refl ok' f)
            | inr m ↦ Through-weaken param h (λ d i. inr i) (param_sound cs seg segs h m)
          ]

    optional_sound :
        (o : MaybeNode) (seg : Str) (segs : List Str) (h : Hit)
        → Memᴰ h (optional_hits matchers o seg segs)
        → Through optional (λ c. Is c o) (seg ∷ segs) h
    optional_sound absent seg segs h m = absurd (Memᴰ.not-nil m)
    optional_sound (present c) seg segs h m =
        elim (Memᴰ.append_cases
          (hits_if (accepts matchers (label c).matcher seg)
            (map (under (capture c seg)) (hits matchers c segs)))
          m) [
            | inl m ↦
                let (ok', mem) = mem-hits_if (accepts matchers (label c).matcher seg) m in
                Through-under optional c (capture c seg) segs (seg ∷ segs) refl mem
                  (hits_sound c segs) (λ path cs' f. given refl ok' f)
            | inr m ↦
                Through-under optional c (capture c []) (seg ∷ segs) (seg ∷ segs) refl m
                  (hits_sound c (seg ∷ segs)) (λ path cs' f. omitted refl f)
          ]
