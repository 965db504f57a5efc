-- ===== src/Parser/Likeness.antt =====
-- adaptive_parser.go: the element that is found by likeness is the likest of the document.
use go_ddgs_stealth.Common.{
  ℕ, ◌≤◌, ◌≡◌, refl, ap, sym, subst, ◌∙◌, String, Bool, true, false, ◌&&◌, ◌⊎◌, inl, inr, Option,
  none, some, List, [], ◌∷◌, arith, ltb, Bool-cases,
}
use go_ddgs_stealth.Common.Dict
use go_ddgs_stealth.Parser.{
  ElementFingerprint, AdaptiveSelector, AdaptiveParser, NodeType, Node, absent, node, is_element,
  Best, score_node, compare_node, visit_chain, visit, find_similar, heal, Selected, Cascadia,
  select_by, select_compiled, select_found, select,
}

-- The node is one of a node, its descendants, and the siblings after it.
abbrev pub InChain : Node → Node → Type 0
InChain m absent = ⊥
InChain m (node ty text attributes child sibling) =
    (m ≡ node ty text attributes child sibling) ⊎ (InChain m child ⊎ InChain m sibling)

-- The node is one of a document.
abbrev pub InDoc : Node → Node → Type 0
InDoc m absent = ⊥
InDoc m (node ty text attributes child sibling) =
    (m ≡ node ty text attributes child sibling) ⊎ InChain m child

abbrev pub is_element_at : Node → Bool
is_element_at absent = false
is_element_at (node ty text attributes child sibling) = is_element ty

module _ (hash : String → String) (refs : List ElementFingerprint) where
  abbrev score : Node → ℕ
  score n = score_node hash refs n

  compare_node-le : (ty : NodeType) (n : Node) (b : Best) → b.1 ≤ (compare_node hash refs ty n b).1
  unfolding compare_node
  compare_node-le ty n b = ground arith

  compare_node-covers :
      (ty : NodeType) (n : Node) (b : Best)
      → is_element ty ≡ true
      → score n ≤ (compare_node hash refs ty n b).1
  unfolding compare_node
  compare_node-covers ty n b h = ground arith

  visit_chain-le : (n : Node) (b : Best) → b.1 ≤ (visit_chain hash refs n b).1
  unfolding visit_chain
  visit_chain-le absent b = omega arith
  visit_chain-le (node ty text attributes child sibling) b =
      let here = node ty text attributes child sibling in
      let b1 = compare_node hash refs ty here b in
      omega (
        arith,
        compare_node-le ty here b,
        visit_chain-le child b1,
        visit_chain-le sibling (visit_chain hash refs child b1),
      )

  -- Every element of a chain scores at most what its visit ends with.
  visit_chain-covers :
      (n m : Node) (b : Best)
      → InChain m n
      → is_element_at m ≡ true
      → score m ≤ (visit_chain hash refs n b).1
  unfolding visit_chain
  visit_chain-covers absent m b i h = absurd i
  visit_chain-covers (node ty text attributes child sibling) m b (inl e) h =
      let here = node ty text attributes child sibling in
      let b1 = compare_node hash refs ty here b in
      let element : is_element ty ≡ true = sym (ap is_element_at e) ∙ h in
      omega (
        arith,
        ap score e,
        compare_node-covers ty here b element,
        visit_chain-le child b1,
        visit_chain-le sibling (visit_chain hash refs child b1),
      )
  visit_chain-covers (node ty text attributes child sibling) m b (inr (inl i)) h =
      let b1 = compare_node hash refs ty (node ty text attributes child sibling) b in
      omega (
        arith,
        visit_chain-covers child m b1 i h,
        visit_chain-le sibling (visit_chain hash refs child b1),
      )
  visit_chain-covers (node ty text attributes child sibling) m b (inr (inr i)) h =
      let b1 = compare_node hash refs ty (node ty text attributes child sibling) b in
      visit_chain-covers sibling m (visit_chain hash refs child b1) i h

  -- The best is the one before, or a node of a certain place with its score.
  abbrev CameFrom : (Node → Type 0) → Best → Best → Type 0
  CameFrom P b b' = (b' ≡ b) ⊎ ((m : Node) × P m × (b' ≡ (some m, score m)))

  CameFrom-trans :
      (P Q R : Node → Type 0) (b c d : Best)
      → ((m : Node) → P m → R m)
      → ((m : Node) → Q m → R m)
      → CameFrom P b c
      → CameFrom Q c d
      → CameFrom R b d
  CameFrom-trans P Q R b c d h k x (inr (m, q, e)) = inr (m, k m q, e)
  CameFrom-trans P Q R b c d h k (inl e) (inl e') = inl (e' ∙ e)
  CameFrom-trans P Q R b c d h k (inr (m, p, e)) (inl e') = inr (m, h m p, e' ∙ e)

  compare_node-CameFrom :
      (ty : NodeType) (n : Node) (b : Best)
      → CameFrom (λ m. m ≡ n) b (compare_node hash refs ty n b)
  unfolding compare_node
  compare_node-CameFrom ty n b = elim (Bool-cases (is_element ty && ltb b.1 (score n))) [
    | inl e ↦ rw e (inr (n, refl, refl))
    | inr e ↦ rw e (inl refl)
  ]

  visit_chain-CameFrom :
      (n : Node) (b : Best) → CameFrom (λ m. InChain m n) b (visit_chain hash refs n b)
  unfolding visit_chain
  visit_chain-CameFrom absent b = inl refl
  visit_chain-CameFrom (node ty text attributes child sibling) b =
      let here = node ty text attributes child sibling in
      let b1 = compare_node hash refs ty here b in
      let b2 = visit_chain hash refs child b1 in
      CameFrom-trans (λ m. (m ≡ here) ⊎ InChain m child) (λ m. InChain m sibling)
        (λ m. InChain m here) b b2 (visit_chain hash refs sibling b2)
        (λ m p. elim p [ inl e ↦ inl e | inr i ↦ inr (inl i) ]) (λ m i. inr (inr i))
        (CameFrom-trans (λ m. m ≡ here) (λ m. InChain m child) (λ m. (m ≡ here) ⊎ InChain m child) b
          b1 b2 (λ m e. inl e) (λ m i. inr i) (compare_node-CameFrom ty here b)
          (visit_chain-CameFrom child b1))
        (visit_chain-CameFrom sibling b2)

  visit-covers :
      (doc m : Node) (b : Best)
      → InDoc m doc
      → is_element_at m ≡ true
      → score m ≤ (visit hash refs doc b).1
  unfolding visit
  visit-covers absent m b i h = absurd i
  visit-covers (node ty text attributes child sibling) m b (inl e) h =
      let here = node ty text attributes child sibling in
      let b1 = compare_node hash refs ty here b in
      let element : is_element ty ≡ true = sym (ap is_element_at e) ∙ h in
      omega (arith, ap score e, compare_node-covers ty here b element, visit_chain-le child b1)
  visit-covers (node ty text attributes child sibling) m b (inr i) h =
      visit_chain-covers child m
        (compare_node hash refs ty (node ty text attributes child sibling) b) i h

  visit-CameFrom : (doc : Node) (b : Best) → CameFrom (λ m. InDoc m doc) b (visit hash refs doc b)
  unfolding visit
  visit-CameFrom absent b = inl refl
  visit-CameFrom (node ty text attributes child sibling) b =
      let here = node ty text attributes child sibling in
      let b1 = compare_node hash refs ty here b in
      CameFrom-trans (λ m. m ≡ here) (λ m. InChain m child) (λ m. InDoc m here) b b1
        (visit_chain hash refs child b1) (λ m e. inl e) (λ m i. inr i)
        (compare_node-CameFrom ty here b) (visit_chain-CameFrom child b1)

-- `n` is in the document, and no element of it is liker to the fingerprints.
pub record IsLikest (hash : String → String) (refs : List ElementFingerprint) (doc n : Node)
    : Type 0 where
  pub present : InDoc n doc
  pub likest :
      (m : Node)
      → InDoc m doc
      → is_element_at m ≡ true
      → score_node hash refs m ≤ score_node hash refs n

find_similar-IsLikest :
    (hash : String → String) (doc n : Node) (refs : List ElementFingerprint)
    → (find_similar hash doc refs).0 ≡ some n
    → ((find_similar hash doc refs).1 ≡ score_node hash refs n) × IsLikest hash refs doc n
unfolding find_similar
find_similar-IsLikest hash doc n [] e = cc
find_similar-IsLikest hash doc n (r ∷ rs) e = elim (visit-CameFrom hash (r ∷ rs) doc (none, 0)) [
  | inl h ↦ let k : ◌≡◌ {A = Option Node} none (some n) = sym (ap (λ (b : Best). b.0) h) ∙ e in cc
  | inr (m, i, h) ↦
      let k : ◌≡◌ {A = Option Node} (some m) (some n) = sym (ap (λ (b : Best). b.0) h) ∙ e in
      let same : m ≡ n = cc in
      let total : (visit hash (r ∷ rs) doc (none, 0)).1 ≡ score_node hash (r ∷ rs) n =
        ap (λ (b : Best). b.1) h ∙ ap (score_node hash (r ∷ rs)) same in
      (
        total,
        record {
          present = subst (λ (x : Node). InDoc x doc) same i;
          likest = λ x j el. omega (arith, total, visit-covers hash (r ∷ rs) doc x (none, 0) j el);
        },
      )
]

heal-found :
    (hash : String → String) (name : String) (b : Best) (p : AdaptiveParser) (n : Node)
    → (heal hash name b p).0 ≡ inr (some n, true)
    → (b.0 ≡ some n) × (55 ≤ b.1)
heal-found hash name (none, score) p n e = cc
heal-found hash name (some m, score) p n e = elim (Bool-cases (ltb score 55)) [
  | inl h ↦ let k : ◌≡◌ {A = Selected} (inr (none, false)) (inr (some n, true)) = rw h at e in cc
  | inr h ↦
      let k : ◌≡◌ {A = Selected} (inr (some m, true)) (inr (some n, true)) = rw h at e in
      (cc, ground arith)
]

module _ (hash : String → String) (lib : Cascadia) where
  -- The primary selector has no match, and the node is the likest, with so much likeness.
  pub record IsHealed (sel : AdaptiveSelector) (s : lib.S) (doc n : Node) : Type 0 where
    pub no_match : lib.query s doc ≡ none
    pub alike : 55 ≤ score_node hash sel.fingerprints n
    pub likest : IsLikest hash sel.fingerprints doc n

  select_by-IsHealed :
      (sel : AdaptiveSelector) (s : lib.S) (doc n : Node) (name : String) (o : Option Node)
      (p : AdaptiveParser)
      → lib.query s doc ≡ o
      → (select_by hash lib sel s doc name o p).0 ≡ inr (some n, true)
      → IsHealed sel s doc n
  select_by-IsHealed sel s doc n name (some m) p q e = cc
  select_by-IsHealed sel s doc n name none p q e =
      let found = heal-found hash name (find_similar hash doc sel.fingerprints) p n e in
      let likest = find_similar-IsLikest hash doc n sel.fingerprints found.0 in
      record { no_match = q; alike = omega (arith, found.1, likest.0); likest = likest.1 }

  -- When Select finds a node by likeness, for a selector that is registered and compiles, then the
  -- selector matches nothing in the document; the node is one of the document with a score of at least
  -- 0.55 against the fingerprints learned, and no element of the document scores more.
  pub select-IsHealed :
      (doc n : Node) (name : String) (p : AdaptiveParser) (sel : AdaptiveSelector) (s : lib.S)
      → Dict.lookup name p ≡ some sel
      → lib.compile sel.primary_css ≡ some s
      → (select hash lib doc name p).0 ≡ inr (some n, true)
      → IsHealed sel s doc n
  unfolding select
  select-IsHealed absent n name p sel s h k e = cc
  select-IsHealed (node ty text attributes child sibling) n name p sel s h k e =
      let doc = node ty text attributes child sibling in
      select_by-IsHealed sel s doc n name (lib.query s doc) p refl (
        sym (
          ap (λ (x : Option AdaptiveSelector). (select_found hash lib x doc name p).0) h
          ∙ ap (λ (x : Option lib.S). (select_compiled hash lib sel x doc name p).0) k)
        ∙ e)
