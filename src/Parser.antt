-- ===== src/Parser.antt =====
-- adaptive_parser.go: selectors that find an element again by what they learned of it. The package
-- cascadia and the hash are parameters. Scores are in hundredths: the sums of the four weights compare
-- as the floats do. The files of Save and Load are not modelled.
pub mod Likeness
pub mod Memory
use go_ddgs_stealth.Common.{
  ℕ, zero, suc, ◌+◌, String, Bool, true, false, not, ◌&&◌, ◌||◌, Option, none, some, List, [], ◌∷◌,
  ◌++◌, ◌⊎◌, inl, inr, length, ltb, leb, str_eq, if◌then◌else◌,
}
use Prim.Native.String
use go_ddgs_stealth.Common.Dict
use go_ddgs_stealth.Common.Dict.{Dict}
use go_ddgs_stealth.Common.Text.{is_empty, trim_space, lower, is_space}
use go_ddgs_stealth.Errors.{Err, opaque}
use go_ddgs_stealth.Client.Search.{◌^^◌}

pub record ElementFingerprint : Type 0 where
  pub tag : String
  pub id : String
  pub class : String
  pub text_hash : String

pub record AdaptiveSelector : Type 0 where
  pub name : String
  pub primary_css : String
  pub fingerprints : List ElementFingerprint

abbrev pub AdaptiveParser : Type 0
AdaptiveParser = Dict AdaptiveSelector

pub data NodeType : Type 0 where
  element_node text_node other_node : NodeType

-- html.Node, by its first child and its next sibling; `absent` is nil.
pub data Node : Type 0 where
  absent : Node
  node :
      NodeType
      → (text : String) → (attributes : List (String × String)) → (first_child : Node)
      → (next_sibling : Node) → Node

abbrev pub is_element : NodeType → Bool
is_element element_node = true
is_element text_node = false
is_element other_node = false

abbrev is_text : NodeType → Bool
is_text element_node = false
is_text text_node = true
is_text other_node = false

-- A word, if it is not empty, before others.
abbrev push_word : String → List String → List String
push_word w ws = if is_empty w then ws else w ∷ ws

-- The word at the start of a text, and the words after it.
unfoldable pub words : String → String × List String
unfolding is_space
words String.[] = (String.[], [])
words (String.◌∷◌ c s) =
    let (w, ws) = words s in
    if is_space c then (String.[], push_word w ws) else (String.◌∷◌ c w, ws)

-- strings.Fields
unfoldable pub fields : String → List String
unfolding words
fields s = push_word (words s).0 (words s).1

-- strings.Join(ws, " ")
unfoldable pub join_words : List String → String
join_words [] = ""
join_words (w ∷ ws) = elim ws [ [] ↦ w | v ∷ vs ↦ w ^^ " " ^^ join_words ws ]

-- The texts of a node, its descendants, and the siblings after it.
unfoldable pub chain_text : Node → String
chain_text absent = ""
chain_text (node ty text attributes child sibling) =
    let rest = chain_text child ^^ chain_text sibling in
    if is_text ty then text ^^ " " ^^ rest else rest

unfoldable pub node_text : Node → String
unfolding fields join_words chain_text
node_text absent = ""
node_text (node ty text attributes child sibling) =
    join_words (fields (chain_text (node ty text attributes child absent)))

-- The loop over the attributes: the last id and class.
unfoldable pub read_attributes : List (String × String) → ElementFingerprint → ElementFingerprint
unfolding fields join_words
read_attributes [] fp = fp
read_attributes ((key, val) ∷ rest) fp =
    let with_id = read_attributes rest (record fp { id = trim_space val }) in
    let with_class = read_attributes rest (record fp { class = join_words (fields val) }) in
    let as_is = read_attributes rest fp in
    if str_eq (lower key) "id"
    then with_id
    else if str_eq (lower key) "class"
    then with_class
    else as_is

abbrev no_print : String → ElementFingerprint
no_print tag = record { tag = tag; id = ""; class = ""; text_hash = "" }

-- With the hash of a text that is not empty.
unfoldable pub fingerprint_for_node : (String → String) → Node → ElementFingerprint
unfolding node_text read_attributes
fingerprint_for_node hash absent = no_print ""
fingerprint_for_node hash (node ty text attributes child sibling) =
    let t = trim_space (node_text (node ty text attributes child sibling)) in
    record (read_attributes attributes (no_print (lower (trim_space text)))) {
      text_hash = if is_empty t then "" else hash t;
    }

-- A weight, where both sides are the same text and not empty.
abbrev agree : String → String → ℕ → ℕ
agree a b weight = if not (is_empty a) && str_eq a b then weight else 0

abbrev score_one : ElementFingerprint → ElementFingerprint → ℕ
score_one cand ref =
    agree cand.tag ref.tag 35
    + agree cand.id ref.id 35
    + agree cand.class ref.class 20
    + agree cand.text_hash ref.text_hash 10

abbrev score_from : ℕ → ElementFingerprint → List ElementFingerprint → ℕ
score_from best cand [] = best
score_from best cand (r ∷ rs) =
    let s = score_one cand r in
    let better = score_from s cand rs in
    let kept = score_from best cand rs in if ltb best s then better else kept

unfoldable pub score_fingerprint : ElementFingerprint → List ElementFingerprint → ℕ
score_fingerprint cand refs = score_from 0 cand refs

-- The best node so far, and its score.
abbrev pub Best : Type 0
Best = Option Node × ℕ

module _ (hash : String → String) (refs : List ElementFingerprint) where
  unfoldable pub score_node : Node → ℕ
  unfolding fingerprint_for_node score_fingerprint
  score_node n = score_fingerprint (fingerprint_for_node hash n) refs

  -- `n` is compared with the best so far, if it is an element.
  unfoldable pub compare_node : NodeType → Node → Best → Best
  unfolding score_node
  compare_node ty n best =
      if is_element ty && ltb best.1 (score_node n) then (some n, score_node n) else best

  -- The visits of a node and of the siblings after it.
  unfoldable pub visit_chain : Node → Best → Best
  unfolding compare_node
  visit_chain absent best = best
  visit_chain (node ty text attributes child sibling) best =
      visit_chain sibling
        (visit_chain child (compare_node ty (node ty text attributes child sibling) best))

  unfoldable pub visit : Node → Best → Best
  unfolding visit_chain compare_node
  visit absent best = best
  visit (node ty text attributes child sibling) best =
      visit_chain child (compare_node ty (node ty text attributes child sibling) best)

unfoldable pub find_similar : (String → String) → Node → List ElementFingerprint → Best
unfolding visit
find_similar hash doc [] = (none, 0)
find_similar hash doc (r ∷ rs) = visit hash (r ∷ rs) doc (none, 0)

-- The first class of the first class attribute that has one.
unfoldable pub first_class : String → List (String × String) → String
unfolding fields
first_class tag [] = tag
first_class tag ((key, val) ∷ rest) =
    let later = first_class tag rest in
    if str_eq (lower key) "class"
    then elim (fields val) [ [] ↦ later | w ∷ ws ↦ tag ^^ "." ^^ w ]
    else later

unfoldable pub first_id : String → List (String × String) → List (String × String) → String
unfolding first_class
first_id tag all [] = first_class tag all
first_id tag all ((key, val) ∷ rest) =
    let later = first_id tag all rest in
    if str_eq (lower key) "id" && not (is_empty (trim_space val))
    then tag ^^ "#" ^^ trim_space val
    else later

unfoldable pub css_candidate : Node → String
unfolding first_id
css_candidate absent = ""
css_candidate (node ty text attributes child sibling) =
    if is_element ty && not (is_empty (lower text))
    then first_id (lower text) attributes attributes
    else ""

-- The oldest of 8 fingerprints makes room for a new one.
abbrev pub remember : ElementFingerprint → List ElementFingerprint → List ElementFingerprint
remember fp [] = fp ∷ []
remember fp (f ∷ fs) = if leb 8 (length (f ∷ fs)) then fs ++ fp ∷ [] else (f ∷ fs) ++ fp ∷ []

unfoldable pub learn : (String → String) → String → Node → AdaptiveParser → AdaptiveParser
unfolding fingerprint_for_node
learn hash name n p = elim (Dict.lookup name p) [
  | none ↦ p
  | some sel ↦
      Dict.insert name
        (record sel { fingerprints = remember (fingerprint_for_node hash n) sel.fingerprints }) p
]

-- cascadia: a selector that compiles, and the first node of a document that matches it.
pub record Cascadia : Type 1 where
  pub S : Type 0
  pub compile : String → Option S
  pub query : S → Node → Option Node

-- Register; `none` is its error.
unfoldable pub register : Cascadia → String → String → AdaptiveParser → Option AdaptiveParser
register lib name css p =
    let n = trim_space name in
    let c = trim_space css in
    let sel : AdaptiveSelector = record { name = n; primary_css = c; fingerprints = [] } in
    let compiled : Option AdaptiveParser = elim (lib.compile c) [
      | none ↦ none
      | some s ↦ some (Dict.insert n sel p)
    ] in
    if is_empty n || is_empty c then none else compiled

-- The result of Select: an error, or the node, if there is one, and whether it was found by likeness.
abbrev pub Selected : Type 0
Selected = Err ⊎ (Option Node × Bool)

abbrev pub update_css : String → String → AdaptiveParser → AdaptiveParser
update_css name updated p = elim (Dict.lookup name p) [
  | none ↦ p
  | some sel ↦
      if is_empty updated then p else Dict.insert name (record sel { primary_css = updated }) p
]

abbrev pub heal : (String → String) → String → Best → AdaptiveParser → Selected × AdaptiveParser
heal hash name (none, score) p = (inr (none, false), p)
heal hash name (some n, score) p =
    let healed = learn hash name n (update_css name (css_candidate n) p) in
    if ltb score 55 then (inr (none, false), p) else (inr (some n, true), healed)

module _ (hash : String → String) (lib : Cascadia) where
  abbrev pub select_by :
      AdaptiveSelector
      → lib.S
      → Node
      → String
      → Option Node
      → AdaptiveParser
      → Selected × AdaptiveParser
  select_by sel s doc name (some n) p = (inr (some n, false), learn hash name n p)
  select_by sel s doc name none p = heal hash name (find_similar hash doc sel.fingerprints) p

  abbrev pub select_compiled :
      AdaptiveSelector → Option lib.S → Node → String → AdaptiveParser → Selected × AdaptiveParser
  select_compiled sel none doc name p = (inl (opaque "css"), p)
  select_compiled sel (some s) doc name p = select_by sel s doc name (lib.query s doc) p

  abbrev pub select_found :
      Option AdaptiveSelector → Node → String → AdaptiveParser → Selected × AdaptiveParser
  select_found none doc name p = (inl (opaque "selector not registered"), p)
  select_found (some sel) doc name p = select_compiled sel (lib.compile sel.primary_css) doc name p

  -- Select
  unfoldable pub select : Node → String → AdaptiveParser → Selected × AdaptiveParser
  unfolding find_similar learn css_candidate
  select absent name p = (inl (opaque "document is nil"), p)
  select (node ty text attributes child sibling) name p =
      select_found (Dict.lookup name p) (node ty text attributes child sibling) name p
