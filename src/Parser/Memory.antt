-- ===== src/Parser/Memory.antt =====
-- adaptive_parser.go: how much a parser remembers.
use go_ddgs_stealth.Common.{
  ◌≤◌, String, ◌||◌, inl, inr, Option, none, some, List, [], ◌∷◌, arith, length, length-append, All,
  When, When-some, Option-cases, Bool-cases, str_eq, ltb,
}
use go_ddgs_stealth.Common.Dict
use go_ddgs_stealth.Common.Dict.{Dict}
use go_ddgs_stealth.Common.Text.{is_empty, trim_space}
use go_ddgs_stealth.Parser.{
  ElementFingerprint, AdaptiveSelector, AdaptiveParser, Node, absent, node, Best, find_similar,
  heal, remember, learn, update_css, Cascadia, register, select_by, select_compiled, select_found,
  select, css_candidate, fingerprint_for_node,
}

-- A selector with at most 8 fingerprints.
abbrev pub IsSmall : String × AdaptiveSelector → Type 0
IsSmall entry = length entry.1.fingerprints ≤ 8

abbrev pub AllSmall : AdaptiveParser → Type 0
AllSmall p = All IsSmall p

AllSmall-insert :
    (name : String) (sel : AdaptiveSelector) (p : AdaptiveParser)
    → length sel.fingerprints ≤ 8
    → AllSmall p
    → AllSmall (Dict.insert name sel p)
unfolding Dict.insert
AllSmall-insert name sel [] h k = (h, tt)
AllSmall-insert name sel ((i, s) ∷ p) h k = elim (Bool-cases (str_eq i name)) [
  | inl e ↦ rw e (h, k.1)
  | inr e ↦ rw e (k.0, AllSmall-insert name sel p h k.1)
]

lookup-small :
    (name : String) (p : AdaptiveParser)
    → AllSmall p
    → When (λ sel. length sel.fingerprints ≤ 8) (Dict.lookup name p)
unfolding Dict.lookup
lookup-small name [] k = tt
lookup-small name ((i, s) ∷ p) k = elim (Bool-cases (str_eq i name)) [
  | inl e ↦ rw e k.0
  | inr e ↦ rw e (lookup-small name p k.1)
]

remember-small :
    (fp : ElementFingerprint) (fs : List ElementFingerprint)
    → length fs ≤ 8
    → length (remember fp fs) ≤ 8
remember-small fp [] h = omega arith
remember-small fp (f ∷ fs) h =
    ground (arith, length-append fs (fp ∷ []), length-append (f ∷ fs) (fp ∷ []))

module _ (hash : String → String) where
  learn-AllSmall :
      (name : String) (n : Node) (p : AdaptiveParser) → AllSmall p → AllSmall (learn hash name n p)
  unfolding learn
  learn-AllSmall name n p h = elim (Option-cases (Dict.lookup name p)) [
    | inl e ↦ rw (e, learn) h
    | inr (sel, e) ↦
        rw (e, learn)
          (AllSmall-insert name _ p
            (remember-small (fingerprint_for_node hash n) sel.fingerprints (
              When-some (λ (x : AdaptiveSelector). length x.fingerprints ≤ 8) _ sel
                (lookup-small name p h) e))
            h)
  ]

  update_css-AllSmall :
      (name updated : String) (p : AdaptiveParser)
      → AllSmall p
      → AllSmall (update_css name updated p)
  update_css-AllSmall name updated p h = elim (Option-cases (Dict.lookup name p)) [
    | inl e ↦ rw (e, update_css) h
    | inr (sel, e) ↦
        rw (e, update_css)
          (elim (Bool-cases (is_empty updated)) [
            | inl b ↦ rw b h
            | inr b ↦ rw b (
                AllSmall-insert name (record sel { primary_css = updated }) p
                  (When-some (λ (x : AdaptiveSelector). length x.fingerprints ≤ 8) _ sel
                    (lookup-small name p h) e)
                  h)
          ])
  ]

  heal-AllSmall :
      (name : String) (b : Best) (p : AdaptiveParser) → AllSmall p → AllSmall (heal hash name b p).1
  heal-AllSmall name (none, score) p h = h
  heal-AllSmall name (some n, score) p h = elim (Bool-cases (ltb score 55)) [
    | inl e ↦ rw e h
    | inr e ↦ rw e (
        learn-AllSmall name n (update_css name (css_candidate n) p)
          (update_css-AllSmall name (css_candidate n) p h))
  ]

  module _ (lib : Cascadia) where
    select_by-AllSmall :
        (sel : AdaptiveSelector) (s : lib.S) (doc : Node) (name : String) (o : Option Node)
        (p : AdaptiveParser)
        → AllSmall p
        → AllSmall (select_by hash lib sel s doc name o p).1
    select_by-AllSmall sel s doc name (some n) p h = learn-AllSmall name n p h
    select_by-AllSmall sel s doc name none p h =
        heal-AllSmall name (find_similar hash doc sel.fingerprints) p h

    select_compiled-AllSmall :
        (sel : AdaptiveSelector) (o : Option lib.S) (doc : Node) (name : String)
        (p : AdaptiveParser)
        → AllSmall p
        → AllSmall (select_compiled hash lib sel o doc name p).1
    select_compiled-AllSmall sel none doc name p h = h
    select_compiled-AllSmall sel (some s) doc name p h =
        select_by-AllSmall sel s doc name (lib.query s doc) p h

    select_found-AllSmall :
        (o : Option AdaptiveSelector) (doc : Node) (name : String) (p : AdaptiveParser)
        → AllSmall p
        → AllSmall (select_found hash lib o doc name p).1
    select_found-AllSmall none doc name p h = h
    select_found-AllSmall (some sel) doc name p h =
        select_compiled-AllSmall sel (lib.compile sel.primary_css) doc name p h

    select-AllSmall :
        (doc : Node) (name : String) (p : AdaptiveParser)
        → AllSmall p
        → AllSmall (select hash lib doc name p).1
    unfolding select
    select-AllSmall absent name p h = h
    select-AllSmall (node ty text attributes child sibling) name p h =
        select_found-AllSmall (Dict.lookup name p) (node ty text attributes child sibling) name p h

    register-AllSmall :
        (name css : String) (p : AdaptiveParser)
        → AllSmall p
        → When AllSmall (register lib name css p)
    unfolding register
    register-AllSmall name css p h =
        elim (Bool-cases (is_empty (trim_space name) || is_empty (trim_space css))) [
          | inl b ↦ rw b tt
          | inr b ↦ rw b (elim (Option-cases (lib.compile (trim_space css))) [
            | inl e ↦ rw (e, register) tt
            | inr (s, e) ↦ rw (e, register) (AllSmall-insert (trim_space name) _ p (omega arith) h)
          ])
        ]

    -- The calls that change a parser, but for Load.
    pub data Use : Type 0 where
      registers : (name css : String) → Use
      selects : Node → String → Use

    abbrev kept_or : AdaptiveParser → Option AdaptiveParser → AdaptiveParser
    kept_or p none = p
    kept_or p (some q) = q

    abbrev use_once : Use → AdaptiveParser → AdaptiveParser
    use_once (registers name css) p = kept_or p (register lib name css p)
    use_once (selects doc name) p = (select hash lib doc name p).1

    unfoldable pub use_all : List Use → AdaptiveParser → AdaptiveParser
    use_all [] p = p
    use_all (u ∷ us) p = use_all us (use_once u p)

    kept_or-AllSmall :
        (p : AdaptiveParser) (o : Option AdaptiveParser)
        → AllSmall p
        → When AllSmall o
        → AllSmall (kept_or p o)
    kept_or-AllSmall p none h k = h
    kept_or-AllSmall p (some q) h k = k

    use_all-AllSmall : (us : List Use) (p : AdaptiveParser) → AllSmall p → AllSmall (use_all us p)
    unfolding use_all
    use_all-AllSmall [] p h = h
    use_all-AllSmall (registers name css ∷ us) p h =
        use_all-AllSmall us (use_once (registers name css) p)
          (kept_or-AllSmall p (register lib name css p) h (register-AllSmall name css p h))
    use_all-AllSmall (selects doc name ∷ us) p h =
        use_all-AllSmall us (use_once (selects doc name) p) (select-AllSmall doc name p h)

    -- A new parser, after any calls of Register and Select, has at most 8 fingerprints for each
    -- selector.
    pub new_parser-AllSmall : (us : List Use) → AllSmall (use_all us [])
    new_parser-AllSmall us = use_all-AllSmall us [] tt
