-- ===== src/Examples/Parsers.antt =====
-- An adaptive parser whose selector breaks.
use go_ddgs_stealth.Common.{refl, String, none, some, [], ◌∷◌}
use go_ddgs_stealth.Common.Dict
use go_ddgs_stealth.Common.Text.{trim_space, trim_left, trim_right, is_space, lower, take}
use go_ddgs_stealth.Parser.{
  AdaptiveSelector, AdaptiveParser, Node, absent, node, element_node, text_node, Cascadia, select,
  words, fields, join_words, chain_text, node_text, read_attributes, fingerprint_for_node,
  score_fingerprint, score_node, compare_node, visit_chain, visit, find_similar, first_class,
  first_id, css_candidate, learn,
}
use go_ddgs_stealth.Parser.Likeness.{IsHealed, select-IsHealed}
use go_ddgs_stealth.Parser.Memory.{AllSmall, registers, selects, use_all, new_parser-AllSmall}

-- Every text is a selector that matches nothing.
abbrev blind : Cascadia
blind = record { S = String; compile = λ css. some css; query = λ s doc. none }

-- <h1 class="title">Go</h1>
abbrev title : Node
title =
    node element_node "h1" (("class", "title") ∷ []) (node text_node "Go" [] absent absent) absent

abbrev page : Node
page = node element_node "body" [] title absent

abbrev learned : AdaptiveSelector
learned = record {
  name = "title";
  primary_css = "#title";
  fingerprints = record { tag = "h1"; id = "title"; class = "title"; text_hash = "" } ∷ [];
}

abbrev parser : AdaptiveParser
parser = ("title", learned) ∷ []

abbrev no_hash : String → String
no_hash s = s

select-IsHealed_example : IsHealed no_hash blind learned "#title" page title
unfolding select words fields join_words chain_text node_text read_attributes fingerprint_for_node
    score_fingerprint score_node compare_node visit_chain visit find_similar first_class first_id
    css_candidate learn trim_space trim_left trim_right is_space lower take Dict.lookup Dict.insert
select-IsHealed_example =
    select-IsHealed no_hash blind page title "title" parser learned "#title" refl refl refl

new_parser-AllSmall_example :
    AllSmall (use_all no_hash blind (registers "title" "#title" ∷ selects page "title" ∷ []) [])
new_parser-AllSmall_example =
    new_parser-AllSmall no_hash blind (registers "title" "#title" ∷ selects page "title" ∷ [])
