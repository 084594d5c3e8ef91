-- ===== src/App/Ctags/Named.antt =====
-- app/indexer.go: what is found under a name, and what a build leaves behind.
use claude_squad_ide.Base.{
  ◌≡◌, refl, sym, ap, ◌∙◌, List, [], ◌∷◌, ◌++◌, Option, none, some, Text, codes, Assoc, lookup,
  lookup-insert, is_empty, text_eq, text_eq_iff, append_assoc, append-nil, Bool-cases, inl, inr,
  if_true, if_false, if◌then◌else◌,
}
use claude_squad_ide.App.CallGraph.{or_nil}
use claude_squad_ide.App.Mcp.Lines.{raw_lines}
use claude_squad_ide.App.Ctags.{
  Definition, CtagsEntry, add_entry, add_lines, scanned_lines, parse_ctags_json,
}

-- The definition of a line, if it is a tag with that name.
abbrev pub tag_named : Text → Option CtagsEntry → List Definition
tag_named k none = []
tag_named k (some e) =
    if text_eq e.kind_of_entry (codes "tag")
    then (if text_eq e.definition.name k then e.definition ∷ [] else [])
    else []

unfoldable pub tags_named : (Text → Option CtagsEntry) → Text → List Text → List Definition
tags_named unmarshal k [] = []
tags_named unmarshal k (l ∷ ls) =
    (if is_empty l then [] else tag_named k (unmarshal l)) ++ tags_named unmarshal k ls

lookup-add_entry :
    (k : Text) (o : Option CtagsEntry) (m : Assoc (List Definition))
    → or_nil (lookup k (add_entry o m)) ≡ or_nil (lookup k m) ++ tag_named k o
lookup-add_entry k none m = sym (append-nil (or_nil (lookup k m)))
lookup-add_entry k (some e) m =
    let n = e.definition.name in
    elim (Bool-cases (text_eq e.kind_of_entry (codes "tag"))) [
      | inr other ↦ rw other (sym (append-nil (or_nil (lookup k m))))
      | inl tag ↦ elim (Bool-cases (text_eq e.definition.name k)) [
        | inl same ↦
            rw (tag, same)
              (ap or_nil (lookup-insert n k _ m ∙ if_true _ _ _ same)
                ∙ ap (λ j. or_nil (lookup j m) ++ e.definition ∷ []) ((text_eq_iff n k).0 same))
        | inr differs ↦
            rw (tag, differs)
              (ap or_nil (lookup-insert n k _ m ∙ if_false _ _ _ differs)
                ∙ sym (append-nil (or_nil (lookup k m))))
      ]
    ]

lookup-add_lines :
    (unmarshal : Text → Option CtagsEntry) (k : Text) (ls : List Text) (m : Assoc (List Definition))
    → or_nil (lookup k (add_lines unmarshal ls m))
      ≡ or_nil (lookup k m) ++ tags_named unmarshal k ls
unfolding add_lines tags_named
lookup-add_lines unmarshal k [] m = sym (append-nil (or_nil (lookup k m)))
lookup-add_lines unmarshal k (l ∷ ls) m = elim (Bool-cases (is_empty l)) [
  | inl blank ↦ rw blank (lookup-add_lines unmarshal k ls m)
  | inr line ↦ rw line (
      lookup-add_lines unmarshal k ls (add_entry (unmarshal l) m)
      ∙ ap (λ ds. ds ++ tags_named unmarshal k ls) (lookup-add_entry k (unmarshal l) m)
      ∙ append_assoc (or_nil (lookup k m)) (tag_named k (unmarshal l)) (tags_named unmarshal k ls))
]

-- Under each name the symbol table has exactly the tags of that name in the output of ctags, in its
-- order, up to the first line that is too long for the scanner.
pub lookup-parse_ctags_json :
    (unmarshal : Text → Option CtagsEntry) (k t : Text)
    → or_nil (lookup k (parse_ctags_json unmarshal t))
      ≡ tags_named unmarshal k (scanned_lines (raw_lines t))
unfolding parse_ctags_json
lookup-parse_ctags_json unmarshal k t =
    lookup-add_lines unmarshal k (scanned_lines (raw_lines t)) [] ∙ (unfold lookup in refl)
