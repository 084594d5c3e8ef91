-- ===== src/App/Index/Search.antt =====
-- app/indexer_treesitter.go: search results that fit a budget of tokens. The ranked search, the files
-- and the index are arguments; a budget is not negative.
pub mod Budget
use claude_squad_ide.Base.{
  ℕ, suc, ◌+◌, ◌-◌, ◌/◌, Bool, true, false, not, ◌&&◌, ◌||◌, List, [], ◌∷◌, ◌++◌, Option, none,
  some, Text, text_eq, is_empty, any, take, drop, length, leb, ltb, ◌==◌, if◌then◌else◌,
}
use claude_squad_ide.App.CallGraph.{Reference}
use claude_squad_ide.App.CallGraph.DeadCode.{Symbol}

pub record SearchResult : Type 0 where
  pub symbol : Symbol
  pub content : Text
  pub tokens : ℕ

pub record ContextBundle : Type 0 where
  pub primary : SearchResult
  pub related : List SearchResult
  pub total_tokens : ℕ

-- What a search reads: the ranked hits (the query and the limit), the files of the worktree, the
-- calls of a function and the definitions of a name.
pub record Sources : Type 0 where
  pub search : Text → ℕ → List Symbol
  pub read_file : Text → Option Text
  pub find_callees : Text → List Reference
  pub lookup_symbol : Text → List Symbol

unfoldable pub estimate_tokens : Text → ℕ
estimate_tokens s = (length s + 3) / 4

abbrev pub between : ℕ → ℕ → Text → Text
between start end t = drop start (take end t)

-- An end before the start is a panic in the source; the parser gives none.
unfoldable pub get_symbol_content : Sources → Symbol → Option Text
get_symbol_content s sym = elim (s.read_file sym.file) [
  | none ↦ none
  | some t ↦
      if ltb (length t) sym.end_byte then none else some (between sym.start_byte sym.end_byte t)
]

-- The content of a hit and its tokens; `none` is a hit that is passed over.
abbrev pub measured : Option Text → Option (Text × ℕ)
measured none = none
measured (some t) = some (t, estimate_tokens t)

abbrev pub weigh : Sources → Bool → Symbol → Option (Text × ℕ)
weigh s include_content sym =
    if include_content
    then measured (get_symbol_content s sym)
    else some (
      [],
      if is_empty sym.signature
          then estimate_tokens sym.name + 5
          else estimate_tokens sym.signature,
    )

abbrev pub result : Symbol → Text × ℕ → SearchResult
result sym (content, tokens) = record { symbol = sym; content = content; tokens = tokens }

-- A hit of the loop: what comes without it, and with its tokens.
abbrev pub packed :
    ℕ
    → Bool
    → ℕ
    → Symbol
    → Option (Text × ℕ)
    → List SearchResult
    → (ℕ → List SearchResult)
    → List SearchResult
packed max_tokens is_first used sym none skip rest = skip
packed max_tokens is_first used sym (some (content, tokens)) skip rest =
    if ltb max_tokens (used + tokens)
    then (if is_first then result sym (content, tokens) ∷ [] else [])
    else result sym (content, tokens) ∷ rest tokens

-- The loop over the hits, with `used` tokens so far.
unfoldable pub pack : (Symbol → Option (Text × ℕ)) → ℕ → Bool → ℕ → List Symbol → List SearchResult
pack weight max_tokens is_first used [] = []
pack weight max_tokens is_first used (sym ∷ syms) =
    packed max_tokens is_first used sym (weight sym) (pack weight max_tokens is_first used syms)
      (λ tokens. pack weight max_tokens false (used + tokens) syms)

unfoldable pub search_with_budget : Sources → Text → ℕ → Bool → List SearchResult
unfolding pack
search_with_budget s query max_tokens include_content =
    pack (weigh s include_content) max_tokens true 0 (s.search query 100)

-- Whether `tokens` is more than half of what is left, as the source divides, towards zero; the
-- second branch is for what is left below zero.
abbrev pub exceeds : ℕ → ℕ → ℕ → Bool
exceeds tokens max_tokens used =
    if leb used max_tokens
    then ltb ((max_tokens - used) / 2) tokens
    else leb 2 (used - max_tokens) || ltb 0 tokens

abbrev pub first_of : List Symbol → Option Symbol
first_of [] = none
first_of (sym ∷ syms) = some sym

abbrev pub definition_of : Sources → Option Symbol → Option SearchResult
definition_of s none = none
definition_of s (some sym) = elim (measured (get_symbol_content s sym)) [
  | none ↦ none
  | some w ↦ some (result sym w)
]

-- A callee of the loop, in the same way.
abbrev pub related_packed :
    ℕ
    → ℕ
    → ℕ
    → Option SearchResult
    → List SearchResult
    → (ℕ → List SearchResult)
    → List SearchResult
related_packed max_tokens used related none next more = next
related_packed max_tokens used related (some r) next more =
    if exceeds (related + r.tokens) max_tokens used then next else r ∷ more (related + r.tokens)

-- The callees that fit, each name once; `used` is that of the bundles before and of the primary.
unfoldable pub pack_related : Sources → ℕ → ℕ → List Text → ℕ → List Reference → List SearchResult
unfolding get_symbol_content
pack_related s max_tokens used seen related [] = []
pack_related s max_tokens used seen related (ref ∷ refs) =
    let skip = pack_related s max_tokens used seen related refs in
    let next =
      related_packed max_tokens used related
        (definition_of s (first_of (s.lookup_symbol ref.symbol)))
        (pack_related s max_tokens used (ref.symbol ∷ seen) related refs)
        (λ t. pack_related s max_tokens used (ref.symbol ∷ seen) t refs) in
    if any (λ n. text_eq n ref.symbol) seen then skip else next

unfoldable pub total_of : List SearchResult → ℕ
total_of [] = 0
total_of (r ∷ rs) = r.tokens + total_of rs

abbrev pub bundle_of : Sources → ℕ → ℕ → SearchResult → ContextBundle
bundle_of s max_tokens used r =
    let related = pack_related s max_tokens (used + r.tokens) [] 0 (s.find_callees r.symbol.name) in
    record { primary = r; related = related; total_tokens = r.tokens + total_of related }

-- A primary of the loop, in the same way.
abbrev pub bundle_packed :
    Sources
    → ℕ
    → Bool
    → ℕ
    → Option SearchResult
    → List ContextBundle
    → (ℕ → List ContextBundle)
    → List ContextBundle
bundle_packed s max_tokens is_first used none skip rest = skip
bundle_packed s max_tokens is_first used (some r) skip rest =
    let b = bundle_of s max_tokens used r in
    if ltb max_tokens (used + r.tokens) && not is_first
    then []
    else if leb max_tokens (used + b.total_tokens)
    then b ∷ []
    else b ∷ rest (used + b.total_tokens)

unfoldable pub pack_bundles : Sources → ℕ → Bool → ℕ → List Symbol → List ContextBundle
unfolding pack_related total_of get_symbol_content
pack_bundles s max_tokens is_first used [] = []
pack_bundles s max_tokens is_first used (sym ∷ syms) =
    bundle_packed s max_tokens is_first used (definition_of s (some sym))
      (pack_bundles s max_tokens is_first used syms) (λ t. pack_bundles s max_tokens false t syms)

unfoldable pub search_with_context : Sources → Text → ℕ → List ContextBundle
unfolding pack_bundles
search_with_context s query max_tokens = pack_bundles s max_tokens true 0 (s.search query 20)

unfoldable pub is_binary : Text → Bool
is_binary content = any (λ c. c == 0) (take 512 content)
