-- ===== src/App/CallGraph/Lookups.antt =====
-- app/indexer_callgraph.go: what the graph answers after references were added.
use claude_squad_ide.Base.{
  ◌≡◌, refl, sym, ◌∙◌, List, [], ◌∷◌, ◌++◌, Text, Assoc, insert, keep, text_eq, text_eq_iff,
  lookup-insert, append_assoc, append-nil, Bool-cases, inl, inr, ap, if◌then◌else◌,
}
use claude_squad_ide.App.CallGraph.{
  Reference, CallGraph, refs_at, add_reference, add_references, find_callers, find_callees,
}

abbrev pub push : Text → Reference → Assoc (List Reference) → Assoc (List Reference)
push j r m = insert j (refs_at j m ++ r ∷ []) m

refs_at-push :
    (k j : Text) (r : Reference) (m : Assoc (List Reference))
    → refs_at k (push j r m) ≡ (if text_eq j k then refs_at k m ++ r ∷ [] else refs_at k m)
unfolding refs_at
refs_at-push k j r m =
    rw (lookup-insert j k (refs_at j m ++ r ∷ []) m) (elim (Bool-cases (text_eq j k)) [
      | inl e ↦ rw (e, (text_eq_iff j k).0 e) refl
      | inr e ↦ rw e refl
    ])

-- Adding references in turn under a key puts those of one key behind what is there.
abbrev add_all :
    (Reference → Text) → List Reference → Assoc (List Reference) → Assoc (List Reference)
add_all key [] m = m
add_all key (r ∷ rs) m = add_all key rs (push (key r) r m)

refs_at-add_all :
    (key : Reference → Text) (k : Text) (rs : List Reference) (m : Assoc (List Reference))
    → refs_at k (add_all key rs m) ≡ refs_at k m ++ keep (λ r. text_eq (key r) k) rs
refs_at-add_all key k [] m = sym (append-nil (refs_at k m))
refs_at-add_all key k (r ∷ rs) m =
    refs_at-add_all key k rs (push (key r) r m)
    ∙ (rw (refs_at-push k (key r) r m) (elim (Bool-cases (text_eq (key r) k)) [
      | inl e ↦ rw e (append_assoc (refs_at k m) (r ∷ []) (keep (λ r. text_eq (key r) k) rs))
      | inr e ↦ rw e refl
    ]))

callers-add_references :
    (rs : List Reference) (g : CallGraph)
    → (add_references rs g).callers ≡ add_all (λ r. r.symbol) rs g.callers
unfolding add_references add_reference
callers-add_references [] g = refl
callers-add_references (r ∷ rs) g = callers-add_references rs (add_reference r g)

callees-add_references :
    (rs : List Reference) (g : CallGraph)
    → (add_references rs g).callees ≡ add_all (λ r. r.caller) rs g.callees
unfolding add_references add_reference
callees-add_references [] g = refl
callees-add_references (r ∷ rs) g = callees-add_references rs (add_reference r g)

-- After references are added to a graph, FindCallers answers with what it did before and then those
-- added that name the symbol, in order; FindCallees likewise with those made by the caller.
pub find-add_references :
    (k : Text) (rs : List Reference) (g : CallGraph)
    → (find_callers k (add_references rs g) ≡ find_callers k g ++ keep (λ r. text_eq r.symbol k) rs)
      × (find_callees k (add_references rs g)
          ≡ find_callees k g ++ keep (λ r. text_eq r.caller k) rs)
unfolding find_callers find_callees
find-add_references k rs g = (
  ap (refs_at k) (callers-add_references rs g) ∙ refs_at-add_all (λ r. r.symbol) k rs g.callers,
  ap (refs_at k) (callees-add_references rs g) ∙ refs_at-add_all (λ r. r.caller) k rs g.callees,
)
