-- ===== src/Xml/Named.antt =====
-- bteng/xml_parser/parser.py: which trees of a document the walk over its elements takes in.
use mathlib.Core.Option.{some-injective}
use bteng.Prelude.{
  ℕ, ◌+◌, String, ◌≡◌, refl, sym, ◌∙◌, ap, subst, Option, none, some, List, [], is_some, str_eq,
  true, if◌then◌else◌, arith, eq_iff, Bool-cases, Option-cases, inl, inr,
}
use bteng.Prelude.Dict.{lookup, insert, lookup-insert}
use bteng.Builder.Uids.{one_if}
use bteng.Xml.{
  Element, Elements, nil, cons, tag, attrib_of, XmlError, duplicate_tree, given, index_trees,
}
use bteng.Xml.Ports.{insert-HasDistinctKeys, HasDistinctKeys}

abbrev pub held {ℓ} : {V : Type ℓ} → String → List (String × V) → ℕ
held id d = one_if (is_some (lookup id d))

pub index_trees-HasDistinctKeys :
    (els : Elements) (roots : List (String × Element))
    → HasDistinctKeys roots
    → HasDistinctKeys (index_trees els roots).0
unfolding index_trees
index_trees-HasDistinctKeys nil roots h = h
index_trees-HasDistinctKeys (cons el rest) roots h = elim (Bool-cases (str_eq (tag el) "Tree")) [
  | inr other ↦ rw (index_trees, other) (index_trees-HasDistinctKeys rest roots h)
  | inl is_tree ↦ elim (Option-cases (given "ID" (attrib_of el))) [
    | inl missing ↦ rw (index_trees, is_tree, missing) (index_trees-HasDistinctKeys rest roots h)
    | inr (id, has_id) ↦ elim (Option-cases (lookup id roots)) [
      | inl new ↦
          rw (index_trees, is_tree, has_id, new)
            (index_trees-HasDistinctKeys rest (insert id el roots)
              (insert-HasDistinctKeys id el roots h))
      | inr (old, twice) ↦ rw (index_trees, is_tree, has_id, twice) h
    ]
  ]
]

-- How many `<Tree>` elements have the ID; without an ID, or with an empty one, an element counts
-- nowhere.
unfoldable pub trees_named : String → Elements → ℕ
trees_named id nil = 0
trees_named id (cons el rest) =
    let later = trees_named id rest in
    if str_eq (tag el) "Tree"
    then elim (lookup "ID" (attrib_of el)) [
      | none ↦ later
      | some own ↦ if str_eq own "" then later else one_if (str_eq own id) + later
    ]
    else later

trees_named_skip :
    (id : String) (el : Element) (rest : Elements)
    → given "ID" (attrib_of el) ≡ none
    → trees_named id (cons el rest) ≡ trees_named id rest
unfolding trees_named given
trees_named_skip id el rest missing = elim (Option-cases (lookup "ID" (attrib_of el))) [
  | inl absent ↦ rw (trees_named, absent) (ground arith)
  | inr (own, there) ↦ elim (Bool-cases (str_eq own "")) [
    | inl empty ↦ rw (trees_named, there, empty) (ground arith)
    | inr full ↦
        let k : given "ID" (attrib_of el) ≡ some own = rw (given, there, full) refl in absurd (cc)
  ]
]

trees_named-given :
    (id own : String) (el : Element) (rest : Elements)
    → str_eq (tag el) "Tree" ≡ true
    → given "ID" (attrib_of el) ≡ some own
    → trees_named id (cons el rest) ≡ one_if (str_eq own id) + trees_named id rest
unfolding trees_named given
trees_named-given id own el rest is_tree has_id = elim (Option-cases (lookup "ID" (attrib_of el))) [
  | inl absent ↦ let k : given "ID" (attrib_of el) ≡ none = rw (given, absent) refl in absurd (cc)
  | inr (v, there) ↦ elim (Bool-cases (str_eq v "")) [
    | inl empty ↦
        let k : given "ID" (attrib_of el) ≡ none = rw (given, there, empty) refl in absurd (cc)
    | inr full ↦
        let k : given "ID" (attrib_of el) ≡ some v = rw (given, there, full) refl in
        let same : v ≡ own = some-injective v own (sym k ∙ has_id) in
        rw (trees_named, is_tree, there, full)
          (ap (λ x. one_if (str_eq x id) + trees_named id rest) same)
  ]
]

held-insert :
    (own id : String) (el : Element) (roots : List (String × Element))
    → lookup own roots ≡ none
    → held id (insert own el roots) ≡ held id roots + one_if (str_eq own id)
held-insert own id el roots new =
    let e = lookup-insert own id el roots in
    elim (Bool-cases (str_eq own id)) [
      | inl same ↦
          let own_is : own ≡ id = ground (arith, eq_iff own id) in
          let gone = subst (λ x. lookup x roots ≡ none) own_is new in rw (e, same, gone) refl
      | inr other ↦ rw (e, other) (ground arith)
    ]

-- A walk that is not stopped takes in each element that has the ID.
held-index_trees :
    (id : String) (els : Elements) (roots : List (String × Element))
    → (index_trees els roots).1 ≡ none
    → held id (index_trees els roots).0 ≡ held id roots + trees_named id els
unfolding index_trees trees_named
held-index_trees id nil roots h = omega arith
held-index_trees id (cons el rest) roots h = elim (Bool-cases (str_eq (tag el) "Tree")) [
  | inr other ↦
      rw (index_trees, trees_named, other)
        (held-index_trees id rest roots (rw (index_trees, other) at h))
  | inl is_tree ↦ elim (Option-cases (given "ID" (attrib_of el))) [
    | inl missing ↦
        let step : index_trees (cons el rest) roots ≡ index_trees rest roots =
          rw (index_trees, is_tree, missing) refl in
        let ih = held-index_trees id rest roots (sym (ap (λ r. r.1) step) ∙ h) in
        ap (λ r. held id r.0) step
        ∙ (ih ∙ ap (λ n. held id roots + n) (sym (trees_named_skip id el rest missing)))
    | inr (own, has_id) ↦ elim (Option-cases (lookup own roots)) [
      | inl new ↦
          let step : index_trees (cons el rest) roots ≡ index_trees rest (insert own el roots) =
            rw (index_trees, is_tree, has_id, new) refl in
          let ih = held-index_trees id rest (insert own el roots) (sym (ap (λ r. r.1) step) ∙ h) in
          let grown = held-insert own id el roots new in
          let named = trees_named-given id own el rest is_tree has_id in
          let sum : held id (insert own el roots) + trees_named id rest
              ≡ held id roots + trees_named id (cons el rest) =
            omega arith in
          ap (λ r. held id r.0) step ∙ (ih ∙ sum)
      | inr (old, twice) ↦
          let k : ◌≡◌ {A = Option XmlError} (some duplicate_tree) none =
            rw (index_trees, is_tree, has_id, twice) at h in
          absurd (cc)
    ]
  ]
]

pub indexed_all :
    (id : String) (els : Elements)
    → (index_trees els []).1 ≡ none
    → held id (index_trees els []).0 ≡ trees_named id els
unfolding lookup
indexed_all id els h = let e = held-index_trees id els [] h in omega arith
