-- ===== src/Xml/Fresh.antt =====
-- bteng/factory/factory.py: what a class that starts afresh makes, with the arguments of a document.
use mathlib.Core.Option
use bteng.Prelude.{
  ℕ, ◌+◌, String, ◌≡◌, refl, subst, Option, none, some, List, [], ◌∷◌, ◌==◌, arith, Option-cases,
  inl, inr, str_eq, Bool-cases,
}
use bteng.Prelude.Dict.{lookup}
use bteng.Value.{idle}
use bteng.Node.{
  Node, leaf, control, decorator, nil, Base, Control, sequence, fallback, parallel,
  reactive_sequence, reactive_fallback, Decorator,
}
use bteng.Node.Children.{of_list}
use bteng.Factory.{
  NodeFactory, NodeClass, Constructor, leaf_class, control_class, decorator_class, created,
  unknown_type, wrong_signature, create_leaf, instantiate_leaf, instantiate_control,
  instantiate_decorator, lookup_class,
}
use bteng.Builder.Idle.{IsAtStart, IsUnticked, AllUnticked}
use bteng.Builder.Uids.{one_if, occurs, occurs_all}
use bteng.Xml.Attributes.{
  Keyword, success_threshold, failure_threshold, max_attempts, duration, hz, control_keyword,
  decorator_keyword, with_keyword, with_keywords,
}
use bteng.Xml.Build.{control_with, decorator_with}

-- A class whose nodes start with their cursor at the start.
abbrev pub IsFreshClass : Constructor → Type 0
IsFreshClass (leaf_class l) = Unit
IsFreshClass (control_class c) = IsAtStart c
IsFreshClass (decorator_class d) = Unit

abbrev AllFresh : List (String × NodeClass) → Type 0
AllFresh [] = Unit
AllFresh ((key, c) ∷ rest) = IsFreshClass c.constructor × AllFresh rest

abbrev pub IsFreshFactory : NodeFactory → Type 0
IsFreshFactory f = AllFresh f.registry

lookup-IsFreshClass :
    (key : String) (registry : List (String × NodeClass)) (c : NodeClass)
    → AllFresh registry
    → lookup key registry ≡ some c
    → IsFreshClass c.constructor
unfolding lookup
lookup-IsFreshClass key [] c h e = absurd (cc)
lookup-IsFreshClass key ((own, d) ∷ rest) c h e = elim (Bool-cases (str_eq own key)) [
  | inl same ↦
      let found : some d ≡ some c = rw same at e in
      let is : d ≡ c = cc in subst (λ x. IsFreshClass x.constructor) is h.0
  | inr other ↦ lookup-IsFreshClass key rest c h.1 (rw other at e)
]

-- A state that may be missing.
abbrev IsAllowed : Option Control → Type 0
IsAllowed none = Unit
IsAllowed (some c) = IsAtStart c

control_keyword-IsAllowed :
    (c : Control) (k : Keyword) → IsAtStart c → IsAllowed (control_keyword c k)
unfolding control_keyword
control_keyword-IsAllowed (sequence i) k h = tt
control_keyword-IsAllowed (fallback i) k h = tt
control_keyword-IsAllowed (reactive_sequence r) k h = tt
control_keyword-IsAllowed (reactive_fallback r) k h = tt
control_keyword-IsAllowed (parallel p) (success_threshold z) h = tt
control_keyword-IsAllowed (parallel p) (failure_threshold z) h = tt
control_keyword-IsAllowed (parallel p) (max_attempts z) h = tt
control_keyword-IsAllowed (parallel p) (duration z) h = tt
control_keyword-IsAllowed (parallel p) (hz z) h = tt

map-IsFreshClass :
    (o : Option Control) (k : Constructor)
    → IsAllowed o
    → Option.map control_class o ≡ some k
    → IsFreshClass k
map-IsFreshClass none k h e = absurd (cc)
map-IsFreshClass (some c) k h e = let same : control_class c ≡ k = cc in subst IsFreshClass same h

map_decorator-IsFreshClass :
    (o : Option Decorator) (k : Constructor)
    → Option.map decorator_class o ≡ some k
    → IsFreshClass k
map_decorator-IsFreshClass none k e = absurd (cc)
map_decorator-IsFreshClass (some d) k e =
    let same : decorator_class d ≡ k = cc in subst IsFreshClass same tt

with_keyword-IsFreshClass :
    (x : Keyword) (k k' : Constructor)
    → IsFreshClass k
    → with_keyword x k ≡ some k'
    → IsFreshClass k'
unfolding with_keyword
with_keyword-IsFreshClass x (leaf_class l) k' h e = absurd (cc)
with_keyword-IsFreshClass x (control_class c) k' h e =
    map-IsFreshClass (control_keyword c x) k' (control_keyword-IsAllowed c x h) e
with_keyword-IsFreshClass x (decorator_class d) k' h e =
    map_decorator-IsFreshClass (decorator_keyword d x) k' e

with_keywords-IsFreshClass :
    (ks : List Keyword) (k k' : Constructor)
    → IsFreshClass k
    → with_keywords ks k ≡ some k'
    → IsFreshClass k'
unfolding with_keywords
with_keywords-IsFreshClass [] k k' h e = let same : k ≡ k' = cc in subst IsFreshClass same h
with_keywords-IsFreshClass (x ∷ xs) k k' h e = elim (Option-cases (with_keyword x k)) [
  | inl refused ↦ let no : none ≡ some k' = rw (with_keywords, refused) at e in absurd (cc)
  | inr (k1, taken) ↦
      with_keywords-IsFreshClass xs k1 k' (with_keyword-IsFreshClass x k k1 h taken)
        (rw (with_keywords, taken) at e)
]

-- A node that was made with these children.
abbrev pub Made : Base → List Node → Node → Type 0
Made b ns n =
    ((i : ℕ) → occurs i n ≡ one_if (b.uid == i) + occurs_all i (of_list ns))
    × (b.status ≡ idle → AllUnticked (of_list ns) → IsUnticked n)

instantiate_leaf-Made :
    (k : Constructor) (b : Base) (n : Node)
    → IsFreshClass k
    → instantiate_leaf k b ≡ created n
    → Made b [] n
unfolding instantiate_leaf occurs occurs_all of_list
instantiate_leaf-Made (leaf_class l) b n h e =
    let same : leaf b l ≡ n = cc in subst (Made b []) same (λ i. omega arith, λ is_idle hs. is_idle)
instantiate_leaf-Made (control_class c) b n h e =
    let same : control b c nil ≡ n = cc in
    subst (Made b []) same (λ i. refl, λ is_idle hs. (is_idle, h, tt))
instantiate_leaf-Made (decorator_class d) b n h e = absurd (cc)

instantiate_control-Made :
    (k : Constructor) (b : Base) (ns : List Node) (n : Node)
    → IsFreshClass k
    → instantiate_control k b ns ≡ created n
    → Made b ns n
unfolding instantiate_control occurs
instantiate_control-Made (leaf_class l) b ns n h e = absurd (cc)
instantiate_control-Made (control_class c) b ns n h e =
    let same : control b c (of_list ns) ≡ n = cc in
    subst (Made b ns) same (λ i. refl, λ is_idle hs. (is_idle, h, hs))
instantiate_control-Made (decorator_class d) b ns n h e = absurd (cc)

pub decorator-Made :
    (b : Base) (d : Decorator) (child : Node) → Made b (child ∷ []) (decorator b d child)
unfolding occurs occurs_all of_list
decorator-Made b d child = (λ i. omega arith, λ is_idle hs. (is_idle, hs.0))

instantiate_decorator-Made :
    (k : Constructor) (b : Base) (child n : Node)
    → instantiate_decorator k b child ≡ created n
    → Made b (child ∷ []) n
unfolding instantiate_decorator
instantiate_decorator-Made (leaf_class l) b child n e = absurd (cc)
instantiate_decorator-Made (control_class c) b child n e = absurd (cc)
instantiate_decorator-Made (decorator_class d) b child n e =
    let same : decorator b d child ≡ n = cc in
    subst (Made b (child ∷ [])) same (decorator-Made b d child)

pub control_with-Made :
    (f : NodeFactory) (type_name : String) (ks : List Keyword) (ns : List Node) (b : Base)
    (n : Node)
    → IsFreshFactory f
    → control_with f type_name ks ns b ≡ created n
    → Made b ns n
unfolding control_with lookup_class
control_with-Made f type_name ks ns b n h e = elim (Option-cases (lookup type_name f.registry)) [
  | inl unknown ↦ let no : unknown_type ≡ created n = rw (control_with, unknown) at e in absurd (cc)
  | inr (c, known) ↦ elim (Option-cases (with_keywords ks c.constructor)) [
    | inl refused ↦
        let no : wrong_signature ≡ created n = rw (control_with, known, refused) at e in absurd (cc)
    | inr (k, taken) ↦
        instantiate_control-Made k b ns n
          (with_keywords-IsFreshClass ks c.constructor k
            (lookup-IsFreshClass type_name f.registry c h known) taken)
          (rw (control_with, known, taken) at e)
  ]
]

pub decorator_with-Made :
    (f : NodeFactory) (type_name : String) (ks : List Keyword) (child : Node) (b : Base) (n : Node)
    → decorator_with f type_name ks child b ≡ created n
    → Made b (child ∷ []) n
unfolding decorator_with lookup_class
decorator_with-Made f type_name ks child b n e = elim (Option-cases (lookup type_name f.registry)) [
  | inl unknown ↦
      let no : unknown_type ≡ created n = rw (decorator_with, unknown) at e in absurd (cc)
  | inr (c, known) ↦ elim (Option-cases (with_keywords ks c.constructor)) [
    | inl refused ↦
        let no : wrong_signature ≡ created n = rw (decorator_with, known, refused) at e in
        absurd (cc)
    | inr (k, taken) ↦
        instantiate_decorator-Made k b child n (rw (decorator_with, known, taken) at e)
  ]
]

pub create_leaf-Made :
    (f : NodeFactory) (type_name : String) (b : Base) (n : Node)
    → IsFreshFactory f
    → create_leaf type_name b f ≡ created n
    → Made b [] n
unfolding create_leaf lookup_class
create_leaf-Made f type_name b n h e = elim (Option-cases (lookup type_name f.registry)) [
  | inl unknown ↦ let no : unknown_type ≡ created n = rw (create_leaf, unknown) at e in absurd (cc)
  | inr (c, known) ↦
      instantiate_leaf-Made c.constructor b n (lookup-IsFreshClass type_name f.registry c h known)
        (rw (create_leaf, known) at e)
]
