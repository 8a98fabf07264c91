-- ===== src/Xml/References.antt =====
-- bteng/xml_parser/parser.py: the references between the trees of a document, and what a call that
-- returned has done.
use bteng.Prelude.{
  ℕ, String, ◌≡◌, refl, ap, subst, Bool, true, false, Option, none, some, List, [], ◌∷◌, ◌++◌, All,
  str_eq, if◌then◌else◌, arith, eq_iff, Bool-cases, inl, inr,
}
use bteng.Prelude.Dict.{lookup}
use bteng.Node.{Node}
use bteng.Xml.{
  Element, Elements, element, nil, cons, children_of, Outcome, ok, raised, out_of_fuel, Build,
  Surroundings, follow, given, XmlError, raise, some_or,
}
use bteng.Xml.Attributes.{Kind, kind_of, subtree_tag, control_tag, decorator_tag}
use bteng.Xml.Build.{in_stack, build_tree, build}

-- The IDs to which an element refers by the SubTree elements that are built for it.
abbrev pub list_of : Option String → List String
list_of none = []
list_of (some id) = id ∷ []

abbrev pub refs_of_kind : Kind → Option String → List String → List String → List String
refs_of_kind subtree_tag id all only = list_of id
refs_of_kind control_tag id all only = all
refs_of_kind decorator_tag id all only = only
refs_of_kind _ id all only = []

unfoldable mutual
  pub refs : Element → List String
  refs (element name attrib children) =
      refs_of_kind (kind_of name) (given "ID" attrib) (refs_in children) (only_refs children)

  pub refs_in : Elements → List String
  refs_in nil = []
  refs_in (cons el rest) = refs el ++ refs_in rest

  pub only_refs : Elements → List String
  only_refs nil = []
  only_refs (cons el nil) = refs el
  only_refs (cons el (cons other rest)) = []

pub All-append {κ} :
    (P : String → Type κ) (xs ys : List String) → All P xs → All P ys → All P (xs ++ ys)
All-append P [] ys h k = k
All-append P (x ∷ xs) ys h k = (h.0, All-append P xs ys h.1 k)

pub All_at {κ} :
    (P : String → Type κ) (x : String) (xs : List String) → All P xs → in_stack x xs ≡ true → P x
All_at P x [] h m = absurd (cc)
All_at P x (y ∷ ys) h m = elim (Bool-cases (str_eq y x)) [
  | inl same ↦ let e : y ≡ x = ground (arith, eq_iff y x) in subst P e h.0
  | inr other ↦ All_at P x ys h.1 (rw other at m)
]

-- A call that returned.
abbrev pub Makes {ℓ} : {A : Type ℓ} → Build A → Type ℓ
Makes {A = A} m = (s : Surroundings) × (s' : Surroundings) × (a : A) × (m s ≡ (ok a, s'))

-- A call that returned was followed by one that returned.
pub follow-ok {ℓ κ} :
    {A : Type ℓ} {B : Type κ} (r : Outcome A × Surroundings) (f : A → Build B) (b : B)
    (s' : Surroundings)
    → follow r f ≡ (ok b, s')
    → (a : A) × (s : Surroundings) × (r ≡ (ok a, s)) × (f a s ≡ (ok b, s'))
follow-ok (ok a, s) f b s' h = (a, s, refl, h)
follow-ok (raised e, s) f b s' h = let no = ap (λ q. q.0) h in absurd (cc)
follow-ok (out_of_fuel, s) f b s' h = let no = ap (λ q. q.0) h in absurd (cc)

pub some_or-ok {ℓ κ} :
    {A : Type ℓ} {B : Type κ} (e : XmlError) (o : Option A) (f : A → Build B) (b : B)
    (s s' : Surroundings)
    → some_or e o f s ≡ (ok b, s')
    → (a : A) × (o ≡ some a) × (f a s ≡ (ok b, s'))
some_or-ok e none f b s s' h = let no = ap (λ q. q.0) h in absurd (cc)
some_or-ok e (some a) f b s s' h = (a, refl, h)

pub if-ok {ℓ} :
    {B : Type ℓ} (test : Bool) (e : XmlError) (m : Build B) (b : B) (s s' : Surroundings)
    → (if test then raise e else m) s ≡ (ok b, s')
    → (test ≡ false) × (m s ≡ (ok b, s'))
if-ok true e m b s s' h = let no = ap (λ q. q.0) h in absurd (cc)
if-ok false e m b s s' h = (refl, h)

pub build_tree-ok :
    (build : Element → ℕ → Build Node) (els : Elements) (bb : ℕ) (s s' : Surroundings) (n : Node)
    → build_tree build els bb s ≡ (ok n, s')
    → (root : Element) × (els ≡ cons root nil) × (build root bb s ≡ (ok n, s'))
unfolding build_tree
build_tree-ok build nil bb s s' n h = let no = ap (λ q. q.0) h in absurd (cc)
build_tree-ok build (cons el nil) bb s s' n h = (el, refl, h)
build_tree-ok build (cons el (cons other rest)) bb s s' n h =
    let no = ap (λ q. q.0) h in absurd (cc)

-- The IDs to which a tree of a document refers.
unfoldable pub tree_refs : List (String × Element) → String → List String
unfolding refs
tree_refs roots id = elim (lookup id roots) [ none ↦ [] | some el ↦ only_refs (children_of el) ]

-- The tree `a` refers to the tree `b`, itself or by others.
pub data Chain (roots : List (String × Element)) : String → String → Type 0 where
  one : {a b : String} → in_stack b (tree_refs roots a) ≡ true → Chain roots a b
  more :
      {a b c : String} → in_stack b (tree_refs roots a) ≡ true → Chain roots b c → Chain roots a c
