-- ===== src/Validation/Sound.antt =====
-- bteng/core/validation.py: the errors against what a node is to have.
use bteng.Prelude.{
  map, subst, ap, ℕ, String, ◌≡◌, refl, Bool, true, false, inl, inr, is_some, str_eq, eq_iff, arith,
  Bool-cases, some, List, [], ◌∷◌, ◌++◌, All, if◌then◌else◌, ◌⊎◌, ◌≢◌, sym, ◌∙◌,
}
use bteng.Executor.{Executor, install, set_tree, inject}
use bteng.Tree.{Tree}
use bteng.Prelude.Dict.{lookup, keys}
use bteng.Node.{
  Node, Nodes, leaf, control, decorator, nil, cons, base, NodeConfig, PortDefinition,
  provided_ports, is_input, PortDirection, input, output, inout,
}
use bteng.Value.{Value, none_value, bool, int, float, text, status, object}
use bteng.Validation.{
  Fault, PortValidationError, undeclared, unmet, is_unmet, is_none, check_ports, validate_node,
  validate_tree, validate_trees, declared, undeclared_input, undeclared_output,
}

append-empty : {A : Type 0} (xs ys : List A) → xs ++ ys ≡ [] → (xs ≡ []) × (ys ≡ [])
append-empty [] ys e = (refl, e)
append-empty (x ∷ xs) ys e = cc

nonempty : {A : Type 0} (x : A) (xs : List A) → x ∷ xs ≢ []
nonempty x xs e = cc

-- An error is left out exactly if its test is off.
drop_if :
    {A : Type 0} (b : Bool) (x : A) (xs : List A)
    → (if b then xs else x ∷ xs) ≡ []
    → (b ≡ true) × (xs ≡ [])
drop_if true x xs e = (refl, e)
drop_if false x xs e = cc

keep_if :
    {A : Type 0} (b : Bool) (x : A) (xs : List A)
    → (if b then x ∷ xs else xs) ≡ []
    → (b ≡ false) × (xs ≡ [])
keep_if true x xs e = cc
keep_if false x xs e = (refl, e)

abbrev pub IsIn : String → List String → Type 0
IsIn name [] = ⊥
IsIn name (x ∷ xs) = (x ≡ name) ⊎ IsIn name xs

lookup-IsIn :
    {A : Type 0} (name : String) (d : List (String × A))
    → is_some (lookup name d) ≡ true
    → IsIn name (keys d)
unfolding lookup
lookup-IsIn name [] h = cc
lookup-IsIn name ((k, v) ∷ rest) h = elim (Bool-cases (str_eq k name)) [
  | inl same ↦ inl (ground (arith, eq_iff k name))
  | inr other ↦ inr (lookup-IsIn name rest (rw other at h))
]

IsIn-lookup :
    {A : Type 0} (name : String) (d : List (String × A))
    → IsIn name (keys d)
    → is_some (lookup name d) ≡ true
unfolding lookup
IsIn-lookup name [] h = absurd h
IsIn-lookup name ((k, v) ∷ rest) (inl e) = ground (arith, eq_iff k name)
IsIn-lookup name ((k, v) ∷ rest) (inr later) =
    let ih = IsIn-lookup name rest later in ground (arith, eq_iff k name)

-- A port of the class has the name.
abbrev pub IsDeclared : List PortDefinition → String → Type 0
IsDeclared ports name = IsIn name (map (λ p. p.name) ports)

-- It is no input, or has a default, or is mapped, or has a static value.
abbrev pub IsMet : NodeConfig → PortDefinition → Type 0
IsMet c p =
    (p.direction ≡ output)
    ⊎ ((p.default ≢ none_value) ⊎ (IsIn p.name (keys c.input_ports) ⊎ IsIn p.name (keys c.params)))

is_input-output : (d : PortDirection) → is_input d ≡ false → d ≡ output
unfolding is_input
is_input-output input h = cc
is_input-output output h = refl
is_input-output inout h = cc

is_none-eq : (v : Value) → is_none v ≡ true → v ≡ none_value
unfolding is_none
is_none-eq none_value h = refl
is_none-eq (bool b) h = cc
is_none-eq (int z) h = cc
is_none-eq (float z) h = cc
is_none-eq (text s) h = cc
is_none-eq (status s) h = cc
is_none-eq (object i) h = cc

is_none-given : (v : Value) → is_none v ≡ false → v ≢ none_value
unfolding is_none
is_none-given v h e = let k = ap is_none e in cc

is_unmet-IsMet : (c : NodeConfig) (p : PortDefinition) → is_unmet c p ≡ false → IsMet c p
unfolding is_unmet
is_unmet-IsMet c p h = elim (Bool-cases (is_input p.direction)) [
  | inr out ↦ inl (is_input-output p.direction out)
  | inl into ↦ elim (Bool-cases (is_none p.default)) [
    | inr given ↦ inr (inl (λ e. is_none-given p.default given e))
    | inl bare ↦ elim (Bool-cases (is_some (lookup p.name c.input_ports))) [
      | inl mapped ↦ inr (inr (inl (lookup-IsIn p.name c.input_ports mapped)))
      | inr free ↦ elim (Bool-cases (is_some (lookup p.name c.params))) [
        | inl fixed ↦ inr (inr (inr (lookup-IsIn p.name c.params fixed)))
        | inr bare' ↦ ground arith
      ]
    ]
  ]
]

IsMet-is_unmet : (c : NodeConfig) (p : PortDefinition) → IsMet c p → is_unmet c p ≡ false
unfolding is_unmet is_input
IsMet-is_unmet c p (inl out) =
    let h : is_input p.direction ≡ false = ap is_input out in ground arith
IsMet-is_unmet c p (inr (inl given)) = elim (Bool-cases (is_none p.default)) [
  | inl bare ↦ absurd (given (is_none-eq p.default bare))
  | inr some' ↦ ground arith
]
IsMet-is_unmet c p (inr (inr (inl mapped))) =
    let h = IsIn-lookup p.name c.input_ports mapped in ground arith
IsMet-is_unmet c p (inr (inr (inr fixed))) =
    let h = IsIn-lookup p.name c.params fixed in ground arith

-- Every port that is mapped is declared with the class, and every input has a value from somewhere.
pub record IsConfigured (c : NodeConfig) (ports : List PortDefinition) : Type 0 where
  pub inputs : All (IsDeclared ports) (keys c.input_ports)
  pub outputs : All (IsDeclared ports) (keys c.output_ports)
  pub met : All (IsMet c) ports

-- A class without ports takes any configuration.
abbrev pub IsValidNode : NodeConfig → List PortDefinition → Type 0
IsValidNode c [] = Unit
IsValidNode c (p ∷ ps) = IsConfigured c (p ∷ ps)

abbrev mutual
  pub IsValid : Node → Type 0
  IsValid (leaf b l) = IsValidNode b.config (provided_ports (leaf b l))
  IsValid (control b c ns) = IsValidNode b.config (provided_ports (control b c ns)) × AllValid ns
  IsValid (decorator b d n) = IsValidNode b.config (provided_ports (decorator b d n)) × IsValid n

  pub AllValid : Nodes → Type 0
  AllValid nil = Unit
  AllValid (cons n ns) = IsValid n × AllValid ns

keys-declared : (ports : List PortDefinition) → keys (declared ports) ≡ map (λ p. p.name) ports
keys-declared [] = refl
keys-declared (p ∷ ps) = ap (λ names. p.name ∷ names) (keys-declared ps)

undeclared-empty :
    (node : ℕ) (fault : Fault) (ports : List PortDefinition) (names : List String)
    → undeclared node fault ports names ≡ []
    → All (IsDeclared ports) names
unfolding undeclared
undeclared-empty node fault ports [] e = tt
undeclared-empty node fault ports (name ∷ names) e =
    let s =
      drop_if (is_some (lookup name (declared ports))) _ (undeclared node fault ports names) e in
    (
      subst (IsIn name) (keys-declared ports) (lookup-IsIn name (declared ports) s.0),
      undeclared-empty node fault ports names s.1,
    )

undeclared-full :
    (node : ℕ) (fault : Fault) (ports : List PortDefinition) (names : List String)
    → All (IsDeclared ports) names
    → undeclared node fault ports names ≡ []
unfolding undeclared
undeclared-full node fault ports [] h = refl
undeclared-full node fault ports (name ∷ names) h =
    rw
      (
        IsIn-lookup name (declared ports) (subst (IsIn name) (sym (keys-declared ports)) h.0),
        undeclared-full node fault ports names h.1,
      )
      refl

unmet-empty :
    (node : ℕ) (c : NodeConfig) (ports : List PortDefinition)
    → unmet node c ports ≡ []
    → All (IsMet c) ports
unfolding unmet
unmet-empty node c [] e = tt
unmet-empty node c (p ∷ ps) e =
    let s = keep_if (is_unmet c p) _ (unmet node c ps) e in
    (is_unmet-IsMet c p s.0, unmet-empty node c ps s.1)

unmet-full :
    (node : ℕ) (c : NodeConfig) (ports : List PortDefinition)
    → All (IsMet c) ports
    → unmet node c ports ≡ []
unfolding unmet
unmet-full node c [] h = refl
unmet-full node c (p ∷ ps) h = rw (IsMet-is_unmet c p h.0, unmet-full node c ps h.1) refl

check_ports-empty :
    (node : ℕ) (c : NodeConfig) (ports : List PortDefinition)
    → check_ports node c ports ≡ []
    → IsValidNode c ports
unfolding check_ports
check_ports-empty node c [] e = tt
check_ports-empty node c (p ∷ ps) e =
    let a = append-empty (undeclared node undeclared_input (p ∷ ps) (keys c.input_ports)) _ e in
    let b = append-empty (undeclared node undeclared_output (p ∷ ps) (keys c.output_ports)) _ a.1 in
    record {
      inputs = undeclared-empty node undeclared_input (p ∷ ps) (keys c.input_ports) a.0;
      outputs = undeclared-empty node undeclared_output (p ∷ ps) (keys c.output_ports) b.0;
      met = unmet-empty node c (p ∷ ps) b.1;
    }

check_ports-full :
    (node : ℕ) (c : NodeConfig) (ports : List PortDefinition)
    → IsValidNode c ports
    → check_ports node c ports ≡ []
unfolding check_ports
check_ports-full node c [] h = refl
check_ports-full node c (p ∷ ps) h =
    rw
      (
        undeclared-full node undeclared_input (p ∷ ps) (keys c.input_ports) h.inputs,
        undeclared-full node undeclared_output (p ∷ ps) (keys c.output_ports) h.outputs,
        unmet-full node c (p ∷ ps) h.met,
      )
      refl

mutual
  unfolding validate_tree validate_node base

  validate_tree-IsValid : (n : Node) → validate_tree n ≡ [] → IsValid n
  validate_tree-IsValid (leaf b l) e =
      check_ports-empty b.uid b.config (provided_ports (leaf b l)) e
  validate_tree-IsValid (control b c ns) e =
      let s = append-empty (validate_node (control b c ns)) (validate_trees ns) e in
      (
        check_ports-empty b.uid b.config (provided_ports (control b c ns)) s.0,
        validate_trees-AllValid ns s.1,
      )
  validate_tree-IsValid (decorator b d n) e =
      let s = append-empty (validate_node (decorator b d n)) (validate_tree n) e in
      (
        check_ports-empty b.uid b.config (provided_ports (decorator b d n)) s.0,
        validate_tree-IsValid n s.1,
      )

  validate_trees-AllValid : (ns : Nodes) → validate_trees ns ≡ [] → AllValid ns
  validate_trees-AllValid nil e = tt
  validate_trees-AllValid (cons n ns) e =
      let s = append-empty (validate_trees ns) (validate_tree n) e in
      (validate_tree-IsValid n s.1, validate_trees-AllValid ns s.0)

mutual
  unfolding validate_tree validate_node base

  IsValid-validate_tree : (n : Node) → IsValid n → validate_tree n ≡ []
  IsValid-validate_tree (leaf b l) h = check_ports-full b.uid b.config (provided_ports (leaf b l)) h
  IsValid-validate_tree (control b c ns) h =
      rw
        (
          check_ports-full b.uid b.config (provided_ports (control b c ns)) h.0,
          AllValid-validate_trees ns h.1,
        )
        refl
  IsValid-validate_tree (decorator b d n) h =
      rw
        (
          check_ports-full b.uid b.config (provided_ports (decorator b d n)) h.0,
          IsValid-validate_tree n h.1,
        )
        refl

  AllValid-validate_trees : (ns : Nodes) → AllValid ns → validate_trees ns ≡ []
  AllValid-validate_trees nil h = refl
  AllValid-validate_trees (cons n ns) h =
      rw (AllValid-validate_trees ns h.1, IsValid-validate_tree n h.0) refl

-- What a call of set_tree gave, or would give, at any list of errors.
abbrev IsChecked : Executor → Tree → List PortValidationError × Executor → Type 0
IsChecked x t r =
    (IsValid t.root × (r.0 ≡ []) × (r.1.tree ≡ some (inject x.inspector x.tracer t)))
    ⊎ ((IsValid t.root → ⊥) × (r.0 ≢ []) × (r.1 ≡ x))

install-IsChecked :
    (x : Executor) (t : Tree) (es : List PortValidationError)
    → validate_tree t.root ≡ es
    → IsChecked x t (install es x t)
unfolding install
install-IsChecked x t [] e = inl (validate_tree-IsValid t.root e, refl, refl)
install-IsChecked x t (f ∷ es) e =
    inr ((λ v. nonempty f es (sym e ∙ IsValid-validate_tree t.root v)), nonempty f es, refl)

-- set_tree installs a tree exactly if its nodes are all valid; else it raises the errors, of which
-- there is one at least, and leaves the executor as it is. A node is valid if its class declares no
-- ports, or if each name that is mapped as an input or an output is that of a declared port, and each
-- port that is no mere output has a default, a mapping as an input, or a static value.
pub set_tree-IsValid :
    (x : Executor) (t : Tree)
    → (IsValid t.root
        × ((set_tree x t).0 ≡ [])
        × ((set_tree x t).1.tree ≡ some (inject x.inspector x.tracer t)))
      ⊎ ((IsValid t.root → ⊥) × ((set_tree x t).0 ≢ []) × ((set_tree x t).1 ≡ x))
unfolding set_tree
set_tree-IsValid x t = install-IsChecked x t (validate_tree t.root) refl
