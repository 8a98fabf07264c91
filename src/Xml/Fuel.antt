-- ===== src/Xml/Fuel.antt =====
-- bteng/xml_parser/parser.py: calls that end, and how many trees may still be entered.
use bteng.Prelude.{
  ℕ, suc, ◌≤◌, String, ◌≡◌, refl, Bool, true, false, Option, none, some, List, [], ◌∷◌, ◌++◌,
  length, str_eq, if◌then◌else◌, arith, eq_iff, Bool-cases, inl, inr,
}
use bteng.Prelude.Dict.{lookup}
use bteng.Node.{Node, NodeConfig, Base}
use bteng.Factory.{Creation, created, unknown_type, wrong_signature, without_child}
use bteng.Xml.{
  Element, Elements, nil, cons, Outcome, ok, raised, out_of_fuel, Checked, valid, invalid, Build,
  Surroundings, ◌>>=◌, follow, lift, XmlError, some_or,
}
use bteng.Xml.Build.{in_stack, finish, construct, build_tree, wrap_subtree, build}

-- An outcome for which the fuel was enough.
abbrev pub IsFueled {ℓ} : {A : Type ℓ} → Outcome A → Type 0
IsFueled (ok a) = Unit
IsFueled (raised e) = Unit
IsFueled out_of_fuel = ⊥

abbrev pub Settles {ℓ} : {A : Type ℓ} → Build A → Type 0
Settles m = (s : Surroundings) → IsFueled (m s).0

pub follow-IsFueled {ℓ κ} :
    {A : Type ℓ} {B : Type κ} (r : Outcome A × Surroundings) (f : A → Build B)
    → IsFueled r.0
    → ((a : A) → Settles (f a))
    → IsFueled (follow r f).0
follow-IsFueled (ok a, s) f h k = k a s
follow-IsFueled (raised e, s) f h k = tt
follow-IsFueled (out_of_fuel, s) f h k = h

-- What holds of the continuation of a call, whether it returned or raised.
pub elim_fueled {ℓ κ} :
    {A : Type ℓ} {B : Type κ} (P : Outcome B → Type 0) (o : Outcome A)
    (f : A → Outcome B × Surroundings) (g : XmlError → Outcome B × Surroundings) (s : Surroundings)
    → IsFueled o
    → ((a : A) → o ≡ ok a → P (f a).0)
    → ((e : XmlError) → o ≡ raised e → P (g e).0)
    → P
        (elim o as (λ x. Outcome B × Surroundings) [
          | ok a ↦ f a
          | raised e ↦ g e
          | out_of_fuel ↦ (out_of_fuel, s)
        ]).0
elim_fueled P (ok a) f g s h k l = k a refl
elim_fueled P (raised e) f g s h k l = l e refl
elim_fueled P out_of_fuel f g s h k l = absurd h

pub bind-Settles {ℓ κ} :
    {A : Type ℓ} {B : Type κ} (m : Build A) (f : A → Build B)
    → Settles m
    → ((a : A) → Settles (f a))
    → Settles (m >>= f)
bind-Settles m f h k s = follow-IsFueled (m s) f (h s) k

pub lift-Settles {ℓ} : {A : Type ℓ} (o : Checked A) → Settles (lift o)
lift-Settles (valid a) s = tt
lift-Settles (invalid e) s = tt

pub if-Settles {ℓ} :
    {A : Type ℓ} (b : Bool) (m n : Build A)
    → Settles m
    → (b ≡ false → Settles n)
    → Settles (if b then m else n)
if-Settles true m n h k = h
if-Settles false m n h k = k refl

pub some_or-Settles {ℓ κ} :
    {A : Type ℓ} {B : Type κ} (e : XmlError) (o : Option A) (f : A → Build B)
    → ((a : A) → o ≡ some a → Settles (f a))
    → Settles (some_or e o f)
some_or-Settles e none f k s = tt
some_or-Settles e (some a) f k s = k a refl s

finish-Settles : (c : Creation) → Settles (finish c)
unfolding finish
finish-Settles (created n) s = tt
finish-Settles unknown_type s = tt
finish-Settles wrong_signature s = tt
finish-Settles (without_child b d) s = tt

pub construct-Settles :
    (make : Base → Creation) (name : String) (config : NodeConfig)
    → Settles (construct make name config)
unfolding construct
construct-Settles make name config s = finish-Settles _ s

pub build_tree-Settles :
    (build : Element → ℕ → Build Node) (els : Elements) (bb : ℕ)
    → ((el : Element) (scope : ℕ) → Settles (build el scope))
    → Settles (build_tree build els bb)
unfolding build_tree
build_tree-Settles build nil bb h s = tt
build_tree-Settles build (cons el nil) bb h s = h el bb s
build_tree-Settles build (cons el (cons other rest)) bb h s = tt

pub wrap_subtree-Settles : (name : String) (child : Node) → Settles (wrap_subtree name child)
unfolding wrap_subtree construct finish
wrap_subtree-Settles name child s = tt

-- How many trees are not on the stack.
pub remaining : List String → List (String × Element) → ℕ
remaining stack [] = 0
remaining stack ((id, el) ∷ rest) =
    let below = remaining stack rest in if in_stack id stack then below else suc below

pub in_stack_snoc :
    (x id : String) (stack : List String)
    → in_stack x (stack ++ id ∷ []) ≡ (if str_eq id x then true else in_stack x stack)
in_stack_snoc x id [] = refl
in_stack_snoc x id (own ∷ rest) = let ih = in_stack_snoc x id rest in ground arith

remaining_snoc :
    (id : String) (stack : List String) (roots : List (String × Element))
    → remaining (stack ++ id ∷ []) roots ≤ remaining stack roots
unfolding remaining
remaining_snoc id stack [] = omega arith
remaining_snoc id stack ((own, el) ∷ rest) =
    let ih = remaining_snoc id stack rest in let e = in_stack_snoc own id stack in ground arith

-- A tree that was not on the stack and is pushed counts no more.
pub remaining_push :
    (id : String) (stack : List String) (el : Element) (roots : List (String × Element))
    → lookup id roots ≡ some el
    → in_stack id stack ≡ false
    → suc (remaining (stack ++ id ∷ []) roots) ≤ remaining stack roots
unfolding remaining lookup
remaining_push id stack el [] h new = cc
remaining_push id stack el ((own, x) ∷ rest) h new = elim (Bool-cases (str_eq own id)) [
  | inl same ↦
      let less = remaining_snoc id stack rest in
      let e = in_stack_snoc own id stack in ground (arith, eq_iff own id, eq_iff id own)
  | inr other ↦
      let later : lookup id rest ≡ some el = ground arith in
      let ih = remaining_push id stack el rest later new in
      let e = in_stack_snoc own id stack in ground arith
]

pub remaining_le :
    (stack : List String) (roots : List (String × Element)) → remaining stack roots ≤ length roots
unfolding remaining
remaining_le stack [] = omega arith
remaining_le stack ((own, el) ∷ rest) = let ih = remaining_le stack rest in ground arith
