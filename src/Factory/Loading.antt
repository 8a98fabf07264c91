-- ===== src/Factory/Loading.antt =====
-- bteng/factory/factory.py: what a load leaves in sys.modules and in the factory.
use text.Mathlib.Text.{starts_with}
use bteng.Prelude.{
  ℕ, String, ◌≡◌, Bool, All, true, false, Option, none, some, List, [], ◌∷◌, str_eq, if◌then◌else◌,
  ◌⊎◌,
}
use bteng.Prelude.Dict.{lookup, insert}
use bteng.Factory.{NodeClass, NodeFactory, register, register_many}
use bteng.Factory.Plugins.{
  Attribute, Module, Execution, no_loader, body_raises, executed, LoadError, import_error,
  plugin_load_error, registration_error, Loaded,
}

-- The entries up to the first that raises, and whether none does.
abbrev pub before_bad : List (Option (String × NodeClass)) → List (String × NodeClass)
before_bad [] = []
before_bad (none ∷ rest) = []
before_bad (some entry ∷ rest) = entry ∷ before_bad rest

abbrev pub IsGood : Option (String × NodeClass) → Type 0
IsGood none = ⊥
IsGood (some entry) = Unit

-- Entries that all are good are all registered; else those before the first bad one are.
abbrev pub Registers :
    List (Option (String × NodeClass)) → NodeFactory → NodeFactory → Option LoadError → Type 0
Registers nodes f f' e =
    (f' ≡ register_many (before_bad nodes) f)
    × ((All IsGood nodes × (e ≡ none)) ⊎ ((All IsGood nodes → ⊥) × (e ≡ some registration_error)))

-- Public, not abstract, and of the module, if that has a name.
abbrev pub is_found : String → String → NodeClass → Bool
is_found mod_name attr_name c =
    if starts_with attr_name "_"
    then false
    else if c.abstract_class
    then false
    else if str_eq mod_name ""
    then true
    else str_eq c.module_name mod_name

-- The classes in the attributes of a module that are found.
unfoldable pub classes_in : String → List Attribute → List NodeClass
classes_in mod_name [] = []
classes_in mod_name (a ∷ rest) =
    let later = classes_in mod_name rest in
    elim a.class_ [
      | none ↦ later
      | some c ↦ if is_found mod_name a.name c then c ∷ later else later
    ]

-- Each class under its own name.
unfoldable pub register_classes : List NodeClass → NodeFactory → NodeFactory
register_classes [] f = f
register_classes (c ∷ rest) f = register_classes rest (register c none none f)

-- What comes of BTENG_NODES, or where there is none of the search for classes.
abbrev pub FromNodes :
    Module
    → Option (List (Option (String × NodeClass)))
    → NodeFactory
    → NodeFactory
    → Option LoadError
    → Type 0
FromNodes m (some nodes) f f' e = Registers nodes f f' e
FromNodes m none f f' e = (f' ≡ register_classes (classes_in m.name m.attributes) f) × (e ≡ none)

abbrev pub IsLoaded :
    String → String → Execution → List (String × ℕ) → NodeFactory → Loaded → Type 0
IsLoaded mod_key key no_loader modules f r =
    (r.error ≡ some import_error) × (r.sys_modules ≡ modules) × (r.factory ≡ f)
IsLoaded mod_key key (body_raises identity body) modules f r =
    (r.error ≡ some plugin_load_error)
    × (lookup key r.sys_modules ≡ (
        if str_eq mod_key key
        then lookup key modules
        else lookup key (body.imports (insert mod_key identity modules))))
    × (r.factory ≡ body.registers f)
IsLoaded mod_key key (executed m body) modules f r =
    (r.sys_modules ≡ body.imports (insert mod_key m.identity modules))
    × FromNodes m m.bteng_nodes (body.registers f) r.factory r.error
