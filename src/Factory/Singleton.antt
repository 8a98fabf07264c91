-- ===== src/Factory/Singleton.antt =====
-- bteng/factory/factory.py: the singleton, the @register_node decorator, and the replay of its
-- registrations on a fresh singleton.
use bteng.Prelude.{String, Option, none, some, List, [], ◌∷◌, ◌++◌, str_eq, if◌then◌else◌}
use bteng.Prelude.Dict.{insert}
use bteng.Factory.{NodeClass, NodeFactory, key_of, register, register_many}
use bteng.Factory.Builtins.{new_factory}

-- _DECORATOR_REGISTRATIONS and NodeFactory._instance
pub record Singleton : Type 0 where
  pub decorator_registrations : List (NodeClass × Option String)
  pub instance_ : Option NodeFactory

abbrev pub at_import : Singleton
at_import = record { decorator_registrations = []; instance_ = none }

-- The dictionary of the last registration under each key.
unfoldable pub latest :
    List (NodeClass × Option String) → List (String × NodeClass) → List (String × NodeClass)
latest [] d = d
latest ((c, name) ∷ rest) d = latest rest (insert (key_of c name) c d)

unfoldable pub replay : List (NodeClass × Option String) → NodeFactory → NodeFactory
unfolding latest
replay ds f = register_many (latest ds []) f

-- get_instance: the factory, and the singleton behind it.
unfoldable pub get_instance : Singleton → NodeFactory × Singleton
unfolding replay
get_instance s = elim s.instance_ [
  | some f ↦ (f, s)
  | none ↦
      let f = replay s.decorator_registrations new_factory in (f, record s { instance_ = some f })
]

unfoldable pub reset_instance : Singleton → Singleton
reset_instance s = record s { instance_ = none }

-- The decorator: the registration is noted before the factory is asked for.
unfoldable pub register_node : NodeClass → Option String → Singleton → Singleton
unfolding get_instance
register_node c name s =
    let s' = record s { decorator_registrations = s.decorator_registrations ++ (c, name) ∷ [] } in
    let (f, s'') = get_instance s' in record s'' { instance_ = some (register c name none f) }

-- What a program does with the singleton.
pub data Operation : Type 0 where
  decorated : NodeClass → (name : Option String) → Operation
  was_reset asked : Operation

unfoldable pub operate : Operation → Singleton → Singleton
unfolding register_node
operate (decorated c name) s = register_node c name s
operate was_reset s = reset_instance s
operate asked s = (get_instance s).1

unfoldable pub operate_all : List Operation → Singleton → Singleton
unfolding operate
operate_all [] s = s
operate_all (o ∷ os) s = operate_all os (operate o s)

-- All registrations by decorators so far, resets or not.
unfoldable pub noted :
    Operation → List (NodeClass × Option String) → List (NodeClass × Option String)
noted (decorated c name) ds = ds ++ (c, name) ∷ []
noted _ ds = ds

unfoldable pub noted_all :
    List Operation → List (NodeClass × Option String) → List (NodeClass × Option String)
unfolding noted
noted_all [] ds = ds
noted_all (o ∷ os) ds = noted_all os (noted o ds)

-- The class that the last of the registrations gives a key, or the one that is there before them.
unfoldable pub last_under :
    String → List (NodeClass × Option String) → Option NodeClass → Option NodeClass
last_under key [] before = before
last_under key ((c, name) ∷ rest) before =
    last_under key rest (if str_eq (key_of c name) key then some c else before)
