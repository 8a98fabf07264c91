-- ===== src/Factory/Replay.antt =====
-- bteng/factory/factory.py: a reset of the singleton loses no registration of a decorator.
use bteng.Prelude.{
  String, ◌≡◌, refl, sym, subst, ap, ◌∙◌, false, Option, none, some, List, [], ◌∷◌, ◌++◌, str_eq,
  if◌then◌else◌, or_first, arith, eq_iff, Bool-cases, inl, inr,
}
use bteng.Prelude.Dict.{lookup, insert, lookup-insert}
use bteng.Factory.{NodeClass, NodeFactory, key_of, register, register_many}
use bteng.Factory.Builtins.{new_factory}
use bteng.Factory.Singleton.{
  Singleton, at_import, latest, replay, get_instance, reset_instance, register_node, Operation,
  decorated, was_reset, asked, operate, operate_all, noted, noted_all, last_under,
}

lookup-register :
    (key : String) (c : NodeClass) (name : Option String) (f : NodeFactory)
    → lookup key (register c name none f).registry
      ≡ (if str_eq (key_of c name) key then some c else lookup key f.registry)
unfolding register
lookup-register key c name f = lookup-insert (key_of c name) key c f.registry

-- A dictionary has a key once, and a class is registered under its key again by that key.
abbrev IsDict : List (String × NodeClass) → Type 0
IsDict [] = Unit
IsDict ((key, c) ∷ rest) = (lookup key rest ≡ none) × (key_of c (some key) ≡ key) × IsDict rest

own_name :
    (c : NodeClass) → (if str_eq c.class_name "" then c.class_name else c.class_name) ≡ c.class_name
own_name c = elim (Bool-cases (str_eq c.class_name "")) [
  | inl empty ↦ rw empty refl
  | inr given ↦ rw given refl
]

key_of_idem :
    (c : NodeClass) (name : Option String) → key_of c (some (key_of c name)) ≡ key_of c name
unfolding key_of
key_of_idem c none = own_name c
key_of_idem c (some name) = elim (Bool-cases (str_eq name "")) [
  | inl empty ↦ rw empty (own_name c)
  | inr given ↦ rw given (rw given refl)
]

insert-IsDict :
    (key : String) (c : NodeClass) (d : List (String × NodeClass))
    → key_of c (some key) ≡ key
    → IsDict d
    → IsDict (insert key c d)
unfolding insert lookup
insert-IsDict key c [] k h = (refl, k, tt)
insert-IsDict key c ((own, old) ∷ rest) k h = elim (Bool-cases (str_eq own key)) [
  | inl same ↦
      let e : own ≡ key = ground (arith, eq_iff own key) in
      rw same (h.0, subst (λ x. key_of c (some x) ≡ x) (sym e) k, h.2)
  | inr other ↦
      let other' : str_eq key own ≡ false = ground (arith, eq_iff own key, eq_iff key own) in
      let absent : lookup own (insert key c rest) ≡ none =
        lookup-insert key own c rest ∙ rw other' h.0 in
      rw other (absent, h.1, insert-IsDict key c rest k h.2)
]

latest-IsDict :
    (ds : List (NodeClass × Option String)) (d : List (String × NodeClass))
    → IsDict d
    → IsDict (latest ds d)
unfolding latest
latest-IsDict [] d h = h
latest-IsDict ((c, name) ∷ rest) d h =
    latest-IsDict rest (insert (key_of c name) c d)
      (insert-IsDict (key_of c name) c d (key_of_idem c name) h)

lookup-latest :
    (key : String) (ds : List (NodeClass × Option String)) (d : List (String × NodeClass))
    → lookup key (latest ds d) ≡ last_under key ds (lookup key d)
unfolding latest last_under
lookup-latest key [] d = refl
lookup-latest key ((c, name) ∷ rest) d =
    lookup-latest key rest (insert (key_of c name) c d)
    ∙ ap (last_under key rest) (lookup-insert (key_of c name) key c d)

lookup-register_many :
    (key : String) (d : List (String × NodeClass)) (f : NodeFactory)
    → IsDict d
    → lookup key (register_many d f).registry ≡ or_first (lookup key d) (lookup key f.registry)
unfolding register_many lookup
lookup-register_many key [] f h = refl
lookup-register_many key ((own, c) ∷ rest) f h =
    lookup-register_many key rest (register c (some own) none f) h.2
    ∙ ap (or_first (lookup key rest)) (lookup-register key c (some own) f)
    ∙ rw h.1 (elim (Bool-cases (str_eq own key)) [
      | inl same ↦
          let e : own ≡ key = ground (arith, eq_iff own key) in
          let absent : lookup key rest ≡ none = subst (λ x. lookup x rest ≡ none) e h.0 in
          rw (same, absent) refl
      | inr other ↦ rw other refl
    ])

last_under-snoc :
    (key : String) (ds : List (NodeClass × Option String)) (c : NodeClass) (name : Option String)
    (before : Option NodeClass)
    → last_under key (ds ++ (c, name) ∷ []) before
      ≡ (if str_eq (key_of c name) key then some c else last_under key ds before)
unfolding last_under
last_under-snoc key [] c name before = refl
last_under-snoc key ((c', name') ∷ ds) c name before =
    last_under-snoc key ds c name (if str_eq (key_of c' name') key then some c' else before)

last_under-or_first :
    (key : String) (ds : List (NodeClass × Option String)) (found before : Option NodeClass)
    → or_first (last_under key ds found) before ≡ last_under key ds (or_first found before)
unfolding last_under
last_under-or_first key [] found before = refl
last_under-or_first key ((c, name) ∷ ds) found before =
    elim (Bool-cases (str_eq (key_of c name) key)) [
      | inl same ↦ rw same (last_under-or_first key ds (some c) before)
      | inr other ↦ rw other (last_under-or_first key ds found before)
    ]

abbrev wanted : String → List (NodeClass × Option String) → Option NodeClass
wanted key ds = last_under key ds (lookup key new_factory.registry)

lookup-replay :
    (key : String) (ds : List (NodeClass × Option String))
    → lookup key (replay ds new_factory).registry ≡ wanted key ds
unfolding replay lookup
lookup-replay key ds =
    lookup-register_many key (latest ds []) new_factory (latest-IsDict ds [] tt)
    ∙ ap (λ o. or_first o (lookup key new_factory.registry)) (lookup-latest key ds [])
    ∙ last_under-or_first key ds none (lookup key new_factory.registry)

-- The registrations are noted, and the instance, if there is one, has the classes that are wanted.
abbrev HasWanted : String → List (NodeClass × Option String) → Option NodeFactory → Type 0
HasWanted key ds none = Unit
HasWanted key ds (some f) = lookup key f.registry ≡ wanted key ds

record Serves (key : String) (ds : List (NodeClass × Option String)) (s : Singleton) : Type 0 where
  registrations : s.decorator_registrations ≡ ds
  serves : HasWanted key ds s.instance_

get_instance-Serves :
    (key : String) (ds : List (NodeClass × Option String)) (o : Option NodeFactory)
    → HasWanted key ds o
    → (lookup key (get_instance (record { decorator_registrations = ds; instance_ = o })).0.registry
        ≡ wanted key ds)
      × HasWanted key ds
          (get_instance (record { decorator_registrations = ds; instance_ = o })).1.instance_
unfolding get_instance
get_instance-Serves key ds none h = (lookup-replay key ds, lookup-replay key ds)
get_instance-Serves key ds (some f) h = (h, h)

-- A further registration, on the singleton that may be there.
register_node-Serves :
    (key : String) (ds : List (NodeClass × Option String)) (c : NodeClass) (name : Option String)
    (o : Option NodeFactory)
    → HasWanted key ds o
    → Serves key
        (ds ++ (c, name) ∷ [])
        (register_node c name (record { decorator_registrations = ds; instance_ = o }))
unfolding register_node get_instance
register_node-Serves key ds c name none h = record {
  registrations = refl;
  serves =
      lookup-register key c name (replay (ds ++ (c, name) ∷ []) new_factory)
      ∙ elim (Bool-cases (str_eq (key_of c name) key)) [
        | inl same ↦
            let newest = last_under-snoc key ds c name (lookup key new_factory.registry) in
            rw same (sym (rw same at newest))
        | inr other ↦ rw other (lookup-replay key (ds ++ (c, name) ∷ []))
      ];
}
register_node-Serves key ds c name (some f) h = record {
  registrations = refl;
  serves =
      lookup-register key c name f
      ∙ ap (λ o. if str_eq (key_of c name) key then some c else o) h
      ∙ sym (last_under-snoc key ds c name (lookup key new_factory.registry));
}

operate-Serves :
    (key : String) (o : Operation) (ds : List (NodeClass × Option String)) (i : Option NodeFactory)
    → HasWanted key ds i
    → Serves key (noted o ds) (operate o (record { decorator_registrations = ds; instance_ = i }))
unfolding operate noted reset_instance get_instance
operate-Serves key (decorated c name) ds i h = register_node-Serves key ds c name i h
operate-Serves key was_reset ds i h = record { registrations = refl; serves = tt }
operate-Serves key asked ds none h = record { registrations = refl; serves = lookup-replay key ds }
operate-Serves key asked ds (some f) h = record { registrations = refl; serves = h }

operate_all-Serves :
    (key : String) (os : List Operation) (ds : List (NodeClass × Option String)) (s : Singleton)
    → Serves key ds s
    → Serves key (noted_all os ds) (operate_all os s)
unfolding operate_all noted_all
operate_all-Serves key [] ds s h = h
operate_all-Serves key (o ∷ os) ds s h = operate_all-Serves key os (noted o ds) (operate o s) (
    subst (λ rs. Serves key (noted o ds) (operate o (record s { decorator_registrations = rs })))
      (sym h.registrations) (operate-Serves key o ds s.instance_ h.serves))

-- Whatever a program does with the singleton by get_instance, reset_instance and @register_node, in any
-- order, the factory that get_instance returns has under a key the class of the last registration
-- under that key, or else the built-in class: a reset loses no registration, although each decorator
-- runs once.
pub get_instance_lem :
    (key : String) (os : List Operation)
    → lookup key (get_instance (operate_all os at_import)).0.registry
      ≡ last_under key (noted_all os []) (lookup key new_factory.registry)
get_instance_lem key os =
    let s = operate_all os at_import in
    let h = operate_all-Serves key os [] at_import (record { registrations = refl; serves = tt }) in
    let found = get_instance-Serves key (noted_all os []) s.instance_ h.serves in
    subst
      (λ rs.
        lookup key (get_instance (record s { decorator_registrations = rs })).0.registry
        ≡ wanted key (noted_all os []))
      (sym h.registrations) found.0
