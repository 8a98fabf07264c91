-- ===== src/Xml/Ports.antt =====
-- bteng/xml_parser/parser.py: which ports and parameters an element gives to its node.
use bteng.Prelude.{
  String, ◌≡◌, refl, sym, ◌∙◌, ap, subst, Bool, true, false, Option, none, some, List, [], ◌∷◌,
  str_eq, if◌then◌else◌, arith, eq_iff, Bool-cases, Option-cases, inl, inr,
}
use bteng.Prelude.Dict.{lookup, insert, lookup-insert}
use bteng.Value.{Value, text}
use bteng.Node.{NodeConfig}
use bteng.Xml.Text.{parse_attr}
use bteng.Xml.Attributes.{is_meta, bind_attr, bind_attrs, insert_if}

-- No key twice, as in the attributes of an element.
abbrev pub HasDistinctKeys : {V : Type 0} → List (String × V) → Type 0
HasDistinctKeys [] = Unit
HasDistinctKeys ((k, v) ∷ rest) = (lookup k rest ≡ none) × HasDistinctKeys rest

pub insert-HasDistinctKeys :
    {W : Type 0} (key : String) (new : W) (d : List (String × W))
    → HasDistinctKeys d
    → HasDistinctKeys (insert key new d)
unfolding insert lookup
insert-HasDistinctKeys key new [] h = (refl, tt)
insert-HasDistinctKeys key new ((own, old) ∷ rest) h =
    let ih = insert-HasDistinctKeys key new rest h.1 in
    let e = lookup-insert key own new rest in
    elim (Bool-cases (str_eq own key)) [
      | inl same ↦ rw same (h.0, h.1)
      | inr other ↦
          let kept : lookup own (insert key new rest) ≡ none =
            let gone = h.0 in ground (arith, eq_iff own key, eq_iff key own) in
          rw other (kept, ih)
    ]

-- The text of an attribute that is a port or a parameter.
abbrev pub text_for : String → List (String × String) → Option String
text_for attr attrib = if is_meta attr then none else lookup attr attrib

-- The key for a port that takes references, unless the text is none.
abbrev pub reference_or : Bool → Option String → Option String → Option String
reference_or takes none old = old
reference_or takes (some raw) old = elim (parse_attr raw) [
  | none ↦ old
  | some key ↦ if takes then some key else old
]

abbrev pub value_or : Option String → Option Value → Option Value
value_or none old = old
value_or (some raw) old = elim (parse_attr raw) [ none ↦ some (text raw) | some key ↦ old ]

lookup-insert_if {ℓ} :
    {V : Type ℓ} (test : Bool) (key other : String) (new : V) (d : List (String × V))
    → lookup other (insert_if test key new d)
      ≡ (if test then (if str_eq key other then some new else lookup other d) else lookup other d)
lookup-insert_if true key other new d = lookup-insert key other new d
lookup-insert_if false key other new d = refl

text_for_gone :
    (own attr : String) (rest : List (String × String))
    → str_eq own attr ≡ true
    → lookup own rest ≡ none
    → text_for attr rest ≡ none
text_for_gone own attr rest same gone =
    let e : own ≡ attr = ground (arith, eq_iff own attr) in
    let gone' = subst (λ k. lookup k rest ≡ none) e gone in ground arith

text_for_other :
    (own val attr : String) (rest : List (String × String))
    → str_eq own attr ≡ false
    → text_for attr ((own, val) ∷ rest) ≡ text_for attr rest
unfolding lookup
text_for_other own val attr rest differs = ground arith

module _ (direction : String → Bool × Bool) (attr : String) where
  -- What is bound to a name agrees with the text, over what an older configuration has.
  pub record Binds (raw : Option String) (old c : NodeConfig) : Type 0 where
    pub into :
        lookup attr c.input_ports
        ≡ reference_or (direction attr).0 raw (lookup attr old.input_ports)
    pub out :
        lookup attr c.output_ports
        ≡ reference_or (direction attr).1 raw (lookup attr old.output_ports)
    pub params : lookup attr c.params ≡ value_or raw (lookup attr old.params)

  Binds-none : (c : NodeConfig) → Binds none c c
  Binds-none c = record { into = refl; out = refl; params = refl }

  bind_attr_meta :
      (val : String) (c : NodeConfig)
      → is_meta attr ≡ true
      → Binds none c (bind_attr direction attr val c)
  unfolding bind_attr
  bind_attr_meta val c meta = rw meta (Binds-none c)

  bind_attr_port :
      (val : String) (c : NodeConfig)
      → is_meta attr ≡ false
      → Binds (some val) c (bind_attr direction attr val c)
  unfolding bind_attr
  bind_attr_port val c port = elim (Option-cases (parse_attr val)) [
    | inl plain ↦ record {
      into = rw (port, reference_or, plain) refl;
      out = rw (port, reference_or, plain) refl;
      params =
          let e = lookup-insert attr attr (text val) c.params in
          rw (port, value_or, plain) (ground (arith, eq_iff attr attr));
    }
    | inr (key, refers) ↦ record {
      into =
          let e = lookup-insert_if (direction attr).0 attr attr key c.input_ports in
          rw (port, reference_or, refers) (ground (arith, eq_iff attr attr));
      out =
          let e = lookup-insert_if (direction attr).1 attr attr key c.output_ports in
          rw (port, reference_or, refers) (ground (arith, eq_iff attr attr));
      params = rw (port, value_or, refers) refl;
    }
  ]

  bind_attr_self :
      (own val : String) (rest : List (String × String)) (c : NodeConfig)
      → str_eq own attr ≡ true
      → Binds (text_for attr ((own, val) ∷ rest)) c (bind_attr direction own val c)
  unfolding lookup
  bind_attr_self own val rest c same =
      let e : own ≡ attr = ground (arith, eq_iff own attr) in
      subst (λ k. Binds (text_for attr ((own, val) ∷ rest)) c (bind_attr direction k val c)) (sym e)
        (elim (Bool-cases (is_meta attr)) [
          | inl meta ↦ rw meta (bind_attr_meta val c meta)
          | inr port ↦ rw (port, lookup, same) (bind_attr_port val c port)
        ])

  bind_attr_other :
      (own val : String) (c : NodeConfig)
      → str_eq own attr ≡ false
      → Binds none c (bind_attr direction own val c)
  unfolding bind_attr
  bind_attr_other own val c differs = elim (Bool-cases (is_meta own)) [
    | inl meta ↦ rw meta (Binds-none c)
    | inr port ↦ elim (Option-cases (parse_attr val)) [
      | inl plain ↦ record {
        into = rw (port, plain) refl;
        out = rw (port, plain) refl;
        params =
            let e = lookup-insert own attr (text val) c.params in rw (port, plain) (ground arith);
      }
      | inr (key, refers) ↦ record {
        into =
            let e = lookup-insert_if (direction own).0 own attr key c.input_ports in
            rw (port, refers) (ground arith);
        out =
            let e = lookup-insert_if (direction own).1 own attr key c.output_ports in
            rw (port, refers) (ground arith);
        params = rw (port, refers) refl;
      }
    ]
  ]

  -- Two steps, of which one at most binds the name.
  Binds-first :
      (raw : Option String) (c d e : NodeConfig) → Binds raw c d → Binds none d e → Binds raw c e
  Binds-first raw c d e h k = record {
    into = k.into ∙ h.into;
    out = k.out ∙ h.out;
    params = k.params ∙ h.params;
  }

  Binds-second :
      (raw : Option String) (c d e : NodeConfig) → Binds none c d → Binds raw d e → Binds raw c e
  Binds-second raw c d e h k = record {
    into = k.into ∙ ap (reference_or (direction attr).0 raw) h.into;
    out = k.out ∙ ap (reference_or (direction attr).1 raw) h.out;
    params = k.params ∙ ap (value_or raw) h.params;
  }

  pub bind_attrs-Binds :
      (attrib : List (String × String)) (c : NodeConfig)
      → HasDistinctKeys attrib
      → Binds (text_for attr attrib) c (bind_attrs direction attrib c)
  unfolding bind_attrs lookup
  bind_attrs-Binds [] c h = elim (Bool-cases (is_meta attr)) [
    | inl meta ↦ rw meta (Binds-none c)
    | inr port ↦ rw port (Binds-none c)
  ]
  bind_attrs-Binds ((own, val) ∷ rest) c h =
      let d = bind_attr direction own val c in
      let later = bind_attrs-Binds rest d h.1 in
      elim (Bool-cases (str_eq own attr)) [
        | inl same ↦
            let gone = text_for_gone own attr rest same h.0 in
            Binds-first (text_for attr ((own, val) ∷ rest)) c d _
              (bind_attr_self own val rest c same)
              (subst (λ raw. Binds raw d (bind_attrs direction rest d)) gone later)
        | inr differs ↦
            subst (λ raw. Binds raw c (bind_attrs direction rest d))
              (sym (text_for_other own val attr rest differs))
              (Binds-second (text_for attr rest) c d _ (bind_attr_other own val c differs) later)
      ]
