-- ===== src/Xml/Attributes.antt =====
-- bteng/xml_parser/parser.py: what the attributes of an element say: ports, parameters and arguments of
-- the constructors.
use mathlib.Core.Option
use bteng.Prelude.{
  ℕ, suc, ◌+◌, ◌*◌, ◌/◌, String, ℤ, pos, negsuc, is_positive, Bool, true, false, Option, none, some,
  List, [], ◌∷◌, ◌||◌, not, str_eq, if◌then◌else◌, or_else, pos_part,
}
use bteng.Prelude.Dict.{lookup, insert}
use bteng.Value.{Value, none_value, text, nano}
use bteng.Node.{NodeConfig, PortDefinition, is_input, is_output, Control, Decorator}
use bteng.Factory.{NodeManifest, Constructor, leaf_class, control_class, decorator_class}
use bteng.Xml.{XmlTreeParser, Checked, valid, invalid, not_literal, not_positive}
use bteng.Xml.Text.{parse_attr, int_attr, float_attr}

abbrev pub is_one_of : String → List String → Bool
is_one_of s [] = false
is_one_of s (t ∷ ts) = let later = is_one_of s ts in if str_eq t s then true else later

-- _META_ATTRS
unfoldable pub is_meta : String → Bool
is_meta attr = is_one_of attr ("name" ∷ "ID" ∷ "type" ∷ [])

pub data Kind : Type 0 where
  subtree_tag generic_tag control_tag decorator_tag other_tag : Kind

-- _SUBTREE_TAG, _GENERIC_TAG, _CONTROL_TAGS and _DECORATOR_TAGS
unfoldable pub kind_of : String → Kind
kind_of tag =
    if str_eq tag "SubTree"
    then subtree_tag
    else if str_eq tag "Node"
    then generic_tag
    else if is_one_of tag (
        "Sequence" ∷ "Fallback" ∷ "Selector" ∷ "Parallel" ∷ "ReactiveSequence" ∷ "ReactiveFallback"
        ∷ [])
    then control_tag
    else if is_one_of tag
        ("Inverter" ∷ "Retry" ∷ "Timeout" ∷ "RateController" ∷ "ForceSuccess" ∷ "ForceFailure" ∷ [])
    then decorator_tag
    else other_tag

-- { **old, **new }
unfoldable pub merged : List (String × String) → List (String × String) → List (String × String)
merged old [] = old
merged old ((k, v) ∷ rest) = merged (insert k v old) rest

abbrev pub or_empty : Option (List (String × String)) → List (String × String)
or_empty o = or_else o []

-- _port_directions; merging with an empty dictionary gives the other.
unfoldable pub port_directions : XmlTreeParser → String → List (String × String)
unfolding merged
port_directions p node_type =
    let declared = or_empty (lookup node_type p.doc_port_model) in
    elim (or_empty (lookup node_type p.port_model)) [
      | [] ↦ declared
      | seed ∷ seeds ↦ merged (seed ∷ seeds) declared
    ]

-- `declared[port.name] = port`, in order
unfoldable pub declared_ports :
    List PortDefinition → List (String × PortDefinition) → List (String × PortDefinition)
declared_ports [] d = d
declared_ports (p ∷ ps) d = declared_ports ps (insert p.name p d)

-- _resolve_direction: whether the port is an input, and whether it is an output.
unfoldable pub resolve_direction :
    String → List (String × String) → List (String × PortDefinition) → Bool × Bool
resolve_direction attr port_meta declared = elim (lookup attr port_meta) [
  | some direction ↦
      let out = is_one_of direction ("output_port" ∷ "inout_port" ∷ "output" ∷ "inout" ∷ []) in
      let into = is_one_of direction ("input_port" ∷ "inout_port" ∷ "input" ∷ "inout" ∷ []) in
      (into || not out, out)
  | none ↦ elim (lookup attr declared) [
    | some port ↦ (is_input port.direction, is_output port.direction)
    | none ↦ (true, false)
  ]
]

abbrev pub insert_if {ℓ} : {V : Type ℓ} → Bool → String → V → List (String × V) → List (String × V)
insert_if test k v d = if test then insert k v d else d

-- What one attribute adds to a configuration, for the direction of a reference.
unfoldable pub bind_attr : (String → Bool × Bool) → String → String → NodeConfig → NodeConfig
bind_attr direction attr val c = if is_meta attr then c else elim (parse_attr val) [
  | none ↦ record c { params = insert attr (text val) c.params }
  | some key ↦ record c {
    input_ports = insert_if (direction attr).0 attr key c.input_ports;
    output_ports = insert_if (direction attr).1 attr key c.output_ports;
  }
]

unfoldable pub bind_attrs :
    (String → Bool × Bool) → List (String × String) → NodeConfig → NodeConfig
unfolding bind_attr
bind_attrs direction [] c = c
bind_attrs direction ((attr, val) ∷ rest) c =
    bind_attrs direction rest (bind_attr direction attr val c)

-- NodeConfig of a blackboard and parameters
abbrev pub plain_config : ℕ → List (String × Value) → NodeConfig
plain_config bb params = record {
  blackboard = some bb;
  input_ports = [];
  output_ports = [];
  params = params;
  node_id = 0;
}

-- _make_config: each reference is an input.
unfoldable pub make_config : ℕ → List (String × String) → NodeConfig
unfolding bind_attrs
make_config bb attrib = bind_attrs (λ attr. (true, false)) attrib (plain_config bb [])

-- `port.is_input() and port.default is not None`
unfoldable pub default_params : List PortDefinition → List (String × Value) → List (String × Value)
default_params [] params = params
default_params (p ∷ ps) params =
    default_params ps (elim p.default [
      | none_value ↦ params
      | v ↦ insert_if (is_input p.direction) p.name v params
    ])

abbrev pub ports_of : Option NodeManifest → List PortDefinition
ports_of none = []
ports_of (some m) = m.ports

-- The configuration of _build_generic
unfoldable pub generic_config :
    XmlTreeParser → String → Option NodeManifest → ℕ → List (String × String) → NodeConfig
unfolding port_directions declared_ports resolve_direction default_params bind_attrs
generic_config p node_type m bb attrib =
    let port_meta = port_directions p node_type in
    let declared = declared_ports (ports_of m) [] in
    bind_attrs (λ attr. resolve_direction attr port_meta declared) attrib
      (plain_config bb (default_params (ports_of m) []))

-- A keyword argument of a constructor; a number of seconds or per second is in 10^-9.
pub data Keyword : Type 0 where
  success_threshold failure_threshold max_attempts duration hz : ℤ → Keyword

abbrev pub keyword : (ℤ → Keyword) → Checked ℤ → Checked (List Keyword)
keyword k (valid z) = valid (k z ∷ [])
keyword k (invalid e) = invalid e

abbrev pub both : Checked (List Keyword) → Checked (List Keyword) → Checked (List Keyword)
both (valid (k ∷ [])) (valid ks) = valid (k ∷ ks)
both (valid ks) later = later
both (invalid e) later = invalid e

-- A literal, unless the attribute is missing or a reference.
abbrev pub literal : String → List (String × String) → Option String
literal attr attrib = elim (lookup attr attrib) [
  | none ↦ none
  | some raw ↦ elim (parse_attr raw) [ some key ↦ none | none ↦ some raw ]
]

abbrev pub read : (ℤ → Keyword) → (String → Checked ℤ) → Option String → Checked (List Keyword)
read k conversion none = valid []
read k conversion (some raw) = keyword k (conversion raw)

-- _control_kwargs
unfoldable pub control_kwargs : String → List (String × String) → Checked (List Keyword)
unfolding int_attr
control_kwargs tag attrib =
    if str_eq tag "Parallel"
    then both (read success_threshold int_attr (literal "success_threshold" attrib))
        (read failure_threshold int_attr (literal "failure_threshold" attrib))
    else valid []

-- `/ 1000.0`, towards zero
unfoldable pub thousandth : ℤ → ℤ
thousandth (pos n) = pos (n / 1000)
thousandth (negsuc n) = elim ((n + 1) / 1000) [ ℕ.zero ↦ pos 0 | suc k ↦ negsuc k ]

abbrev pub in_seconds : Checked ℤ → Checked ℤ
in_seconds (valid z) = valid (thousandth z)
in_seconds (invalid e) = invalid e

abbrev pub positive : Checked ℤ → Checked ℤ
positive (valid z) = if is_positive z then valid z else invalid not_positive
positive (invalid e) = invalid e

-- The first of the two names that is there decides.
unfoldable pub retry_kwargs : List (String × String) → Checked (List Keyword)
unfolding int_attr
retry_kwargs attrib = elim (lookup "max_attempts" attrib) [
  | some raw ↦ read max_attempts int_attr (literal "max_attempts" attrib)
  | none ↦ read max_attempts int_attr (literal "num_attempts" attrib)
]

-- A reference for `msec` is refused.
unfoldable pub timeout_kwargs : List (String × String) → Checked (List Keyword)
unfolding float_attr thousandth
timeout_kwargs attrib = elim (lookup "msec" attrib) [
  | none ↦ read duration float_attr (literal "duration" attrib)
  | some msec ↦ elim (parse_attr msec) [
    | some key ↦ invalid not_literal
    | none ↦ keyword duration (in_seconds (float_attr msec))
  ]
]

unfoldable pub rate_kwargs : List (String × String) → Checked (List Keyword)
unfolding float_attr
rate_kwargs attrib = read hz (λ raw. positive (float_attr raw)) (literal "hz" attrib)

-- _decorator_kwargs
unfoldable pub decorator_kwargs : String → List (String × String) → Checked (List Keyword)
unfolding retry_kwargs timeout_kwargs rate_kwargs
decorator_kwargs tag attrib =
    if str_eq tag "Retry"
    then retry_kwargs attrib
    else if str_eq tag "Timeout"
    then timeout_kwargs attrib
    else if str_eq tag "RateController"
    then rate_kwargs attrib
    else valid []

-- The state of a new node with an argument in place of its default; `none` where the class has no
-- such argument.
unfoldable pub control_keyword : Control → Keyword → Option Control
control_keyword (Control.parallel p) (success_threshold z) =
    some (Control.parallel (record p { raw_success_threshold = z }))
control_keyword (Control.parallel p) (failure_threshold z) =
    some (Control.parallel (record p { failure_threshold = z }))
control_keyword c k = none

unfoldable pub decorator_keyword : Decorator → Keyword → Option Decorator
decorator_keyword (Decorator.retry m a) (max_attempts z) = some (Decorator.retry z a)
decorator_keyword (Decorator.timeout d t) (duration z) = some (Decorator.timeout z t)
decorator_keyword (Decorator.rate_controller p t s) (hz z) =
    some (Decorator.rate_controller (pos (nano * nano / pos_part z)) t s)
decorator_keyword d k = none

-- The same of a class; `none` where the call raises TypeError.
unfoldable pub with_keyword : Keyword → Constructor → Option Constructor
unfolding control_keyword decorator_keyword
with_keyword k (leaf_class l) = none
with_keyword k (control_class c) = Option.map control_class (control_keyword c k)
with_keyword k (decorator_class d) = Option.map decorator_class (decorator_keyword d k)

unfoldable pub with_keywords : List Keyword → Constructor → Option Constructor
unfolding with_keyword
with_keywords [] c = some c
with_keywords (k ∷ ks) c = elim (with_keyword k c) [ none ↦ none | some c' ↦ with_keywords ks c' ]
