-- ===== src/Xml/State.antt =====
-- bteng/xml_parser/parser.py: what one document leaves behind for the next.
use bteng.Prelude.{ℕ, String, Bool, Option, ◌≡◌, ap}
use bteng.Blackboard.{Callback}
use bteng.Xml.{Element, Surroundings, XmlTreeParser, load_document, reset_document_state}
use bteng.Xml.Document.{parse_loaded, register_loaded, parse_root, parse_all_to_registry}

load_document_same :
    (p q : XmlTreeParser) (root : Element)
    → p.factory ≡ q.factory
    → p.port_model ≡ q.port_model
    → load_document root p ≡ load_document root q
unfolding load_document reset_document_state
load_document_same p q root same_factory same_model = cc

-- What a parse returns or raises, builds and leaves in the parser depends on the factory and the
-- seeded port model of the parser only, and not on the documents that it has parsed before.
pub parse_forgets :
    (alive : Callback → Bool) (now : ℕ) (p q : XmlTreeParser) (root : Element)
    (tree_id : Option String) (blackboard : Option ℕ) (s : Surroundings)
    → p.factory ≡ q.factory
    → p.port_model ≡ q.port_model
    → (parse_root alive now root tree_id blackboard p s
        ≡ parse_root alive now root tree_id blackboard q s)
      × (parse_all_to_registry alive now root blackboard p s
          ≡ parse_all_to_registry alive now root blackboard q s)
unfolding parse_root parse_all_to_registry
parse_forgets alive now p q root tree_id blackboard s same_factory same_model =
    let same = load_document_same p q root same_factory same_model in
    (
      ap (λ l. parse_loaded alive now root tree_id blackboard l s) same,
      ap (λ l. register_loaded alive now blackboard l s) same,
    )
