-- ===== src/Xml/Registry.antt =====
-- bteng/xml_parser/parser.py: which trees of a document get into the registry.
use bteng.Prelude.{ℕ, ◌+◌, String, ◌≡◌, Bool, List}
use bteng.Blackboard.{Callback}
use bteng.Tree.{Tree, TreeRegistry}
use bteng.Xml.{Element, Outcome, ok, XmlError, XmlTreeParser}
use bteng.Xml.Named.{held}
use bteng.Xml.Document.{failures_of, registry_of}
use bteng.Node.{Node}

module _ (alive : Callback → Bool) (now : ℕ) (p : XmlTreeParser) (bb : ℕ) where
  -- The walk ends with each tree among the registered or among the failures.
  record Covers (roots : List (String × Element)) (registry : TreeRegistry)
      (failures : List (String × XmlError)) (o : Outcome (TreeRegistry × List (String × XmlError)))
      : Type 0 where
    trees : TreeRegistry
    errors : List (String × XmlError)
    returns : o ≡ ok (trees, errors)
    each :
        (id : String)
        → held id trees + held id errors ≡ held id registry + held id failures + held id roots

-- Each tree is registered or has failed, and not both.
abbrev Sorts : List (String × Element) → Outcome (TreeRegistry × List (String × XmlError)) → Type 0
Sorts roots o =
    (registry : TreeRegistry) × (registry_of o ≡ ok registry)
    × ((id : String) → held id registry + held id (failures_of o) ≡ held id roots)
