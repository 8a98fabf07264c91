-- ===== src/Xml/Idle.antt =====
-- bteng/xml_parser/parser.py: what a document makes of a factory's classes has not been ticked.
use bteng.Prelude.{ℕ, ◌≤◌, String, ◌≡◌, Bool, Option, arith}
use bteng.Prelude.Dict.{lookup}
use bteng.Node.{Node}
use bteng.Blackboard.{Callback}
use bteng.Builder.Idle.{IsUnticked}
use bteng.Builder.Uids.{occurs}
use bteng.Xml.{
  Element, children_of, ok, Surroundings, XmlTreeParser, load_document, reset_document_state,
}
use bteng.Xml.Document.{build_root, parse_root}
use bteng.Xml.Build.{build}
use bteng.Xml.References.{some_or-ok, build_tree-ok}
use bteng.Xml.Returned.{parse_root-Returned}
use bteng.Xml.Fresh.{IsFreshFactory}
use bteng.Xml.Draws.{Grows}
use bteng.Xml.Grown.{build-Grows}

build_root-Grows :
    (alive : Callback → Bool) (now : ℕ) (p : XmlTreeParser) (id : String) (bb : ℕ)
    (s s' : Surroundings) (n : Node)
    → IsFreshFactory p.factory
    → build_root alive now p id bb s ≡ (ok n, s')
    → Grows s.next_uid n s'.next_uid
unfolding build_root
build_root-Grows alive now p id bb s s' n fresh h =
    let (el, known, h1) = some_or-ok _ (lookup id p.tree_roots) _ n s s' h in
    let (root, single, inner) = build_tree-ok (build alive now p) (children_of el) bb s s' n h1 in
    build-Grows alive now p fresh root bb s s' n inner

-- Where the classes of the factory start their nodes at the start: all nodes of a tree that a parse
-- returns are IDLE, with their cursors at the start, and no uid stands at two of them.
pub parse_root-IsUnticked :
    (alive : Callback → Bool) (now : ℕ) (p : XmlTreeParser) (root : Element)
    (tree_id : Option String) (blackboard : Option ℕ) (s : Surroundings) (n : Node)
    → IsFreshFactory p.factory
    → (parse_root alive now root tree_id blackboard p s).0.0 ≡ ok n
    → IsUnticked n × ((i : ℕ) → occurs i n ≤ 1)
unfolding load_document reset_document_state
parse_root-IsUnticked alive now p root tree_id blackboard s n fresh returned =
    let r = parse_root-Returned alive now p root tree_id blackboard s n returned in
    let g =
      build_root-Grows alive now (load_document root p).0 r.id r.scope r.before r.after n fresh
        r.built in
    (g.0, λ i. let c = g.1 i in ground arith)
