-- ===== src/Xml/Returned.antt =====
-- bteng/xml_parser/parser.py: what a parse that returned a node has done.
use bteng.Prelude.{ℕ, String, ◌≡◌, ap, Bool, Option, none, some}
use bteng.Node.{Node}
use bteng.Blackboard.{Callback}
use bteng.Xml.{
  Element, attrib_of, ok, Surroundings, ◌>>=◌, XmlTreeParser, XmlError, Checked, valid, invalid,
  lift, load_document,
}
use bteng.Xml.References.{follow-ok}
use bteng.Xml.Document.{
  board_or_global, target_of, build_root, parse_loaded, parse_root, unless_raised,
}

lift-ok {ℓ} :
    {A : Type ℓ} (o : Checked A) (a : A) (s s' : Surroundings) → lift o s ≡ (ok a, s') → o ≡ valid a
lift-ok (valid b) a s s' h = let same : ok b ≡ ok a = ap (λ q. q.0) h in cc
lift-ok (invalid e) a s s' h = let no = ap (λ q. q.0) h in absurd (cc)

unless_raised-valid {ℓ} :
    {A : Type ℓ} (error : Option XmlError) (o : Checked A) (a : A)
    → unless_raised error o ≡ valid a
    → o ≡ valid a
unless_raised-valid none o a h = h
unless_raised-valid (some e) o a h = absurd (cc)

module _ (alive : Callback → Bool) (now : ℕ) (p : XmlTreeParser) (root : Element)
    (tree_id : Option String) (blackboard : Option ℕ) (s : Surroundings) (n : Node) where
  -- The target, built from its place in the document.
  pub record Returned : Type 0 where
    pub id : String
    pub scope : ℕ
    pub before : Surroundings
    pub after : Surroundings
    pub target : target_of tree_id (attrib_of root) (load_document root p).0.tree_roots ≡ valid id
    pub built : build_root alive now (load_document root p).0 id scope before ≡ (ok n, after)

  pub parse_root-Returned : (parse_root alive now root tree_id blackboard p s).0.0 ≡ ok n → Returned
  unfolding parse_root parse_loaded
  parse_root-Returned returned =
      let (p', error) = load_document root p in
      let chosen = unless_raised error (target_of tree_id (attrib_of root) p'.tree_roots) in
      let run = (parse_root alive now root tree_id blackboard p s).0 in
      let whole : run ≡ (ok n, run.1) = ap (λ o. (o, run.1)) returned in
      let (bb, s1, there, h1) =
        follow-ok (board_or_global blackboard s)
          (λ bb. lift chosen >>= (λ id. build_root alive now p' id bb)) n run.1 whole in
      let (id, s2, lifted, h2) =
        follow-ok (lift chosen s1) (λ id. build_root alive now p' id bb) n run.1 h1 in
      record {
        id = id;
        scope = bb;
        before = s2;
        after = run.1;
        target = unless_raised-valid error _ id (lift-ok chosen id s1 s2 lifted);
        built = h2;
      }
