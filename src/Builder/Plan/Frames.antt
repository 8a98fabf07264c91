-- ===== src/Builder/Plan/Frames.antt =====
-- bteng/core/tree_builder.py: what the mappings do to the node that was added last.
use bteng.Prelude.{String, ◌≡◌, refl, ap, ◌∙◌, Option, List, [], ◌∷◌}
use bteng.Node.{Node, Nodes, leaf, control, decorator, nil, cons, NodeConfig, Leaf}
use bteng.Builder.{Builder, newest_child, push_frame, append, adopt, place, attach_leaf}
use bteng.Builder.Scopes.{reconfigure, reconfigure_newest, reconfigure_child, configure_last}
use bteng.Builder.Calls.{
  Mapping, change, Call, run, perform, perform_mapping, perform_mapping-change,
}
use bteng.Builder.Plan.{Ids, mappings, configured}

abbrev pub ids_of : Builder → Ids
ids_of b = record { next_id = b.next_id; next_uid = b.next_uid }

abbrev pub with_ids : Ids → Builder → Builder
with_ids ids b = record b { next_id = ids.next_id; next_uid = ids.next_uid }

unfoldable pub configure_all : List Mapping → Builder → Builder
configure_all [] b = b
configure_all (m ∷ ms) b = configure_all ms (configure_last (change m) b)

pub run-mappings :
    (classes : String → Option Leaf) (ms : List Mapping) (rest : List Call) (b : Builder)
    → run classes (mappings ms rest) b ≡ run classes rest (configure_all ms b)
unfolding run perform mappings configure_all
run-mappings classes [] rest b = refl
run-mappings classes (m ∷ ms) rest b =
    run-mappings classes ms rest (perform_mapping m b)
    ∙ ap (λ b'. run classes rest (configure_all ms b')) (perform_mapping-change m b)

reconfigure-comp :
    (f g : NodeConfig → NodeConfig) (n : Node)
    → reconfigure f (reconfigure g n) ≡ reconfigure (λ c. f (g c)) n
unfolding reconfigure
reconfigure-comp f g (leaf b l) = refl
reconfigure-comp f g (control b c ns) = refl
reconfigure-comp f g (decorator b d n) = refl

reconfigure_id : (n : Node) → n ≡ reconfigure (λ c. c) n
unfolding reconfigure
reconfigure_id (leaf b l) = refl
reconfigure_id (control b c ns) = refl
reconfigure_id (decorator b d n) = refl

pub configure_all-push :
    (ms : List Mapping) (n : Node) (b : Builder)
    → configure_all ms (push_frame n b) ≡ push_frame (reconfigure (configured ms) n) b
unfolding configure_all configured push_frame configure_last
configure_all-push [] n b = ap (λ n'. push_frame n' b) (reconfigure_id n)
configure_all-push (m ∷ ms) n b =
    configure_all-push ms (reconfigure (change m) n) b
    ∙ ap (λ n'. push_frame n' b) (reconfigure-comp (configured ms) (change m) n)

reconfigure_newest-append :
    (f : NodeConfig → NodeConfig) (ns : Nodes) (n : Node)
    → reconfigure_newest f (append ns n) ≡ append ns (reconfigure f n)
unfolding reconfigure_newest append
reconfigure_newest-append f nil n = refl
reconfigure_newest-append f (cons m nil) n = refl
reconfigure_newest-append f (cons m (cons k ns)) n =
    ap (λ l. cons m l) (reconfigure_newest-append f (cons k ns) n)

reconfigure_child-adopt :
    (f : NodeConfig → NodeConfig) (t n : Node)
    → reconfigure_child f (adopt t n) ≡ adopt t (reconfigure f n)
unfolding reconfigure_child adopt
reconfigure_child-adopt f (leaf b l) n = refl
reconfigure_child-adopt f (control b c ns) n =
    ap (λ l. control b c l) (reconfigure_newest-append f ns n)
reconfigure_child-adopt f (decorator b d m) n = refl

configure_last-attach_leaf :
    (f : NodeConfig → NodeConfig) (n : Node) (s : List Node) (b : Builder)
    → configure_last f (attach_leaf n (record b { stack = s }))
      ≡ attach_leaf (reconfigure f n) (record b { stack = s })
unfolding configure_last attach_leaf place
configure_last-attach_leaf f n [] b = refl
configure_last-attach_leaf f n (t ∷ rest) b =
    ap (λ t'. record b { stack = t' ∷ rest; last = newest_child }) (reconfigure_child-adopt f t n)

pub configure_all-attach_leaf :
    (ms : List Mapping) (n : Node) (b : Builder)
    → configure_all ms (attach_leaf n b) ≡ attach_leaf (reconfigure (configured ms) n) b
unfolding configure_all configured
configure_all-attach_leaf [] n b = ap (λ n'. attach_leaf n' b) (reconfigure_id n)
configure_all-attach_leaf (m ∷ ms) n b =
    ap (configure_all ms) (configure_last-attach_leaf (change m) n b.stack b)
    ∙ configure_all-attach_leaf ms (reconfigure (change m) n) b
    ∙ ap (λ n'. attach_leaf n' b) (reconfigure-comp (configured ms) (change m) n)
