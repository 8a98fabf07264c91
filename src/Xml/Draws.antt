-- ===== src/Xml/Draws.antt =====
-- bteng/xml_parser/parser.py: the uids that a call draws.
use bteng.Prelude.{ℕ, ◌+◌, ◌≤◌, String, ◌≡◌, refl, sym, ap, subst, List, [], ◌∷◌, ltb, ◌==◌, arith}
use bteng.Node.{Node, Base, NodeConfig}
use bteng.Node.Children.{of_list}
use bteng.Factory.{Creation, created, unknown_type, wrong_signature, without_child}
use bteng.Builder.{new_base}
use bteng.Builder.Idle.{IsUnticked, AllUnticked}
use bteng.Builder.Uids.{one_if, occurs, occurs_all}
use bteng.Xml.{Surroundings, ok}
use bteng.Xml.Build.{finish, construct}
use bteng.Xml.{return, lift, Checked, valid, invalid}
use bteng.Xml.Fresh.{Made}

-- A new node over children whose uids were drawn before, from `a` on.
abbrev pub GrowsAll : ℕ → List Node → ℕ → Type 0
GrowsAll a ns b =
    AllUnticked (of_list ns)
    × ((i : ℕ) → occurs_all i (of_list ns) + one_if (ltb i a) ≤ one_if (ltb i b))

abbrev pub Grows : ℕ → Node → ℕ → Type 0
Grows a n b = IsUnticked n × ((i : ℕ) → occurs i n + one_if (ltb i a) ≤ one_if (ltb i b))

finish-ok :
    (c : Creation) (s s' : Surroundings) (n : Node)
    → finish c s ≡ (ok n, s')
    → (c ≡ created n) × (s'.next_uid ≡ s.next_uid + 1)
unfolding finish
finish-ok (created m) s s' n h =
    let same : ok m ≡ ok n = ap (λ q. q.0) h in
    let e : m ≡ n = cc in (ap created e, sym (ap (λ q. q.1.next_uid) h))
finish-ok unknown_type s s' n h = let no = ap (λ q. q.0) h in absurd (cc)
finish-ok wrong_signature s s' n h = let no = ap (λ q. q.0) h in absurd (cc)
finish-ok (without_child b d) s s' n h = let no = ap (λ q. q.0) h in absurd (cc)

pub construct-Grows :
    (make : Base → Creation) (name : String) (config : NodeConfig) (a : ℕ) (ns : List Node)
    (s s' : Surroundings) (n : Node)
    → ((b : Base) (m : Node) → make b ≡ created m → Made b ns m)
    → GrowsAll a ns s.next_uid
    → construct make name config s ≡ (ok n, s')
    → Grows a n s'.next_uid
unfolding construct new_base
construct-Grows make name config a ns s s' n made grown h =
    let b = new_base s.next_uid name config in
    let (is, drawn) = finish-ok (make b) s s' n h in
    let (counts, unticked) = made b n is in
    (
      unticked refl grown.0,
      λ i.
          let c = counts i in
          let g = grown.1 i in
          let u = s.next_uid in
          let room : one_if (ltb i u) + one_if (u == i) ≤ one_if (ltb i (u + 1)) = ground arith in
          rw drawn (omega arith),
    )

pub GrowsAll-single : (a b : ℕ) (n : Node) → Grows a n b → GrowsAll a (n ∷ []) b
unfolding of_list occurs_all
GrowsAll-single a b n g = ((g.0, tt), λ i. let c = g.1 i in omega arith)

pub GrowsAll-return :
    (a : ℕ) (ms ns : List Node) (s s' : Surroundings)
    → GrowsAll a ms s.next_uid
    → return ms s ≡ (ok ns, s')
    → GrowsAll a ns s'.next_uid
GrowsAll-return a ms ns s s' g h =
    let same : ok ms ≡ ok ns = ap (λ q. q.0) h in
    let e : ms ≡ ns = cc in
    let kept : s.next_uid ≡ s'.next_uid = ap (λ q. q.1.next_uid) h in
    subst (GrowsAll a ns) kept (subst (λ xs. GrowsAll a xs s.next_uid) e g)

pub lift_kept {ℓ} :
    {A : Type ℓ} (o : Checked A) (a : A) (s s' : Surroundings)
    → lift o s ≡ (ok a, s')
    → s.next_uid ≡ s'.next_uid
lift_kept (valid b) a s s' h = ap (λ q. q.1.next_uid) h
lift_kept (invalid e) a s s' h = let no = ap (λ q. q.0) h in absurd (cc)
