-- ===== src/Fsstat/Fake/Linked.antt =====
-- The tree of internal/fsstat/fake.go: adding a node links it to its ancestors.
use directory_size_exporter.Base.{
  ℕ, zero, suc, ◌+◌, ◌≡◌, ◌≢◌, inl, inr, sym, ap, subst, ◌∙◌, true, some, List, [], ◌∷◌, Str, str,
  str_eq, str_beq_iff, ◌==◌, length, arith, Bool-cases,
}
use directory_size_exporter.Base.Dict.{
  lookup, insert, contains, contains-append, lookup-insert, lookup-insert_self, lookup-insert_ne,
}
use directory_size_exporter.Fsstat.{Capabilities}
use directory_size_exporter.Fsstat.Linux.{parent_of}
use directory_size_exporter.Fsstat.Linux.Mountpoint.{top_is_own_parent, Enough, Enough-above}
use directory_size_exporter.Fsstat.Fake.{
  FakeNode, FakeFs, list_child, node_or_dir, link_up, add_node_locked, new_fake,
}
use directory_size_exporter.Fsstat.Fake.Paths.{clean, base_of}

abbrev pub Nodes : Type 0
Nodes = List (Str × FakeNode)

-- The parent of the path has a node, which lists its name.
abbrev pub Listed : Nodes → Str → Type 0
Listed nodes k =
    (parent : FakeNode) × (lookup (parent_of k) nodes ≡ some parent)
    × (contains (base_of k) parent.children ≡ true)

-- Every node but that at `c` and those that are their own parents is listed.
abbrev LinkedBut : Str → Nodes → Type 0
LinkedBut c nodes =
    (k : Str) (node : FakeNode)
    → lookup k nodes ≡ some node
    → k ≢ c
    → parent_of k ≢ k
    → Listed nodes k

-- Every node that has a parent is listed by it.
abbrev pub Linked : Nodes → Type 0
Linked nodes =
    (k : Str) (node : FakeNode) → lookup k nodes ≡ some node → parent_of k ≢ k → Listed nodes k

-- The children that the node at `p` has, where there is one, are children of `node` too.
abbrev pub Covers : Nodes → Str → FakeNode → Type 0
Covers nodes p node =
    (old : FakeNode)
    → lookup p nodes ≡ some old
    → (name : Str) → contains name old.children ≡ true
    → contains name node.children ≡ true

insert-Listed :
    (nodes : Nodes) (p k : Str) (node : FakeNode)
    → Covers nodes p node
    → Listed nodes k
    → Listed (insert p node nodes) k
insert-Listed nodes p k node covers (parent, there, listed) = elim (Bool-cases (p == parent_of k)) [
  | inl same ↦
      let e : p ≡ parent_of k = (str_beq_iff p (parent_of k)).0 same in
      (
        node,
        subst (λ q. lookup q (insert p node nodes) ≡ some node) e (lookup-insert_self p node nodes),
        covers parent (subst (λ q. lookup q nodes ≡ some parent) (sym e) there) (base_of k) listed,
      )
  | inr other ↦
      (parent, ground (arith, lookup-insert p (parent_of k) node nodes, other, there), listed)
]

contains-list_child :
    (name : Str) (node : FakeNode) → contains name (list_child name node).children ≡ true
unfolding list_child contains
contains-list_child name node = elim (Bool-cases (contains name node.children)) [
  | inl old ↦ rw old old
  | inr new ↦
      rw new (ground (arith, contains-append name node.children (name ∷ []), str_beq_iff name name))
]

list_child-keeps :
    (name other : Str) (node : FakeNode)
    → contains other node.children ≡ true
    → contains other (list_child name node).children ≡ true
unfolding list_child
list_child-keeps name other node h =
    ground (arith, h, contains-append other node.children (name ∷ []))

node_or_dir-Covers :
    (nodes : Nodes) (p name : Str) → Covers nodes p (list_child name (node_or_dir p nodes))
node_or_dir-Covers nodes p name old there k h =
    let e : node_or_dir p nodes ≡ old = ground (arith, there) in
    list_child-keeps name k (node_or_dir p nodes) (ground (arith, e, h))

-- One round of the loop: the child is listed, and the parent is what may not be.
link_one-LinkedBut :
    (child : Str) (nodes : Nodes)
    → LinkedBut child nodes
    → let parent = parent_of child in
      LinkedBut parent (insert parent (list_child (base_of child) (node_or_dir parent nodes)) nodes)
link_one-LinkedBut child nodes linked k node there other up =
    let parent = parent_of child in
    let listing = list_child (base_of child) (node_or_dir parent nodes) in
    elim (Bool-cases (k == child)) [
      | inl same ↦
          subst (Listed (insert parent listing nodes)) (sym ((str_beq_iff k child).0 same)) (
            listing,
            lookup-insert_self parent listing nodes,
            contains-list_child (base_of child) (node_or_dir parent nodes),
          )
      | inr distinct ↦
          insert-Listed nodes parent k listing (node_or_dir-Covers nodes parent (base_of child)) (
            linked k node
              (sym (lookup-insert_ne parent k listing nodes (λ e. other (sym e))) ∙ there)
              (λ e. absurd (ground (arith, e, distinct, str_beq_iff k child))) up)
    ]

link_up-Linked :
    (fuel : ℕ) (child : Str) (nodes : Nodes)
    → Enough child fuel
    → LinkedBut child nodes
    → Linked (link_up fuel child nodes)
unfolding link_up
link_up-Linked zero child nodes (inl (_, enough)) linked = absurd (omega (arith, enough))
link_up-Linked zero child nodes (inr enough) linked = absurd (omega (arith, enough))
link_up-Linked (suc fuel) child nodes enough linked = elim (Bool-cases (parent_of child == child)) [
  | inl top ↦ rw top (λ k node there up.
      linked k node there
        (λ e.
          up (subst (λ q. parent_of q ≡ q) (sym e) ((str_beq_iff (parent_of child) child).0 top)))
        up)
  | inr more ↦ rw more (
      link_up-Linked fuel (parent_of child) _
        (Enough-above child fuel
          (λ e. absurd (ground (arith, more, e, str_beq_iff (parent_of child) child))) enough)
        (link_one-LinkedBut child nodes linked))
]

insert-LinkedBut :
    (nodes : Nodes) (p : Str) (node : FakeNode)
    → Covers nodes p node
    → Linked nodes
    → LinkedBut p (insert p node nodes)
insert-LinkedBut nodes p node covers linked k at there other up =
    insert-Listed nodes p k node covers
      (linked k at (sym (lookup-insert_ne p k node nodes (λ e. other (sym e))) ∙ there) up)

-- A new fake, of which the root alone has a node, is linked.
pub new_fake-Linked : (caps : Capabilities) → Linked (new_fake caps).nodes
unfolding new_fake lookup
new_fake-Linked caps k node there up = elim (Bool-cases (str "/" == k)) [
  | inl root ↦ absurd (up (top_is_own_parent k (inr (sym ((str_beq_iff (str "/") k).0 root)))))
  | inr other ↦ absurd (ground (arith, there, other))
]

-- Adding a node keeps the tree linked, where it loses no child of a node that it replaces: every node
-- but the tops is listed by the node of its parent, at any depth, the ancestors that are created on
-- the way included.
pub add_node_locked-Linked :
    (p : Str) (node : FakeNode) (f : FakeFs)
    → Covers f.nodes (clean p) node
    → Linked f.nodes
    → Linked (add_node_locked p node f).nodes
unfolding add_node_locked
add_node_locked-Linked p node f covers linked =
    link_up-Linked (length (clean p) + 2) (clean p) (insert (clean p) node f.nodes)
      (inr (omega arith)) (insert-LinkedBut f.nodes (clean p) node covers linked)

-- Writing a node that is there keeps the tree linked too.
pub insert-Linked :
    (nodes : Nodes) (p : Str) (old node : FakeNode)
    → lookup p nodes ≡ some old
    → Covers nodes p node
    → Linked nodes
    → Linked (insert p node nodes)
insert-Linked nodes p old node here covers linked k at there up = elim (Bool-cases (k == p)) [
  | inl same ↦
      let e : k ≡ p = (str_beq_iff k p).0 same in
      insert-Listed nodes p k node covers (linked k old (ap (λ q. lookup q nodes) e ∙ here) up)
  | inr other ↦
      insert-LinkedBut nodes p node covers linked k at there
        (λ e. absurd (ground (arith, e, other, str_beq_iff k p))) up
]
