-- ===== src/ChatStore/Nodes/Reconcile/Agreement.antt =====
-- A node is reconciled exactly when both sides name it with the same principal.
use gpt.Prelude.{
  is_text-some, String, ◌≡◌, refl, sym, ap, ◌⊎◌, inl, inr, true, Option, none, some, List, [], ◌∷◌,
  eq_iff, ◌==◌, Bool-cases, Option-cases, is_text, In, here, there, In-cons, not-In-nil, Dict,
  lookup, insert, lookup-insert,
}
use gpt.Types.{PublicNodeInfo}
use gpt.ChatStore.State.{ReconciledNode}
use gpt.ChatStore.Nodes.Reconcile.{
  node_map, matched, reconcile_node, add_node, reconcile_with, reconcile,
}

-- Every entry of the map is one of the user's nodes, under its own id.
abbrev FromUsers : List PublicNodeInfo → Dict PublicNodeInfo → Type 0
FromUsers ns m = (k : String) (u : PublicNodeInfo) → lookup k m ≡ some u → In u ns × (u.node_id ≡ k)

insert-FromUsers :
    (ns : List PublicNodeInfo) (m : Dict PublicNodeInfo) (n : PublicNodeInfo)
    → In n ns
    → FromUsers ns m
    → FromUsers ns (insert n.node_id n m)
insert-FromUsers ns m n i h k u e = elim (Bool-cases (n.node_id == k)) [
  | inl t ↦
      let q : some n ≡ some u = rw (lookup-insert n.node_id k n m, t) at e in
      let p : n ≡ u = cc q in (rw (← p) i, rw (← p) ((eq_iff n.node_id k).0 t))
  | inr f ↦ h k u (rw (lookup-insert n.node_id k n m, f) at e)
]

node_map-FromUsers :
    (all ns : List PublicNodeInfo) (m : Dict PublicNodeInfo)
    → ((n : PublicNodeInfo) → In n ns → In n all)
    → FromUsers all m
    → FromUsers all (node_map m ns)
unfolding node_map
node_map-FromUsers all [] m sub h = h
node_map-FromUsers all (n ∷ ns) m sub h =
    node_map-FromUsers all ns (insert n.node_id n m) (λ k i. sub k (there i))
      (insert-FromUsers all m n (sub n here) h)

-- What a reconciled node has behind it.
pub record Agreed (index users : List PublicNodeInfo) (r : ReconciledNode) : Type 0 where
  pub entry : PublicNodeInfo
  pub own : PublicNodeInfo
  pub in_index : In entry index
  pub in_users : In own users
  pub active : entry.is_active ≡ true
  pub same_id : own.node_id ≡ entry.node_id
  pub index_principal : entry.node_principal ≡ some r.principal
  pub user_principal : own.node_principal ≡ some r.principal
  pub node_id : r.node_id ≡ entry.node_id
  pub model_id : r.model_id ≡ entry.model_id
  pub address : r.address ≡ own.hostname

matched-some :
    (i : PublicNodeInfo) (p : String) (o : Option PublicNodeInfo) (r : ReconciledNode)
    → matched i p o ≡ some r
    → (u : PublicNodeInfo) × (o ≡ some u)
      × (u.node_principal ≡ some p)
      × (r ≡ record {
        node_id = i.node_id;
        address = u.hostname;
        model_id = i.model_id;
        principal = p;
        public_key = i.public_key;
      })
unfolding matched
matched-some i p none r e = cc
matched-some i p (some u) r e = elim (Bool-cases (is_text u.node_principal p)) [
  | inl t ↦
      (u, refl, is_text-some u.node_principal p t, cc (let q : some _ ≡ some r = rw t at e in q))
  | inr f ↦ cc (let q : none ≡ some r = rw f at e in q)
]

reconcile_node-some :
    (m : Dict PublicNodeInfo) (i : PublicNodeInfo) (r : ReconciledNode)
    → reconcile_node m i ≡ some r
    → (p : String) × (i.is_active ≡ true)
      × (i.node_principal ≡ some p)
      × (matched i p (lookup i.node_id m) ≡ some r)
unfolding reconcile_node matched
reconcile_node-some m i r e = elim (Bool-cases i.is_active) [
  | inl t ↦ elim (Option-cases i.node_principal) [
    | inl n ↦ cc (let q : none ≡ some r = rw (t, n) at e in q)
    | inr (p, n) ↦
        (p, t, n, (let q : matched i p (lookup i.node_id m) ≡ some r = rw (t, n) at e in q))
  ]
  | inr f ↦ cc (let q : none ≡ some r = rw f at e in q)
]

reconcile_node-Agreed :
    (index users : List PublicNodeInfo) (m : Dict PublicNodeInfo) (i : PublicNodeInfo)
    (r : ReconciledNode)
    → FromUsers users m
    → In i index
    → reconcile_node m i ≡ some r
    → Agreed index users r
reconcile_node-Agreed index users m i r h held e =
    let (p, active, principal, found) = reconcile_node-some m i r e in
    let (u, listed, own, same) = matched-some i p (lookup i.node_id m) r found in
    let (mine, id) = h i.node_id u listed in
    record {
      entry = i;
      own = u;
      in_index = held;
      in_users = mine;
      active = active;
      same_id = id;
      index_principal = rw same principal;
      user_principal = rw same own;
      node_id = rw same refl;
      model_id = rw same refl;
      address = rw same refl;
    }

In-add_node :
    (o : Option ReconciledNode) (ns : List ReconciledNode) {r : ReconciledNode}
    → In r (add_node o ns)
    → (o ≡ some r) ⊎ In r ns
unfolding add_node
In-add_node none ns i = inr i
In-add_node (some n) ns i = elim (In-cons i) [ inl e ↦ inl (ap some (sym e)) | inr j ↦ inr j ]

reconcile_with-Agreed :
    (index users : List PublicNodeInfo) (m : Dict PublicNodeInfo) (is : List PublicNodeInfo)
    (r : ReconciledNode)
    → FromUsers users m
    → ((i : PublicNodeInfo) → In i is → In i index)
    → In r (reconcile_with m is)
    → Agreed index users r
unfolding reconcile_with
reconcile_with-Agreed index users m [] r h sub i = absurd (not-In-nil [] refl i)
reconcile_with-Agreed index users m (n ∷ is) r h sub i =
    elim (In-add_node (reconcile_node m n) (reconcile_with m is) i) [
      | inl e ↦ reconcile_node-Agreed index users m n r h (sub n here) e
      | inr j ↦ reconcile_with-Agreed index users m is r h (λ k l. sub k (there l)) j
    ]

-- Every reconciled node is active in the index and is known to the user's canister under the same id
-- and with the same principal; its address is the user's, its model the index's.
pub reconcile-Agreed :
    (index_nodes user_nodes : List PublicNodeInfo) (r : ReconciledNode)
    → In r (reconcile index_nodes user_nodes)
    → Agreed index_nodes user_nodes r
unfolding reconcile lookup
reconcile-Agreed index_nodes user_nodes r i =
    reconcile_with-Agreed index_nodes user_nodes (node_map [] user_nodes) index_nodes r
      (node_map-FromUsers user_nodes user_nodes [] (λ n j. j) (λ k u e. cc)) (λ n j. j) i
