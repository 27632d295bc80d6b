-- ===== src/MessageTree/Children.antt =====
-- What the map of children and the list of siblings hold.
use gpt.Prelude.{
  In-sort, sort-In, String, ◌≡◌, refl, sym, ap, ◌∙◌, ◌↔◌, ◌⊎◌, inl, inr, Bool, true, false, not,
  ◌&&◌, Option, none, some, List, [], ◌∷◌, ◌++◌, arith, eq_iff, ◌==◌, if◌then◌else◌, Bool-cases,
  Option-cases, get_or, In, here, there, filter, In-cons, not-In-nil, filter-In, In-filter, Dict,
  lookup, insert, values, lookup-insert, sort_by, IsSorted, sort_by-IsSorted, lookup-insert_ne,
  given,
}
use gpt.Types.{Message}
use gpt.MessageTree.{
  is_tool, node_id, created, has_child, add_child, add_children, sort_children, build_child_map,
  same_parent, get_siblings,
}

-- The siblings are in the order of their creation, and they are exactly the messages of the chat that
-- are not a tool's and have that parent, or none if none is given.
pub get_siblings-exact :
    (messages : Dict Message) (parent_id : Option String) (m : Message)
    → IsSorted created (get_siblings messages parent_id)
      × ((In m (get_siblings messages parent_id)) ↔ (
          In m (values messages)
          × (is_tool m.role ≡ false)
          × (same_parent m.parent_message_id parent_id ≡ true)))
unfolding get_siblings
get_siblings-exact messages parent_id m =
    let p = λ (x : Message). not (is_tool x.role) && same_parent x.parent_message_id parent_id in
    (
      sort_by-IsSorted created (filter p (values messages)),
      (
        (λ i.
            let (held, passes) =
              filter-In p (values messages) (sort-In created (filter p (values messages)) i) in
            (held, ground (arith, passes), ground (arith, passes))),
        λ all.
            In-sort created (filter p (values messages))
              (In-filter p all.0 (rw (all.1, all.2) refl)),
      ),
    )

-- No list of the map has a tool's message or a message of another parent.
Filed : Dict (List Message) → Type 0
Filed children =
    (pid : String) (ms : List Message) (m : Message)
    → lookup pid children ≡ some ms
    → In m ms
    → (m.parent_message_id ≡ some pid) × (is_tool m.role ≡ false)

given-some : (o : Option String) (s : String) → given o ≡ some s → o ≡ some s
given-some none s h = cc
given-some (some t) s h = ground (arith, h)

added_sibling :
    (m x : Message) (siblings : List Message) (b : Bool)
    → In x (if b then siblings else siblings ++ m ∷ [])
    → (x ≡ m) ⊎ In x siblings
added_sibling m x siblings true i = inr i
added_sibling m x siblings false i = last siblings i
  where
    last : (ys : List Message) → In x (ys ++ m ∷ []) → (x ≡ m) ⊎ In x ys
    last [] j = In-cons j
    last (y ∷ ys) j = elim (In-cons j) [
      | inl e ↦ inr (rw e here)
      | inr k ↦ elim (last ys k) [ inl e ↦ inl e | inr l ↦ inr (there l) ]
    ]

Filed-siblings :
    (children : Dict (List Message)) (pid : String) (x : Message)
    → Filed children
    → In x (get_or (lookup pid children) [])
    → (x.parent_message_id ≡ some pid) × (is_tool x.role ≡ false)
unfolding Filed
Filed-siblings children pid x filed i = elim (Option-cases (lookup pid children)) [
  | inl e ↦ absurd (not-In-nil [] refl (let j : In x [] = rw e at i in j))
  | inr (ms, e) ↦ filed pid ms x e (let j : In x ms = rw e at i in j)
]

add_child-Filed :
    (m : Message) (children : Dict (List Message))
    → is_tool m.role ≡ false
    → Filed children
    → Filed (add_child m children)
unfolding Filed add_child
add_child-Filed m children plain filed = elim (Option-cases (given m.parent_message_id)) [
  | inl e ↦ rw (e, add_child) filed
  | inr (pid, e) ↦
      rw (e, add_child)
        (λ j ms x found i.
          let siblings = get_or (lookup pid children) [] in
          let new = if has_child (node_id m) siblings then siblings else siblings ++ m ∷ [] in
          elim (Bool-cases (pid == j)) [
            | inr ne ↦ filed j ms x (sym (lookup-insert_ne pid j new children ne) ∙ found) i
            | inl eq ↦
                let same : pid ≡ j = (eq_iff pid j).0 eq in
                let stored : lookup j (insert pid new children) ≡ some new =
                  lookup-insert pid j new children ∙ rw eq refl in
                let is_new : ms ≡ new = cc (let q : some ms ≡ some new = sym found ∙ stored in q) in
                let i' : In x new = rw is_new at i in
                elim (added_sibling m x siblings (has_child (node_id m) siblings) i') [
                  | inl e' ↦ rw e' (given-some m.parent_message_id pid e ∙ ap some same, plain)
                  | inr k ↦
                      let (p, q) = Filed-siblings children pid x filed k in (p ∙ ap some same, q)
                ]
          ])
]

nil-Filed : Filed []
unfolding Filed lookup
nil-Filed = λ j xs x e i. ground (arith, e)

add_children-Filed :
    (ms : List Message) (children : Dict (List Message))
    → Filed children
    → Filed (add_children ms children)
unfolding add_children
add_children-Filed [] children filed = filed
add_children-Filed (m ∷ ms) children filed = elim (Bool-cases (is_tool m.role)) [
  | inl t ↦ rw t (add_children-Filed ms children filed)
  | inr f ↦ rw f (add_children-Filed ms (add_child m children) (add_child-Filed m children f filed))
]

lookup-sort_children :
    (children : Dict (List Message)) (pid : String) (ms : List Message)
    → lookup pid (sort_children children) ≡ some ms
    → (unsorted : List Message) × (lookup pid children ≡ some unsorted)
      × (ms ≡ sort_by created unsorted)
unfolding sort_children lookup
lookup-sort_children [] pid ms h = cc
lookup-sort_children ((j, xs) ∷ rest) pid ms h = elim (Bool-cases (j == pid)) [
  | inl t ↦ rw t (xs, refl, cc (let q : some (sort_by created xs) ≡ some ms = rw t at h in q))
  | inr f ↦ rw f (
      lookup-sort_children rest pid ms
        (let q : lookup pid (sort_children rest) ≡ some ms = rw f at h in q))
]

-- The children of a parent are in the order of their creation, each has that parent, and none is a
-- tool's message.
pub build_child_map-Filed :
    (messages : Dict Message) (pid : String) (ms : List Message) (m : Message)
    → lookup pid (build_child_map messages) ≡ some ms
    → In m ms
    → IsSorted created ms × (m.parent_message_id ≡ some pid) × (is_tool m.role ≡ false)
unfolding build_child_map Filed
build_child_map-Filed messages pid ms m h i =
    let (unsorted, found, sorted) = lookup-sort_children _ pid ms h in
    let (parent, plain) =
      add_children-Filed (values messages) [] nil-Filed pid unsorted m found (
        sort-In created unsorted (let q : In m (sort_by created unsorted) = rw sorted at i in q)) in
    (rw sorted (sort_by-IsSorted created unsorted), parent, plain)
