-- ===== src/Tsl/RbTree/Find.antt =====
-- The searches of tsl/rbtree.c on a tree in order.
use tsl_sdr.Prelude.{
  ℕ, zero, suc, ◌<◌, ◌≡◌, ◌≢◌, refl, sym, ◌∙◌, ◌⊎◌, inl, inr, ◌==◌, if◌then◌else◌, Bool-cases,
  false, arith,
}
use tsl_sdr.Tsl.Result.{a_ok, a_e_notfound}
use tsl_sdr.Tsl.RbTree.Heap.{Ptr, Sign, lower, same, higher, Node, Rb, ok, load, ◌>>=◌}
use tsl_sdr.Tsl.RbTree.Walk.{find_loop, rb_tree_find}
use tsl_sdr.Tsl.RbTree.Shape.{
  Shape, leaf, branch, height, IsTree, In, IsOrdered, IsConsistent, Sign-cases,
}

-- What a search for `key` may answer: a node of the tree with that key, or NULL if it has none.
abbrev pub Answers :
    (Ptr → Ptr → Sign) → (Ptr → Node) → (key : Ptr) → Shape → (answer : Ptr) → Type 0
Answers compare h key shape answer =
    ((answer ≢ 0) × In answer shape × (compare key (h answer).key ≡ same))
    ⊎ ((answer ≡ 0) × ((x : Ptr) → In x shape → compare key (h x).key ≢ same))

pub lower-ne-same : lower ≢ same
lower-ne-same e = cc

pub higher-ne-same : higher ≢ same
higher-ne-same e = cc

pub lower-ne-higher : lower ≢ higher
lower-ne-higher e = cc

module _ (compare : Ptr → Ptr → Sign) (consistent : IsConsistent compare) (key : Ptr) (s : Rb) where
  -- A key below that of `q` is none of those to the right of `q`, and the other way round.
  pub excluded :
      (a b : Sign) (q x : Ptr)
      → a ≢ b
      → compare key (s.node q).key ≡ a
      → compare (s.node x).key (s.node q).key ≡ b
      → compare key (s.node x).key ≢ same
  excluded a b q x ne here there e =
      ne (sym here ∙ consistent key (s.node x).key (s.node q).key e ∙ there)

  find_loop-null : (fuel p : ℕ) → p ≡ 0 → find_loop compare (suc fuel) key p s ≡ ok 0 s
  unfolding find_loop
  find_loop-null fuel p null = rw null

  -- One turn of the loop.
  find_loop-lower :
      (fuel q : ℕ)
      → q ≢ 0
      → compare key (s.node q).key ≡ lower
      → find_loop compare (suc fuel) key q s ≡ find_loop compare fuel key (s.node q).left s
  unfolding find_loop
  find_loop-lower fuel q ne e =
      let some_node : (q == 0) ≡ false = ground arith in rw (some_node, load, ◌>>=◌, e)

  find_loop-higher :
      (fuel q : ℕ)
      → q ≢ 0
      → compare key (s.node q).key ≡ higher
      → find_loop compare (suc fuel) key q s ≡ find_loop compare fuel key (s.node q).right s
  unfolding find_loop
  find_loop-higher fuel q ne e =
      let some_node : (q == 0) ≡ false = ground arith in rw (some_node, load, ◌>>=◌, e)

  find_loop-same :
      (fuel q : ℕ)
      → q ≢ 0
      → compare key (s.node q).key ≡ same
      → find_loop compare (suc fuel) key q s ≡ ok q s
  unfolding find_loop
  find_loop-same fuel q ne e =
      let some_node : (q == 0) ≡ false = ground arith in rw (some_node, load, ◌>>=◌, e)

  -- An answer in a part of the tree is one in the whole if no other node has the key.
  Answers-part :
      (part whole : Shape) (answer : Ptr)
      → ((x : Ptr) → In x part → In x whole)
      → ((x : Ptr) → In x whole → In x part ⊎ (compare key (s.node x).key ≢ same))
      → Answers compare s.node key part answer
      → Answers compare s.node key whole answer
  Answers-part part whole answer within others (inl (ne, inside, e)) =
      inl (ne, within answer inside, e)
  Answers-part part whole answer within others (inr (null, none)) =
      inr (null, λ x inside. elim (others x inside) [ inl h ↦ none x h | inr other ↦ other ])

  find_loop-Answers :
      (fuel : ℕ) (p : Ptr) (shape : Shape)
      → IsTree s.node p shape
      → IsOrdered compare s.node shape
      → height shape < fuel
      → (answer : Ptr) × (find_loop compare fuel key p s ≡ ok answer s)
        × Answers compare s.node key shape answer
  find_loop-Answers zero p shape tree ordered enough = absurd (omega arith)
  find_loop-Answers (suc fuel) p leaf tree ordered enough =
      (0, find_loop-null fuel p tree, inr (refl, λ x h. absurd h))
  find_loop-Answers (suc fuel) p (branch q l r) (here, ne, left, right) (below, above, ol, or)
        enough =
      elim (Sign-cases (compare key (s.node q).key)) [
        | inl less ↦
            let (answer, runs, found) =
              find_loop-Answers fuel (s.node q).left l left ol (omega arith) in
            (
              answer,
              rw here (find_loop-lower fuel q ne less ∙ runs),
              Answers-part l (branch q l r) answer (λ x h. inr (inl h))
                  (λ x h. elim h [
                    | inl at_q ↦ inr (rw at_q (λ e. lower-ne-same (sym less ∙ e)))
                    | inr (inl in_l) ↦ inl in_l
                    | inr (inr in_r) ↦
                        inr (excluded lower higher q x lower-ne-higher less (above x in_r))
                  ])
                  found,
            )
        | inr (inl equal) ↦ (q, rw here (find_loop-same fuel q ne equal), inl (ne, inl refl, equal))
        | inr (inr more) ↦
            let (answer, runs, found) =
              find_loop-Answers fuel (s.node q).right r right or (omega arith) in
            (
              answer,
              rw here (find_loop-higher fuel q ne more ∙ runs),
              Answers-part r (branch q l r) answer (λ x h. inr (inr h))
                  (λ x h. elim h [
                    | inl at_q ↦ inr (rw at_q (λ e. higher-ne-same (sym more ∙ e)))
                    | inr (inl in_l) ↦ inr (
                        excluded higher lower q x (λ e. lower-ne-higher (sym e)) more
                          (below x in_l))
                    | inr (inr in_r) ↦ inl in_r
                  ])
                  found,
            )
      ]

  rb_tree_find-empty :
      (fuel : ℕ) → s.root ≡ 0 → rb_tree_find compare fuel key s ≡ ok (a_e_notfound, 0) s
  unfolding rb_tree_find
  rb_tree_find-empty fuel null = rw null

  rb_tree_find-loop :
      (fuel : ℕ) (answer : Ptr)
      → (s.root == 0) ≡ false
      → find_loop compare fuel key s.root s ≡ ok answer s
      → rb_tree_find compare fuel key s ≡ ok (if answer == 0 then a_e_notfound else a_ok, answer) s
  unfolding rb_tree_find
  rb_tree_find-loop fuel answer some_root runs = elim (Bool-cases (answer == 0)) [
    | inl none ↦ let null : answer ≡ 0 = ground arith in rw (some_root, ◌>>=◌, runs, null)
    | inr found ↦ rw (some_root, ◌>>=◌, runs, found)
  ]

  -- The search of a tree in order, given more rounds than the tree has nodes, changes nothing and ends
  -- with A_OK and a node that has the key, or with A_E_NOTFOUND and NULL, and then none has it.
  pub rb_tree_find-Answers :
      (fuel : ℕ) (shape : Shape)
      → IsTree s.node s.root shape
      → IsOrdered compare s.node shape
      → height shape < fuel
      → (answer : Ptr) × (rb_tree_find compare fuel key s
          ≡ ok (if answer == 0 then a_e_notfound else a_ok, answer) s)
        × Answers compare s.node key shape answer
  rb_tree_find-Answers fuel leaf null ordered enough =
      (0, rb_tree_find-empty fuel null, inr (refl, λ x h. absurd h))
  rb_tree_find-Answers fuel (branch q l r) tree ordered enough =
      let (answer, runs, found) =
        find_loop-Answers fuel s.root (branch q l r) tree ordered enough in
      let some_root : (s.root == 0) ≡ false = ground (arith, tree.0, tree.1) in
      (answer, rb_tree_find-loop fuel answer some_root runs, found)
