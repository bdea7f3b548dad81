-- ===== src/Slab/Release.antt =====
-- slab.c: freeing an object may free the structures of its page, each by a call of `free_slab_obj`
-- again; these calls end.
use graduation_prj.Base.{
  ℕ, zero, suc, ◌≤◌, ◌<◌, ◌≡◌, inl, inr, refl, sym, ap, ◌∙◌, List, [], ◌∷◌, length, Option, none,
  some, arith, Bool-cases, ltb, ◌==◌, eq→==, Result, ok, stop, panic, fault, spin, ◌>>=◌, sum_below,
  sum_below-update,
}
use graduation_prj.Slab.Defs.{max_free_page, Page, push_free_list}
use graduation_prj.Slab.Table.{
  Node, Slabs, FreeStatus, not_found, invalid, success, calc_hash_idx, page_of, find_node,
  find_target_page, find_page, remove_node, drop_node, drop_page, set_page, add_free_page,
  sub_free_page, check_slab_obj, buddy_free, dfree, free_slab_page, return_hash_node,
  return_slab_page, release_page, after_push, free_in_page, free_in_node, free_slab_obj,
}

-- The nodes of the hash table.
abbrev pub nodes : Slabs → ℕ
nodes s = sum_below (λ _ ns. length ns) 10 s.hash_table

-- The run ends, and the states that it may end in have at most `bound` nodes.
abbrev pub Ends : ℕ → Result (FreeStatus × Slabs) → Type 0
Ends bound (ok (_, s)) = nodes s ≤ bound
Ends bound (stop panic) = Unit
Ends bound (stop fault) = Unit
Ends bound (stop spin) = ⊥

abbrev pub EndsIn : ℕ → Result Slabs → Type 0
EndsIn bound (ok s) = nodes s ≤ bound
EndsIn bound (stop panic) = Unit
EndsIn bound (stop fault) = Unit
EndsIn bound (stop spin) = ⊥

bind-EndsIn :
    (bound : ℕ) (r : Result Slabs) (next : Slabs → Result Slabs)
    → EndsIn bound r
    → ((s : Slabs) → nodes s ≤ bound → EndsIn bound (next s))
    → EndsIn bound (r >>= next)
bind-EndsIn bound (ok s) next h k = k s h
bind-EndsIn bound (stop panic) next h k = tt
bind-EndsIn bound (stop fault) next h k = tt
bind-EndsIn bound (stop spin) next h k = absurd h

status-EndsIn :
    (bound : ℕ) (r : Result (FreeStatus × Slabs)) (next : FreeStatus × Slabs → Result Slabs)
    → Ends bound r
    → ((status : FreeStatus) (s : Slabs) → nodes s ≤ bound → EndsIn bound (next (status, s)))
    → EndsIn bound (r >>= next)
status-EndsIn bound (ok (status, s)) next h k = k status s h
status-EndsIn bound (stop panic) next h k = tt
status-EndsIn bound (stop fault) next h k = tt
status-EndsIn bound (stop spin) next h k = absurd h

Ends-weaken :
    (small bound : ℕ) (r : Result (FreeStatus × Slabs))
    → small ≤ bound
    → Ends small r
    → Ends bound r
Ends-weaken small bound (ok s) le h = omega (arith, le, h)
Ends-weaken small bound (stop panic) le h = tt
Ends-weaken small bound (stop fault) le h = tt
Ends-weaken small bound (stop spin) le h = absurd h

success-Ends :
    (small bound : ℕ) (r : Result Slabs)
    → small ≤ bound
    → EndsIn small r
    → Ends bound (r >>= λ s. ok (success, s))
success-Ends small bound (ok s) le h = omega (arith, le, h)
success-Ends small bound (stop panic) le h = tt
success-Ends small bound (stop fault) le h = tt
success-Ends small bound (stop spin) le h = absurd h

buddy_free-EndsIn :
    (address : ℕ) (status : FreeStatus) (s : Slabs) (bound : ℕ)
    → nodes s ≤ bound
    → EndsIn bound (buddy_free address (status, s))
buddy_free-EndsIn address success s bound h = h
buddy_free-EndsIn address invalid s bound h = tt
buddy_free-EndsIn address not_found s bound h = elim (Bool-cases (s.recorded address == 0)) [
  | inl e ↦ rw e tt
  | inr e ↦ rw e h
]

head_removed :
    (m n : Node) (ns : List Node)
    → some m ≡ some n
    → suc (length (remove_node n.self (m ∷ ns))) ≡ suc (length ns)
unfolding remove_node
head_removed m n ns e =
    let same : m ≡ n = cc e in rw (eq→== m.self n.self (ap (λ x. x.self) same)) refl

-- The node that is found stands in the list it is removed from.
remove_node-found :
    (a : ℕ) (n : Node) (ns : List Node)
    → find_node a ns ≡ some n
    → suc (length (remove_node n.self ns)) ≡ length ns
unfolding find_node remove_node
remove_node-found a n [] e = absurd (cc e)
remove_node-found a n (m ∷ ns) e = elim (Bool-cases (m.page_start == a)) [
  | inl here ↦ head_removed m n ns (sym (rw here refl) ∙ e)
  | inr other ↦ elim (Bool-cases (m.self == n.self)) [
    | inl same ↦ rw same refl
    | inr ne ↦ rw ne (ap suc (remove_node-found a n ns (sym (rw other refl) ∙ e)))
  ]
]

module _ (free : ℕ → Slabs → Result (FreeStatus × Slabs)) (bound : ℕ)
    (free_ends : (a : ℕ) (s : Slabs) → nodes s ≤ bound → Ends bound (free a s)) where
  free_slab_page-EndsIn :
      (p : Page) (s : Slabs) → nodes s ≤ bound → EndsIn bound (free_slab_page free p s)
  unfolding free_slab_page dfree
  free_slab_page-EndsIn p s le =
      bind-EndsIn bound (free p.page_start s >>= buddy_free p.page_start)
        (λ s₁. free p.self s₁ >>= λ (_, s₂). ok s₂)
        (status-EndsIn bound (free p.page_start s) (buddy_free p.page_start)
          (free_ends p.page_start s le) (λ status t. buddy_free-EndsIn p.page_start status t bound))
        (λ t below.
          status-EndsIn bound (free p.self t) (λ (_, s₂). ok s₂) (free_ends p.self t below)
            (λ _ u h. h))

  return_slab_page-EndsIn :
      (idx : ℕ) (p : Page) (s : Slabs)
      → nodes s ≤ bound
      → EndsIn bound (return_slab_page free idx p s)
  unfolding return_slab_page
  return_slab_page-EndsIn idx p s le = elim (Bool-cases (p.self == (s.slab idx).static_page)) [
    | inl e ↦ rw e le
    | inr e ↦ rw e (
        bind-EndsIn bound (free_slab_page free p (drop_page idx p s))
          (λ s₂. ok (sub_free_page idx s₂)) (free_slab_page-EndsIn p (drop_page idx p s) le)
          (λ t below. below))
  ]

  return_hash_node-EndsIn :
      (idx : ℕ) (n : Node) (s : Slabs)
      → nodes (drop_node idx n s) ≤ bound
      → EndsIn bound (return_hash_node free idx n s)
  unfolding return_hash_node
  return_hash_node-EndsIn idx n s le =
      status-EndsIn bound (free n.self (drop_node idx n s)) (λ (_, s₁). ok s₁)
        (free_ends n.self (drop_node idx n s) le) (λ _ u h. h)

  -- One node fewer, then the calls that free.
  release_page-Ends :
      (slab_obj : ℕ) (n : Node) (p : Page) (s : Slabs)
      → nodes (drop_node (calc_hash_idx (page_of slab_obj)) n s) ≤ bound
      → bound ≤ nodes s
      → Ends (nodes s) (release_page free slab_obj n p s)
  release_page-Ends slab_obj n p s le above =
      success-Ends bound (nodes s)
        (return_hash_node free (calc_hash_idx (page_of slab_obj)) n s
          >>= return_slab_page free n.slab_idx p)
        above
        (bind-EndsIn bound (return_hash_node free (calc_hash_idx (page_of slab_obj)) n s)
          (return_slab_page free n.slab_idx p)
          (return_hash_node-EndsIn (calc_hash_idx (page_of slab_obj)) n s le)
          (return_slab_page-EndsIn n.slab_idx p))

  after_push-Ends :
      (slab_obj : ℕ) (n : Node) (s : Slabs) (o : Option Page)
      → nodes (drop_node (calc_hash_idx (page_of slab_obj)) n s) ≤ bound
      → bound ≤ nodes s
      → Ends (nodes s) (after_push free slab_obj n s o)
  after_push-Ends slab_obj n s none le above = omega arith
  after_push-Ends slab_obj n s (some p) le above = elim (Bool-cases (p.in_use_num == 0)) [
    | inl e ↦
        let s₂ : Slabs = add_free_page n.slab_idx (set_page n.slab_idx p s) in
        elim (Bool-cases (ltb max_free_page (s₂.slab n.slab_idx).free_page_num)) [
          | inl many ↦ rw e (rw many (release_page-Ends slab_obj n p s₂ le above))
          | inr few ↦ rw e (rw few (omega arith))
        ]
    | inr e ↦ rw e (omega arith)
  ]

  free_in_page-Ends :
      (slab_obj : ℕ) (n : Node) (s : Slabs) (o : Option Page)
      → nodes (drop_node (calc_hash_idx (page_of slab_obj)) n s) ≤ bound
      → bound ≤ nodes s
      → Ends (nodes s) (free_in_page free slab_obj n s o)
  free_in_page-Ends slab_obj n s none le above = omega arith
  free_in_page-Ends slab_obj n s (some p) le above =
      elim (Bool-cases (check_slab_obj slab_obj (s.slab n.slab_idx).obj_sz)) [
        | inl e ↦ rw e (after_push-Ends slab_obj n s (push_free_list slab_obj p) le above)
        | inr e ↦ rw e (omega arith)
      ]

drop_node-nodes :
    (slab_obj : ℕ) (n : Node) (s : Slabs)
    → find_target_page slab_obj s ≡ some n
    → suc (nodes (drop_node (calc_hash_idx (page_of slab_obj)) n s)) ≡ nodes s
unfolding find_target_page
drop_node-nodes slab_obj n s e =
    let idx : ℕ = calc_hash_idx (page_of slab_obj) in
    omega (
      arith,
      sum_below-update (λ _ ns. length ns) 10 s.hash_table idx
          (remove_node n.self (s.hash_table idx)) (omega arith),
      remove_node-found (page_of slab_obj) n (s.hash_table idx) e,
    )

free_in_node-Ends :
    (free : ℕ → Slabs → Result (FreeStatus × Slabs)) (slab_obj : ℕ) (s : Slabs) (o : Option Node)
    → find_target_page slab_obj s ≡ o
    → ((a : ℕ) (t : Slabs) → nodes t < nodes s → Ends (nodes t) (free a t))
    → Ends (nodes s) (free_in_node free slab_obj s o)
free_in_node-Ends free slab_obj s none e ends = omega arith
free_in_node-Ends free slab_obj s (some n) e ends =
    let one : suc (nodes (drop_node (calc_hash_idx (page_of slab_obj)) n s)) ≡ nodes s =
      drop_node-nodes slab_obj n s e in
    free_in_page-Ends free (nodes (drop_node (calc_hash_idx (page_of slab_obj)) n s))
      (λ a t le.
        Ends-weaken (nodes t) (nodes (drop_node (calc_hash_idx (page_of slab_obj)) n s)) (free a t)
          le (ends a t (omega (arith, le, one))))
      slab_obj n s (find_page n.page_start (s.slab n.slab_idx).pages) (omega arith)
      (omega (arith, one))

-- Freeing an object ends, with the nested calls that free the hash node and the structure of its page:
-- fuel above the number of nodes in the hash table is enough, for any address and any tables, and
-- the table has no more nodes than before.
pub free_slab_obj-Ends :
    (fuel slab_obj : ℕ) (s : Slabs)
    → nodes s < fuel
    → Ends (nodes s) (free_slab_obj fuel slab_obj s)
unfolding free_slab_obj
free_slab_obj-Ends zero slab_obj s lt = absurd (omega arith)
free_slab_obj-Ends (suc fuel) slab_obj s lt =
    free_in_node-Ends (free_slab_obj fuel) slab_obj s (find_target_page slab_obj s) refl
      (λ a t less. free_slab_obj-Ends fuel a t (omega (arith, less, lt)))
