-- ===== src/Proc/Family.antt =====
-- The invariant of the process table: whose child each process is, and who waits for it.
use graduation_prj.Base.{
  ℕ, ◌<◌, ◌≡◌, ◌≢◌, ◌⊎◌, inl, inr, sym, ap, ◌∙◌, Bool, true, false, ◌&&◌, Option, none, some,
  update, update_same, update_other, arith, Bool-cases, ==→eq, ==→ne, ◌==◌,
}
use mathlib.Core.Path.{subst}
use graduation_prj.Proc.Defs.{
  ProcState, unused, embryo, sleeping, runnable, running, zombie, Proc, nproc, is_state, is_some,
}

abbrev pub is_alive : ProcState → Bool
is_alive sleeping = true
is_alive runnable = true
is_alive running = true
is_alive _ = false

-- An entry that is neither free nor being filled.
abbrev pub is_placed : ProcState → Bool
is_placed unused = false
is_placed embryo = false
is_placed _ = true

abbrev pub is_null : Option ℕ → Bool
is_null none = true
is_null (some _) = false

-- A process that sleeps in `wait`: on its own address.
abbrev pub is_waiting : ℕ → Proc → Bool
is_waiting j p = is_state p.state sleeping && is_some p.chan j

-- Parents are alive and no process is its own; the processes in the table have one, but for `init`,
-- which is alive.
pub record Rooted (init : ℕ) (proc : ℕ → Proc) : Type 0 where
  pub root : is_alive (proc init).state ≡ true
  pub root_in : init < nproc
  pub root_parent : is_null (proc init).parent ≡ true
  pub parent_alive :
      (i j : ℕ)
      → is_some (proc i).parent j ≡ true
      → (i < nproc) × (j < nproc) × (is_alive (proc j).state ≡ true)
  pub apart : (i : ℕ) → is_some (proc i).parent i ≡ false
  pub has_parent :
      (i : ℕ) → i ≢ init → is_placed (proc i).state ≡ true → is_null (proc i).parent ≡ false

-- No process sleeps in `wait` that has a zombie child.
abbrev pub Noticed : (ℕ → Proc) → Type 0
Noticed proc =
    (i j : ℕ)
    → is_some (proc i).parent j ≡ true
    → is_state (proc i).state zombie ≡ true
    → is_waiting j (proc j) ≡ false

pub update_cases :
    (proc : ℕ → Proc) (k : ℕ) (p : Proc) (i : ℕ)
    → ((i ≡ k) × (update proc k p i ≡ p)) ⊎ ((i ≢ k) × (update proc k p i ≡ proc i))
update_cases proc k p i = elim (Bool-cases (i == k)) [
  | inl e ↦ inl (==→eq i k e, ap (update proc k p) (==→eq i k e) ∙ update_same proc k p)
  | inr e ↦ inr (==→ne i k e, update_other proc k i p (λ c. ==→ne i k e (sym c)))
]

-- A change of the entry `k` that the tree allows.
pub record Allowed (init k : ℕ) (proc : ℕ → Proc) (p : Proc) : Type 0 where
  pub alive :
      (is_alive (proc k).state ≡ true → is_alive p.state ≡ true)
      ⊎ ((k ≢ init) × ((i : ℕ) → is_some (proc i).parent k ≡ false))
  pub parent :
      (j : ℕ)
      → is_some p.parent j ≡ true
      → (k < nproc) × (j < nproc) × (is_alive (proc j).state ≡ true)
  pub not_own : is_some p.parent k ≡ false
  pub root_parent : k ≡ init → is_null p.parent ≡ true
  pub has_parent : k ≢ init → is_placed p.state ≡ true → is_null p.parent ≡ false

update-alive :
    (init k : ℕ) (proc : ℕ → Proc) (p : Proc) (j : ℕ)
    → Allowed init k proc p
    → ((k ≢ init) × ((i : ℕ) → is_some (proc i).parent k ≡ false) → j ≢ k)
    → is_alive (proc j).state ≡ true
    → is_alive (update proc k p j).state ≡ true
update-alive init k proc p j h other a = elim (update_cases proc k p j) [
  | inr e ↦ subst (λ q. is_alive q.state ≡ true) (sym e.1) a
  | inl e ↦ elim h.alive [
    | inl keeps ↦
        subst (λ q. is_alive q.state ≡ true) (sym e.1)
          (keeps (subst (λ i. is_alive (proc i).state ≡ true) e.0 a))
    | inr childless ↦ absurd (other childless e.0)
  ]
]

-- A process that nobody has as its parent is not the parent of the entry that changes either.
update-childless :
    {init : ℕ} (k : ℕ) (proc : ℕ → Proc) (p : Proc) (i j : ℕ)
    → is_some p.parent k ≡ false
    → is_some (update proc k p i).parent j ≡ true
    → (k ≢ init) × ((i : ℕ) → is_some (proc i).parent k ≡ false)
    → j ≢ k
update-childless k proc p i j own h c e = elim (update_cases proc k p i) [
  | inl at ↦
      let h' =
        subst (λ m. is_some p.parent m ≡ true) e (subst (λ q. is_some q.parent j ≡ true) at.1 h) in
      ground (arith, own, h')
  | inr at ↦
      let h' =
        subst (λ m. is_some (proc i).parent m ≡ true) e
          (subst (λ q. is_some q.parent j ≡ true) at.1 h) in
      ground (arith, c.1 i, h')
]

pub update-Rooted :
    (init k : ℕ) (proc : ℕ → Proc) (p : Proc)
    → Rooted init proc
    → Allowed init k proc p
    → Rooted init (update proc k p)
update-Rooted init k proc p r a = record {
  root = update-alive init k proc p init a (λ c e. c.0 (sym e)) r.root;
  root_in = r.root_in;
  root_parent = elim (update_cases proc k p init) [
    | inl e ↦ subst (λ q. is_null q.parent ≡ true) (sym e.1) (a.root_parent (sym e.0))
    | inr e ↦ subst (λ q. is_null q.parent ≡ true) (sym e.1) r.root_parent
  ];
  parent_alive = λ i j h.
      let old : (i < nproc) × (j < nproc) × (is_alive (proc j).state ≡ true) =
        elim (update_cases proc k p i) [
          | inl e ↦
              let at = a.parent j (subst (λ q. is_some q.parent j ≡ true) e.1 h) in
              (subst (λ m. m < nproc) (sym e.0) at.0, at.1, at.2)
          | inr e ↦ r.parent_alive i j (subst (λ q. is_some q.parent j ≡ true) e.1 h)
        ] in
      (
        old.0,
        old.1,
        update-alive init k proc p j a (update-childless k proc p i j a.not_own h) old.2,
      );
  apart = λ i. elim (update_cases proc k p i) [
    | inl e ↦
        subst (λ q. is_some q.parent i ≡ false) (sym e.1)
          (subst (λ m. is_some p.parent m ≡ false) (sym e.0) a.not_own)
    | inr e ↦ subst (λ q. is_some q.parent i ≡ false) (sym e.1) (r.apart i)
  ];
  has_parent = λ i ne h. elim (update_cases proc k p i) [
    | inl e ↦
        subst (λ q. is_null q.parent ≡ false) (sym e.1)
          (a.has_parent (λ c. ne (e.0 ∙ c)) (subst (λ q. is_placed q.state ≡ true) e.1 h))
    | inr e ↦
        subst (λ q. is_null q.parent ≡ false) (sym e.1)
          (r.has_parent i ne (subst (λ q. is_placed q.state ≡ true) e.1 h))
  ];
}

-- The entry `k` may become `p` without a zombie that its parent misses.
pub record Seen (k : ℕ) (proc : ℕ → Proc) (p : Proc) : Type 0 where
  pub as_child :
      (is_state p.state zombie ≡ false)
      ⊎ ((is_state (proc k).state zombie ≡ true) × (p.parent ≡ (proc k).parent))
  pub as_parent :
      (is_waiting k p ≡ false)
      ⊎ ((i : ℕ) → is_some (proc i).parent k ≡ true → is_state (proc i).state zombie ≡ false)

Seen-old :
    (k : ℕ) (proc : ℕ → Proc) (p : Proc) (i j : ℕ)
    → Seen k proc p
    → is_some (update proc k p i).parent j ≡ true
    → is_state (update proc k p i).state zombie ≡ true
    → (is_some (proc i).parent j ≡ true) × (is_state (proc i).state zombie ≡ true)
Seen-old k proc p i j s h z = elim (update_cases proc k p i) [
  | inr e ↦ (
    subst (λ q. is_some q.parent j ≡ true) e.1 h,
    subst (λ q. is_state q.state zombie ≡ true) e.1 z,
  )
  | inl e ↦
      let z' = subst (λ q. is_state q.state zombie ≡ true) e.1 z in
      let h' = subst (λ q. is_some q.parent j ≡ true) e.1 h in
      elim s.as_child [
        | inl never ↦ absurd (ground (arith, never, z'))
        | inr old ↦ (
          subst (λ m. is_some (proc m).parent j ≡ true) (sym e.0)
              (subst (λ q. is_some q j ≡ true) old.1 h'),
          subst (λ m. is_state (proc m).state zombie ≡ true) (sym e.0) old.0,
        )
      ]
]

pub update-Noticed :
    (k : ℕ) (proc : ℕ → Proc) (p : Proc) → Noticed proc → Seen k proc p → Noticed (update proc k p)
update-Noticed k proc p n s = λ i j h z.
    let old = Seen-old k proc p i j s h z in
    elim (update_cases proc k p j) [
      | inr e ↦ subst (λ q. is_waiting j q ≡ false) (sym e.1) (n i j old.0 old.1)
      | inl e ↦ elim s.as_parent [
        | inl never ↦
            subst (λ q. is_waiting j q ≡ false) (sym e.1)
              (subst (λ m. is_waiting m p ≡ false) (sym e.0) never)
        | inr f ↦
            let live = f i (subst (λ m. is_some (proc i).parent m ≡ true) e.0 old.0) in
            absurd (ground (arith, live, old.1))
      ]
    ]

-- The whole invariant, under the name of `initproc`.
pub record IsFamily (init : ℕ) (proc : ℕ → Proc) : Type 0 where
  pub rooted : Rooted init proc
  pub noticed : Noticed proc

pub Noticed-parent :
    (k : ℕ) (proc : ℕ → Proc)
    → Noticed proc
    → (is_waiting k (proc k) ≡ false)
      ⊎ ((i : ℕ) → is_some (proc i).parent k ≡ true → is_state (proc i).state zombie ≡ false)
Noticed-parent k proc n = elim (Bool-cases (is_waiting k (proc k))) [
  | inr w ↦ inl w
  | inl w ↦ inr (λ i h. elim (Bool-cases (is_state (proc i).state zombie)) [
    | inr z ↦ z
    | inl z ↦ absurd (ground (arith, n i k h z, w))
  ])
]
