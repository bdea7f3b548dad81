-- ===== src/Proc/Wakeup.antt =====
-- The states of processes, and `wakeup1`: whom it wakes, and that it keeps the invariant.
use graduation_prj.Base.{
  ℕ, zero, suc, ◌+◌, ◌<◌, ◌≤◌, ◌≡◌, ◌⊎◌, inl, inr, refl, sym, ap, ◌∙◌, true, false, update,
  update_same, update_other, arith, Bool-cases, ==→eq, ==→ne, ◌==◌, dec_lt,
}
use mathlib.Core.Path.{subst}
use graduation_prj.Proc.Defs.{
  ProcState, unused, embryo, sleeping, runnable, running, zombie, Proc, nproc, is_state, is_some,
  wake_one, wakeup_from, wakeup1,
}
use graduation_prj.Proc.Family.{
  is_alive, is_placed, is_null, is_waiting, Rooted, Noticed, Allowed, Seen, update-Rooted,
  update-Noticed, Noticed-parent,
}

-- The entry `k` keeps its parent, and dies or enters the table no more than it did.
pub record Kept (k : ℕ) (proc : ℕ → Proc) (p : Proc) : Type 0 where
  pub alive : is_alive (proc k).state ≡ true → is_alive p.state ≡ true
  pub parent : p.parent ≡ (proc k).parent
  pub placed : is_placed p.state ≡ true → is_placed (proc k).state ≡ true

pub Kept-Allowed :
    (init k : ℕ) (proc : ℕ → Proc) (p : Proc)
    → Rooted init proc
    → Kept k proc p
    → Allowed init k proc p
Kept-Allowed init k proc p r c = record {
  alive = inl c.alive;
  parent = λ j h. r.parent_alive k j (subst (λ q. is_some q j ≡ true) c.parent h);
  not_own = subst (λ q. is_some q k ≡ false) (sym c.parent) (r.apart k);
  root_parent = λ e.
      subst (λ q. is_null q ≡ true) (sym c.parent)
        (subst (λ m. is_null (proc m).parent ≡ true) (sym e) r.root_parent);
  has_parent =
      λ ne h. subst (λ q. is_null q ≡ false) (sym c.parent) (r.has_parent k ne (c.placed h));
}

pub sleeping_eq : (s : ProcState) → is_state s sleeping ≡ true → s ≡ sleeping
sleeping_eq sleeping h = refl
sleeping_eq unused h = absurd (ground (arith, h))
sleeping_eq embryo h = absurd (ground (arith, h))
sleeping_eq runnable h = absurd (ground (arith, h))
sleeping_eq running h = absurd (ground (arith, h))
sleeping_eq zombie h = absurd (ground (arith, h))

pub wake_one-cases :
    (chan : ℕ) (p : Proc)
    → ((wake_one chan p ≡ p) × (is_waiting chan p ≡ false))
      ⊎ ((p.state ≡ sleeping) × (wake_one chan p ≡ record p { state = runnable }))
wake_one-cases chan p = elim (Bool-cases (is_waiting chan p)) [
  | inl h ↦ inr (sleeping_eq p.state (ground (arith, h)), ground (arith, h))
  | inr h ↦ inl (ground (arith, h), h)
]

wake_one-Kept : (k chan : ℕ) (proc : ℕ → Proc) → Kept k proc (wake_one chan (proc k))
wake_one-Kept k chan proc = elim (wake_one-cases chan (proc k)) [
  | inl e ↦
      subst (Kept k proc) (sym e.0) (record { alive = λ a. a; parent = refl; placed = λ a. a })
  | inr e ↦
      subst (Kept k proc) (sym e.1)
        (record { alive = λ a. refl; parent = refl; placed = λ a. ap is_placed e.0 })
]

wake_one-Seen :
    (k chan : ℕ) (proc : ℕ → Proc) (n : Noticed proc) → Seen k proc (wake_one chan (proc k))
wake_one-Seen k chan proc n = elim (wake_one-cases chan (proc k)) [
  | inl e ↦ subst (Seen k proc) (sym e.0) (record {
    as_child = elim (Bool-cases (is_state (proc k).state zombie)) [
      | inl z ↦ inr (z, refl)
      | inr z ↦ inl z
    ];
    as_parent = Noticed-parent k proc n;
  })
  | inr e ↦ subst (Seen k proc) (sym e.1) (record { as_child = inl refl; as_parent = inl refl })
]

wakeup_from-Rooted :
    (rounds i chan init : ℕ) (proc : ℕ → Proc)
    → Rooted init proc
    → Rooted init (wakeup_from rounds i chan proc)
unfolding wakeup_from
wakeup_from-Rooted zero i chan init proc r = r
wakeup_from-Rooted (suc rounds) i chan init proc r =
    wakeup_from-Rooted rounds (i + 1) chan init (update proc i (wake_one chan (proc i))) (
      update-Rooted init i proc (wake_one chan (proc i)) r
        (Kept-Allowed init i proc (wake_one chan (proc i)) r (wake_one-Kept i chan proc)))

wakeup_from-Noticed :
    (rounds i chan : ℕ) (proc : ℕ → Proc) → Noticed proc → Noticed (wakeup_from rounds i chan proc)
unfolding wakeup_from
wakeup_from-Noticed zero i chan proc n = n
wakeup_from-Noticed (suc rounds) i chan proc n =
    wakeup_from-Noticed rounds (i + 1) chan (update proc i (wake_one chan (proc i)))
      (update-Noticed i proc (wake_one chan (proc i)) n (wake_one-Seen i chan proc n))

wakeup_from-outside :
    (rounds i chan k : ℕ) (proc : ℕ → Proc)
    → (k < i) ⊎ (i + rounds ≤ k)
    → wakeup_from rounds i chan proc k ≡ proc k
unfolding wakeup_from
wakeup_from-outside zero i chan k proc h = refl
wakeup_from-outside (suc rounds) i chan k proc h =
    wakeup_from-outside rounds (i + 1) chan k (update proc i (wake_one chan (proc i)))
      (elim h [ inl a ↦ inl (omega arith) | inr a ↦ inr (omega arith) ])
    ∙ update_other proc i k (wake_one chan (proc i))
        (elim h [ inl a ↦ λ e. omega (arith, a, e) | inr a ↦ λ e. omega (arith, a, e) ])

wakeup_from-inside :
    (rounds i chan k : ℕ) (proc : ℕ → Proc)
    → i ≤ k
    → k < i + rounds
    → wakeup_from rounds i chan proc k ≡ wake_one chan (proc k)
unfolding wakeup_from
wakeup_from-inside zero i chan k proc le lt = absurd (omega arith)
wakeup_from-inside (suc rounds) i chan k proc le lt = elim (Bool-cases (i == k)) [
  | inl e ↦
      wakeup_from-outside rounds (i + 1) chan k (update proc i (wake_one chan (proc i)))
        (inl (omega (arith, ==→eq i k e)))
      ∙ subst (λ m. update proc i (wake_one chan (proc i)) m ≡ wake_one chan (proc m)) (==→eq i k e)
          (update_same proc i (wake_one chan (proc i)))
  | inr e ↦
      wakeup_from-inside rounds (i + 1) chan k (update proc i (wake_one chan (proc i)))
        (omega (arith, ==→ne i k e)) (omega arith)
      ∙ ap (wake_one chan) (update_other proc i k (wake_one chan (proc i)) (==→ne i k e))
]

-- `wakeup1` wakes each process of the table that sleeps on the channel, and changes nothing else.
pub wakeup1-at :
    (chan k : ℕ) (proc : ℕ → Proc) → k < nproc → wakeup1 chan proc k ≡ wake_one chan (proc k)
unfolding wakeup1
wakeup1-at chan k proc lt = wakeup_from-inside nproc 0 chan k proc (omega arith) lt

pub wakeup1-Rooted :
    (chan init : ℕ) (proc : ℕ → Proc) → Rooted init proc → Rooted init (wakeup1 chan proc)
unfolding wakeup1
wakeup1-Rooted chan init proc r = wakeup_from-Rooted nproc 0 chan init proc r

pub wakeup1-Noticed : (chan : ℕ) (proc : ℕ → Proc) → Noticed proc → Noticed (wakeup1 chan proc)
unfolding wakeup1
wakeup1-Noticed chan proc n = wakeup_from-Noticed nproc 0 chan proc n

wakeup1-outside : (chan k : ℕ) (proc : ℕ → Proc) → nproc ≤ k → wakeup1 chan proc k ≡ proc k
unfolding wakeup1
wakeup1-outside chan k proc le = wakeup_from-outside nproc 0 chan k proc (inr (omega arith))

pub wake_one-parent : (chan : ℕ) (p : Proc) → (wake_one chan p).parent ≡ p.parent
wake_one-parent chan p = elim (wake_one-cases chan p) [
  | inl e ↦ ap (λ q. q.parent) e.0
  | inr e ↦ ap (λ q. q.parent) e.1
]

pub wake_one-zombie :
    (chan : ℕ) (p : Proc)
    → is_state (wake_one chan p).state zombie ≡ true
    → is_state p.state zombie ≡ true
wake_one-zombie chan p z = elim (wake_one-cases chan p) [
  | inl e ↦ subst (λ q. is_state q.state zombie ≡ true) e.0 z
  | inr e ↦ absurd (ground (arith, subst (λ q. is_state q.state zombie ≡ true) e.1 z))
]

pub wake_one-woken : (chan : ℕ) (p : Proc) → is_waiting chan (wake_one chan p) ≡ false
wake_one-woken chan p = elim (wake_one-cases chan p) [
  | inl e ↦ subst (λ q. is_waiting chan q ≡ false) (sym e.0) e.1
  | inr e ↦ subst (λ q. is_waiting chan q ≡ false) (sym e.1) refl
]

-- From the first table to the second no process dies, and none goes to sleep in `wait`.
pub record Calmer (proc after : ℕ → Proc) : Type 0 where
  pub alive : (j : ℕ) → is_alive (proc j).state ≡ true → is_alive (after j).state ≡ true
  pub waiting : (j : ℕ) → is_waiting j (proc j) ≡ false → is_waiting j (after j) ≡ false

wake_one-waiting :
    (chan j : ℕ) (p : Proc) → is_waiting j p ≡ false → is_waiting j (wake_one chan p) ≡ false
wake_one-waiting chan j p h = elim (wake_one-cases chan p) [
  | inl e ↦ subst (λ q. is_waiting j q ≡ false) (sym e.0) h
  | inr e ↦ subst (λ q. is_waiting j q ≡ false) (sym e.1) refl
]

wake_one-alive :
    (chan : ℕ) (p : Proc) → is_alive p.state ≡ true → is_alive (wake_one chan p).state ≡ true
wake_one-alive chan p h = elim (wake_one-cases chan p) [
  | inl e ↦ subst (λ q. is_alive q.state ≡ true) (sym e.0) h
  | inr e ↦ subst (λ q. is_alive q.state ≡ true) (sym e.1) refl
]

pub wakeup1-cases :
    (chan k : ℕ) (proc : ℕ → Proc)
    → (wakeup1 chan proc k ≡ wake_one chan (proc k)) ⊎ (wakeup1 chan proc k ≡ proc k)
wakeup1-cases chan k proc = elim (dec_lt k nproc) [
  | yes lt ↦ inl (wakeup1-at chan k proc lt)
  | no ge ↦ inr (wakeup1-outside chan k proc (omega (arith, ge)))
]

pub wakeup1-Calmer : (chan : ℕ) (proc : ℕ → Proc) → Calmer proc (wakeup1 chan proc)
wakeup1-Calmer chan proc = record {
  alive = λ j h. elim (wakeup1-cases chan j proc) [
    | inl e ↦ subst (λ q. is_alive q.state ≡ true) (sym e) (wake_one-alive chan (proc j) h)
    | inr e ↦ subst (λ q. is_alive q.state ≡ true) (sym e) h
  ];
  waiting = λ j h. elim (wakeup1-cases chan j proc) [
    | inl e ↦ subst (λ q. is_waiting j q ≡ false) (sym e) (wake_one-waiting chan j (proc j) h)
    | inr e ↦ subst (λ q. is_waiting j q ≡ false) (sym e) h
  ];
}
