-- ===== src/Proc/Exit.antt =====
-- `exit` under the lock: what it does to the families of the process table.
use graduation_prj.Base.{
  ℕ, zero, suc, ◌+◌, ◌<◌, ◌≡◌, ◌≢◌, inl, inr, refl, sym, ap, ◌∙◌, true, false, Option, none, some,
  update, update_other, arith, Bool-cases, ==→eq, ne→==, eq→==, ℕ_discrete,
}
use mathlib.Core.Path.{subst}
use graduation_prj.Proc.Defs.{
  ProcState, unused, embryo, sleeping, runnable, running, zombie, Proc, Table, nproc, is_state,
  is_some, wakeup1, pass_child, pass_from, wakeup_parent, exit_locked,
}
use graduation_prj.Proc.Family.{
  is_alive, is_placed, is_null, is_waiting, Rooted, Noticed, update-Rooted, update-Noticed,
  update_cases, IsFamily, Noticed-parent,
}
use graduation_prj.Proc.Wakeup.{
  wakeup1-Rooted, wakeup1-Noticed, wakeup1-Calmer, Calmer, wakeup1-cases, wakeup1-at,
  wake_one-parent, wake_one-zombie, wake_one-woken,
}

pub is_some-eq : (o : Option ℕ) (j k : ℕ) → is_some o j ≡ true → is_some o k ≡ true → j ≡ k
is_some-eq none j k h h' = absurd (ground (arith, h))
is_some-eq (some x) j k h h' = sym (==→eq x j h) ∙ ==→eq x k h'

null_is_some : (o : Option ℕ) (j : ℕ) → is_null o ≡ true → is_some o j ≡ false
null_is_some none j h = refl
null_is_some (some x) j h = absurd (ground (arith, h))

-- The loop of `exit` at the entry `i`: `cur` is alive, its own parent is awake, and the entries below
-- `i` are no children of `cur`.
record Passing (cur init i : ℕ) (proc : ℕ → Proc) : Type 0 where
  rooted : Rooted init proc
  noticed : Noticed proc
  not_init : cur ≢ init
  alive : is_alive (proc cur).state ≡ true
  seen : (p : ℕ) → is_some (proc cur).parent p ≡ true → is_waiting p (proc p) ≡ false
  passed : (m : ℕ) → m < i → is_some (proc m).parent cur ≡ false

-- The entry with its new parent.
abbrev child_of : ℕ → Proc → Proc
child_of init p = record p { parent = some init }

module _ (cur init i : ℕ) (proc : ℕ → Proc) (s : Passing cur init i proc) (lt : i < nproc)
    (h : is_some (proc i).parent cur ≡ true) where
  abbrev given : ℕ → Proc
  given = update proc i (child_of init (proc i))

  not_root : i ≢ init
  not_root e = ground (
    arith,
    h,
    null_is_some (proc i).parent cur
        (subst (λ m. is_null (proc m).parent ≡ true) (sym e) s.rooted.root_parent),
  )

  not_self : i ≢ cur
  not_self e =
      ground (arith, h, subst (λ m. is_some (proc i).parent m ≡ false) e (s.rooted.apart i))

  given-Rooted : Rooted init given
  given-Rooted = update-Rooted init i proc (child_of init (proc i)) s.rooted (record {
    alive = inl (λ a. a);
    parent = λ j e. (
      lt,
      subst (λ m. m < nproc) (==→eq init j e) s.rooted.root_in,
      subst (λ m. is_alive (proc m).state ≡ true) (==→eq init j e) s.rooted.root,
    );
    not_own = ne→== init i (λ e. not_root (sym e));
    root_parent = λ e. absurd (not_root e);
    has_parent = λ ne p. refl;
  })

  given-Calmer : Calmer proc given
  given-Calmer = record {
    alive = λ j a. elim (update_cases proc i (child_of init (proc i)) j) [
      | inl e ↦
          subst (λ q. is_alive q.state ≡ true) (sym e.1)
            (subst (λ m. is_alive (proc m).state ≡ true) e.0 a)
      | inr e ↦ subst (λ q. is_alive q.state ≡ true) (sym e.1) a
    ];
    waiting = λ j w. elim (update_cases proc i (child_of init (proc i)) j) [
      | inl e ↦
          subst (λ q. is_waiting j q ≡ false) (sym e.1)
            (subst (λ m. is_waiting j (proc m) ≡ false) e.0 w)
      | inr e ↦ subst (λ q. is_waiting j q ≡ false) (sym e.1) w
    ];
  }

  given-Noticed : is_state (proc i).state zombie ≡ false → Noticed given
  given-Noticed z =
      update-Noticed i proc (child_of init (proc i)) s.noticed
        (record { as_child = inl z; as_parent = Noticed-parent i proc s.noticed })

  given-parent : (m : ℕ) → m < i + 1 → is_some (given m).parent cur ≡ false
  given-parent m le = elim (update_cases proc i (child_of init (proc i)) m) [
    | inl e ↦
        subst (λ q. is_some q.parent cur ≡ false) (sym e.1)
          (ne→== init cur (λ c. s.not_init (sym c)))
    | inr e ↦
        subst (λ q. is_some q.parent cur ≡ false) (sym e.1) (s.passed m (omega (arith, le, e.0)))
  ]

  given_cur : given cur ≡ proc cur
  given_cur = update_other proc i cur (child_of init (proc i)) not_self

  -- Either the child is a zombie and `init` is woken, or neither.
  given-Passing : is_state (proc i).state zombie ≡ false → Passing cur init (i + 1) given
  given-Passing z = record {
    rooted = given-Rooted;
    noticed = given-Noticed z;
    not_init = s.not_init;
    alive = given-Calmer.alive cur s.alive;
    seen = λ p e.
        given-Calmer.waiting p (s.seen p (subst (λ q. is_some q.parent p ≡ true) given_cur e));
    passed = given-parent;
  }

  woken_parent : (m : ℕ) → (wakeup1 init given m).parent ≡ (given m).parent
  woken_parent m = elim (wakeup1-cases init m given) [
    | inl e ↦ ap (λ q. q.parent) e ∙ wake_one-parent init (given m)
    | inr e ↦ ap (λ q. q.parent) e
  ]

  woken_zombie :
      (m : ℕ)
      → is_state (wakeup1 init given m).state zombie ≡ true
      → is_state (given m).state zombie ≡ true
  woken_zombie m z = elim (wakeup1-cases init m given) [
    | inl e ↦ wake_one-zombie init (given m) (subst (λ q. is_state q.state zombie ≡ true) e z)
    | inr e ↦ subst (λ q. is_state q.state zombie ≡ true) e z
  ]

  woken-Noticed : Noticed (wakeup1 init given)
  woken-Noticed m j e z =
      let e' = subst (λ q. is_some q j ≡ true) (woken_parent m) e in
      elim (update_cases proc i (child_of init (proc i)) m) [
        | inl at ↦
            let same = ==→eq init j (subst (λ q. is_some q.parent j ≡ true) at.1 e') in
            subst (λ k. is_waiting k (wakeup1 init given k) ≡ false) same
              (subst (λ q. is_waiting init q ≡ false)
                (sym (wakeup1-at init init given s.rooted.root_in))
                (wake_one-woken init (given init)))
        | inr at ↦
            let old =
              s.noticed m j (subst (λ q. is_some q.parent j ≡ true) at.1 e')
                (subst (λ q. is_state q.state zombie ≡ true) at.1 (woken_zombie m z)) in
            (wakeup1-Calmer init given).waiting j (given-Calmer.waiting j old)
      ]

  woken-Passing : Passing cur init (i + 1) (wakeup1 init given)
  woken-Passing =
      let calm = wakeup1-Calmer init given in
      record {
        rooted = wakeup1-Rooted init init given given-Rooted;
        noticed = woken-Noticed;
        not_init = s.not_init;
        alive = calm.alive cur (given-Calmer.alive cur s.alive);
        seen = λ p e. calm.waiting p (
            given-Calmer.waiting p (
              s.seen p (
                subst (λ q. is_some q.parent p ≡ true) given_cur
                  (subst (λ q. is_some q p ≡ true) (woken_parent cur) e))));
        passed =
            λ m le. subst (λ q. is_some q cur ≡ false) (sym (woken_parent m)) (given-parent m le);
      }

pass_child-Passing :
    (cur init i : ℕ) (proc : ℕ → Proc)
    → Passing cur init i proc
    → i < nproc
    → Passing cur init (i + 1) (pass_child cur init i proc)
unfolding pass_child
pass_child-Passing cur init i proc s lt = elim (Bool-cases (is_some (proc i).parent cur)) [
  | inl h ↦ elim (Bool-cases (is_state (proc i).state zombie)) [
    | inl z ↦ rw h (rw z (woken-Passing cur init i proc s lt h))
    | inr z ↦ rw h (rw z (given-Passing cur init i proc s lt h z))
  ]
  | inr h ↦ rw h (record {
    rooted = s.rooted;
    noticed = s.noticed;
    not_init = s.not_init;
    alive = s.alive;
    seen = s.seen;
    passed = λ m le. elim (ℕ_discrete m i) [
      | yes e ↦ subst (λ k. is_some (proc k).parent cur ≡ false) (sym e) h
      | no ne ↦ s.passed m (omega (arith, le, ne))
    ];
  })
]

pass_from-Passing :
    (rounds i cur init : ℕ) (proc : ℕ → Proc)
    → Passing cur init i proc
    → i + rounds ≡ nproc
    → Passing cur init nproc (pass_from rounds i cur init proc)
unfolding pass_from
pass_from-Passing zero i cur init proc s e = subst (λ m. Passing cur init m proc) (omega arith) s
pass_from-Passing (suc rounds) i cur init proc s e =
    pass_from-Passing rounds (i + 1) cur init (pass_child cur init i proc)
      (pass_child-Passing cur init i proc s (omega arith)) (omega arith)

pub alive_placed : (s : ProcState) → is_alive s ≡ true → is_placed s ≡ true
alive_placed sleeping h = refl
alive_placed runnable h = refl
alive_placed running h = refl
alive_placed zombie h = refl
alive_placed unused h = absurd (ground (arith, h))
alive_placed embryo h = absurd (ground (arith, h))

none_left :
    (cur init : ℕ) (proc : ℕ → Proc)
    → Passing cur init nproc proc
    → (m : ℕ) → is_some (proc m).parent cur ≡ false
none_left cur init proc s m = elim (Bool-cases (is_some (proc m).parent cur)) [
  | inr h ↦ h
  | inl h ↦ s.passed m (s.rooted.parent_alive m cur h).0
]

abbrev dead : Proc → Proc
dead p = record p { state = zombie }

zombie-IsFamily :
    (cur init : ℕ) (proc : ℕ → Proc)
    → Passing cur init nproc proc
    → IsFamily init (update proc cur (dead (proc cur)))
zombie-IsFamily cur init proc s = record {
  rooted = update-Rooted init cur proc (dead (proc cur)) s.rooted (record {
    alive = inr (s.not_init, none_left cur init proc s);
    parent = λ j h. s.rooted.parent_alive cur j h;
    not_own = s.rooted.apart cur;
    root_parent = λ e. absurd (s.not_init e);
    has_parent = λ ne p. s.rooted.has_parent cur ne (alive_placed (proc cur).state s.alive);
  });
  noticed = λ i j h z. elim (update_cases proc cur (dead (proc cur)) j) [
    | inl e ↦ subst (λ q. is_waiting j q ≡ false) (sym e.1) refl
    | inr e ↦
        subst (λ q. is_waiting j q ≡ false) (sym e.1)
          (elim (update_cases proc cur (dead (proc cur)) i) [
            | inl at ↦ s.seen j (subst (λ q. is_some q.parent j ≡ true) at.1 h)
            | inr at ↦
                s.noticed i j (subst (λ q. is_some q.parent j ≡ true) at.1 h)
                  (subst (λ q. is_state q.state zombie ≡ true) at.1 z)
          ])
  ];
}

woken-start :
    (cur init p : ℕ) (proc : ℕ → Proc)
    → IsFamily init proc
    → cur ≢ init
    → is_alive (proc cur).state ≡ true
    → is_some (proc cur).parent p ≡ true
    → Passing cur init 0 (wakeup1 p proc)
woken-start cur init p proc f ne a h =
    let calm = wakeup1-Calmer p proc in
    let lt = (f.rooted.parent_alive cur p h).1 in
    record {
      rooted = wakeup1-Rooted p init proc f.rooted;
      noticed = wakeup1-Noticed p proc f.noticed;
      not_init = ne;
      alive = calm.alive cur a;
      seen = λ q e.
          let same : is_some (proc cur).parent q ≡ true = elim (wakeup1-cases p cur proc) [
            | inl w ↦
                subst (λ r. is_some r q ≡ true)
                  (ap (λ r. r.parent) w ∙ wake_one-parent p (proc cur)) e
            | inr w ↦ subst (λ r. is_some r.parent q ≡ true) w e
          ] in
          subst (λ k. is_waiting k (wakeup1 p proc k) ≡ false)
            (is_some-eq (proc cur).parent p q h same)
            (subst (λ r. is_waiting p r ≡ false) (sym (wakeup1-at p p proc lt))
              (wake_one-woken p (proc p)));
      passed = λ m lt. absurd (omega (arith, lt));
    }

parent_woken :
    (cur init : ℕ) (proc : ℕ → Proc) (parent : Option ℕ)
    → (proc cur).parent ≡ parent
    → IsFamily init proc
    → cur ≢ init
    → is_alive (proc cur).state ≡ true
    → Passing cur init 0 (wakeup_parent parent proc)
parent_woken cur init proc (some p) e f ne a =
    woken-start cur init p proc f ne a (subst (λ q. is_some q p ≡ true) (sym e) (eq→== p p refl))
parent_woken cur init proc none e f ne a =
    absurd
      (ground (arith, f.rooted.has_parent cur ne (alive_placed (proc cur).state a), ap is_null e))

-- `exit` of a live process other than `init` leaves a family.
pub exit_locked-IsFamily :
    (cur : ℕ) (t : Table)
    → IsFamily t.initproc t.proc
    → cur ≢ t.initproc
    → is_alive (t.proc cur).state ≡ true
    → IsFamily t.initproc (exit_locked cur t).proc
unfolding exit_locked
exit_locked-IsFamily cur t f ne a =
    let start = parent_woken cur t.initproc t.proc (t.proc cur).parent refl f ne a in
    let end =
      pass_from-Passing nproc 0 cur t.initproc (wakeup_parent (t.proc cur).parent t.proc) start
        refl in
    zombie-IsFamily cur t.initproc
      (pass_from nproc 0 cur t.initproc (wakeup_parent (t.proc cur).parent t.proc)) end
