-- ===== src/Proc/Changes.antt =====
-- The changes of one entry that the critical sections of proc.c make, and `kill`.
use graduation_prj.Base.{
  ℕ, zero, suc, ◌+◌, ◌<◌, ◌≡◌, ◌≢◌, ◌⊎◌, inl, inr, refl, sym, ap, true, false, ◌&&◌, Option, none,
  some, update, arith, Bool-cases, ==→eq, ne→==, ◌==◌, if◌then◌else◌,
}
use mathlib.Core.Path.{subst}
use graduation_prj.Proc.Defs.{
  ProcState, unused, embryo, sleeping, runnable, running, zombie, Proc, nproc, is_state, is_some,
  reap, kill_from,
}
use graduation_prj.Proc.Family.{
  is_alive, is_placed, is_null, is_waiting, update-Rooted, update-Noticed, IsFamily, Noticed-parent,
}
use graduation_prj.Proc.Wakeup.{Kept-Allowed, sleeping_eq}

alive_zombie : (s : ProcState) → is_alive s ≡ true → is_state s zombie ≡ false
alive_zombie sleeping h = refl
alive_zombie runnable h = refl
alive_zombie running h = refl
alive_zombie zombie h = absurd (ground (arith, h))
alive_zombie unused h = refl
alive_zombie embryo h = refl

unplaced_zombie :
    (s : ProcState)
    → is_placed s ≡ false
    → (is_state s zombie ≡ false) × (is_state s sleeping ≡ false) × (is_alive s ≡ false)
unplaced_zombie unused h = (refl, refl, refl)
unplaced_zombie embryo h = (refl, refl, refl)
unplaced_zombie sleeping h = absurd (ground (arith, h))
unplaced_zombie runnable h = absurd (ground (arith, h))
unplaced_zombie running h = absurd (ground (arith, h))
unplaced_zombie zombie h = absurd (ground (arith, h))

-- No child of `k` is a zombie.
abbrev pub NoZombie : ℕ → (ℕ → Proc) → Type 0
NoZombie k proc =
    (i : ℕ) → is_some (proc i).parent k ≡ true → is_state (proc i).state zombie ≡ false

-- An entry becomes or stays alive, with the parent it has.
pub live_change :
    (init k : ℕ) (proc : ℕ → Proc) (p : Proc)
    → IsFamily init proc
    → p.parent ≡ (proc k).parent
    → is_alive p.state ≡ true
    → (k ≢ init → is_null (proc k).parent ≡ false)
    → (is_waiting k p ≡ false) ⊎ NoZombie k proc
    → IsFamily init (update proc k p)
live_change init k proc p f same a has quiet = record {
  rooted = update-Rooted init k proc p f.rooted (record {
    alive = inl (λ _. a);
    parent = λ j h. f.rooted.parent_alive k j (subst (λ q. is_some q j ≡ true) same h);
    not_own = subst (λ q. is_some q k ≡ false) (sym same) (f.rooted.apart k);
    root_parent = λ e.
        subst (λ q. is_null q ≡ true) (sym same)
          (subst (λ m. is_null (proc m).parent ≡ true) (sym e) f.rooted.root_parent);
    has_parent = λ ne h. subst (λ q. is_null q ≡ false) (sym same) (has ne);
  });
  noticed =
      update-Noticed k proc p f.noticed
        (record { as_child = inl (alive_zombie p.state a); as_parent = quiet });
}

-- An entry that is not alive becomes or stays one that is free or being filled.
pub unplaced_change :
    (init k : ℕ) (proc : ℕ → Proc) (p : Proc)
    → IsFamily init proc
    → p.parent ≡ (proc k).parent
    → is_placed p.state ≡ false
    → is_alive (proc k).state ≡ false
    → IsFamily init (update proc k p)
unplaced_change init k proc p f same free gone =
    let not_any = unplaced_zombie p.state free in
    record {
      rooted = update-Rooted init k proc p f.rooted (
          Kept-Allowed init k proc p f.rooted (record {
            alive = λ a. absurd (ground (arith, gone, a));
            parent = same;
            placed = λ h. absurd (ground (arith, free, h));
          }));
      noticed =
          update-Noticed k proc p f.noticed
            (record { as_child = inl not_any.0; as_parent = inl (ground (arith, not_any.1)) });
    }

-- An entry keeps its state, its parent and its channel.
pub same_change :
    (init k : ℕ) (proc : ℕ → Proc) (p : Proc)
    → IsFamily init proc
    → p.parent ≡ (proc k).parent
    → p.state ≡ (proc k).state
    → p.chan ≡ (proc k).chan
    → IsFamily init (update proc k p)
same_change init k proc p f same state chan = record {
  rooted = update-Rooted init k proc p f.rooted (
      Kept-Allowed init k proc p f.rooted (record {
        alive = λ a. subst (λ s. is_alive s ≡ true) (sym state) a;
        parent = same;
        placed = λ h. subst (λ s. is_placed s ≡ true) state h;
      }));
  noticed = update-Noticed k proc p f.noticed (record {
    as_child = elim (Bool-cases (is_state (proc k).state zombie)) [
      | inl z ↦ inr (z, same)
      | inr z ↦ inl (subst (λ s. is_state s zombie ≡ false) (sym state) z)
    ];
    as_parent = elim (Noticed-parent k proc f.noticed) [
      | inl w ↦ inl (
          subst (λ s. (is_state s sleeping && is_some p.chan k) ≡ false) (sym state)
            (subst (λ c. (is_state (proc k).state sleeping && is_some c k) ≡ false) (sym chan) w))
      | inr w ↦ inr w
    ];
  });
}

-- A zombie's entry is freed.
pub reap-IsFamily :
    (init k : ℕ) (proc : ℕ → Proc)
    → IsFamily init proc
    → is_state (proc k).state zombie ≡ true
    → IsFamily init (update proc k (reap (proc k)))
reap-IsFamily init k proc f z = record {
  rooted = update-Rooted init k proc (reap (proc k)) f.rooted (record {
    alive = inl (λ a. absurd (ground (arith, alive_zombie (proc k).state a, z)));
    parent = λ j h. absurd (ground (arith, h));
    not_own = refl;
    root_parent = λ e. refl;
    has_parent = λ ne h. absurd (ground (arith, h));
  });
  noticed =
      update-Noticed k proc (reap (proc k)) f.noticed
        (record { as_child = inl refl; as_parent = inl refl });
}

-- An entry that is being filled gets a live parent.
pub parent-IsFamily :
    (init k cur : ℕ) (proc : ℕ → Proc)
    → IsFamily init proc
    → k < nproc
    → cur < nproc
    → (proc k).state ≡ embryo
    → is_alive (proc cur).state ≡ true
    → IsFamily init (update proc k (record (proc k) { parent = some cur }))
parent-IsFamily init k cur proc f lt cur_lt e a =
    let not_alive : is_alive (proc k).state ≡ false = ap is_alive e in
    let apart : (m : ℕ) → is_alive (proc m).state ≡ true → m ≢ k =
      λ m live eq. ground (arith, not_alive, subst (λ n. is_alive (proc n).state ≡ true) eq live) in
    record {
      rooted =
          update-Rooted init k proc (record (proc k) { parent = some cur }) f.rooted
            (record {
              alive = inl (λ h. h);
              parent = λ j h. (
                lt,
                subst (λ m. m < nproc) (==→eq cur j h) cur_lt,
                subst (λ m. is_alive (proc m).state ≡ true) (==→eq cur j h) a,
              );
              not_own = ne→== cur k (apart cur a);
              root_parent = λ eq. absurd (apart init f.rooted.root (sym eq));
              has_parent = λ ne h. refl;
            });
      noticed =
          update-Noticed k proc (record (proc k) { parent = some cur }) f.noticed
            (record {
              as_child = inl (ap (λ s. is_state s zombie) e);
              as_parent = inl (ground (arith, ap (λ s. is_state s sleeping) e));
            });
    }

abbrev killed_one : Proc → Proc
killed_one p =
    if is_state p.state sleeping
    then record p { killed = true; state = runnable }
    else record p { killed = true }

killed_one-IsFamily :
    (init i : ℕ) (proc : ℕ → Proc)
    → IsFamily init proc
    → IsFamily init (update proc i (killed_one (proc i)))
killed_one-IsFamily init i proc f = elim (Bool-cases (is_state (proc i).state sleeping)) [
  | inl h ↦
      let placed : is_placed (proc i).state ≡ true = ap is_placed (sleeping_eq (proc i).state h) in
      rw h (
        live_change init i proc (record (proc i) { killed = true; state = runnable }) f refl refl
          (λ ne. f.rooted.has_parent i ne placed) (inl refl))
  | inr h ↦ rw h (same_change init i proc (record (proc i) { killed = true }) f refl refl refl)
]

kill_from-hit :
    (rounds i pid : ℕ) (proc : ℕ → Proc)
    → ((proc i).pid == pid) ≡ true
    → kill_from (suc rounds) i pid proc ≡ some (update proc i (killed_one (proc i)))
unfolding kill_from
kill_from-hit rounds i pid proc h = rw h refl

kill_from-miss :
    (rounds i pid : ℕ) (proc : ℕ → Proc)
    → ((proc i).pid == pid) ≡ false
    → kill_from (suc rounds) i pid proc ≡ kill_from rounds (i + 1) pid proc
unfolding kill_from
kill_from-miss rounds i pid proc h = rw h refl

-- The table after `kill`, which is the same if it finds no process.
abbrev pub after_kill : (ℕ → Proc) → Option (ℕ → Proc) → ℕ → Proc
after_kill proc none = proc
after_kill proc (some after) = after

pub kill_from-IsFamily :
    (rounds i pid init : ℕ) (proc : ℕ → Proc)
    → IsFamily init proc
    → IsFamily init (after_kill proc (kill_from rounds i pid proc))
kill_from-IsFamily zero i pid init proc f = unfold kill_from in f
kill_from-IsFamily (suc rounds) i pid init proc f = elim (Bool-cases ((proc i).pid == pid)) [
  | inl h ↦ rw (kill_from-hit rounds i pid proc h) (killed_one-IsFamily init i proc f)
  | inr h ↦
      rw (kill_from-miss rounds i pid proc h) (kill_from-IsFamily rounds (i + 1) pid init proc f)
]
