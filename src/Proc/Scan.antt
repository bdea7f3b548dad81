-- ===== src/Proc/Scan.antt =====
-- The scan of `wait` for a zombie child.
use graduation_prj.Base.{
  ℕ, zero, suc, ◌+◌, ◌<◌, ◌≤◌, ◌≡◌, ◌⊎◌, inl, inr, refl, sym, Bool, true, false, ◌&&◌, ◌||◌, arith,
  Bool-cases, ℕ_discrete,
}
use mathlib.Core.Path.{subst}
use graduation_prj.Proc.Defs.{zombie, Proc, is_state, is_some, scan_from, Scan, reaps, havekids}

-- What the scan of `wait` finds from the entry `i` on.
abbrev pub Scanned : ℕ → ℕ → ℕ → Bool → (ℕ → Proc) → Scan → Type 0
Scanned rounds i cur kids proc (reaps k) =
    (i ≤ k)
    × (k < i + rounds)
    × (is_some (proc k).parent cur ≡ true)
    × (is_state (proc k).state zombie ≡ true)
Scanned rounds i cur kids proc (havekids any) =
    ((k : ℕ)
      → i ≤ k
      → k < i + rounds
      → is_some (proc k).parent cur ≡ true
      → (is_state (proc k).state zombie ≡ false) × (any ≡ true))
    × (any ≡ false → kids ≡ false)
    × (any ≡ true → (kids ≡ true) ⊎ ((k : ℕ) × (is_some (proc k).parent cur ≡ true)))

scan_from-reaps :
    (rounds i cur : ℕ) (kids : Bool) (proc : ℕ → Proc)
    → (is_some (proc i).parent cur && is_state (proc i).state zombie) ≡ true
    → scan_from (suc rounds) i cur kids proc ≡ reaps i
unfolding scan_from
scan_from-reaps rounds i cur kids proc h = rw h refl

scan_from-passes :
    (rounds i cur : ℕ) (kids : Bool) (proc : ℕ → Proc)
    → (is_some (proc i).parent cur && is_state (proc i).state zombie) ≡ false
    → scan_from (suc rounds) i cur kids proc
      ≡ scan_from rounds (i + 1) cur (kids || is_some (proc i).parent cur) proc
unfolding scan_from
scan_from-passes rounds i cur kids proc h = rw h refl

Scanned-passes :
    (rounds i cur : ℕ) (kids : Bool) (proc : ℕ → Proc) (scan : Scan)
    → (is_some (proc i).parent cur && is_state (proc i).state zombie) ≡ false
    → Scanned rounds (i + 1) cur (kids || is_some (proc i).parent cur) proc scan
    → Scanned (suc rounds) i cur kids proc scan
Scanned-passes rounds i cur kids proc (reaps k) h s =
    (omega (arith, s.0), omega (arith, s.1), s.2, s.3)
Scanned-passes rounds i cur kids proc (havekids any) h s = (
  λ k le lt child. elim (ℕ_discrete i k) [
    | no ne ↦ s.0 k (omega (arith, ne)) (omega arith) child
    | yes e ↦
        let child' : is_some (proc i).parent cur ≡ true =
          subst (λ m. is_some (proc m).parent cur ≡ true) (sym e) child in
        (
          subst (λ m. is_state (proc m).state zombie ≡ false) e (ground (arith, h, child')),
          ground (arith, s.1, child'),
        )
  ],
  λ none_there. ground (arith, s.1 none_there),
  λ there. elim (s.2 there) [
    | inr c ↦ inr c
    | inl or ↦ elim (Bool-cases (is_some (proc i).parent cur)) [
      | inl child ↦ inr (i, child)
      | inr not_child ↦ inl (ground (arith, or, not_child))
    ]
  ],
)

pub scan_from-Scanned :
    (rounds i cur : ℕ) (kids : Bool) (proc : ℕ → Proc)
    → Scanned rounds i cur kids proc (scan_from rounds i cur kids proc)
scan_from-Scanned zero i cur kids proc =
    unfold scan_from in (λ k le lt child. absurd (omega (arith, le, lt)), λ e. e, λ e. inl e)
scan_from-Scanned (suc rounds) i cur kids proc =
    elim (Bool-cases (is_some (proc i).parent cur && is_state (proc i).state zombie)) [
      | inl h ↦
          subst (Scanned (suc rounds) i cur kids proc)
            (sym (scan_from-reaps rounds i cur kids proc h))
            (omega arith, omega arith, ground (arith, h), ground (arith, h))
      | inr h ↦
          subst (Scanned (suc rounds) i cur kids proc)
            (sym (scan_from-passes rounds i cur kids proc h))
            (Scanned-passes rounds i cur kids proc
              (scan_from rounds (i + 1) cur (kids || is_some (proc i).parent cur) proc) h
              (scan_from-Scanned rounds (i + 1) cur (kids || is_some (proc i).parent cur) proc))
    ]
