-- ===== src/FileTable/References.antt =====
-- file.c: the references to an open file, in every order of the calls.
use graduation_prj.Base.{
  ◌≤◌, ◌≢◌, ℕ, zero, suc, ◌+◌, ◌-◌, ◌<◌, ◌≡◌, inl, inr, refl, sym, ap, ◌∙◌, false, Option, none,
  some, update, update_same, update_other, arith, ℕ_discrete, dec_lt, Bool-cases, ltb, lt→ltb,
  le→ltb, ◌==◌, ==→eq, ==→ne, ok, Succeeds,
}
use mathlib.Core.Path.{subst}
use graduation_prj.FileTable.Defs.{
  FileType, fd_none, fd_pipe, fd_inode, OpenFile, FileTable, find_unused_file, take_file, filealloc,
  filedup, Release, nothing, close_pipe, put_inode, release_of, fileclose,
}

-- The table, and how many references to each file its users hold: each step is a call by one that holds
-- what it needs, or an assignment to a file that is held, as pipealloc and sys_open make.
pub data Reach : FileTable → (ℕ → ℕ) → Type 0 where
  start : (t : FileTable) → ((f : ℕ) → (t f).ref ≡ 0) → Reach t (λ _. 0)
  alloc :
      (t t' : FileTable) (held : ℕ → ℕ) (f : ℕ)
      → Reach t held
      → filealloc t ≡ some (f, t')
      → Reach t' (update held f (held f + 1))
  dup :
      (t t' : FileTable) (held : ℕ → ℕ) (f : ℕ)
      → Reach t held
      → 0 < held f
      → filedup f t ≡ ok t'
      → Reach t' (update held f (held f + 1))
  close :
      (t t' : FileTable) (held : ℕ → ℕ) (f : ℕ) (r : Release)
      → Reach t held
      → 0 < held f
      → fileclose f t ≡ ok (r, t')
      → Reach t' (update held f (held f - 1))
  assign :
      (t : FileTable) (held : ℕ → ℕ) (f : ℕ) (new : OpenFile)
      → Reach t held
      → 0 < held f
      → new.ref ≡ (t f).ref
      → Reach (update t f new) held

abbrev pub Counted : FileTable → (ℕ → ℕ) → Type 0
Counted t held = (f : ℕ) → (t f).ref ≡ held f

Counted-update :
    (t : FileTable) (held : ℕ → ℕ) (f : ℕ) (new : OpenFile) (n : ℕ)
    → Counted t held
    → new.ref ≡ n
    → Counted (update t f new) (update held f n)
Counted-update t held f new n counted e g = elim (ℕ_discrete f g) [
  | yes same ↦
      subst (λ k. (update t f new k).ref ≡ update held f n k) same
        (ap (λ a. a.ref) (update_same t f new) ∙ e ∙ sym (update_same held f n))
  | no ne ↦
      ap (λ a. a.ref) (update_other t f g new ne) ∙ counted g ∙ sym (update_other held f g n ne)
]

find_unused_file-ref :
    (rounds i f : ℕ) (t : FileTable) → find_unused_file rounds i t ≡ some f → (t f).ref ≡ 0
unfolding find_unused_file
find_unused_file-ref zero i f t e = absurd (cc e)
find_unused_file-ref (suc rounds) i f t e = elim (Bool-cases ((t i).ref == 0)) [
  | inl free ↦
      (let same : some i ≡ some f = sym (rw free refl) ∙ e in
        let at_f : i ≡ f = cc same in ap (λ k. (t k).ref) (sym at_f) ∙ ==→eq (t i).ref 0 free)
  | inr busy ↦ find_unused_file-ref rounds (i + 1) f t (sym (rw busy refl) ∙ e)
]

find_unused_file-none :
    (rounds i : ℕ) (t : FileTable)
    → find_unused_file rounds i t ≡ none
    → (f : ℕ) → i ≤ f
    → f < i + rounds
    → (t f).ref ≢ 0
unfolding find_unused_file
find_unused_file-none zero i t e f le lt = absurd (omega (arith, le, lt))
find_unused_file-none (suc rounds) i t e f le lt = elim (Bool-cases ((t i).ref == 0)) [
  | inl free ↦ (let same : some i ≡ none = sym (rw free refl) ∙ e in absurd (cc same))
  | inr busy ↦ elim (ℕ_discrete f i) [
    | yes here ↦ λ z. ==→ne (t i).ref 0 busy (ap (λ k. (t k).ref) (sym here) ∙ z)
    | no ne ↦
        find_unused_file-none rounds (i + 1) t (sym (rw busy refl) ∙ e) f (omega (arith, le, ne))
          (omega (arith, lt))
  ]
]

-- A file that filealloc returns has no reference, and then one.
abbrev pub AllocOutcome : (ℕ → ℕ) → Option (ℕ × FileTable) → Type 0
AllocOutcome held none = (f : ℕ) → f < 100 → 0 < held f
AllocOutcome held (some (f, t')) = (held f ≡ 0) × Counted t' (update held f (held f + 1))

take_file-AllocOutcome :
    (t : FileTable) (held : ℕ → ℕ) (o : Option ℕ)
    → Counted t held
    → ((f : ℕ) → o ≡ some f → (t f).ref ≡ 0)
    → (o ≡ none → (f : ℕ) → f < 100 → (t f).ref ≢ 0)
    → AllocOutcome held (take_file t o)
take_file-AllocOutcome t held none counted unused busy =
    λ f lt. (let ne : (t f).ref ≢ 0 = busy refl f lt in omega (arith, ne, counted f))
take_file-AllocOutcome t held (some f) counted unused busy =
    let none_held : held f ≡ 0 = sym (counted f) ∙ unused f refl in
    (
      none_held,
      Counted-update t held f (record (t f) { ref = 1 }) (held f + 1) counted
          (omega (arith, none_held)),
    )

filealloc-AllocOutcome :
    (t : FileTable) (held : ℕ → ℕ) → Counted t held → AllocOutcome held (filealloc t)
unfolding filealloc
filealloc-AllocOutcome t held counted =
    take_file-AllocOutcome t held (find_unused_file 100 0 t) counted
      (λ f. find_unused_file-ref 100 0 f t)
      (λ e f lt. find_unused_file-none 100 0 t e f (omega arith) (omega (arith, lt)))

filedup-Counted :
    (t : FileTable) (held : ℕ → ℕ) (f : ℕ)
    → Counted t held
    → 0 < held f
    → Succeeds (λ t'. Counted t' (update held f (held f + 1))) (filedup f t)
unfolding filedup
filedup-Counted t held f counted some_held =
    let busy : ltb (t f).ref 1 ≡ false = le→ltb (t f).ref 1 (omega (arith, some_held, counted f)) in
    rw busy (
      Counted-update t held f (record (t f) { ref = (t f).ref + 1 }) (held f + 1) counted
        (omega (arith, counted f)))

-- What has to be let go with a file: the end of its pipe that the file is, or the inode.
abbrev pub LetsGo : OpenFile → Release → Type 0
LetsGo file nothing = file.type ≡ fd_none
LetsGo file (close_pipe pipe end) =
    (file.type ≡ fd_pipe) × (pipe ≡ file.pipe) × (end ≡ file.writable)
LetsGo file (put_inode ip) = (file.type ≡ fd_inode) × (ip ≡ file.ip)

release_of-LetsGo :
    (type : FileType) (file : OpenFile) → file.type ≡ type → LetsGo file (release_of type file)
release_of-LetsGo fd_none file e = e
release_of-LetsGo fd_pipe file e = (e, refl, refl)
release_of-LetsGo fd_inode file e = (e, refl)

-- The pipe or the inode of the file is let go when the last reference is.
pub record Closed (t : FileTable) (held : ℕ → ℕ) (f : ℕ) (r : Release) (t' : FileTable)
    : Type 0 where
  pub counted : Counted t' (update held f (held f - 1))
  pub more : 1 < held f → r ≡ nothing
  pub last : held f ≡ 1 → LetsGo (t f) r × ((t' f).type ≡ fd_none)

fileclose-Closed :
    (t : FileTable) (held : ℕ → ℕ) (f : ℕ)
    → Counted t held
    → 0 < held f
    → Succeeds (λ (r, t'). Closed t held f r t') (fileclose f t)
unfolding fileclose
fileclose-Closed t held f counted some_held =
    let busy : ltb (t f).ref 1 ≡ false = le→ltb (t f).ref 1 (omega (arith, some_held, counted f)) in
    elim (dec_lt 1 (held f)) [
      | yes many ↦ rw busy (
          rw (lt→ltb 0 ((t f).ref - 1) (omega (arith, many, counted f))) (record {
            counted =
                Counted-update t held f (record (t f) { ref = (t f).ref - 1 }) (held f - 1) counted
                  (omega (arith, counted f));
            more = λ _. refl;
            last = λ one. absurd (omega (arith, one, many));
          }))
      | no few ↦ rw busy (
          rw (le→ltb 0 ((t f).ref - 1) (omega (arith, few, counted f))) (record {
            counted =
                Counted-update t held f (record (t f) { ref = 0; type = fd_none }) (held f - 1)
                  counted (omega (arith, few));
            more = λ many. absurd (few many);
            last = λ one. (
              release_of-LetsGo (t f).type (t f) refl,
              ap (λ a. a.type) (update_same t f (record (t f) { ref = 0; type = fd_none })),
            );
          }))
    ]

Reach-Counted : (t : FileTable) (held : ℕ → ℕ) → Reach t held → Counted t held
Reach-Counted _ _ (start t unused) = unused
Reach-Counted _ _ (alloc t t' held f r e) =
    (subst (AllocOutcome held) e (filealloc-AllocOutcome t held (Reach-Counted t held r))).1
Reach-Counted _ _ (dup t t' held f r some_held e) =
    subst (Succeeds (λ t'. Counted t' (update held f (held f + 1)))) e
      (filedup-Counted t held f (Reach-Counted t held r) some_held)
Reach-Counted _ _ (close t t' held f release r some_held e) =
    (subst (Succeeds (λ (r, t'). Closed t held f r t')) e
      (fileclose-Closed t held f (Reach-Counted t held r) some_held)).counted
Reach-Counted _ _ (assign t held f new r some_held e) = λ g. elim (ℕ_discrete f g) [
  | yes same ↦
      subst (λ k. (update t f new k).ref ≡ held k) same
        (ap (λ a. a.ref) (update_same t f new) ∙ e ∙ Reach-Counted t held r f)
  | no ne ↦ ap (λ a. a.ref) (update_other t f g new ne) ∙ Reach-Counted t held r g
]

-- In every state that is reached from an unused table by calls of those that hold the references which
-- the calls need: filealloc gives a file to which there is no reference, or none, and then every one of
-- the 100 files has a reference; filedup and fileclose of a file that is held do not panic; fileclose
-- with more references left lets go of nothing, and with the last one of the inode, or of the end of the
-- pipe, that the file stands for, and of nothing only if it stands for none; then the entry has no type.
pub Reach-Closed :
    (t : FileTable) (held : ℕ → ℕ)
    → Reach t held
    → AllocOutcome held (filealloc t)
      × ((f : ℕ)
          → 0 < held f
          → Succeeds (λ t'. Counted t' (update held f (held f + 1))) (filedup f t)
            × Succeeds (λ (r, t'). Closed t held f r t') (fileclose f t))
Reach-Closed t held r =
    let counted : Counted t held = Reach-Counted t held r in
    (
      filealloc-AllocOutcome t held counted,
      λ f some_held.
          (filedup-Counted t held f counted some_held, fileclose-Closed t held f counted some_held),
    )
