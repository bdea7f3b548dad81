-- ===== src/Strings/Tests.antt =====
-- string.c on small memories.
use graduation_prj.Base.{suc, ◌≡◌, refl, if◌then◌else◌, ltb, ok, ℕ_discrete, arith}
use graduation_prj.Strings.Defs.{
  Memory, pos, negsuc, memmove, copy_down, memset, memcmp, stosl, strncmp, strncpy, pad, safe_copy,
  safestrcpy, strlen,
}
use graduation_prj.Strings.Moves.{moved, memmove-moved}
use graduation_prj.Strings.Names.{Copied, strncmp-strncpy, safestrcpy-Copied}

-- The bytes at 0, 1, ... are 1, 2, 3, ... up to 9, then zeros.
abbrev bytes : Memory
bytes i = if ltb i 9 then suc i else 0

memmove_overlap : memmove 2 0 4 bytes 5 ≡ 4
unfolding memmove copy_down ℕ_discrete
memmove_overlap = refl

memmove-moved_example : memmove 2 0 4 bytes 5 ≡ moved 2 0 4 bytes 5
memmove-moved_example = memmove-moved 2 0 4 bytes 5

memset_word : memset 4 300 8 bytes 11 ≡ 44
unfolding memset stosl ℕ_discrete
memset_word = refl

memcmp_less : memcmp 3 0 1 bytes ≡ negsuc 0
unfolding memcmp
memcmp_less = refl

strlen_bytes : strlen 10 3 0 bytes ≡ ok 6
unfolding strlen
strlen_bytes = refl

-- A name of two bytes in a field of four.
strncpy_pads : strncpy 4 20 7 bytes 23 ≡ 0
unfolding strncpy pad ℕ_discrete
strncpy_pads = refl

strncmp-strncpy_example : strncmp 4 20 7 (strncpy 4 20 7 bytes) ≡ pos 0
strncmp-strncpy_example = strncmp-strncpy 4 20 7 bytes (omega arith)

safestrcpy_cuts : safestrcpy 20 0 4 bytes 23 ≡ 0
unfolding safe_copy ℕ_discrete
safestrcpy_cuts = refl

safestrcpy-Copied_example : Copied 20 0 3 bytes (safestrcpy 20 0 4 bytes)
safestrcpy-Copied_example = safestrcpy-Copied 3 20 0 bytes (omega arith)
