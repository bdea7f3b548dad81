-- ===== src/Strings/Defs.antt =====
-- string.c: a memory is a function from addresses to bytes, and a `char *` is an address.
use graduation_prj.Base.{
  ℕ, zero, suc, ◌+◌, ◌-◌, ◌*◌, ◌/◌, ◌%◌, ◌^◌, not, ◌&&◌, update, ltb, leb, ◌==◌, if◌then◌else◌,
  Result, ok, stop, spin,
}

abbrev pub Memory : Type 0
Memory = ℕ → ℕ

-- The difference of two bytes as an `int`.
pub data ℤ : Type 0 where
  pos : ℕ → ℤ
  negsuc : ℕ → ℤ

abbrev pub byte_diff : ℕ → ℕ → ℤ
byte_diff a b = if leb b a then pos (a - b) else negsuc (b - a - 1)

-- The instructions `rep stosb` and `rep stosl` of x86.h: `n` bytes, or `n` words lowest byte first.
unfoldable pub stosb : ℕ → ℕ → ℕ → Memory → Memory
stosb zero dst c mem = mem
stosb (suc n) dst c mem = stosb n (dst + 1) c (update mem dst (c % 2 ^ 8))

abbrev pub store_word : ℕ → ℕ → Memory → Memory
store_word dst w mem =
    update
      (update (update (update mem dst (w % 2 ^ 8)) (dst + 1) (w / 2 ^ 8 % 2 ^ 8)) (dst + 2)
        (w / 2 ^ 16 % 2 ^ 8))
      (dst + 3) (w / 2 ^ 24 % 2 ^ 8)

unfoldable pub stosl : ℕ → ℕ → ℕ → Memory → Memory
stosl zero dst w mem = mem
stosl (suc n) dst w mem = stosl n (dst + 4) w (store_word dst w mem)

-- The four copies of a byte that `memset` puts into a word.
abbrev pub four_times : ℕ → ℕ
four_times c = c * 2 ^ 24 + c * 2 ^ 16 + c * 2 ^ 8 + c

unfoldable pub memset : ℕ → ℕ → ℕ → Memory → Memory
memset dst c n mem =
    if dst % 4 == 0 && n % 4 == 0
    then stosl (n / 4) dst (four_times (c % 2 ^ 8)) mem
    else stosb n dst c mem

unfoldable pub memcmp : ℕ → ℕ → ℕ → Memory → ℤ
memcmp zero s1 s2 mem = pos 0
memcmp (suc n) s1 s2 mem =
    let next = memcmp n (s1 + 1) (s2 + 1) mem in
    if mem s1 == mem s2 then next else byte_diff (mem s1) (mem s2)

-- The loops of `memmove`, from the last byte down and from the first byte up.
unfoldable pub copy_down : ℕ → ℕ → ℕ → Memory → Memory
copy_down zero d s mem = mem
copy_down (suc n) d s mem = copy_down n d s (update mem (d + n) (mem (s + n)))

unfoldable pub copy_up : ℕ → ℕ → ℕ → Memory → Memory
copy_up zero d s mem = mem
copy_up (suc n) d s mem = copy_up n (d + 1) (s + 1) (update mem d (mem s))

unfoldable pub memmove : ℕ → ℕ → ℕ → Memory → Memory
memmove dst src n mem =
    if ltb src dst && ltb dst (src + n) then copy_down n dst src mem else copy_up n dst src mem

unfoldable pub strncmp : ℕ → ℕ → ℕ → Memory → ℤ
strncmp zero p q mem = pos 0
strncmp (suc n) p q mem =
    let next = strncmp n (p + 1) (q + 1) mem in
    if not (mem p == 0) && mem p == mem q then next else byte_diff (mem p) (mem q)

-- The second loop of `strncpy`.
unfoldable pub pad : ℕ → ℕ → Memory → Memory
pad zero s mem = mem
pad (suc n) s mem = pad n (s + 1) (update mem s 0)

unfoldable pub strncpy : ℕ → ℕ → ℕ → Memory → Memory
strncpy zero s t mem = mem
strncpy (suc n) s t mem =
    let copied = update mem s (mem t) in
    let next = strncpy n (s + 1) (t + 1) copied in if mem t == 0 then pad n (s + 1) copied else next

-- The loop of `safestrcpy` for `n` bytes at most, and the last write.
unfoldable pub safe_copy : ℕ → ℕ → ℕ → Memory → Memory
safe_copy zero s t mem = update mem s 0
safe_copy (suc n) s t mem =
    let copied = update mem s (mem t) in
    let next = safe_copy n (s + 1) (t + 1) copied in
    if mem t == 0 then update copied (s + 1) 0 else next

abbrev pub safestrcpy : ℕ → ℕ → ℕ → Memory → Memory
safestrcpy s t zero mem = mem
safestrcpy s t (suc n) mem = safe_copy n s t mem

-- The loop of `strlen`, with fuel.
unfoldable pub strlen : ℕ → ℕ → ℕ → Memory → Result ℕ
strlen zero s n mem = stop spin
strlen (suc fuel) s n mem =
    let next = strlen fuel s (n + 1) mem in if mem (s + n) == 0 then ok n else next
