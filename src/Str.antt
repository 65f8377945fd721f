-- ===== src/Str.antt =====
-- lib/string.c. Memory is a function from addresses to bytes, pointers are addresses. A loop that
-- runs up to a terminator is on fuel; `none` means that the fuel ran out.
pub mod Copy
pub mod Strings
pub mod Concat
pub mod Compare
mod Tests
use aioncore.Base.{
  ℕ, zero, suc, ◌+◌, ◌-◌, ◌%◌, Bool, true, false, not, ◌&&◌, ◌||◌, Option, none, some, ◌==◌, ltb,
  leb, if◌then◌else◌, update,
}
use mathlib.Core.Option
use aioncore.Base.Words.{u8_mod}

abbrev pub Memory : Type 0
Memory = ℕ → ℕ

-- The loop of `strlen`: `len` characters seen.
unfoldable pub strlen_from : (fuel : ℕ) → Memory → (str len : ℕ) → Option ℕ
strlen_from zero m str len = none
strlen_from (suc fuel) m str len =
    let rest = strlen_from fuel m str (len + 1) in if m (str + len) == 0 then some len else rest

unfoldable pub strlen : (fuel : ℕ) → Memory → ℕ → Option ℕ
strlen fuel m str = strlen_from fuel m str 0

-- The loop of `strlcpy`, with `n` rounds left before `size - 1`: the memory and the index reached.
unfoldable pub copy_string : (n : ℕ) → (dst src i : ℕ) → Memory → Memory × ℕ
copy_string zero dst src i m = (m, i)
copy_string (suc n) dst src i m =
    let rest = copy_string n dst src (i + 1) (update m (dst + i) (m (src + i))) in
    if m (src + i) == 0 then (m, i) else rest

unfoldable pub strlcpy : Memory → (dst src size : ℕ) → Memory × ℕ
strlcpy m dst src size =
    let out = copy_string (size - 1) dst src 0 m in
    if size == 0 then (m, 0) else (update out.0 (dst + out.1) 0, out.1)

-- `for (i = 0; i < n; i++) d[i] = s[i]`, from `i` on with `n` rounds left.
unfoldable pub copy_forward : (n : ℕ) → (d s i : ℕ) → Memory → Memory
copy_forward zero d s i m = m
copy_forward (suc n) d s i m = copy_forward n d s (i + 1) (update m (d + i) (m (s + i)))

-- `for (i = n; i > 0; i--) d[i - 1] = s[i - 1]`
unfoldable pub copy_backward : (i : ℕ) → (d s : ℕ) → Memory → Memory
copy_backward zero d s m = m
copy_backward (suc i) d s m = copy_backward i d s (update m (d + i) (m (s + i)))

unfoldable pub memcpy : Memory → (dest src n : ℕ) → Memory
memcpy m dest src n = copy_forward n dest src 0 m

unfoldable pub memmove : Memory → (dest src n : ℕ) → Memory
memmove m dest src n =
    if ltb dest src then copy_forward n dest src 0 m else copy_backward n dest src m

unfoldable pub set_bytes : (n : ℕ) → (p value i : ℕ) → Memory → Memory
set_bytes zero p value i m = m
set_bytes (suc n) p value i m = set_bytes n p value (i + 1) (update m (p + i) (value % u8_mod))

unfoldable pub memset : Memory → (ptr value n : ℕ) → Memory
memset m ptr value n = set_bytes n ptr value 0 m

-- The sign of a difference of bytes: the first is smaller, equal or greater, by how much.
pub data Difference : Type 0 where
  same : Difference
  less more : ℕ → Difference

-- `*p1 - *p2` on bytes
unfoldable pub difference : (a b : ℕ) → Difference
difference a b =
    if a == b
    then Difference.same
    else if ltb a b
    then Difference.less (b - a)
    else Difference.more (a - b)

unfoldable pub compare_bytes : (n : ℕ) → (p1 p2 i : ℕ) → Memory → Difference
compare_bytes zero p1 p2 i m = Difference.same
compare_bytes (suc n) p1 p2 i m =
    let rest = compare_bytes n p1 p2 (i + 1) m in
    if not (m (p1 + i) == m (p2 + i)) then difference (m (p1 + i)) (m (p2 + i)) else rest

unfoldable pub memcmp : Memory → (s1 s2 n : ℕ) → Difference
memcmp m s1 s2 n = compare_bytes n s1 s2 0 m

-- `while (*s1 && *s1 == *s2)`, with the characters read as unsigned.
unfoldable pub strcmp : (fuel : ℕ) → Memory → (s1 s2 : ℕ) → Option Difference
strcmp zero m s1 s2 = none
strcmp (suc fuel) m s1 s2 =
    let rest = strcmp fuel m (s1 + 1) (s2 + 1) in
    if not (m s1 == 0) && (m s1 == m s2) then rest else some (difference (m s1) (m s2))

-- `while (n && *s1 && *s1 == *s2)`
unfoldable pub strncmp : (n : ℕ) → Memory → (s1 s2 : ℕ) → Difference
strncmp zero m s1 s2 = Difference.same
strncmp (suc n) m s1 s2 =
    let rest = strncmp n m (s1 + 1) (s2 + 1) in
    if not (m s1 == 0) && (m s1 == m s2) then rest else difference (m s1) (m s2)

-- `strlcat`, with the two lengths that it computes first.
unfoldable pub strlcat_at : Memory → (dst src size dst_len src_len : ℕ) → Memory × ℕ
strlcat_at m dst src size dst_len src_len =
    let room = size - dst_len - 1 in
    let copy_len = if ltb src_len room then src_len else room in
    let m' = copy_forward copy_len (dst + dst_len) src 0 m in
    if leb size dst_len
    then (m, dst_len + src_len)
    else (update m' (dst + dst_len + copy_len) 0, dst_len + src_len)

unfoldable pub strlcat : (fuel : ℕ) → Memory → (dst src size : ℕ) → Option (Memory × ℕ)
strlcat fuel m dst src size = Option.bind (strlen fuel m dst) (λ (dst_len : ℕ).
    Option.bind (strlen fuel m src)
      (λ (src_len : ℕ). some (strlcat_at m dst src size dst_len src_len)))
