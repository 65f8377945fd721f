-- ===== src/Str/Concat.antt =====
-- `strlcat` of lib/string.c.
use Prim.Native.Nat.{min}
use mathlib.Core.Option
use aioncore.Base.{
  ℕ, ◌+◌, ◌-◌, ◌≤◌, ◌<◌, ◌≡◌, refl, true, false, arith, ltb, leb, if◌then◌else◌, update, ◌∙◌, ap,
  some,
}
use aioncore.Str.{Memory, copy_forward, strlcat_at, strlcat}
use aioncore.Str.Strings.{IsString, strlen-IsString, Apart, Copied, Copied_lem}

strlcat-at :
    (fuel : ℕ) (m : Memory) (dst src size d n : ℕ)
    → IsString m dst d
    → IsString m src n
    → d < fuel
    → n < fuel
    → strlcat fuel m dst src size ≡ some (strlcat_at m dst src size d n)
unfolding strlcat Option.bind
strlcat-at fuel m dst src size d n sd sn hd hn =
    rw (strlen-IsString fuel m dst d sd hd) (rw (strlen-IsString fuel m src n sn hn) refl)

strlcat_at-room :
    (m : Memory) (dst src size d n : ℕ)
    → d < size
    → let c = min n (size - d - 1) in
      strlcat_at m dst src size d n
      ≡ (update (copy_forward c (dst + d) src 0 m) (dst + d + c) 0, d + n)
unfolding strlcat_at
strlcat_at-room m dst src size d n lt =
    let c : (if ltb n (size - d - 1) then n else size - d - 1) ≡ min n (size - d - 1) =
      ground arith in
    let b : leb size d ≡ false = ground arith in rw b (rw c refl)

-- What an append leaves: the old characters, then `c` of the source, then a terminator.
pub record Appended (m : Memory) (dst d src c : ℕ) (out : Memory) : Type 0 where
  pub added : Copied m (dst + d) src c out
  pub terminated : IsString out dst (d + c)

-- With fuel above both lengths strlcat returns; if the old string and its terminator fit the size
-- and the source lies apart, it appends as many characters as fit before the terminator, changes
-- no other byte, and returns the sum of the lengths.
pub strlcat-Appended :
    (fuel : ℕ) (m : Memory) (dst src size d n : ℕ)
    → IsString m dst d
    → IsString m src n
    → d < fuel
    → n < fuel
    → d < size
    → Apart dst size src n
    → (out : Memory) × (strlcat fuel m dst src size ≡ some (out, d + n))
      × Appended m dst d src (min n (size - d - 1)) out
strlcat-Appended fuel m dst src size d n sd sn hd hn lt apart =
    let c = min n (size - d - 1) in
    let out = update (copy_forward c (dst + d) src 0 m) (dst + d + c) 0 in
    let copied : Copied m (dst + d) src c out =
      Copied_lem m (dst + d) src (size - d) n c sn (ground (arith, apart)) (omega arith)
        (omega arith) in
    (
      out,
      strlcat-at fuel m dst src size d n sd sn hd hn
          ∙ ap some (strlcat_at-room m dst src size d n lt),
      record {
        added = copied;
        terminated = (
          λ i small. ground (arith, copied.bytes (dst + i), sd.0 i, copied.terminated.0 (i - d)),
          ground (arith, copied.terminated.1),
        );
      },
    )

-- With fuel above both lengths, if the old string fills the size, strlcat changes nothing and
-- returns the sum of the lengths.
pub strlcat_full :
    (fuel : ℕ) (m : Memory) (dst src size d n : ℕ)
    → IsString m dst d
    → IsString m src n
    → d < fuel
    → n < fuel
    → size ≤ d
    → strlcat fuel m dst src size ≡ some (m, d + n)
unfolding strlcat_at
strlcat_full fuel m dst src size d n sd sn hd hn le =
    strlcat-at fuel m dst src size d n sd sn hd hn
    ∙ (let b : leb size d ≡ true = ground arith in rw b refl)
