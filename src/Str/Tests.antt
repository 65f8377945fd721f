-- ===== src/Str/Tests.antt =====
-- The string operations on concrete memory.
use Prim.Native.Nat.{min}
use aioncore.Base.{◌+◌, ◌-◌, ◌≡◌, refl, arith, inl, inr, ◌==◌, if◌then◌else◌, some}
use aioncore.Str.{Memory, strlcpy, memmove, copy_backward, strlcat}
use aioncore.Str.Copy.{in_block, memmove-at}
use aioncore.Str.Strings.{IsString, Copied, strlcpy-Copied}
use aioncore.Str.Concat.{Appended, strlcat-Appended}

-- "aion" at 100, "core" at 200
abbrev memory : Memory
memory a =
    if a == 100
    then b'a'
    else if a == 101
    then b'i'
    else if a == 102
    then b'o'
    else if a == 103
    then b'n'
    else if a == 200
    then b'c'
    else if a == 201
    then b'o'
    else if a == 202
    then b'r'
    else if a == 203
    then b'e'
    else 0

aion-IsString : IsString memory 100 4
aion-IsString = (λ i lt. ground arith, refl)

core-IsString : IsString memory 200 4
core-IsString = (λ i lt. ground arith, refl)

memmove-at_example :
    memmove memory 101 100 3 103
    ≡ (if in_block 101 3 103 then memory (100 + (103 - 101)) else memory 103)
memmove-at_example = memmove-at memory 101 100 3 103

moved : memmove memory 101 100 3 103 ≡ b'o'
unfolding memmove copy_backward
moved = refl

strlcpy-Copied_example :
    ((strlcpy memory 300 100 3).1 ≡ min 4 (3 - 1))
    × Copied memory 300 100 (min 4 (3 - 1)) (strlcpy memory 300 100 3).0
strlcpy-Copied_example =
    strlcpy-Copied memory 300 100 3 4 aion-IsString (omega arith) (inl (omega arith))

strlcat-Appended_example :
    (out : Memory) × (strlcat 9 memory 100 200 8 ≡ some (out, 4 + 4))
    × Appended memory 100 4 200 (min 4 (8 - 4 - 1)) out
strlcat-Appended_example =
    strlcat-Appended 9 memory 100 200 8 4 4 aion-IsString core-IsString (omega arith) (omega arith)
      (omega arith) (inr (omega arith))
