-- ===== src/Tasks/Text.antt =====
-- The task texts of lab5: `generate_random_string` of lab5/zad3/src/common.h, and `strncpy` as the
-- programs use it.
use sys_op.Prelude.{
  ℕ, zero, suc, ◌+◌, ◌%◌, ◌<◌, ◌==◌, ◌≡◌, ◌≢◌, refl, List, [], ◌∷◌, if◌then◌else◌, codes, length,
  get_or, replicate, arith, Bool, true, not, ◌&&◌,
}

-- `Task.text`, an array of `TASK_LEN` bytes.
abbrev pub Task : Type 0
Task = List ℕ

abbrev pub task_len : ℕ
task_len = 11

-- What an array holds before a task is put there.
abbrev pub blank : Task
blank = replicate task_len 0

-- The characters of `charset`, without its closing NUL.
abbrev charset : List ℕ
charset = codes "ABCDEFGHIJKLMNOPQRSTUVWXYZabcdefghijklmnopqrstuvwxyz0123456789"

-- `strncpy(dst, src, n)`: the `n` bytes of `dst`. Behind a NUL it pads with NULs.
unfoldable pub strncpy : ℕ → List ℕ → List ℕ
strncpy zero src = []
strncpy (suc n) [] = replicate (suc n) 0
strncpy (suc n) (c ∷ src) =
    let rest = strncpy n src in if c == 0 then replicate (suc n) 0 else c ∷ rest

-- The loop of `generate_random_string` at index `i`, with `n` rounds to go: `rand i` is the value
-- of `rand()` in round `i`.
generate_from : (ℕ → ℕ) → ℕ → ℕ → List ℕ
generate_from rand i zero = 0 ∷ []
generate_from rand i (suc n) =
    get_or charset (rand i % length charset) 0 ∷ generate_from rand (i + 1) n

unfoldable pub generate_random_string : (ℕ → ℕ) → ℕ → List ℕ
unfolding generate_from
generate_random_string rand n = generate_from rand 0 n

-- A text that a copy leaves as it is: at most `TASK_LEN - 1` characters and a NUL, padded by NULs.
abbrev pub IsText : Task → Type 0
IsText t = strncpy task_len t ≡ t

non_zero : (n : ℕ) → List ℕ → Bool
non_zero zero cs = true
non_zero (suc n) cs = not (get_or cs n 0 == 0) && non_zero n cs

non_zero_sound : (n k : ℕ) (cs : List ℕ) → non_zero n cs ≡ true → k < n → get_or cs k 0 ≢ 0
unfolding non_zero
non_zero_sound zero k cs h lt = absurd (omega arith)
non_zero_sound (suc n) k cs h lt = ground (arith, non_zero_sound n k cs)

charset_non_zero : (k : ℕ) → k < length charset → get_or charset k 0 ≢ 0
unfolding non_zero
charset_non_zero k = non_zero_sound 62 k charset refl

strncpy-generate_from :
    (rand : ℕ → ℕ) (i n : ℕ) → strncpy (suc n) (generate_from rand i n) ≡ generate_from rand i n
unfolding strncpy generate_from
strncpy-generate_from rand i zero = refl
strncpy-generate_from rand i (suc n) =
    ground
      (arith, strncpy-generate_from rand (i + 1) n, charset_non_zero (rand i % 62) (omega arith))

pub generate_random_string-IsText : (rand : ℕ → ℕ) → IsText (generate_random_string rand 10)
unfolding generate_random_string
generate_random_string-IsText rand = strncpy-generate_from rand 0 10
