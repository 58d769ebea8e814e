-- ===== src/KernelModules/Handlers.antt =====
-- 20_kernel_module/proc/proc_module.c (dev/dev_module.c has the same two handlers under other names) and
-- sys/proc_module.c. The array `string` is its 20 bytes. The two functions of the kernel that copy between
-- a buffer and a process are arguments.
use mathlib.Core.Option
use eltex_homeworks.Prelude.{
  ℕ, suc, ◌+◌, ◌-◌, ◌≤◌, ◌≡◌, Option, none, some, List, [], ◌∷◌, ◌++◌, min, ltb, ◌==◌,
  if◌then◌else◌, length, take, drop, replicate,
}
use eltex_homeworks.Libc.Text.{Text, codes, snprintf}

abbrev pub size_max : ℕ
size_max = 20

abbrev pub initial : List ℕ
initial = codes "hello" ++ replicate 15 0

-- strlen; `none` if there is no NUL in the array, so that it reads beyond its end.
unfoldable pub strlen : List ℕ → Option ℕ
strlen [] = none
strlen (c ∷ s) = if c == 0 then some 0 else Option.map suc (strlen s)

-- simple_read_from_buffer gives the bytes that the process gets from the available ones, and the new
-- offset; simple_write_to_buffer gives the new bytes of the buffer, and the new offset. The number of bytes
-- that is returned is how far the offset moves.
pub record KernelBuffers : Type 0 where
  pub simple_read_from_buffer : ℕ → ℕ → List ℕ → List ℕ × ℕ
  pub simple_write_to_buffer : List ℕ → ℕ → List ℕ → List ℕ × ℕ

-- Their documentation: up to `count` bytes are copied from or to the offset, as far as the buffer goes, and
-- the offset moves by as many.
pub record IsDocumented (k : KernelBuffers) : Type 0 where
  pub reads :
      (count pos : ℕ) (from : List ℕ)
      → k.simple_read_from_buffer count pos from
        ≡ (take count (drop pos from), pos + min count (length from - pos))
  pub writes :
      (to : List ℕ) (pos : ℕ) (from : List ℕ)
      → pos ≤ length to
      → k.simple_write_to_buffer to pos from ≡ (
        take pos to
            ++ (take (length to - pos) from ++ drop (pos + min (length from) (length to - pos)) to),
        pos + min (length from) (length to - pos),
      )

module _ (k : KernelBuffers) where
  open k use {simple_read_from_buffer, simple_write_to_buffer}

  -- `none` where strlen reads beyond the array.
  unfoldable pub proc_read : ℕ → ℕ → List ℕ → Option (List ℕ × ℕ)
  proc_read size off string =
      Option.map (λ n. simple_read_from_buffer size off (take n string)) (strlen string)

  -- `none` for -EINVAL.
  unfoldable pub proc_write : List ℕ → ℕ → List ℕ → Option (List ℕ × ℕ)
  proc_write buff off string =
      if ltb size_max (length buff) then none else some (simple_write_to_buffer string off buff)

-- scnprintf(buff, PAGE_SIZE, "%s\n", string), where `string` is the text up to its NUL
unfoldable pub sysfs_show : Text → Text
sysfs_show string = string ++ 10 ∷ []

-- The bytes of a write, which the kernel ends with a NUL: the new string and the count that is returned.
-- `none` for -EINVAL.
unfoldable pub sysfs_store : Text → Option (Text × ℕ)
sysfs_store buff =
    if ltb size_max (length buff) then none else some (snprintf size_max buff, length buff)
