-- ===== src/KernelModules/Examples.antt =====
-- 20_kernel_module: tests, and the theorem at a concrete kernel.
use mathlib.Core.Option
use eltex_homeworks.Prelude.{
  ℕ, ◌+◌, ◌-◌, ◌≡◌, refl, none, some, List, ◌++◌, min, arith, length, take, drop, replicate,
}
use eltex_homeworks.Libc.Text.{codes}
use eltex_homeworks.KernelModules.Handlers.{
  initial, strlen, KernelBuffers, IsDocumented, proc_read, proc_write, sysfs_store,
}
use eltex_homeworks.KernelModules.Contents.{proc_write-proc_read}

abbrev kernel : KernelBuffers
kernel = record {
  simple_read_from_buffer =
      λ count pos from. (take count (drop pos from), pos + min count (length from - pos));
  simple_write_to_buffer = λ to pos from. (
    take pos to
        ++ (take (length to - pos) from ++ drop (pos + min (length from) (length to - pos)) to),
    pos + min (length from) (length to - pos),
  );
}

kernel-IsDocumented : IsDocumented kernel
kernel-IsDocumented = record { reads = λ count pos from. refl; writes = λ to pos from h. refl }

-- "ab" over "hello"
tail_stays : proc_read kernel 4096 0 (codes "abllo" ++ replicate 15 0) ≡ some (codes "abllo", 5)
unfolding proc_read strlen
tail_stays = refl

no_terminator : proc_read kernel 4096 0 (replicate 20 97) ≡ none
unfolding proc_read strlen
no_terminator = refl

-- The other module takes 20 bytes and keeps 19.
one_dropped : sysfs_store (replicate 20 97) ≡ some (replicate 19 97, 20)
unfolding sysfs_store
one_dropped = refl

proc_write-proc_read_example :
    (string' : List ℕ) × (proc_write kernel (codes "ab") 0 initial ≡ some (string', 2))
    × (proc_read kernel 4096 0 string'
        ≡ Option.map
            (λ n. (codes "ab" ++ take n (drop 2 initial), 2 + n))
            (strlen (drop 2 initial)))
proc_write-proc_read_example =
    proc_write-proc_read kernel kernel-IsDocumented (codes "ab") initial 4096 (refl, (refl, tt))
      refl (omega arith) (omega arith)
