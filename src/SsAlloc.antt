-- ===== src/SsAlloc.antt =====
-- src/ssalloc.c: one of a thread's pool allocators, as it is built without SSALLOC_USE_MALLOC.
pub mod Queue
use qsense.Prelude.{
  ℕ, ◌+◌, ◌-◌, ◌^◌, ◌%◌, Bool, true, false, ◌&&◌, Option, none, some, ◌==◌, ltb, if◌then◌else◌, put,
}
use Prim.Native.Nat.{bit_and}
use qsense.DoubleLlist.{Ptr, null}

-- Row `allocator` of each of the arrays: `ssalloc_app_mem`, `alloc_next`, `ssalloc_size` are 64-bit,
-- the indices into the free list are 16-bit.
pub record Pool : Type 0 where
  pub ssalloc_app_mem : Ptr
  pub alloc_next : ℕ
  pub ssalloc_size : ℕ
  pub ssalloc_free_list : ℕ → Ptr
  pub ssalloc_free_cur : ℕ
  pub ssalloc_free_num : ℕ

-- `ssalloc_init` of one row: `mem` is what `memalign` returned, which an assertion wants not null.
unfoldable pub ssalloc_init : Pool → (mem : Ptr) → Option Pool
ssalloc_init p mem = if mem == null then none else some (record p { ssalloc_app_mem = mem })

unfoldable pub ssalloc_set : Pool → (mem : Ptr) → Pool
ssalloc_set p mem = record p { ssalloc_app_mem = mem }

unfoldable pub ssalloc_offset : Pool → ℕ → Pool
ssalloc_offset p size = record p { ssalloc_app_mem = (p.ssalloc_app_mem + size) % 2 ^ 64 }

unfoldable pub ssalloc_alloc : Pool → ℕ → Ptr × Pool
ssalloc_alloc p size =
    if ltb 2 p.ssalloc_free_num
    then (
      p.ssalloc_free_list ((p.ssalloc_free_cur + 2 ^ 16 - p.ssalloc_free_num) % 2 ^ 16),
      record p { ssalloc_free_num = (p.ssalloc_free_num + 2 ^ 16 - 1) % 2 ^ 16 },
    )
    else if ltb p.ssalloc_size ((p.alloc_next + size) % 2 ^ 64)
    then (null, p)
    else (
      (p.ssalloc_app_mem + p.alloc_next) % 2 ^ 64,
      record p { alloc_next = (p.alloc_next + size) % 2 ^ 64 },
    )

-- The offset that `ssalloc_aligned_alloc` adds before the block.
abbrev pub alignment_offset : (retu alignement : ℕ) → ℕ
alignment_offset retu alignement =
    if bit_and retu (alignement - 1) == 0 then 0 else alignement - bit_and retu (alignement - 1)

-- `alignement` is positive. A block out of bounds is only warned of.
unfoldable pub ssalloc_aligned_alloc : Pool → (alignement size : ℕ) → Ptr × Pool
ssalloc_aligned_alloc p alignement size =
    let retu = (p.ssalloc_app_mem + p.alloc_next) % 2 ^ 64 in
    let offset = alignment_offset retu alignement in
    ((retu + offset) % 2 ^ 64, record p { alloc_next = (p.alloc_next + offset + size) % 2 ^ 64 })

-- No result is an exit of the program. The test adds one to `ssalloc_free_cur` as an `int`.
unfoldable pub ssfree_alloc : Pool → Ptr → Option Pool
ssfree_alloc p ptr =
    let num = (p.ssalloc_free_num + 1) % 2 ^ 16 in
    if (num == 0) && (p.ssalloc_free_cur + 1 == 0)
    then none
    else some (record p {
      ssalloc_free_num = num;
      ssalloc_free_list = put p.ssalloc_free_list p.ssalloc_free_cur ptr;
      ssalloc_free_cur = (p.ssalloc_free_cur + 1) % 2 ^ 16;
    })
