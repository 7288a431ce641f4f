-- ===== src/Kheap/Paged.antt =====
-- kernel/mm/paging.c: what a round of the loops in `init_paging`, a `get_page` and an `alloc_frame`,
-- does to the entry and to the bitset.
use pyramid_kernel.Prelude.{
  ℕ, ◌+◌, ◌/◌, ◌^◌, ◌≤◌, ◌<◌, ◌≡◌, ◌⊎◌, inl, inr, arith, ◌∙◌, ◌==◌, if◌then◌else◌, mul32,
}
use native.Mathlib.Decide.{dec_lt}
use pyramid_kernel.Memory.{
  IsBytes, load32, store32, load32-store32_self, load32-store32_ne, store32-IsBytes,
}
use pyramid_kernel.Kernel.{Kernel}
use pyramid_kernel.Paging.{frame_size, first_free_frame}
use pyramid_kernel.Paging.FirstFree.{first_free_frame-FirstFree}
use pyramid_kernel.Paging.Frames.{
  used, used-set_frame, load32-set_frame, used-store32, set_frame-IsBytes,
}
use pyramid_kernel.Paging.Free.{allocated, allocated_entry}
use pyramid_kernel.Paging.Pages.{slot}
use pyramid_kernel.Kheap.{kheap_start}

-- The frames whose marks are in the 2048 bytes that `kmalloc` gave to the bitset.
abbrev pub own_frames : ℕ
own_frames = 16384

-- The state between the rounds: no heap, the bitset in front of the directory, behind that the tables
-- `low` and `heap` of the first 4 MiB and of the heap, and from frame `n` on no mark.
pub record Paged (low heap n : ℕ) (k : Kernel) : Type 0 where
  pub no_heap : k.kheap ≡ 0
  pub frames : k.num_of_frames ≡ 65536
  pub behind : k.frame_allocations + 2048 ≤ k.kernel_directory
  pub low_behind : k.kernel_directory + 8192 ≤ low
  pub heap_behind : k.kernel_directory + 8192 ≤ heap
  pub low_at : load32 k.mem (slot k.kernel_directory 0) ≡ low
  pub heap_at : load32 k.mem (slot k.kernel_directory kheap_start) ≡ heap
  pub unmarked : (f : ℕ) → n ≤ f → f < own_frames → used k.frame_allocations f k.mem ≡ 0
  pub bytes : IsBytes k.mem

-- With a frame to come, the search answers none behind it.
pub first_free_frame-le :
    (low heap n : ℕ) (k : Kernel) → Paged low heap n k → n < own_frames → first_free_frame k ≤ n
first_free_frame-le low heap n k paged room =
    let r = first_free_frame k in
    elim (dec_lt n r) [
      | yes below ↦ absurd (
          omega (
            arith,
            (first_free_frame-FirstFree k).used_below n (omega arith) below,
            paged.unmarked n (omega arith) room,
          ))
      | no end ↦ omega arith
    ]

module _ (page : ℕ) (k : Kernel) (small : first_free_frame k < own_frames)
    (behind : k.frame_allocations + 2048 ≤ page) where
  abbrev frame : ℕ
  frame = first_free_frame k

  abbrev stored : ℕ → ℕ
  stored = store32 k.mem page (allocated_entry (load32 k.mem page) 0 0 frame)

  same_frame : mul32 frame frame_size / frame_size ≡ frame
  same_frame = omega arith

  -- Another word behind the bitset stays.
  pub load32-allocated_ne :
      (q : ℕ)
      → k.frame_allocations + 2048 ≤ q
      → (q + 4 ≤ page) ⊎ (page + 4 ≤ q)
      → load32 (allocated k page 0 0).mem q ≡ load32 k.mem q
  load32-allocated_ne q far apart =
      load32-set_frame k.frame_allocations (mul32 frame frame_size) q stored (inr (omega arith))
      ∙ load32-store32_ne k.mem page (allocated_entry (load32 k.mem page) 0 0 frame) q apart

  pub load32-allocated_self :
      load32 k.mem page < 2 ^ 32
      → load32 (allocated k page 0 0).mem page ≡ allocated_entry (load32 k.mem page) 0 0 frame
  load32-allocated_self fits =
      load32-set_frame k.frame_allocations (mul32 frame frame_size) page stored (inr (omega arith))
      ∙ load32-store32_self k.mem page (allocated_entry (load32 k.mem page) 0 0 frame) (omega arith)

  pub used-allocated :
      (f : ℕ)
      → f < own_frames
      → IsBytes k.mem
      → used k.frame_allocations f (allocated k page 0 0).mem
        ≡ (if f == frame then 1 else used k.frame_allocations f k.mem)
  used-allocated f own bytes =
      used-set_frame k.frame_allocations (mul32 frame frame_size) f stored
        (store32-IsBytes k.mem page _ bytes)
      ∙ ground (
        arith,
        used-store32 k.frame_allocations f page (allocated_entry (load32 k.mem page) 0 0 frame)
            k.mem (inr (omega arith)),
        same_frame,
      )

-- An `alloc_frame` on an entry of the tables keeps the state, and takes one frame at most.
pub allocated-Paged :
    (low heap n page : ℕ) (k : Kernel)
    → Paged low heap n k
    → n < own_frames
    → k.kernel_directory + 8192 ≤ page
    → Paged low heap (n + 1) (allocated k page 0 0)
allocated-Paged low heap n page k paged room behind =
    let le = first_free_frame-le low heap n k paged room in
    let small : first_free_frame k < own_frames = omega arith in
    let dir = paged.behind in
    record {
      no_heap = paged.no_heap;
      frames = paged.frames;
      behind = paged.behind;
      low_behind = paged.low_behind;
      heap_behind = paged.heap_behind;
      low_at =
          load32-allocated_ne page k small (omega arith) (slot k.kernel_directory 0) (omega arith)
            (inl (omega arith))
          ∙ paged.low_at;
      heap_at =
          load32-allocated_ne page k small (omega arith) (slot k.kernel_directory kheap_start)
            (omega arith) (inl (omega arith))
          ∙ paged.heap_at;
      unmarked = λ f from own.
          used-allocated page k small (omega arith) f own paged.bytes
          ∙ ground (arith, paged.unmarked f (omega arith) own);
      bytes =
          set_frame-IsBytes k.frame_allocations (mul32 (first_free_frame k) frame_size) _
            (store32-IsBytes k.mem page _ paged.bytes);
    }
