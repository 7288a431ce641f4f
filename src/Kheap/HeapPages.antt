-- ===== src/Kheap/HeapPages.antt =====
-- kernel/mm/paging.c: the third loop of `init_paging`, which gives frames to the pages of the heap.
use pyramid_kernel.Prelude.{
  ℕ, zero, suc, ◌+◌, ◌*◌, ◌/◌, ◌≤◌, ◌<◌, ◌≡◌, ◌≢◌, arith, ◌∙◌, ap, refl, add32,
}
use native.Mathlib.Decide.{ℕ_discrete}
use pyramid_kernel.Memory.{load32}
use pyramid_kernel.Kernel.{Kernel, ok}
use pyramid_kernel.Paging.{frame_of, alloc_frame, page_in}
use pyramid_kernel.Paging.Free.{allocated, alloc_frame-allocated, alloc_frame_held}
use pyramid_kernel.Paging.Pages.{slot}
use pyramid_kernel.Kheap.{kheap_start}
use pyramid_kernel.Kheap.Setup.{allocate_heap_from}
use pyramid_kernel.Kheap.MapHeap.{IsHeapAddress, heap_page_present}
use pyramid_kernel.Kheap.Paged.{Paged, own_frames, allocated-Paged}

-- An `alloc_frame` on any entry of the tables, with a frame or without, keeps the state.
alloc_frame-Paged :
    (low heap n page : ℕ) (k : Kernel)
    → Paged low heap n k
    → n < own_frames
    → k.kernel_directory + 8192 ≤ page
    → (k' : Kernel) × (alloc_frame page 0 0 k ≡ ok tt k')
      × Paged low heap (n + 1) k'
      × (k' ≡ record k { mem = k'.mem })
alloc_frame-Paged low heap n page k paged room behind =
    elim (ℕ_discrete (frame_of (load32 k.mem page)) 0) [
      | yes unset ↦ (
        allocated k page 0 0,
        alloc_frame-allocated page 0 0 k unset (omega (arith, paged.frames)),
        allocated-Paged low heap n page k paged room behind,
        refl,
      )
      | no held ↦ (
        k,
        alloc_frame_held page 0 0 k held,
        record {
          no_heap = paged.no_heap;
          frames = paged.frames;
          behind = paged.behind;
          low_behind = paged.low_behind;
          heap_behind = paged.heap_behind;
          low_at = paged.low_at;
          heap_at = paged.heap_at;
          unmarked = λ f from own. paged.unmarked f (omega arith) own;
          bytes = paged.bytes;
        },
        refl,
      )
    ]

-- The third loop returns, and changes the memory alone.
pub allocate_heap_from-Paged :
    (fuel low heap left n i : ℕ) (k : Kernel)
    → Paged low heap n k
    → n + left ≤ own_frames
    → kheap_start ≤ i
    → i + left * 4096 ≤ kheap_start + 0x40_0000
    → (end : ℕ) × (k' : Kernel) × (allocate_heap_from fuel left i k ≡ ok tt k')
      × Paged low heap end k'
      × (k' ≡ record k { mem = k'.mem })
unfolding allocate_heap_from
allocate_heap_from-Paged fuel low heap zero n i k paged room from fits = (n, k, refl, paged, refl)
allocate_heap_from-Paged fuel low heap (suc left) n i k paged room from fits =
    let here : IsHeapAddress i = (from, omega arith) in
    let present : load32 k.mem (slot k.kernel_directory kheap_start) ≢ 0 =
      omega (arith, paged.heap_at, paged.heap_behind, paged.behind) in
    let table = load32 k.mem (slot k.kernel_directory kheap_start) in
    let page = heap_page_present fuel k present i 1 here in
    let (k₁, frame, paged₁, same) =
      alloc_frame-Paged low heap n (page_in table (i / 0x1000)) k paged (omega arith)
        (omega (arith, paged.heap_at, paged.heap_behind)) in
    let (end, k', e, paged', same') =
      allocate_heap_from-Paged fuel low heap left (n + 1) (i + 4096) k₁ paged₁ (omega arith)
        (omega arith) (omega arith) in
    let next : add32 i 4096 ≡ i + 4096 = omega arith in
    (
      end,
      k',
      rw (page, frame, next) e,
      paged',
      same' ∙ ap (λ (s : Kernel). record s { mem = k'.mem }) same,
    )
