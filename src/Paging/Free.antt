-- ===== src/Paging/Free.antt =====
-- kernel/mm/paging.c: what `alloc_frame` and `free_frame` do to an entry and to the bitset.
use pyramid_kernel.Prelude.{
  ℕ, ◌+◌, ◌*◌, ◌/◌, ◌%◌, ◌^◌, ◌≤◌, ◌<◌, ◌≡◌, ◌≢◌, ap, ◌∙◌, ◌⊎◌, arith, ◌==◌, if◌then◌else◌, not,
  mul32, minus_one, false,
}
use native.Mathlib.Decide.{dec_lt}
use pyramid_kernel.Memory.{
  IsBytes, load32, store32, load32-lt, load32-store32_self, store32-IsBytes,
}
use pyramid_kernel.Kernel.{Kernel, ok, panicked}
use pyramid_kernel.Paging.{
  frame_size, section_size, section_at, set_frame, clear_frame, first_free_frame, frame_of,
  with_frame, with_flags, alloc_frame, free_frame,
}
use pyramid_kernel.Paging.FirstFree.{first_free_frame-FirstFree}
use pyramid_kernel.Paging.Frames.{
  used, used-set_frame, used-clear_frame, load32-set_frame, load32-clear_frame, used-store32,
}

-- The number of frames that the bitset covers.
abbrev pub covered : Kernel → ℕ
covered k = k.num_of_frames / section_size * section_size

-- The entry at `page` overlaps no section of the bitset.
abbrev pub Apart : Kernel → ℕ → Type 0
Apart k page =
    (page + 4 ≤ k.frame_allocations)
    ⊎ (section_at k.frame_allocations (k.num_of_frames / section_size) + 4 ≤ page)

-- The entry that `alloc_frame` writes.
abbrev pub allocated_entry : (entry is_supervisor is_writeable frame : ℕ) → ℕ
allocated_entry entry is_supervisor is_writeable frame =
    with_frame (with_flags entry 1 (if not (is_writeable == 0) then 1 else 0) 0) frame

-- The state after it.
abbrev pub allocated : Kernel → (page is_supervisor is_writeable : ℕ) → Kernel
allocated k page is_supervisor is_writeable =
    let frame = first_free_frame k in
    record k {
      mem = set_frame k.frame_allocations (mul32 frame frame_size) (
          store32 k.mem page
            (allocated_entry (load32 k.mem page) is_supervisor is_writeable frame));
    }

-- The search never answers `(uint32_t)-1`.
first_free_frame_ne :
    (k : Kernel) → k.num_of_frames < 2 ^ 32 → (first_free_frame k == minus_one) ≡ false
first_free_frame_ne k small =
    let r = first_free_frame k in
    let bound : r ≤ (0 + k.num_of_frames / section_size) * 32 =
      (first_free_frame-FirstFree k).to_end in
    let below : r < minus_one = omega arith in ground arith

-- For an entry without a frame `alloc_frame` takes the result of the search, whatever it is.
pub alloc_frame-allocated :
    (page is_supervisor is_writeable : ℕ) (k : Kernel)
    → frame_of (load32 k.mem page) ≡ 0
    → k.num_of_frames < 2 ^ 32
    → alloc_frame page is_supervisor is_writeable k
      ≡ ok tt (allocated k page is_supervisor is_writeable)
unfolding alloc_frame
alloc_frame-allocated page is_supervisor is_writeable k unset small =
    ground (arith, first_free_frame_ne k small)

-- With a 32-bit number of frames `alloc_frame` never panics: "No free frames!" is unreachable.
pub alloc_frame-ne-panicked :
    (page is_supervisor is_writeable : ℕ) (k : Kernel)
    → k.num_of_frames < 2 ^ 32
    → alloc_frame page is_supervisor is_writeable k ≢ panicked
unfolding alloc_frame
alloc_frame-ne-panicked page is_supervisor is_writeable k small =
    ground (arith, first_free_frame_ne k small)

-- What `alloc_frame` has done: the entry is present, writable as asked, not for user mode, and holds a
-- frame that was free and is used now; no other covered frame changes its mark.
pub record Allocated (k : Kernel) (page is_writeable frame : ℕ) (k' : Kernel) : Type 0 where
  pub frame_held : frame_of (load32 k'.mem page) ≡ frame
  pub flags : load32 k'.mem page % 8 ≡ (if is_writeable == 0 then 0 else 2) + 1
  pub was_free : used k.frame_allocations frame k.mem ≡ 0
  pub marks :
      (f : ℕ)
      → f < covered k
      → used k.frame_allocations f k'.mem
        ≡ (if f == frame then 1 else used k.frame_allocations f k.mem)

-- In a memory of bytes, with at most `2 ^ 20` frames and a free one among those covered, for an
-- entry apart from the bitset that has no frame: `alloc_frame` returns, gives the entry the lowest free
-- frame, and marks this frame, and no other, as used. The entry is present, and writable as asked; its
-- US bit is 0, whatever `is_supervisor` asks for.
pub alloc_frame-Allocated :
    (page is_supervisor is_writeable : ℕ) (k : Kernel)
    → Apart k page
    → frame_of (load32 k.mem page) ≡ 0
    → IsBytes k.mem
    → k.num_of_frames ≤ 2 ^ 20
    → first_free_frame k < covered k
    → (k' : Kernel) × (alloc_frame page is_supervisor is_writeable k ≡ ok tt k')
      × Allocated k page is_writeable (first_free_frame k) k'
alloc_frame-Allocated page is_supervisor is_writeable k apart unset bytes small free =
    let frame = first_free_frame k in
    let base = k.frame_allocations in
    let entry = allocated_entry (load32 k.mem page) is_supervisor is_writeable frame in
    let m₁ = store32 k.mem page entry in
    let fits : load32 k.mem page < 2 ^ 32 = load32-lt k.mem page bytes in
    let same : mul32 frame frame_size / frame_size ≡ frame = omega arith in
    let stored : load32 (allocated k page is_supervisor is_writeable).mem page ≡ entry =
      load32-set_frame base (mul32 frame frame_size) page m₁ (omega arith)
      ∙ load32-store32_self k.mem page entry (ground arith) in
    (
      allocated k page is_supervisor is_writeable,
      alloc_frame-allocated page is_supervisor is_writeable k unset (omega arith),
      record {
        frame_held = ap frame_of stored ∙ omega arith;
        flags = ap (λ e. e % 8) stored ∙ ground arith;
        was_free = (first_free_frame-FirstFree k).free (omega arith);
        marks = λ f h.
            used-set_frame base (mul32 frame frame_size) f m₁
              (store32-IsBytes k.mem page entry bytes)
            ∙ ground (arith, used-store32 base f page entry k.mem (omega arith), same);
      },
    )

-- In a memory of bytes, with fewer than `2 ^ 20` frames, all covered ones used, for an entry
-- apart from the bitset that has no frame: `alloc_frame` still returns, and
-- gives the entry the number of covered frames, the first that the bitset does not cover.
pub alloc_frame_exhausted :
    (page is_supervisor is_writeable : ℕ) (k : Kernel)
    → Apart k page
    → frame_of (load32 k.mem page) ≡ 0
    → IsBytes k.mem
    → k.num_of_frames < 2 ^ 20
    → ((f : ℕ) → f < covered k → used k.frame_allocations f k.mem ≡ 1)
    → (k' : Kernel) × (alloc_frame page is_supervisor is_writeable k ≡ ok tt k')
      × (frame_of (load32 k'.mem page) ≡ covered k)
alloc_frame_exhausted page is_supervisor is_writeable k apart unset bytes small all =
    let frame = first_free_frame k in
    let base = k.frame_allocations in
    let entry = allocated_entry (load32 k.mem page) is_supervisor is_writeable frame in
    let m₁ = store32 k.mem page entry in
    let fits : load32 k.mem page < 2 ^ 32 = load32-lt k.mem page bytes in
    let stop : frame ≤ (0 + k.num_of_frames / section_size) * 32 =
      (first_free_frame-FirstFree k).to_end in
    let last : frame ≡ covered k = elim (dec_lt frame (covered k)) [
      | yes free ↦
          absurd (omega (arith, all frame free, (first_free_frame-FirstFree k).free (omega arith)))
      | no end ↦ omega arith
    ] in
    let stored : load32 (allocated k page is_supervisor is_writeable).mem page ≡ entry =
      load32-set_frame base (mul32 frame frame_size) page m₁ (omega arith)
      ∙ load32-store32_self k.mem page entry (ground arith) in
    (
      allocated k page is_supervisor is_writeable,
      alloc_frame-allocated page is_supervisor is_writeable k unset (omega arith),
      ap frame_of stored ∙ omega arith,
    )

-- An entry that has a frame is left alone.
pub alloc_frame_held :
    (page is_supervisor is_writeable : ℕ) (k : Kernel)
    → frame_of (load32 k.mem page) ≢ 0
    → alloc_frame page is_supervisor is_writeable k ≡ ok tt k
unfolding alloc_frame
alloc_frame_held page is_supervisor is_writeable k held = ground arith

-- In a memory of bytes, for an entry apart from the bitset with a
-- covered frame that is not 0: `free_frame` empties the entry, but it hands the frame's number to
-- `clear_frame`, which wants an address. The frame itself keeps its mark, and the frame numbered
-- `frame / 4096` is marked free.
pub free_frame_leaks :
    (page : ℕ) (k : Kernel)
    → Apart k page
    → IsBytes k.mem
    → frame_of (load32 k.mem page) ≢ 0
    → frame_of (load32 k.mem page) < covered k
    → let frame = frame_of (load32 k.mem page) in
      (k' : Kernel) × (free_frame page k ≡ ok tt k')
      × (frame_of (load32 k'.mem page) ≡ 0)
      × (used k.frame_allocations frame k'.mem ≡ used k.frame_allocations frame k.mem)
      × (used k.frame_allocations (frame / 4096) k'.mem ≡ 0)
unfolding free_frame
free_frame_leaks page k apart bytes held within =
    let base = k.frame_allocations in
    let frame = frame_of (load32 k.mem page) in
    let m₁ = clear_frame base frame k.mem in
    let kept : load32 m₁ page ≡ load32 k.mem page =
      load32-clear_frame base frame page k.mem (omega arith) in
    let fits : load32 k.mem page < 2 ^ 32 = load32-lt k.mem page bytes in
    let entry = with_frame (load32 m₁ page) 0 in
    let m₂ = store32 m₁ page entry in
    (
      record k { mem = m₂ },
      ground arith,
      ap frame_of (load32-store32_self m₁ page entry (omega arith)) ∙ omega arith,
      used-store32 base frame page entry m₁ (omega arith)
          ∙ used-clear_frame base frame frame k.mem bytes
          ∙ ground arith,
      used-store32 base (frame / 4096) page entry m₁ (omega arith)
          ∙ used-clear_frame base frame (frame / 4096) k.mem bytes
          ∙ ground arith,
    )
