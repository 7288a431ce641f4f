-- ===== src/Kheap/Identity.antt =====
-- kernel/mm/paging.c: the second loop of `init_paging`, which maps the pages up to `placement_address` to
-- themselves.
use pyramid_kernel.Prelude.{
  ℕ, zero, suc, ◌+◌, ◌*◌, ◌/◌, ◌≤◌, ◌<◌, ◌≡◌, ◌≢◌, arith, ◌∙◌, ap, sym, refl, ltb, add32, true,
  false,
}
use mathlib.Core.Path.{subst}
use native.Mathlib.Decide.{ℕ_discrete, dec_lt}
use pyramid_kernel.Memory.{load32}
use pyramid_kernel.Kernel.{Kernel, ok}
use pyramid_kernel.Paging.{first_free_frame, alloc_frame, get_page, page_in}
use pyramid_kernel.Paging.FirstFree.{first_free_frame-FirstFree}
use pyramid_kernel.Paging.Frames.{used}
use pyramid_kernel.Paging.Free.{allocated, alloc_frame-allocated}
use pyramid_kernel.Paging.Pages.{slot, get_page_present}
use pyramid_kernel.Kheap.Kmalloc.{kmalloc_ap}
use pyramid_kernel.Kheap.Setup.{identity_map_from}
use pyramid_kernel.Kheap.Paged.{
  Paged, own_frames, first_free_frame-le, load32-allocated_ne, load32-allocated_self,
  used-allocated, allocated-Paged,
}

-- What the second loop keeps: the first `n` frames are used, and the first `n` entries of the table
-- `low` are present and hold them, each the frame of its own number; the other entries are empty.
pub record Identity (low heap n : ℕ) (k : Kernel) : Type 0 where
  pub paged : Paged low heap n k
  pub marked : (f : ℕ) → f < n → used k.frame_allocations f k.mem ≡ 1
  pub held : (j : ℕ) → j < n → load32 k.mem (low + 4 * j) ≡ 4096 * j + 1
  pub empty : (j : ℕ) → n ≤ j → j < 1024 → load32 k.mem (low + 4 * j) ≡ 0

module _ (low heap n : ℕ) (k : Kernel) (state : Identity low heap n k) (room : n < 1024) where
  abbrev page : ℕ
  page = low + 4 * n

  -- The search answers the number of the round.
  next_frame : first_free_frame k ≡ n
  next_frame =
      let r = first_free_frame k in
      let le : r ≤ n = first_free_frame-le low heap n k state.paged (omega arith) in
      let frames = state.paged.frames in
      elim (dec_lt r n) [
        | yes below ↦
            absurd (
              omega
                (arith, state.marked r below, (first_free_frame-FirstFree k).free (omega arith)))
        | no end ↦ omega arith
      ]

  abbrev small : first_free_frame k < own_frames
  small = omega (arith, next_frame)

  abbrev behind : k.frame_allocations + 2048 ≤ page
  behind = omega (arith, state.paged.behind, state.paged.low_behind)

  entered : load32 (allocated k page 0 0).mem page ≡ 4096 * n + 1
  entered =
      load32-allocated_self page k small behind (omega (arith, state.empty n (omega arith) room))
      ∙ omega (arith, state.empty n (omega arith) room, next_frame)

  kept :
      (j : ℕ) → j ≢ n → load32 (allocated k page 0 0).mem (low + 4 * j) ≡ load32 k.mem (low + 4 * j)
  kept j ne =
      load32-allocated_ne page k small behind (low + 4 * j)
        (omega (arith, state.paged.behind, state.paged.low_behind)) (omega arith)

  -- A round of the loop keeps it.
  allocated-Identity : Identity low heap (n + 1) (allocated k page 0 0)
  allocated-Identity = record {
    paged =
        allocated-Paged low heap n page k state.paged (omega arith)
          (omega (arith, state.paged.low_behind));
    marked = λ f below.
        used-allocated page k small behind f (omega arith) state.paged.bytes
        ∙ elim (ℕ_discrete f n) [
          | yes e ↦ ground (arith, next_frame)
          | no ne ↦ ground (arith, next_frame, state.marked f (omega arith))
        ];
    held = λ j below. elim (ℕ_discrete j n) [
      | yes e ↦
          subst (λ i. load32 (allocated k page 0 0).mem (low + 4 * i) ≡ 4096 * i + 1) (sym e)
            entered
      | no ne ↦ kept j ne ∙ state.held j (omega arith)
    ];
    empty = λ j from own. kept j (omega arith) ∙ state.empty j (omega arith) own;
  }

  round_call : alloc_frame page 0 0 k ≡ ok tt (allocated k page 0 0)
  round_call =
      alloc_frame-allocated page 0 0 k (omega (arith, state.empty n (omega arith) room))
        (omega (arith, state.paged.frames))

-- An address of the first 4 MiB is in the table `low`.
pub low_page :
    (fuel low heap n address make : ℕ) (k : Kernel)
    → Paged low heap n k
    → address < 0x40_0000
    → get_page (kmalloc_ap fuel) address make k.kernel_directory k
      ≡ ok (low + 4 * (address / 4096)) k
low_page fuel low heap n address make k paged own =
    let same : slot k.kernel_directory address ≡ slot k.kernel_directory 0 = omega arith in
    let at : load32 k.mem (slot k.kernel_directory address) ≡ low =
      ap (load32 k.mem) same ∙ paged.low_at in
    let index : page_in low (address / 0x1000) ≡ low + 4 * (address / 4096) = omega arith in
    get_page_present (kmalloc_ap fuel) address make k.kernel_directory k
      (omega (arith, at, paged.low_behind))
    ∙ ap (λ t. ok (page_in t (address / 0x1000)) k) at
    ∙ ap (λ p. ok p k) index

-- In front of the end of the second loop a round goes on with the next.
identity_map_from_round :
    (fuel rounds low n : ℕ) (k : Kernel)
    → get_page (kmalloc_ap fuel) (4096 * n) 1 k.kernel_directory k ≡ ok (low + 4 * n) k
    → alloc_frame (low + 4 * n) 0 0 k ≡ ok tt (allocated k (low + 4 * n) 0 0)
    → n < 1024
    → k.placement_address + 0x2000 ≤ 0x40_0000
    → 4096 * n < k.placement_address + 4096
    → identity_map_from fuel (suc rounds) (4096 * n) k
      ≡ identity_map_from fuel rounds (4096 * (n + 1)) (allocated k (low + 4 * n) 0 0)
unfolding identity_map_from
identity_map_from_round fuel rounds low n k page frame own place more =
    let test : ltb (4096 * n) (add32 k.placement_address 4096) ≡ true = ground arith in
    let next : add32 (4096 * n) 4096 ≡ 4096 * (n + 1) = omega arith in
    rw (test, page, frame, next) refl

identity_map_from_end :
    (fuel rounds i : ℕ) (k : Kernel)
    → k.placement_address + 0x2000 ≤ 0x40_0000
    → k.placement_address + 4096 ≤ i
    → identity_map_from fuel (suc rounds) i k ≡ ok tt k
unfolding identity_map_from
identity_map_from_end fuel rounds i k place out =
    let test : ltb i (add32 k.placement_address 4096) ≡ false = ground arith in rw test refl

-- From round `n` on, with rounds enough to reach the end, the second loop returns; it changes the
-- memory alone, and has mapped all pages below `placement_address + 4096`.
pub identity_map_from-Identity :
    (fuel low heap rounds n : ℕ) (k : Kernel)
    → Identity low heap n k
    → k.placement_address + 0x2000 ≤ 0x40_0000
    → 4096 * n < k.placement_address + 0x2000
    → k.placement_address + 0x2000 ≤ 4096 * (n + rounds)
    → (end : ℕ) × (k' : Kernel) × (identity_map_from fuel rounds (4096 * n) k ≡ ok tt k')
      × Identity low heap end k'
      × (k.placement_address + 4096 ≤ 4096 * end)
      × (end ≤ 1024)
      × (k' ≡ record k { mem = k'.mem })
identity_map_from-Identity fuel low heap zero n k state place start enough = absurd (omega arith)
identity_map_from-Identity fuel low heap (suc rounds) n k state place start enough =
    elim (dec_lt (4096 * n) (k.placement_address + 4096)) [
      | yes more ↦
          let own : n < 1024 = omega arith in
          let here : 4096 * n / 4096 ≡ n = omega arith in
          let k₁ = allocated k (low + 4 * n) 0 0 in
          let (end, k', e, rest, far, small', same) =
            identity_map_from-Identity fuel low heap rounds (n + 1) k₁
              (allocated-Identity low heap n k state own) place (omega arith) (omega arith) in
          (
            end,
            k',
            identity_map_from_round fuel rounds low n k
                  (low_page fuel low heap n (4096 * n) 1 k state.paged (omega arith)
                    ∙ ap (λ i. ok (low + 4 * i) k) here)
                  (round_call low heap n k state own) own place more
                ∙ e,
            rest,
            far,
            small',
            same,
          )
      | no out ↦ (
        n,
        k,
        identity_map_from_end fuel rounds (4096 * n) k place (omega arith),
        state,
        omega arith,
        omega arith,
        refl,
      )
    ]
