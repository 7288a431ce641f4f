-- ===== src/Kheap/Ends.antt =====
-- kernel/mm/kheap.c: `contract`, with its loop over `get_page` and `free_frame`.
use pyramid_kernel.Prelude.{
  ℕ, zero, suc, refl, ◌+◌, ◌*◌, ◌/◌, ◌^◌, ◌≤◌, ◌<◌, ◌≡◌, ◌≢◌, inl, inr, arith, add32, sub32, ltb,
  Bool-cases, true, false, ap, sym,
}
use native.Mathlib.Decide.{ℕ_discrete}
use mathlib.Core.Path.{subst}
use pyramid_kernel.Kernel.{Kernel, Heap, Run, ok, fault, panicked, out_of_fuel, ◌>>◌, Cmd, and_then}
use pyramid_kernel.Memory.{Memory, load32, store32}
use pyramid_kernel.Paging.{KmallocAp, get_page, free_frame, frame_of, with_frame, clear_frame}
use pyramid_kernel.Paging.Pages.{slot, get_page_present, get_page_missing}
use pyramid_kernel.Kheap.Resize.{
  contract, contract_loop, contract_size, unmap_page, set_end, heap_length,
}

-- The run returns a value with `P`: it does not panic, and it does not go on without end.
pub data Ends {A : Type 0} (P : A → Kernel → Type 0) : Run A → Type 0 where
  returns : (a : A) (k : Kernel) → P a k → Ends P (ok a k)

pub Ends-bind :
    {A B : Type 0} (P : A → Kernel → Type 0) (Q : B → Kernel → Type 0) (r : Run A) (f : A → Cmd B)
    → Ends P r
    → ((a : A) (k : Kernel) → P a k → Ends Q (f a k))
    → Ends Q (and_then r f)
Ends-bind P Q (ok _ _) f (returns a k p) next = next a k p
Ends-bind P Q fault f ends next = elim ends [ ]
Ends-bind P Q panicked f ends next = elim ends [ ]
Ends-bind P Q out_of_fuel f ends next = elim ends [ ]

-- Where an equation says what a run is, it ends as that does.
Ends-of : {A : Type 0} (P : A → Kernel → Type 0) (r r' : Run A) → r ≡ r' → Ends P r' → Ends P r
Ends-of P r r' e ends = subst (Ends P) (sym e) ends

abbrev unset : (page : ℕ) → Kernel → Memory
unset page k =
    let m = clear_frame k.frame_allocations (frame_of (load32 k.mem page)) k.mem in
    store32 m page (with_frame (load32 m page) 0)

module _ (page : ℕ) (k : Kernel) where
  free_frame_none : frame_of (load32 k.mem page) ≡ 0 → free_frame page k ≡ ok tt k
  unfolding free_frame
  free_frame_none e = ground arith

  free_frame_some :
      frame_of (load32 k.mem page) ≢ 0 → free_frame page k ≡ ok tt (record k { mem = unset page k })
  unfolding free_frame
  free_frame_some e = ground arith

  -- `free_frame` writes the memory alone.
  free_frame-Ends : Ends (λ _ k'. k'.heap ≡ k.heap) (free_frame page k)
  free_frame-Ends = elim (ℕ_discrete (frame_of (load32 k.mem page)) 0) [
    | yes e ↦ Ends-of _ _ _ (free_frame_none e) (returns tt k refl)
    | no e ↦ Ends-of _ _ _ (free_frame_some e) (returns tt _ refl)
  ]

-- The heap after `contract` to `length` bytes.
abbrev pub resized : Kernel → (length : ℕ) → Heap
resized k length = record k.heap { end_address = add32 k.heap.start_address length }

-- What a run leaves is what the state in front of it had.
Ends-same :
    {A : Type 0} (k₁ k : Kernel)
    → k₁.heap ≡ k.heap
    → (r : Run A) → Ends (λ _ k'. k'.heap ≡ k₁.heap) r
    → Ends (λ _ k'. k'.heap ≡ k.heap) r
Ends-same k₁ k same r ends = subst (λ h. Ends (λ _ k'. k'.heap ≡ h) r) same ends

module _ (kmalloc_ap : KmallocAp) where
  -- Without `make` no table is allocated.
  get_page-Ends :
      (address dir : ℕ) (k : Kernel)
      → Ends (λ _ k'. k'.heap ≡ k.heap) (get_page kmalloc_ap address 0 dir k)
  get_page-Ends address dir k = elim (ℕ_discrete (load32 k.mem (slot dir address)) 0) [
    | yes missing ↦
        Ends-of _ _ _ (get_page_missing kmalloc_ap address 0 dir k missing refl) (returns 0 k refl)
    | no present ↦
        Ends-of _ _ _ (get_page_present kmalloc_ap address 0 dir k present) (returns _ k refl)
  ]

  unmap_page-Ends :
      (i : ℕ) (k : Kernel) → Ends (λ _ k'. k'.heap ≡ k.heap) (unmap_page kmalloc_ap i k)
  unfolding unmap_page
  unmap_page-Ends i k =
      Ends-bind (λ _ k'. k'.heap ≡ k.heap) (λ _ k'. k'.heap ≡ k.heap)
        (get_page kmalloc_ap (add32 k.heap.start_address i) 0 k.kernel_directory k) free_frame
        (get_page-Ends (add32 k.heap.start_address i) k.kernel_directory k)
        (λ page k₁ same. Ends-same k₁ k same (free_frame page k₁) (free_frame-Ends page k₁))

  contract_loop_stop :
      (fuel new_size i : ℕ) (k : Kernel)
      → ltb new_size i ≡ false
      → contract_loop kmalloc_ap (suc fuel) new_size i k ≡ ok tt k
  unfolding contract_loop
  contract_loop_stop fuel new_size i k stop = rw stop refl

  contract_loop_more :
      (fuel new_size i : ℕ) (k : Kernel)
      → ltb new_size i ≡ true
      → contract_loop kmalloc_ap (suc fuel) new_size i k
        ≡ and_then
            (unmap_page kmalloc_ap i k)
            (λ _. contract_loop kmalloc_ap fuel new_size (sub32 i 0x1000))
  unfolding contract_loop
  contract_loop_more fuel new_size i k more = rw more refl

  -- One round a page, and one to see the end; `i` does not pass 0, as `new_size` is a page or more.
  contract_loop-Ends :
      (fuel new_size i : ℕ) (k : Kernel)
      → 0x1000 ≤ new_size
      → i < 2 ^ 32
      → i ≤ new_size + fuel * 0x1000
      → Ends (λ _ k'. k'.heap ≡ k.heap) (contract_loop kmalloc_ap (suc fuel) new_size i k)
  contract_loop-Ends zero new_size i k page fits enough =
      Ends-of _ _ _ (contract_loop_stop 0 new_size i k (ground arith)) (returns tt k refl)
  contract_loop-Ends (suc fuel) new_size i k page fits enough = elim (Bool-cases (ltb new_size i)) [
    | inl more ↦
        let above : new_size < i = ground arith in
        Ends-of _ _ _ (contract_loop_more (suc fuel) new_size i k more) (
          Ends-bind (λ _ k'. k'.heap ≡ k.heap) (λ _ k'. k'.heap ≡ k.heap)
            (unmap_page kmalloc_ap i k)
            (λ _. contract_loop kmalloc_ap (suc fuel) new_size (sub32 i 0x1000))
            (unmap_page-Ends i k)
            (λ _ k₁ same.
              Ends-same k₁ k same (contract_loop kmalloc_ap (suc fuel) new_size (sub32 i 0x1000) k₁)
                (contract_loop-Ends fuel new_size (sub32 i 0x1000) k₁ page (omega arith)
                  (omega arith))))
    | inr stop ↦ Ends-of _ _ _ (contract_loop_stop (suc fuel) new_size i k stop) (returns tt k refl)
  ]

  finish-Ends :
      (length : ℕ) (k k₁ : Kernel)
      → k₁.heap ≡ k.heap
      → Ends
          (λ r k'. (r ≡ length) × (k'.heap ≡ resized k length))
          ((set_end length >> (λ k₂. ok length k₂)) k₁)
  finish-Ends length k k₁ same =
      returns length _
        (refl, ap (λ (h : Heap). record h { end_address = add32 h.start_address length }) same)

  -- In every state `contract` returns, also where an address has no page table: its loop never takes
  -- more rounds than the pages of the heap and two. The result is the size from `contract_size`, and the
  -- heap has that length and is otherwise as it was.
  pub contract-Ends :
      (n : ℕ) (k : Kernel)
      → Ends
          (λ r k'. (r ≡ contract_size n) × (k'.heap ≡ resized k (contract_size n)))
          (contract kmalloc_ap n k)
  unfolding contract
  contract-Ends n k =
      let i = sub32 (heap_length k) 0x1000 in
      let large : 0x1000 ≤ contract_size n = unfold contract_size in ground arith in
      Ends-bind (λ _ k'. k'.heap ≡ k.heap)
        (λ r k'. (r ≡ contract_size n) × (k'.heap ≡ resized k (contract_size n)))
        (contract_loop kmalloc_ap (i / 0x1000 + 2) (contract_size n) i k)
        (λ _. set_end (contract_size n) >> (λ k₂. ok (contract_size n) k₂))
        (subst
          (λ f. Ends (λ _ k'. k'.heap ≡ k.heap) (contract_loop kmalloc_ap f (contract_size n) i k))
          {x = suc (i / 0x1000 + 1)} {y = i / 0x1000 + 2} (omega arith)
          (contract_loop-Ends (i / 0x1000 + 1) (contract_size n) i k large (omega arith)
            (omega arith)))
        (λ _ k₁ same. finish-Ends (contract_size n) k k₁ same)
