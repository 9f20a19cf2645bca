-- ===== src/Mapping/HeapGuards.antt =====
-- `map_heap`: the heap between its guard pages.
use generic_kernel.Common.{
  ℕ, ◌+◌, ◌-◌, ◌*◌, ◌/◌, ◌%◌, ◌<◌, ◌≤◌, ◌≡◌, refl, sym, subst, ◌⊎◌, inl, inr, Bool, true, not, ◌&&◌,
  ◌||◌, Option, none, some, ltb, ◌==◌, Bool-cases, arith, checked_add, checked_add-inv,
}
use generic_kernel.Pmm.{page_size}
use generic_kernel.Pmm.Inv.{IsValid}
use generic_kernel.Mapping.{Mapper, Machine}
use generic_kernel.Mapping.HeapMap.{
  HeapMapping, is_none, HeapRun, pages_unmapped, map_heap_pages, heap_mapped, heap_between,
  map_heap,
}
use generic_kernel.Mapping.HeapPages.{IsBacked, IsHeapRun, loop-IsHeapRun}

is_none-none : (o : Option ℕ) → is_none o ≡ true → o ≡ none
is_none-none none h = refl
is_none-none (some x) h = absurd (cc)

module _ {n : ℕ} (mapper : Mapper n) (offset root : ℕ) where
  open mapper use {Tables, translate}

  pub record HasHeap (heap_start heap_size : ℕ) (s : Machine Tables) (mapping : HeapMapping)
      (s' : Machine Tables) : Type 0 where
    pub backed :
        (i : ℕ)
        → i < heap_size
        → IsBacked mapper offset root s.pmm s'.pmm s'.ram
            (translate s'.tables root (heap_start + i))
    pub apart :
        (i j f : ℕ)
        → i < heap_size
        → j < heap_size
        → translate s'.tables root (heap_start + i) ≡ some f
        → translate s'.tables root (heap_start + j) ≡ some f
        → i ≡ j
    pub lower_guard : translate s'.tables root (heap_start - page_size) ≡ none
    pub upper_guard : translate s'.tables root (heap_start + heap_size) ≡ none
    pub around :
        (address : ℕ)
        → (address < heap_start) ⊎ (heap_start + heap_size ≤ address)
        → translate s'.tables root address ≡ translate s.tables root address
    pub counted :
        s'.pmm.free_bytes + mapping.page_table_and_heap_frames * page_size ≡ s.pmm.free_bytes
    pub pages : mapping.mapped_pages * page_size ≡ heap_size
    pub valid : IsValid n s'.pmm

  abbrev pub IsHeap : ℕ → ℕ → Machine Tables → Option (HeapMapping × Machine Tables) → Type 0
  IsHeap heap_start heap_size s none = Unit {0}
  IsHeap heap_start heap_size s (some (mapping, s')) = HasHeap heap_start heap_size s mapping s'

  mapped-IsHeap :
      (heap_start heap_end rounds : ℕ) (s : Machine Tables) (r : HeapRun mapper offset root)
      → IsValid n s.pmm
      → heap_start + rounds * page_size ≡ heap_end
      → IsHeapRun mapper offset root rounds heap_start s.tables
          (record { pmm = s.pmm; allocated = 0 })
          s.ram
          r
      → IsHeap heap_start
          (rounds * page_size)
          s
          (heap_mapped mapper offset root (heap_start - page_size) heap_end rounds r)
  mapped-IsHeap heap_start heap_end rounds s none v at run = tt
  mapped-IsHeap heap_start heap_end rounds s (some (t, a, ram)) v at run =
      elim (Bool-cases (
        is_none (translate t root (heap_start - page_size))
        && is_none (translate t root heap_end))) [
          | inr mapped ↦ rw (mapped, IsHeap) tt
          | inl guarded ↦
              let all = run.total s.pmm.free_bytes (record { valid = v; sum = omega arith }) in
              rw (guarded, IsHeap)
                (record {
                  backed = run.backed;
                  apart = run.apart;
                  lower_guard = is_none-none _ (ground arith);
                  upper_guard =
                      subst (λ x. translate t root x ≡ none) (sym at)
                        (is_none-none _ (ground arith));
                  around = λ address out. elim out [
                    | inl below ↦ run.lower address below
                    | inr above ↦ run.upper address above
                  ];
                  counted = all.sum;
                  pages = refl;
                  valid = all.valid;
                })
        ]

  between-IsHeap :
      (heap_start heap_size : ℕ) (s : Machine Tables) (o : Option ℕ)
      → IsValid n s.pmm
      → heap_start % page_size ≡ 0
      → heap_size % page_size ≡ 0
      → checked_add heap_start heap_size ≡ o
      → IsHeap heap_start heap_size s (heap_between mapper offset root heap_start heap_size s o)
  between-IsHeap heap_start heap_size s none v aligned whole h = tt
  between-IsHeap heap_start heap_size s (some heap_end) v aligned whole h =
      let rounds = heap_size / page_size in
      let size : rounds * page_size ≡ heap_size = omega (arith, whole) in
      let refused : Bool =
        ltb heap_start page_size
        || not (is_none (translate s.tables root (heap_start - page_size)))
        || not (is_none (translate s.tables root heap_end))
        || not (pages_unmapped mapper offset root rounds heap_start s.tables) in
      elim (Bool-cases refused) [
        | inl bad ↦ rw (bad, IsHeap) tt
        | inr go ↦ rw go (
            subst
              (λ k. IsHeap heap_start k s (
                heap_mapped mapper offset root (heap_start - page_size) heap_end rounds (
                  map_heap_pages mapper offset root rounds heap_start s.tables
                    (record { pmm = s.pmm; allocated = 0 }) s.ram)))
              size
              (mapped-IsHeap heap_start heap_end rounds s _ v
                (omega (arith, size, checked_add-inv _ _ _ h))
                (loop-IsHeapRun mapper offset root rounds heap_start s.tables
                  (record { pmm = s.pmm; allocated = 0 }) s.ram aligned v)))
      ]

  -- On a valid physical memory, where `map_heap` does not panic, every byte of the heap stands in physical
  -- memory that was free and is taken, and holds a zero; no two bytes of the heap stand in the same one.
  -- The pages before and behind the heap are not mapped, and the addresses outside it are looked up as
  -- before. The number of frames that it reports is the number of those that the physical memory has lost,
  -- which stays valid; the number of pages is that of the heap.
  pub map_heap-IsHeap :
      (heap_start heap_size : ℕ) (s : Machine Tables)
      → IsValid n s.pmm
      → IsHeap heap_start heap_size s (map_heap mapper offset root heap_start heap_size s)
  unfolding map_heap
  map_heap-IsHeap heap_start heap_size s v =
      let refused : Bool =
        not (heap_start % page_size == 0)
        || not (heap_size % page_size == 0)
        || ltb heap_size page_size in
      elim (Bool-cases refused) [
        | inl bad ↦ rw (bad, IsHeap) tt
        | inr go ↦
            rw go (between-IsHeap heap_start heap_size s _ v (ground arith) (ground arith) refl)
      ]
