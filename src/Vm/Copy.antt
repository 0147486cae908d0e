-- ===== src/Vm/Copy.antt =====
-- vm.c: the kernel's own mappings, the first process's memory and the copy of an address space.
-- `kdata` is the linker's symbol `data`.
use os.Base.{
  ℕ, zero, suc, ◌+◌, ◌/◌, ◌%◌, false, not, List, [], ◌∷◌, ◌==◌, ltb, leb, if◌then◌else◌, bit_or,
  length,
}
use os.Base.Result.{Result, ok, panic, fault, ◌>>=◌, ◌>>◌, panic_if}
use os.Machine.{add32, sub32, load32, store_bytes}
use os.Kalloc.{kalloc, kfree, pgsize, kernbase, phystop}
use os.Text.{memset, memmove}
use os.Vm.{Vm, walkpgdir, mappages, freevm, has_flag, pte_addr, p2v, v2p, pte_p, pte_w, pte_u}

pub record Kmap : Type 0 where
  pub virt : ℕ
  pub phys_start : ℕ
  pub phys_end : ℕ
  pub perm : ℕ

abbrev pub extmem : ℕ
extmem = 0x100000

abbrev pub devspace : ℕ
devspace = 0xFE000000

-- PTE_FLAGS.
abbrev pub pte_flags : ℕ → ℕ
pte_flags w = w % pgsize

abbrev pub kmap : ℕ → List Kmap
kmap kdata =
    record { virt = kernbase; phys_start = 0; phys_end = extmem; perm = pte_w }
    ∷ record { virt = kernbase + extmem; phys_start = extmem; phys_end = v2p kdata; perm = 0 }
    ∷ record { virt = kdata; phys_start = v2p kdata; phys_end = phystop; perm = pte_w }
    ∷ record { virt = devspace; phys_start = devspace; phys_end = 0; perm = pte_w }
    ∷ []

module _ (kend kdata : ℕ) where
  -- The loop of `setupkvm`; its result is the directory, or 0.
  pub map_all : ℕ → List Kmap → Vm → Result (ℕ × Vm)
  map_all pgdir [] v = ok (pgdir, v)
  map_all pgdir (k ∷ ks) v = do
    (mapped, v1) ← mappages pgdir k.virt (sub32 k.phys_end k.phys_start) k.phys_start k.perm v
    if mapped then map_all pgdir ks v1 else (do v2 ← freevm kend pgdir v1; ok (0, v2))

  unfoldable pub setupkvm : Vm → Result (ℕ × Vm)
  unfolding kalloc map_all
  setupkvm v =
      let (pgdir, k) = kalloc v.kmem in
      if pgdir == 0 then ok (0, record v { kmem = k }) else (do
        panic_if (ltb devspace (p2v phystop)) "PHYSTOP too high"
        map_all pgdir (kmap kdata) (record { mem = memset v.mem pgdir 0 pgsize; kmem = k }))

  -- Code at `bad` of `copyuvm`.
  pub bad : ℕ → Vm → Result (ℕ × Vm)
  bad d v = do v' ← freevm kend d v; ok (0, v')

  -- The loop of `copyuvm`.
  pub copy_pages : ℕ → ℕ → ℕ → ℕ → ℕ → Vm → Result (ℕ × Vm)
  copy_pages zero pgdir d i sz v = fault
  copy_pages (suc fuel) pgdir d i sz v =
      let (pte, v0) = walkpgdir pgdir i false v in
      let w : ℕ = load32 v.mem pte in
      let (page, k) = kalloc v.kmem in
      let copied : Vm = record { mem = memmove v.mem page (p2v (pte_addr w)) pgsize; kmem = k } in
      let again : Vm → Result (ℕ × Vm) = copy_pages fuel pgdir d (add32 i pgsize) sz in
      if not (ltb i sz)
      then ok (d, v)
      else if pte == 0
      then panic "copyuvm: pte should exist"
      else if not (has_flag pte_p w)
      then panic "copyuvm: page not present"
      else if page == 0
      then bad d (record v { kmem = k })
      else (do
        (mapped, v1) ← mappages d i pgsize (v2p page) (pte_flags w) copied
        if mapped
            then again v1
            else (do k' ← kfree kend page v1.kmem; bad d (record v1 { kmem = k' })))

  unfoldable pub copyuvm : ℕ → ℕ → Vm → Result (ℕ × Vm)
  unfolding setupkvm copy_pages
  copyuvm pgdir sz v = do
    (d, v1) ← setupkvm v
    if d == 0 then ok (0, v1) else copy_pages (sz / pgsize + 2) pgdir d 0 sz v1

-- The results of `kalloc` and `mappages` are not tested.
unfoldable pub inituvm : ℕ → List ℕ → Vm → Result Vm
unfolding kalloc mappages
inituvm pgdir init v =
    let (page, k) = kalloc v.kmem in
    let cleared : Vm = record { mem = memset v.mem page 0 pgsize; kmem = k } in
    if leb pgsize (length init)
    then panic "inituvm: more than a page"
    else if page == 0
    then fault
    else (do
      (mapped, v1) ← mappages pgdir 0 pgsize (v2p page) (bit_or pte_w pte_u) cleared
      ok (record v1 { mem = store_bytes v1.mem page init }))
