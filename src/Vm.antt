-- ===== src/Vm.antt =====
-- vm.c: two-level page tables. Memory is seen at the kernel's addresses: `p2v` of a physical one. A
-- page table is its address; the loops over pages have fuel, a page and two for each round. proc.c:
-- `growproc`. `kend` is the linker's symbol `end`. The processor's registers are left
-- out; the free pages' contents are those of Kmem: `kfree` does not fill the page in `mem`.
pub mod Grow
pub mod Copy
mod Tests
use os.Base.{
  ℕ, zero, suc, ◌+◌, ◌-◌, ◌*◌, ◌/◌, ◌%◌, ◌^◌, Bool, true, false, not, List, [], ◌∷◌, ◌==◌, ltb, leb,
  min, if◌then◌else◌, bit_and, bit_or, bit_xor, take, drop, length,
}
use os.Base.Int.{ℤ, pos, negsuc, minus_one}
use os.Base.Result.{Result, ok, panic, fault, ◌>>=◌, ◌>>◌, panic_if}
use os.Machine.{Mem, add32, sub32, load32, store32, store_bytes}
use os.Kalloc.{Kmem, kalloc, kfree, pgsize, kernbase, pg_round_up}
use os.Text.{memset}
use os.Proc.{Proc}

pub record Vm : Type 0 where
  pub mem : Mem
  pub kmem : Kmem

-- mmu.h's PDX, PTX, PTE_ADDR and PGROUNDDOWN, and memlayout.h's P2V and V2P.
abbrev pub pdx : ℕ → ℕ
pdx va = va / 2 ^ 22 % 1024

abbrev pub ptx : ℕ → ℕ
ptx va = va / 2 ^ 12 % 1024

abbrev pub pte_addr : ℕ → ℕ
pte_addr w = w / pgsize * pgsize

abbrev pub pg_round_down : ℕ → ℕ
pg_round_down a = a / pgsize * pgsize

abbrev pub p2v : ℕ → ℕ
p2v a = add32 a kernbase

abbrev pub v2p : ℕ → ℕ
v2p a = sub32 a kernbase

abbrev pub pte_p : ℕ
pte_p = 1

abbrev pub pte_w : ℕ
pte_w = 2

abbrev pub pte_u : ℕ
pte_u = 4

abbrev pub has_flag : ℕ → ℕ → Bool
has_flag flag w = not (bit_and w flag == 0)

-- The address of the entry, or 0.
unfoldable pub walkpgdir : ℕ → ℕ → Bool → Vm → ℕ × Vm
unfolding kalloc memset
walkpgdir pgdir va alloc v =
    let pde : ℕ = load32 v.mem (pgdir + 4 * pdx va) in
    let (page, k) = kalloc v.kmem in
    if has_flag pte_p pde
    then (p2v (pte_addr pde) + 4 * ptx va, v)
    else if not alloc
    then (0, v)
    else if page == 0
    then (0, record v { kmem = k })
    else (
      page + 4 * ptx va,
      record {
        mem =
            store32 (memset v.mem page 0 pgsize) (pgdir + 4 * pdx va)
              (bit_or (v2p page) (bit_or pte_p (bit_or pte_w pte_u)));
        kmem = k;
      },
    )

-- The loop of `mappages`; false is the result -1.
pub map_from : ℕ → ℕ → ℕ → ℕ → ℕ → ℕ → Vm → Result (Bool × Vm)
unfolding walkpgdir
map_from zero pgdir a last pa perm v = fault
map_from (suc fuel) pgdir a last pa perm v =
    let (pte, v1) = walkpgdir pgdir a true v in
    let v2 : Vm = record v1 { mem = store32 v1.mem pte (bit_or (bit_or pa perm) pte_p) } in
    let rest = map_from fuel pgdir (add32 a pgsize) last (add32 pa pgsize) perm v2 in
    if pte == 0
    then ok (false, v1)
    else if has_flag pte_p (load32 v1.mem pte)
    then panic "remap"
    else if a == last
    then ok (true, v2)
    else rest

unfoldable pub mappages : ℕ → ℕ → ℕ → ℕ → ℕ → Vm → Result (Bool × Vm)
unfolding map_from
mappages pgdir va size pa perm v =
    map_from (size / pgsize + 2) pgdir (pg_round_down va) (pg_round_down (sub32 (add32 va size) 1))
      pa perm v

module _ (kend : ℕ) where
  -- The loop of `deallocuvm`.
  pub free_from : ℕ → ℕ → ℕ → ℕ → Vm → Result Vm
  unfolding walkpgdir
  free_from zero pgdir a oldsz v = fault
  free_from (suc fuel) pgdir a oldsz v =
      let (pte, v1) = walkpgdir pgdir a false v in
      let w : ℕ = load32 v1.mem pte in
      if not (ltb a oldsz)
      then ok v
      else if pte == 0
      then free_from fuel pgdir (add32 (sub32 ((pdx a + 1) * 2 ^ 22) pgsize) pgsize) oldsz v
      else if not (has_flag pte_p w)
      then free_from fuel pgdir (add32 a pgsize) oldsz v
      else if pte_addr w == 0
      then panic "kfree"
      else (do
        k ← kfree kend (p2v (pte_addr w)) v.kmem
        free_from fuel pgdir (add32 a pgsize) oldsz
            (record { mem = store32 v.mem pte 0; kmem = k }))

  unfoldable pub deallocuvm : ℕ → ℕ → ℕ → Vm → Result (ℕ × Vm)
  unfolding free_from
  deallocuvm pgdir oldsz newsz v = if leb oldsz newsz then ok (oldsz, v) else (do
    v' ← free_from (oldsz / pgsize + 2) pgdir (pg_round_up newsz) oldsz v
    ok (newsz, v'))

  -- What `allocuvm` does when memory runs out, with a page that it could not map, or 0.
  pub give_up : ℕ → ℕ → ℕ → ℕ → Vm → Result (ℕ × Vm)
  unfolding deallocuvm
  give_up pgdir oldsz newsz page v = do
    (r, v') ← deallocuvm pgdir newsz oldsz v
    if page == 0
        then ok (0, v')
        else (do k ← kfree kend page v'.kmem; ok (0, record v' { kmem = k }))

  -- The loop of `allocuvm`.
  pub grow_from : ℕ → ℕ → ℕ → ℕ → ℕ → Vm → Result (ℕ × Vm)
  grow_from zero pgdir a oldsz newsz v = fault
  grow_from (suc fuel) pgdir a oldsz newsz v =
      let (page, k) = kalloc v.kmem in
      let v1 : Vm = record { mem = memset v.mem page 0 pgsize; kmem = k } in
      let again : Vm → Result (ℕ × Vm) = grow_from fuel pgdir (add32 a pgsize) oldsz newsz in
      if not (ltb a newsz)
      then ok (newsz, v)
      else if page == 0
      then give_up pgdir oldsz newsz 0 (record v { kmem = k })
      else (do
        (mapped, v2) ← mappages pgdir a pgsize (v2p page) (bit_or pte_w pte_u) v1
        if mapped then again v2 else give_up pgdir oldsz newsz page v2)

  unfoldable pub allocuvm : ℕ → ℕ → ℕ → Vm → Result (ℕ × Vm)
  unfolding grow_from
  allocuvm pgdir oldsz newsz v =
      if leb kernbase newsz
      then ok (0, v)
      else if ltb newsz oldsz
      then ok (oldsz, v)
      else grow_from (newsz / pgsize + 2) pgdir (pg_round_up oldsz) oldsz newsz v

  -- The loop of `freevm` over the directory's entries from `i` on, `n` of them.
  pub free_tables : ℕ → ℕ → ℕ → Vm → Result Vm
  free_tables zero pgdir i v = ok v
  free_tables (suc n) pgdir i v =
      let w : ℕ = load32 v.mem (pgdir + 4 * i) in
      if has_flag pte_p w
      then (do
        k ← kfree kend (p2v (pte_addr w)) v.kmem
        free_tables n pgdir (i + 1) (record v { kmem = k }))
      else free_tables n pgdir (i + 1) v

  unfoldable pub freevm : ℕ → Vm → Result Vm
  unfolding deallocuvm free_tables
  freevm pgdir v = do
    panic_if (pgdir == 0) "freevm: no pgdir"
    (r, v1) ← deallocuvm pgdir kernbase 0 v
    v2 ← free_tables 1024 pgdir 0 v1
    k ← kfree kend pgdir v2.kmem
    ok (record v2 { kmem = k })

  -- The tests of `switchuvm`.
  abbrev pub switchuvm : Proc → Result (Unit {0})
  switchuvm p =
      panic_if (p.kstack == 0) "switchuvm: no kstack"
      >> panic_if (p.pgdir == 0) "switchuvm: no pgdir"

  abbrev pub resized : Proc → ℕ → Vm → Result (ℤ × Proc × Vm)
  resized p sz v = do switchuvm p; ok (pos 0, record p { sz = sz }, v)

  -- The result 0 or -1, and the process; `n` may be negative.
  unfoldable pub growproc : ℤ → Proc → Vm → Result (ℤ × Proc × Vm)
  unfolding allocuvm deallocuvm
  growproc (pos n) p v = if n == 0 then resized p p.sz v else (do
    (sz, v') ← allocuvm p.pgdir p.sz (add32 p.sz n) v
    if sz == 0 then ok (minus_one, p, v') else resized p sz v')
  growproc (negsuc n) p v = do
    (sz, v') ← deallocuvm p.pgdir p.sz (sub32 p.sz (n + 1)) v
    if sz == 0 then ok (minus_one, p, v') else resized p sz v'

unfoldable pub clearpteu : ℕ → ℕ → Vm → Result Vm
unfolding walkpgdir
clearpteu pgdir uva v =
    let (pte, v1) = walkpgdir pgdir uva false v in
    let w : ℕ = load32 v.mem pte in
    if pte == 0
    then panic "clearpteu"
    else ok (record v { mem = store32 v.mem pte (bit_and w (bit_xor (2 ^ 32 - 1) pte_u)) })

-- The entry is not tested for null before it is read.
unfoldable pub uva2ka : ℕ → ℕ → Vm → Result ℕ
unfolding walkpgdir
uva2ka pgdir uva v =
    let (pte, v1) = walkpgdir pgdir uva false v in
    let w : ℕ = load32 v.mem pte in
    if pte == 0
    then fault
    else if not (has_flag pte_p w)
    then ok 0
    else if not (has_flag pte_u w)
    then ok 0
    else ok (p2v (pte_addr w))

-- The loop of `copyout` with the bytes left; false is the result -1.
pub copy_from : ℕ → ℕ → ℕ → List ℕ → Vm → Result (Bool × Vm)
unfolding uva2ka
copy_from zero pgdir va bytes v = if length bytes == 0 then ok (true, v) else fault
copy_from (suc fuel) pgdir va bytes v =
    let va0 : ℕ = pg_round_down va in
    let n : ℕ = min (pgsize - (va - va0)) (length bytes) in
    let again : Vm → Result (Bool × Vm) = copy_from fuel pgdir (add32 va0 pgsize) (drop n bytes) in
    if length bytes == 0 then ok (true, v) else (do
      pa0 ← uva2ka pgdir va0 v
      if pa0 == 0
          then ok (false, v)
          else again (record v { mem = store_bytes v.mem (pa0 + (va - va0)) (take n bytes) }))

unfoldable pub copyout : ℕ → ℕ → List ℕ → Vm → Result (Bool × Vm)
unfolding copy_from
copyout pgdir va bytes v = copy_from (length bytes) pgdir va bytes v
