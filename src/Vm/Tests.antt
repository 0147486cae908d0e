-- ===== src/Vm/Tests.antt =====
-- Growing a sample process.
use os.Base.{◌≡◌, ◌<◌, ◌⊎◌, String, refl, arith, [], ◌∷◌}
use os.Base.Int.{ℤ, pos}
use os.Base.Result.{ok, panic, fault}
use os.Kalloc.{kernbase, kalloc}
use os.Proc.{Proc}
use os.Proc.Sample.{user_proc, zero_mem}
use os.Vm.{Vm, growproc}
use os.Vm.Copy.{setupkvm, inituvm}
use os.Vm.Grow.{growproc_lem}

abbrev empty_vm : Vm
empty_vm = record { mem = zero_mem; kmem = record { freelist = [] } }

growproc_lem_example :
    ((x : ℤ × Proc × Vm) × (growproc 0x80100000 (pos 100) user_proc empty_vm ≡ ok x)
      × (x.1.sz < kernbase))
    ⊎ ((message : String) × (growproc 0x80100000 (pos 100) user_proc empty_vm ≡ panic message))
growproc_lem_example = growproc_lem 0x80100000 (pos 100) user_proc empty_vm (omega arith)

setupkvm_no_page : setupkvm 0x80100000 0x80108000 empty_vm ≡ ok (0, empty_vm)
unfolding setupkvm kalloc
setupkvm_no_page = refl

inituvm_no_page : inituvm 8192 (1 ∷ 2 ∷ []) empty_vm ≡ fault
unfolding inituvm kalloc
inituvm_no_page = refl
