-- ===== src/Syscall/Tests.antt =====
-- System call arguments of a sample process.
use os.Base.{◌≡◌, refl, some, arith, [], ◌∷◌}
use os.Base.Int.{pos}
use os.Machine.{Mem, load32, store_bytes}
use os.Proc.{Proc}
use os.Proc.Sample.{user_frame, user_proc, zero_mem}
use os.Syscall.{argint, argptr, fetchint, fetchstr}
use os.Syscall.Args.{argptr_lem}

-- Its stack is at 100, so its first argument is at 104.
abbrev calling : Proc
calling = record user_proc { tf = record user_frame { esp = 100 } }

abbrev with_string : Mem
with_string = store_bytes zero_mem 200 (65 ∷ 66 ∷ [])

argptr_lem_example : argptr 0 (pos 8) (calling, zero_mem) ≡ some 0
unfolding argint fetchint load32
argptr_lem_example =
    (argptr_lem 0 8 0 calling zero_mem (omega arith) (omega arith)).1
      (refl, omega arith, omega arith)

fetched : fetchstr 200 (calling, with_string) ≡ some 2
unfolding fetchstr store_bytes
fetched = refl
