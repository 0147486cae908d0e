-- ===== src/Syscall.antt =====
-- syscall.c and sysproc.c: the arguments of system calls, the dispatch, and the calls on processes
-- and signals. `int i` out of a word and back are `to_int` and `to_word`. The calling process is given
-- with its memory; a pointer is an address of that memory.
pub mod Args
pub mod Eax
mod Tests
use os.Base.{
  ℕ, zero, suc, ◌+◌, ◌-◌, ◌*◌, ◌%◌, ◌^◌, Bool, true, false, not, ◌&&◌, ◌||◌, Option, none, some,
  List, [], ◌∷◌, ◌==◌, ltb, leb, if◌then◌else◌,
}
use os.Base.Int.{ℤ, pos, negsuc, minus_one}
use os.Base.Result.{Result, ok, panic, fault, ◌>>=◌}
use os.Machine.{Mem, TrapFrame, load32, store_words, add32, sub32}
use os.Proc.{Proc}
use os.Proc.Signal.{SigAction, sigprocmask, sigaction, kill}
use os.Proc.Runner.{Task, sigret}

-- A word as C's `int`, and an `int` as a word.
abbrev pub to_int : ℕ → ℤ
to_int w = if ltb w (2 ^ 31) then pos w else negsuc (2 ^ 32 - 1 - w)

abbrev pub to_word : ℤ → ℕ
to_word (pos n) = n % 2 ^ 32
to_word (negsuc n) = 2 ^ 32 - 1 - n % 2 ^ 32

-- -1
abbrev pub failed : ℕ
failed = 2 ^ 32 - 1

-- The word at `addr`; none is the result -1.
unfoldable pub fetchint : ℕ → Task → Option ℕ
fetchint addr (p, m) =
    if leb p.sz addr || ltb p.sz (add32 addr 4) then none else some (load32 m addr)

-- The loop of `fetchstr` with `left` bytes up to the end of the process.
pub scan_string : ℕ → Mem → ℕ → ℕ → Option ℕ
scan_string zero m addr n = none
scan_string (suc left) m addr n =
    let rest : Option ℕ = scan_string left m addr (n + 1) in
    if m (addr + n) == 0 then some n else rest

-- The length of the string at `addr`; none is the result -1.
unfoldable pub fetchstr : ℕ → Task → Option ℕ
unfolding scan_string
fetchstr addr (p, m) = if leb p.sz addr then none else scan_string (p.sz - addr) m addr 0

unfoldable pub argint : ℕ → Task → Option ℕ
unfolding fetchint
argint n (p, m) = fetchint (add32 (add32 p.tf.esp 4) (4 * n)) (p, m)

-- The test of `argptr` on the fetched word.
pub check_ptr : ℕ → ℤ → Option ℕ → Option ℕ
check_ptr sz size none = none
check_ptr sz (negsuc s) (some i) = none
check_ptr sz (pos s) (some i) = if leb sz i || ltb sz (add32 i s) then none else some i

unfoldable pub argptr : ℕ → ℤ → Task → Option ℕ
unfolding argint check_ptr
argptr n size t = check_ptr t.0.sz size (argint n t)

-- The string's address and length.
unfoldable pub argstr : ℕ → Task → Option (ℕ × ℕ)
unfolding argint fetchstr
argstr n t = elim (argint n t) [
  | none ↦ none
  | some addr ↦ elim (fetchstr addr t) [ none ↦ none | some len ↦ some (addr, len) ]
]

-- The calling process is also an entry of the table; `kill` works on the table.
unfoldable pub sys_kill : Task → List Proc → ℤ × List Proc
unfolding argint kill
sys_kill t procs = elim (argint 0 t) [
  | none ↦ (minus_one, procs)
  | some pid ↦ elim (argint 1 t) [
    | none ↦ (minus_one, procs)
    | some signum ↦ kill (to_int pid) (to_int signum) procs
  ]
]

unfoldable pub sys_sigprocmask : Task → ℕ × Task
unfolding argint sigprocmask
sys_sigprocmask (p, m) = elim (argint 0 (p, m)) [
  | none ↦ (failed, (p, m))
  | some sigmask ↦ let (old, p') = sigprocmask sigmask p in (old, (p', m))
]

-- `struct sigaction` in memory: `sa_handler`, then `sigmask`.
abbrev load_action : Mem → ℕ → SigAction
load_action m a = record { sa_handler = load32 m a; sigmask = load32 m (a + 4) }

abbrev store_action : Mem → ℕ → Option SigAction → Mem
store_action m a none = m
store_action m a (some s) = store_words m a (s.sa_handler ∷ s.sigmask ∷ [])

-- The old action is written before the new one is read.
unfoldable pub sys_sigaction : Task → Result (ℕ × Task)
unfolding argint argptr sigaction
sys_sigaction (p, m) = elim (argint 0 (p, m)) [
  | none ↦ ok (failed, (p, m))
  | some signum ↦ elim (argptr 1 (pos 8) (p, m)) [
    | none ↦ ok (failed, (p, m))
    | some act ↦ elim (argptr 2 (pos 8) (p, m)) [
      | none ↦ ok (failed, (p, m))
      | some oldact ↦ do
        (r, p1, old) ← sigaction (to_int signum) (load_action m act) (not (oldact == 0)) p
        let m' : Mem = store_action m oldact old
        (r', p', old') ← sigaction (to_int signum) (load_action m' act) (not (oldact == 0)) p
        ok (to_word r', (p', m'))
    ]
  ]
]

unfoldable pub sys_sigret : Task → Result (ℕ × Task)
unfolding sigret
sys_sigret t = ok (0, sigret t)

-- One test of the loop of `sys_sleep`: whether it returns, and what.
unfoldable pub sleep_round : ℕ → ℕ → ℕ → Proc → Option ℤ
sleep_round ticks ticks0 n p =
    if ltb (sub32 ticks ticks0) n then if p.killed then some minus_one else none else some (pos 0)

abbrev pub nelem : ℕ
nelem = 25

abbrev set_eax : ℕ → Task → Task
set_eax r (p, m) = (record p { tf = record (p.tf) { eax = r } }, m)

-- `syscalls` is the table of calls. Each gives its result and the process and memory after it.
unfoldable pub syscall : (ℕ → Option (Task → Result (ℕ × Task))) → Task → Result Task
syscall syscalls t =
    let num : ℕ = t.0.tf.eax in
    if ltb 0 num && ltb num nelem
    then elim (syscalls num) [
      | none ↦ ok (set_eax failed t)
      | some call ↦ do (r, t') ← call t; ok (set_eax r t')
    ]
    else ok (set_eax failed t)
