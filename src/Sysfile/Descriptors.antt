-- ===== src/Sysfile/Descriptors.antt =====
-- sysfile.c: `fdalloc` takes the lowest free descriptor, and `sys_close` undoes `sys_dup`.
use os.Base.{
  ℕ, zero, suc, ◌+◌, ◌≤◌, ◌<◌, ◌≡◌, ◌≢◌, ◌⊎◌, inl, inr, refl, sym, ap, ◌∙◌, false, Option, none,
  some, List, [], ◌∷◌, leb, get_elem?, set, length, get_elem?-set_self, get_elem?-lt, set-set,
  set-get_elem?, Option-cases, arith,
}
use mathlib.Core.Path.{subst}
use os.Base.Int.{ℤ, pos, minus_one}
use os.Base.Result.{Result, ok, >>=-eq-ok}
use os.Machine.{Mem, TrapFrame}
use os.Proc.{Proc}
use os.Fs.{SuperBlock}
use os.File.{File, Files, filedup, fileclose}
use os.File.Refs.{fileclose-filedup}
use os.Syscall.{argint, to_int}
use os.Sysfile.{Sys, nofile, argfd, first_free, fdalloc, sys_dup, sys_close}

later_used :
    (f : ℕ) (ofile : List (Option ℕ))
    → ((j : ℕ) → get_elem? ofile j ≢ some none)
    → (j : ℕ) → get_elem? (some f ∷ ofile) j ≢ some none
later_used f ofile used zero = λ (h : some (some f) ≡ some none). cc
later_used f ofile used (suc j) = used j

later_before :
    (f : ℕ) (ofile : List (Option ℕ)) (k : ℕ)
    → ((j : ℕ) → j < k → get_elem? ofile j ≢ some none)
    → (j : ℕ) → j < suc k
    → get_elem? (some f ∷ ofile) j ≢ some none
later_before f ofile k before zero less = λ (h : some (some f) ≡ some none). cc
later_before f ofile k before (suc j) less = before j (omega arith)

first_free_lem :
    (fd : ℕ) (ofile : List (Option ℕ))
    → ((first_free fd ofile ≡ none) × ((j : ℕ) → get_elem? ofile j ≢ some none))
      ⊎ ((k : ℕ) × (first_free fd ofile ≡ some (fd + k))
          × (get_elem? ofile k ≡ some none)
          × ((j : ℕ) → j < k → get_elem? ofile j ≢ some none))
unfolding first_free
first_free_lem fd [] = inl (refl, λ j. λ (h : none ≡ some none). cc)
first_free_lem fd (none ∷ ofile) =
    inr (0, ap some (omega arith), refl, λ j before. absurd (omega arith))
first_free_lem fd (some f ∷ ofile) = elim (first_free_lem (fd + 1) ofile) [
  | inl (all, used) ↦ inl (all, later_used f ofile used)
  | inr (k, found, free, before) ↦
      inr (suc k, found ∙ ap some (omega arith), free, later_before f ofile k before)
]

-- `fdalloc` gives the lowest free descriptor and changes no other, or fails, and changes nothing,
-- if no descriptor is free.
pub fdalloc_lem :
    (f : ℕ) (p : Proc)
    → ((fdalloc f p ≡ (none, p)) × ((j : ℕ) → get_elem? p.ofile j ≢ some none))
      ⊎ ((k : ℕ) × (fdalloc f p ≡ (some k, record p { ofile = set p.ofile k (some f) }))
          × (get_elem? p.ofile k ≡ some none)
          × ((j : ℕ) → j < k → get_elem? p.ofile j ≢ some none))
unfolding fdalloc
fdalloc_lem f p = elim (first_free_lem 0 p.ofile) [
  | inl (all, used) ↦ inl (rw (fdalloc, all) refl, used)
  | inr (k, found, free, before) ↦
      let z : 0 + k ≡ k = omega arith in inr (k, rw (fdalloc, found, z) refl, free, before)
]

argfd_at :
    (n fd f : ℕ) (s : Sys)
    → argint n (s.proc, s.mem) ≡ some fd
    → fd < nofile
    → get_elem? s.proc.ofile fd ≡ some (some f)
    → argfd n s ≡ some (fd, f)
unfolding argfd
argfd_at n fd f s arg low there =
    let signed : to_int fd ≡ pos fd = ground arith in
    let inside : leb nofile fd ≡ false = ground arith in rw (argfd, arg, signed, inside, there) refl

sys_close_at :
    (sb : SuperBlock) (fd f : ℕ) (s : Sys) (w : Files)
    → argfd 0 s ≡ some (fd, f)
    → fileclose sb f s.files ≡ ok w
    → sys_close sb s
      ≡ ok (
        pos 0,
        record s { proc = record (s.proc) { ofile = set s.proc.ofile fd none }; files = w },
      )
unfolding sys_close
sys_close_at sb fd f s w arg closed = rw (sys_close, arg, closed) refl

abbrev dupped : Sys → ℕ → ℕ → List File → Sys
dupped s f fd files' = record s {
  proc = record (s.proc) { ofile = set s.proc.ofile fd (some f) };
  files = record (s.files) { files = files' };
}

-- What `sys_dup` did when it gave the descriptor `fd`.
abbrev Dupped : Sys → ℕ → Sys → Type 0
Dupped s fd t =
    (f : ℕ) × (files' : List File) × (get_elem? s.proc.ofile fd ≡ some none)
    × (filedup f s.files.files ≡ ok files')
    × (t ≡ dupped s f fd files')

sys_dup_inv : (s t : Sys) (fd : ℕ) → sys_dup s ≡ ok (pos fd, t) → Dupped s fd t
unfolding sys_dup
sys_dup_inv s t fd dup = elim (Option-cases (argfd 0 s)) [
  | inl bad ↦
      let e : ◌≡◌ {A = Result (ℤ × Sys)} (ok (minus_one, s)) (ok (pos fd, t)) =
        rw (sys_dup, bad) at dup in
      absurd (ground arith)
  | inr ((old, f), good) ↦ elim (fdalloc_lem f s.proc) [
    | inl (all, used) ↦
        let e : ◌≡◌ {A = Result (ℤ × Sys)} (ok (minus_one, s)) (ok (pos fd, t)) =
          rw (sys_dup, good, all) at dup in
        absurd (ground arith)
    | inr (k, taken, free, before) ↦
        let (files', counted, e) =
          >>=-eq-ok (filedup f s.files.files) (λ files'. ok (pos k, dupped s f k files'))
            {w = (pos fd, t)} (rw (sys_dup, good, taken) at dup) in
        let same : k ≡ fd = ground (arith, e) in
        let after : t ≡ dupped s f k files' = ground (arith, e) in
        (f, files', rw (← same) free, counted, after ∙ ap (λ (j : ℕ). dupped s f j files') same)
  ]
]

close_dupped :
    (sb : SuperBlock) (s : Sys) (f fd : ℕ) (files' : List File) (tf : TrapFrame) (m : Mem)
    → length s.proc.ofile ≤ nofile
    → get_elem? s.proc.ofile fd ≡ some none
    → filedup f s.files.files ≡ ok files'
    → argint 0 (record ((dupped s f fd files').proc) { tf = tf }, m) ≡ some fd
    → sys_close sb (record (dupped s f fd files') {
      proc = record ((dupped s f fd files').proc) { tf = tf };
      mem = m;
    })
      ≡ ok (pos 0, record s { proc = record (s.proc) { tf = tf }; mem = m })
close_dupped sb s f fd files' tf m few free counted arg =
    let inside : fd < length s.proc.ofile = get_elem?-lt s.proc.ofile fd free in
    let u : Sys = record (dupped s f fd files') {
      proc = record ((dupped s f fd files').proc) { tf = tf };
      mem = m;
    } in
    let back : set (set s.proc.ofile fd (some f)) fd none ≡ s.proc.ofile =
      set-set s.proc.ofile fd (some f) none ∙ set-get_elem? s.proc.ofile fd free in
    sys_close_at sb fd f u s.files
      (argfd_at 0 fd f u arg (omega arith) (get_elem?-set_self s.proc.ofile fd (some f) inside))
      (fileclose-filedup sb f s.files files' counted)
    ∙ ap
        (λ (l : List (Option ℕ)).
          ok (pos 0, record s { proc = record (s.proc) { ofile = l; tf = tf }; mem = m }))
        back

-- Whatever the arguments of the call, if `sys_dup` gives the descriptor `fd`, then `sys_close` of `fd`
-- gives 0 and brings back the open files and the descriptors from before.
pub sys_close-sys_dup :
    (sb : SuperBlock) (s t : Sys) (fd : ℕ) (tf : TrapFrame) (m : Mem)
    → length s.proc.ofile ≤ nofile
    → sys_dup s ≡ ok (pos fd, t)
    → argint 0 (record (t.proc) { tf = tf }, m) ≡ some fd
    → sys_close sb (record t { proc = record (t.proc) { tf = tf }; mem = m })
      ≡ ok (pos 0, record s { proc = record (s.proc) { tf = tf }; mem = m })
sys_close-sys_dup sb s t fd tf m few dup arg =
    let (f, files', free, counted, e) = sys_dup_inv s t fd dup in
    subst
      (λ (u : Sys).
        argint 0 (record (u.proc) { tf = tf }, m) ≡ some fd
        → sys_close sb (record u { proc = record (u.proc) { tf = tf }; mem = m })
          ≡ ok (pos 0, record s { proc = record (s.proc) { tf = tf }; mem = m }))
      (sym e) (close_dupped sb s f fd files' tf m few free counted) arg
