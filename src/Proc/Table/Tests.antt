-- ===== src/Proc/Table/Tests.antt =====
-- Runs on a table of three processes, and the table's theorems on them.
use os.Base.{map, ℕ, ◌≡◌, ◌⊎◌, refl, true, false, some, List, [], ◌∷◌, get_elem?, set}
use os.Base.Int.{pos, minus_one}
use os.Base.Result.{Result, ok}
use os.Kalloc.{Kmem, kalloc, kfree}
use os.Proc.{Proc, unused, sleeping, running, zombie, of_proc}
use os.Proc.Sample.{user_frame, user_proc}
use os.Proc.Table.{
  PTable, Waited, returns, sleeps, allocproc, find_unused, fresh_proc, scan_children, reaped,
  wait_round, exit_table,
}
use os.Proc.Table.Exit.{adopt, parents, parents-exit_table}
use os.Proc.Table.Wait.{Reaps, NoZombieChild, NoChild, wait_round_lem}
use os.Proc.Table.Wakeup.{NoSleeper}
use os.Proc.Table.Awake.{exit_table_wakes_init}
use os.Proc.Table.Stale.{allocproc_stale_freeze}

abbrev kend : ℕ
kend = 0x80100000

abbrev page : ℕ
page = 0x80200000

abbrev memory : Kmem
memory = record { freelist = page ∷ [] }

-- init waits for its children, its child 1 runs, and the child's child 2 has exited.
abbrev init_proc : Proc
init_proc = record user_proc { pid = 1; state = sleeping; chan = of_proc 0 }

abbrev parent_proc : Proc
parent_proc = record user_proc { pid = 2; state = running; parent = some 0 }

abbrev dead_proc : Proc
dead_proc = record user_proc { pid = 3; state = zombie; parent = some 1 }

abbrev free_proc : Proc
free_proc = record user_proc { pid = 0; state = unused; kstack = 0 }

abbrev slots : List Proc
slots = init_proc ∷ parent_proc ∷ dead_proc ∷ free_proc ∷ []

abbrev table : PTable
table = record { procs = slots; nextpid = 4 }

abbrev freevm : ℕ → Kmem → Result Kmem
freevm d k = ok k

abbrev grown : PTable
grown = (allocproc user_frame table memory).1

grown_pid : (get_elem? grown.procs 3) ≡ some (fresh_proc 4 page user_frame free_proc)
unfolding allocproc find_unused fresh_proc kalloc
grown_pid = refl

abbrev reaped_slots : List Proc
reaped_slots = init_proc ∷ parent_proc ∷ reaped dead_proc ∷ free_proc ∷ []

abbrev more_memory : Kmem
more_memory = record { freelist = 0x80801000 ∷ page ∷ [] }

wait_run :
    wait_round kend freevm 1 parent_proc slots memory
    ≡ ok (returns (pos 3), reaped_slots, more_memory)
unfolding wait_round scan_children reaped kfree
wait_run = refl

wait_round_lem_example :
    let r : Waited × List Proc × Kmem = (returns (pos 3), reaped_slots, more_memory) in
    Reaps kend freevm 1 parent_proc slots memory r
    ⊎ (NoZombieChild 1 slots
        × (NoChild 1 slots ⊎ (parent_proc.killed ≡ true))
        × (r ≡ (returns minus_one, slots, memory)))
    ⊎ (NoZombieChild 1 slots
        × (NoChild 1 slots → ⊥)
        × (parent_proc.killed ≡ false)
        × (r ≡ (
          sleeps,
          set slots 1 (record parent_proc { chan = of_proc 1; state = sleeping }),
          memory,
        )))
wait_round_lem_example =
    wait_round_lem kend freevm 1 parent_proc slots memory
      (returns (pos 3), reaped_slots, more_memory) wait_run

exit_table_wakes_init_example : NoSleeper (of_proc 0) (exit_table 1 0 parent_proc slots)
exit_table_wakes_init_example =
    exit_table_wakes_init 1 0 parent_proc slots 2 dead_proc refl refl refl

parents-exit_table_example :
    parents (exit_table 1 0 parent_proc slots) ≡ map (adopt 1 0) (parents slots)
parents-exit_table_example = parents-exit_table 1 0 parent_proc slots

-- A frozen process was reaped from the only entry.
abbrev frozen_proc : Proc
frozen_proc = record user_proc { freeze = true }

abbrev stale_table : PTable
stale_table = record { procs = reaped frozen_proc ∷ []; nextpid = 4 }

stale_run : allocproc user_frame stale_table memory ≡ (
  some 0,
  (allocproc user_frame stale_table memory).1,
  (allocproc user_frame stale_table memory).2,
)
unfolding allocproc find_unused reaped kalloc
stale_run = refl

allocproc_stale_freeze_example :
    (new : Proc) × (get_elem? (allocproc user_frame stale_table memory).1.procs 0 ≡ some new)
    × (new.freeze ≡ true)
allocproc_stale_freeze_example =
    allocproc_stale_freeze user_frame stale_table (allocproc user_frame stale_table memory).1 memory
      (allocproc user_frame stale_table memory).2 0 frozen_proc refl refl stale_run
