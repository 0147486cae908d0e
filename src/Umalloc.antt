-- ===== src/Umalloc.antt =====
-- umalloc.c: the allocator of user programs. An address is a number of bytes; `ptr` and `size` are the
-- headers' fields at each address, and `base` is the address of the static header. `sbrk`
-- is the system call on the end `brk` of the heap: the new end, or none for -1. The loops have fuel.
pub mod Chains
pub mod Splice
pub mod Place
pub mod Free
pub mod Take
mod Tests
use os.Base.{
  ℕ, zero, suc, ◌+◌, ◌-◌, ◌*◌, ◌/◌, ◌%◌, ◌^◌, Bool, true, false, ◌&&◌, ◌||◌, Option, none, some,
  ◌==◌, ltb, leb, if◌then◌else◌,
}
use os.Base.Result.{Result, ok, fault, ◌>>=◌}
use os.Machine.{add32, sub32}

-- `sizeof(Header)`
abbrev pub header : ℕ
header = 8

pub record Heap : Type 0 where
  pub ptr : ℕ → ℕ
  pub size : ℕ → ℕ
  pub freep : ℕ
  pub brk : ℕ

abbrev pub update : (ℕ → ℕ) → ℕ → ℕ → ℕ → ℕ
update f a v x = if x == a then v else f x

-- The address behind the block at `p`: `p + p->s.size`.
abbrev pub end_of : Heap → ℕ → ℕ
end_of h p = p + header * h.size p

abbrev pub is_place : Heap → ℕ → ℕ → Bool
is_place h bp p = ltb p bp && ltb bp (h.ptr p) || leb (h.ptr p) p && (ltb p bp || ltb bp (h.ptr p))

-- The loop of `free`: the block of the list behind which `bp` belongs.
unfoldable pub find_place : ℕ → Heap → ℕ → ℕ → Result ℕ
find_place zero h bp p = fault
find_place (suc fuel) h bp p =
    let next : Result ℕ = find_place fuel h bp (h.ptr p) in if is_place h bp p then ok p else next

-- Joined with the block above it, or linked to it.
unfoldable pub join_upper : Heap → ℕ → ℕ → Heap
join_upper h p bp =
    if end_of h bp == h.ptr p
    then record h {
      size = update h.size bp (h.size bp + h.size (h.ptr p));
      ptr = update h.ptr bp (h.ptr (h.ptr p));
    }
    else record h { ptr = update h.ptr bp (h.ptr p) }

-- Joined with the block below it, or linked from it.
unfoldable pub join_lower : Heap → ℕ → ℕ → Heap
join_lower h p bp =
    if end_of h p == bp
    then record h { size = update h.size p (h.size p + h.size bp); ptr = update h.ptr p (h.ptr bp) }
    else record h { ptr = update h.ptr p bp }

unfoldable pub free : ℕ → ℕ → Heap → Result Heap
unfolding find_place join_upper join_lower
free fuel ap h = do
  p ← find_place fuel h (ap - header) h.freep
  ok (record (join_lower (join_upper h p (ap - header)) p (ap - header)) { freep = p })

-- The block of `nunits` units in the block `p` behind `prevp`.
unfoldable pub carve : ℕ → ℕ → ℕ → Heap → ℕ × Heap
carve nunits prevp p h =
    if h.size p == nunits
    then (p, record h { ptr = update h.ptr prevp (h.ptr p); freep = prevp })
    else (
      p + header * (h.size p - nunits),
      record h {
        size =
            update (update h.size p (h.size p - nunits)) (p + header * (h.size p - nunits)) nunits;
        freep = prevp;
      },
    )

-- The number of units for `nbytes` bytes; the sum wraps.
abbrev pub units : ℕ → ℕ
units nbytes = sub32 (add32 nbytes header) 1 / header + 1

module _ (base : ℕ) (sbrk : ℕ → ℕ → Option ℕ) where
  -- The block that `free` leaves in `freep`, or none for the null pointer.
  unfoldable pub morecore : ℕ → ℕ → Heap → Result (Option ℕ × Heap)
  unfolding free
  morecore fuel nu h =
      let n : ℕ = if ltb nu 4096 then 4096 else nu in
      elim (sbrk h.brk (n * header % 2 ^ 32)) [
        | none ↦ ok (none, h)
        | some brk' ↦ do
          h' ← free fuel (h.brk + header) (record h { size = update h.size h.brk n; brk = brk' })
          ok (some h'.freep, h')
      ]

  -- The loop of `malloc`: the block, or none.
  unfoldable pub search_from : ℕ → ℕ → ℕ → ℕ → Heap → Result (Option ℕ × Heap)
  unfolding morecore carve
  search_from zero nunits prevp p h = fault
  search_from (suc fuel) nunits prevp p h =
      let again : ℕ → Heap → Result (Option ℕ × Heap) =
        λ q h'. search_from fuel nunits q (h'.ptr q) h' in
      if leb nunits (h.size p)
      then (let (b, h') = carve nunits prevp p h in ok (some (b + header), h'))
      else if p == h.freep
      then (do
        (q, h') ← morecore fuel nunits h
        elim q [ none ↦ ok (none, h') | some r ↦ again r h' ])
      else again p h

  -- The list of the static header alone, if there is none yet.
  abbrev pub started : Heap → Heap
  started h =
      if h.freep == 0
      then record h { ptr = update h.ptr base base; size = update h.size base 0; freep = base }
      else h

  unfoldable pub malloc : ℕ → ℕ → Heap → Result (Option ℕ × Heap)
  unfolding search_from
  malloc fuel nbytes h =
      let h' : Heap = started h in search_from fuel (units nbytes) h'.freep (h'.ptr h'.freep) h'
