-- ===== src/Vm/Grow.antt =====
-- vm.c and proc.c: the size of a process stays below KERNBASE.
use os.Base.{
  ℕ, zero, suc, ◌+◌, ◌*◌, ◌/◌, ◌%◌, ◌^◌, ◌≤◌, ◌<◌, ◌≡◌, refl, ◌⊎◌, inl, inr, true, false, ◌==◌, ltb,
  leb, arith, Bool-cases, bit_or, String,
}
use os.Base.Int.{ℤ, pos, negsuc}
use os.Base.Result.{Result, ok, panic, fault, Ends, Ends-bind, Ends-map}
use os.Machine.{add32, sub32, load32, store32}
use os.Kalloc.{is_bad_page, Kmem, kalloc, kfree, kernbase, pgsize, pg_round_up}
use os.Text.{memset}
use os.Proc.{Proc}
use os.Vm.{
  map_from, walkpgdir, pg_round_down, pdx, pte_p, has_flag, pte_addr, p2v, Vm, mappages, free_from,
  deallocuvm, give_up, grow_from, allocuvm, resized, growproc, v2p, pte_w, pte_u,
}

abbrev Any : {A : Type 0} → A → Type 0
Any a = Unit {0}

kfree-Ends : (kend page : ℕ) (k : Kmem) → Ends Any (kfree kend page k)
unfolding kfree
kfree-Ends kend page k = elim (Bool-cases (is_bad_page kend page)) [
  | inl bad ↦ rw (bad) tt
  | inr good ↦ rw (good) tt
]

map_one-Ends :
    (fuel pgdir a last pa perm : ℕ) (v : Vm)
    → a ≡ last
    → Ends Any (map_from (suc fuel) pgdir a last pa perm v)
unfolding map_from
map_one-Ends fuel pgdir a last pa perm v e =
    let pte : ℕ = (walkpgdir pgdir a true v).0 in
    elim (Bool-cases (pte == 0)) [
      | inl missing ↦ rw (missing) tt
      | inr there ↦
          elim (Bool-cases (has_flag pte_p (load32 (walkpgdir pgdir a true v).1.mem pte))) [
            | inl mapped ↦ rw (there, mapped) tt
            | inr free ↦
                let at_last : (a == last) ≡ true = ground arith in rw (there, free, at_last) tt
          ]
    ]

mappages-Ends :
    (pgdir a pa perm : ℕ) (v : Vm)
    → a % pgsize ≡ 0
    → a < kernbase
    → Ends Any (mappages pgdir a pgsize pa perm v)
unfolding mappages
mappages-Ends pgdir a pa perm v aligned small =
    map_one-Ends 2 pgdir (pg_round_down a) (pg_round_down (sub32 (add32 a pgsize) 1)) pa perm v
      (omega arith)

module _ (kend : ℕ) where
  free_from-Ends :
      (fuel pgdir a oldsz : ℕ) (v : Vm)
      → oldsz ≤ kernbase
      → a % pgsize ≡ 0
      → oldsz ≤ a + pgsize * fuel
      → Ends Any (free_from kend (suc fuel) pgdir a oldsz v)
  unfolding free_from
  free_from-Ends zero pgdir a oldsz v small aligned enough =
      let done : ltb a oldsz ≡ false = ground arith in rw (done) tt
  free_from-Ends (suc fuel) pgdir a oldsz v small aligned enough = elim (Bool-cases (ltb a oldsz)) [
    | inr done ↦ rw (done) tt
    | inl more ↦
        let below : a < oldsz = ground arith in
        let pte : ℕ = (walkpgdir pgdir a false v).0 in
        let w : ℕ = load32 (walkpgdir pgdir a false v).1.mem pte in
        let next : (v' : Vm)
            → Ends Any (free_from kend (suc fuel) pgdir (add32 a pgsize) oldsz v') =
          λ v'.
            free_from-Ends fuel pgdir (add32 a pgsize) oldsz v' small (omega arith) (omega arith) in
        elim (Bool-cases (pte == 0)) [
          | inl no_table ↦
              let behind : add32 (sub32 ((pdx a + 1) * 2 ^ 22) pgsize) pgsize
                  ≡ (a / 2 ^ 22 + 1) * 2 ^ 22 =
                omega arith in
              rw (more, no_table)
                (free_from-Ends fuel pgdir (add32 (sub32 ((pdx a + 1) * 2 ^ 22) pgsize) pgsize)
                  oldsz v small (rw (behind) (omega arith)) (rw (behind) (omega arith)))
          | inr table ↦ elim (Bool-cases (has_flag pte_p w)) [
            | inr absent ↦ rw (more, table, absent) (next v)
            | inl present ↦ elim (Bool-cases (pte_addr w == 0)) [
              | inl null ↦ rw (more, table, present, null) tt
              | inr page ↦
                  rw (more, table, present, page)
                    (Ends-bind Any Any (kfree kend (p2v (pte_addr w)) v.kmem) _
                      (kfree-Ends kend (p2v (pte_addr w)) v.kmem)
                      (λ k h. next (record { mem = store32 v.mem pte 0; kmem = k })))
            ]
          ]
        ]
  ]

  deallocuvm-Ends :
      (pgdir oldsz newsz : ℕ) (v : Vm)
      → oldsz ≤ kernbase
      → Ends (λ (r : ℕ × Vm). r.0 ≤ oldsz) (deallocuvm kend pgdir oldsz newsz v)
  unfolding deallocuvm
  deallocuvm-Ends pgdir oldsz newsz v small = elim (Bool-cases (leb oldsz newsz)) [
    | inl larger ↦ rw (larger) (omega arith)
    | inr smaller ↦
        let rounds : oldsz / pgsize + 2 ≡ suc (oldsz / pgsize + 1) = omega arith in
        rw (smaller) (
          Ends-bind Any (λ (r : ℕ × Vm). r.0 ≤ oldsz)
            (free_from kend (oldsz / pgsize + 2) pgdir (pg_round_up newsz) oldsz v) _
            (rw (rounds) (
              free_from-Ends (oldsz / pgsize + 1) pgdir (pg_round_up newsz) oldsz v small
                (omega arith) (omega arith)))
            (λ v' h. ground arith))
  ]

  give_up-Ends :
      (pgdir oldsz newsz page : ℕ) (v : Vm)
      → newsz ≤ kernbase
      → Ends (λ (r : ℕ × Vm). r.0 ≡ 0) (give_up kend pgdir oldsz newsz page v)
  unfolding give_up
  give_up-Ends pgdir oldsz newsz page v small =
      Ends-bind Any (λ (r : ℕ × Vm). r.0 ≡ 0) (deallocuvm kend pgdir newsz oldsz v) _
        (Ends-map (λ (r : ℕ × Vm). r.0 ≤ newsz) Any (deallocuvm kend pgdir newsz oldsz v)
          (λ r h. tt) (deallocuvm-Ends pgdir newsz oldsz v small))
        (λ (r, v') h. elim (Bool-cases (page == 0)) [
          | inl no_page ↦ rw (no_page) refl
          | inr some_page ↦ rw (some_page) (
              Ends-bind Any (λ (r : ℕ × Vm). r.0 ≡ 0) (kfree kend page v'.kmem) _
                (kfree-Ends kend page v'.kmem) (λ k h'. refl))
        ])

  abbrev Grown : ℕ → ℕ × Vm → Type 0
  Grown newsz r = (r.0 ≡ 0) ⊎ (r.0 ≡ newsz)

  gave_up :
      (pgdir oldsz newsz page : ℕ) (v : Vm)
      → newsz ≤ kernbase
      → Ends (Grown newsz) (give_up kend pgdir oldsz newsz page v)
  gave_up pgdir oldsz newsz page v small =
      Ends-map (λ (r : ℕ × Vm). r.0 ≡ 0) (Grown newsz) (give_up kend pgdir oldsz newsz page v)
        (λ r h. inl h) (give_up-Ends pgdir oldsz newsz page v small)

  grow_from-Ends :
      (fuel pgdir a oldsz newsz : ℕ) (v : Vm)
      → newsz < kernbase
      → a % pgsize ≡ 0
      → newsz ≤ a + pgsize * fuel
      → Ends (Grown newsz) (grow_from kend (suc fuel) pgdir a oldsz newsz v)
  unfolding grow_from
  grow_from-Ends zero pgdir a oldsz newsz v small aligned enough =
      let done : ltb a newsz ≡ false = ground arith in rw (done) (inr refl)
  grow_from-Ends (suc fuel) pgdir a oldsz newsz v small aligned enough =
      elim (Bool-cases (ltb a newsz)) [
        | inr done ↦ rw (done) (inr refl)
        | inl more ↦ elim (Bool-cases ((kalloc v.kmem).0 == 0)) [
          | inl no_page ↦
              rw (more, no_page)
                (gave_up pgdir oldsz newsz 0 (record v { kmem = (kalloc v.kmem).1 }) (omega arith))
          | inr page ↦
              let below : a < newsz = ground arith in
              let m : ℕ = (kalloc v.kmem).0 in
              let v1 : Vm = record { mem = memset v.mem m 0 pgsize; kmem = (kalloc v.kmem).1 } in
              rw (more, page)
                (Ends-bind Any (Grown newsz)
                  (mappages pgdir a pgsize (v2p m) (bit_or pte_w pte_u) v1) _
                  (mappages-Ends pgdir a (v2p m) (bit_or pte_w pte_u) v1 aligned (omega arith))
                  (λ (mapped, v2) h. elim (Bool-cases mapped) [
                    | inl yes_mapped ↦ rw (yes_mapped) (
                        grow_from-Ends fuel pgdir (add32 a pgsize) oldsz newsz v2 small
                          (omega arith) (omega arith))
                    | inr unmapped ↦ rw (unmapped) (gave_up pgdir oldsz newsz m v2 (omega arith))
                  ]))
        ]
      ]

  allocuvm-Ends :
      (pgdir oldsz newsz : ℕ) (v : Vm)
      → oldsz < kernbase
      → Ends (λ (r : ℕ × Vm). r.0 < kernbase) (allocuvm kend pgdir oldsz newsz v)
  unfolding allocuvm
  allocuvm-Ends pgdir oldsz newsz v small = elim (Bool-cases (leb kernbase newsz)) [
    | inl large ↦ rw (large) (omega arith)
    | inr fits ↦ elim (Bool-cases (ltb newsz oldsz)) [
      | inl shrinks ↦ rw (fits, shrinks) small
      | inr grows ↦
          rw (fits, grows)
            (Ends-map (Grown newsz) (λ (r : ℕ × Vm). r.0 < kernbase)
              (grow_from kend (newsz / pgsize + 2) pgdir (pg_round_up oldsz) oldsz newsz v)
              (λ r h. elim h [ inl none ↦ omega arith | inr all ↦ ground arith ])
              (let rounds : newsz / pgsize + 2 ≡ suc (newsz / pgsize + 1) = omega arith in
                rw (rounds) (
                  grow_from-Ends (newsz / pgsize + 1) pgdir (pg_round_up oldsz) oldsz newsz v
                    (ground arith) (omega arith) (omega arith))))
    ]
  ]

  abbrev Small : ℤ × Proc × Vm → Type 0
  Small (r, p, v) = p.sz < kernbase

  resized-Ends : (p : Proc) (sz : ℕ) (v : Vm) → sz < kernbase → Ends Small (resized kend p sz v)
  resized-Ends p sz v small = elim (Bool-cases (p.kstack == 0)) [
    | inl no_stack ↦ rw (no_stack) tt
    | inr stack ↦ elim (Bool-cases (p.pgdir == 0)) [
      | inl no_directory ↦ rw (stack, no_directory) tt
      | inr directory ↦ rw (stack, directory) small
    ]
  ]

  growproc-Ends : (n : ℤ) (p : Proc) (v : Vm) → p.sz < kernbase → Ends Small (growproc kend n p v)
  unfolding growproc
  growproc-Ends (pos n) p v small = elim (Bool-cases (n == 0)) [
    | inl none_asked ↦ rw (none_asked) (resized-Ends p p.sz v small)
    | inr asked ↦ rw (asked) (
        Ends-bind (λ (r : ℕ × Vm). r.0 < kernbase) Small
          (allocuvm kend p.pgdir p.sz (add32 p.sz n) v) _
          (allocuvm-Ends p.pgdir p.sz (add32 p.sz n) v small)
          (λ (sz, v') h. elim (Bool-cases (sz == 0)) [
            | inl failed ↦ rw (failed) small
            | inr grown ↦ rw (grown) (resized-Ends p sz v' h)
          ]))
  ]
  growproc-Ends (negsuc n) p v small =
      Ends-bind (λ (r : ℕ × Vm). r.0 ≤ p.sz) Small
        (deallocuvm kend p.pgdir p.sz (sub32 p.sz (n + 1)) v) _
        (deallocuvm-Ends p.pgdir p.sz (sub32 p.sz (n + 1)) v (omega arith))
        (λ (sz, v') h. elim (Bool-cases (sz == 0)) [
          | inl failed ↦ rw (failed) small
          | inr shrunk ↦ rw (shrunk) (resized-Ends p sz v' (omega arith))
        ])

  outcome :
      (r : Result (ℤ × Proc × Vm))
      → Ends Small r
      → ((x : ℤ × Proc × Vm) × (r ≡ ok x) × Small x) ⊎ ((message : String) × (r ≡ panic message))
  outcome (ok x) h = inl (x, refl, h)
  outcome (panic message) h = inr (message, refl)
  outcome fault h = absurd h

  -- `growproc` comes to an end, and if it does not panic, the size of a process stays below KERNBASE
  -- however it grows or shrinks.
  pub growproc_lem :
      (n : ℤ) (p : Proc) (v : Vm)
      → p.sz < kernbase
      → ((x : ℤ × Proc × Vm) × (growproc kend n p v ≡ ok x) × (x.1.sz < kernbase))
        ⊎ ((message : String) × (growproc kend n p v ≡ panic message))
  growproc_lem n p v small = outcome (growproc kend n p v) (growproc-Ends n p v small)
