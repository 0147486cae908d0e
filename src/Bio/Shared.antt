-- ===== src/Bio/Shared.antt =====
-- bio.c: the cache keeps one buffer for each block, whatever processes do to it.
use os.Base.{
  ℕ, ◌-◌, ◌≡◌, refl, sym, ap, ◌∙◌, inl, inr, true, not, some, List, ◌∷◌, ◌==◌, arith, Bool-cases,
  Option-cases,
}
use mathlib.Core.Path.{subst}
use os.Base.Result.{ok, panic, >>=-eq-ok, ok-injective, ◌>>=◌, ◌>>◌, panic_if}
use os.Machine.{Mem}
use os.Bio.{
  Buf, is_block, is_idle, find_buf, find_back, update, take_ref, recycle, bget, has_id, get_buf,
  lock_buf, iderw, bread_locked, bwrite_buf, remove, brelse,
}
use os.Lock.{acquiresleep, releasesleep, holdingsleep}
use os.Bio.Once.{
  IsOnce, SameBlock, find_buf-NotCached, update-IsOnce, recycle-IsOnce, remove-IsOnce,
}

get_buf-found :
    (id : ℕ) (cache : List Buf) (b : Buf)
    → get_buf id cache ≡ ok b
    → find_buf (has_id id) cache ≡ some b
unfolding get_buf
get_buf-found id cache b e = elim (Option-cases (find_buf (has_id id) cache)) [
  | inl missing ↦ absurd (ground arith)
  | inr (c, found) ↦ let same : c ≡ b = ground arith in found ∙ ap some same
]

-- The buffer `b` found as `id` replaced by one for the same block.
replace-IsOnce :
    (id : ℕ) (cache : List Buf) (b b' : Buf)
    → get_buf id cache ≡ ok b
    → SameBlock b b'
    → IsOnce cache
    → IsOnce (update id (λ c. b') cache)
replace-IsOnce id cache b b' e (same_dev, same_no) once =
    update-IsOnce id (λ c. b') cache
      (λ c found.
        let same : c ≡ b = ground (arith, get_buf-found id cache b e) in
        (ap (λ (x : Buf). x.dev) same ∙ same_dev, ap (λ (x : Buf). x.blockno) same ∙ same_no))
      once

iderw-SameBlock :
    (disksize pid : ℕ) (b b' : Buf) (disk disk' : ℕ → Mem)
    → iderw disksize pid b disk ≡ ok (b', disk')
    → SameBlock b b'
unfolding iderw
iderw-SameBlock disksize pid b b' disk disk' e = ground arith

bget-IsOnce :
    (dev blockno id : ℕ) (cache cache' : List Buf)
    → bget dev blockno cache ≡ ok (id, cache')
    → IsOnce cache
    → IsOnce cache'
unfolding bget
bget-IsOnce dev blockno id cache cache' e once =
    elim (Option-cases (find_buf (is_block dev blockno) cache)) [
      | inr (b, found) ↦
          let step : bget dev blockno cache ≡ ok (b.id, update b.id take_ref cache) =
            rw (bget, found) refl in
          subst IsOnce (ap (λ (x : ℕ × List Buf). x.1) (ok-injective (sym step ∙ e)))
            (update-IsOnce b.id take_ref cache (λ c found'. (refl, refl)) once)
      | inl missing ↦ elim (Option-cases (find_back is_idle cache)) [
        | inr (b, idle) ↦
            let step : bget dev blockno cache ≡ ok (b.id, update b.id (recycle dev blockno) cache) =
              rw (bget, missing, idle) refl in
            subst IsOnce (ap (λ (x : ℕ × List Buf). x.1) (ok-injective (sym step ∙ e))) (
              recycle-IsOnce dev blockno b.id cache (find_buf-NotCached dev blockno cache missing)
                once)
        | inl none_idle ↦
            let step : bget dev blockno cache ≡ panic "bget: no buffers" =
              rw (bget, missing, none_idle) refl in
            absurd (ground (arith, sym step ∙ e))
      ]
    ]

-- The buffer `b` found as `id` after `iderw` on it, or on it with other flags.
iderw-IsOnce :
    (disksize pid id : ℕ) (cache cache' : List Buf) (b c : Buf) (disk disk' : ℕ → Mem)
    → get_buf id cache ≡ ok b
    → SameBlock b c
    → ◌>>=◌ {B = List Buf × (ℕ → Mem)}
        (iderw disksize pid c disk)
        (λ r. ok (update id (λ d. r.0) cache, r.1))
      ≡ ok (cache', disk')
    → IsOnce cache
    → IsOnce cache'
iderw-IsOnce disksize pid id cache cache' b c disk disk' found same e once =
    let (r, run, last) =
      >>=-eq-ok (iderw disksize pid c disk) (λ r. ok (update id (λ d. r.0) cache, r.1)) e in
    let kept : SameBlock c r.0 = iderw-SameBlock disksize pid c r.0 disk r.1 run in
    subst IsOnce (ap (λ (x : List Buf × (ℕ → Mem)). x.0) (ok-injective last))
      (replace-IsOnce id cache b r.0 found (same.0 ∙ kept.0, same.1 ∙ kept.1) once)

bread_locked_found :
    (disksize pid id : ℕ) (cache cache' : List Buf) (b : Buf) (disk disk' : ℕ → Mem)
    → get_buf id cache ≡ ok b
    → bread_locked disksize pid id cache disk ≡ ok (cache', disk')
    → IsOnce cache
    → IsOnce cache'
unfolding bread_locked
bread_locked_found disksize pid id cache cache' b disk disk' found e once =
    elim (Bool-cases b.valid) [
      | inl valid ↦
          let step : bread_locked disksize pid id cache disk ≡ ok (cache, disk) =
            rw (bread_locked, found, valid) refl in
          subst IsOnce (ap (λ (x : List Buf × (ℕ → Mem)). x.0) (ok-injective (sym step ∙ e))) once
      | inr stale ↦
          let step : bread_locked disksize pid id cache disk
              ≡ ◌>>=◌ {B = List Buf × (ℕ → Mem)} (iderw disksize pid b disk)
                  (λ r. ok (update id (λ d. r.0) cache, r.1)) =
            rw (bread_locked, found, stale) refl in
          iderw-IsOnce disksize pid id cache cache' b b disk disk' found (refl, refl) (sym step ∙ e)
            once
    ]

bread_locked-IsOnce :
    (disksize pid id : ℕ) (cache cache' : List Buf) (disk disk' : ℕ → Mem)
    → bread_locked disksize pid id cache disk ≡ ok (cache', disk')
    → IsOnce cache
    → IsOnce cache'
unfolding bread_locked
bread_locked-IsOnce disksize pid id cache cache' disk disk' e once =
    let (b, found, rest) = >>=-eq-ok (get_buf id cache) _ e in
    bread_locked_found disksize pid id cache cache' b disk disk' found e once

bwrite_buf_found :
    (disksize pid id : ℕ) (cache cache' : List Buf) (b : Buf) (disk disk' : ℕ → Mem)
    → get_buf id cache ≡ ok b
    → bwrite_buf disksize pid id cache disk ≡ ok (cache', disk')
    → IsOnce cache
    → IsOnce cache'
unfolding bwrite_buf
bwrite_buf_found disksize pid id cache cache' b disk disk' found e once =
    elim (Bool-cases (holdingsleep pid b.lock)) [
      | inl held ↦
          let step : bwrite_buf disksize pid id cache disk
              ≡ ◌>>=◌ {B = List Buf × (ℕ → Mem)}
                  (iderw disksize pid (record b { dirty = true }) disk)
                  (λ r. ok (update id (λ d. r.0) cache, r.1)) =
            rw (bwrite_buf, found)
              (ap
                (λ t. ◌>>◌ {B = List Buf × (ℕ → Mem)} (panic_if (not t) "bwrite") (
                  ◌>>=◌ {B = List Buf × (ℕ → Mem)}
                    (iderw disksize pid (record b { dirty = true }) disk)
                    (λ r. ok (update id (λ d. r.0) cache, r.1))))
                held) in
          iderw-IsOnce disksize pid id cache cache' b (record b { dirty = true }) disk disk' found
            (refl, refl) (sym step ∙ e) once
      | inr free ↦
          let step : bwrite_buf disksize pid id cache disk ≡ panic "bwrite" =
            rw (bwrite_buf, found, free) refl in
          absurd (ground (arith, sym step ∙ e))
    ]

bwrite_buf-IsOnce :
    (disksize pid id : ℕ) (cache cache' : List Buf) (disk disk' : ℕ → Mem)
    → bwrite_buf disksize pid id cache disk ≡ ok (cache', disk')
    → IsOnce cache
    → IsOnce cache'
unfolding bwrite_buf
bwrite_buf-IsOnce disksize pid id cache cache' disk disk' e once =
    let (b, found, rest) = >>=-eq-ok (get_buf id cache) _ e in
    bwrite_buf_found disksize pid id cache cache' b disk disk' found e once

lock_buf-IsOnce :
    (pid id : ℕ) (cache cache' : List Buf)
    → lock_buf pid id cache ≡ ok (some cache')
    → IsOnce cache
    → IsOnce cache'
unfolding lock_buf
lock_buf-IsOnce pid id cache cache' e once =
    let (b, found, rest) = >>=-eq-ok (get_buf id cache) _ e in
    elim (Option-cases (acquiresleep pid b.lock)) [
      | inl asleep ↦ absurd (ground (arith, rest))
      | inr (lk, held) ↦
          let step : ok (some (update id (λ c. record c { lock = lk }) cache)) ≡ ok (some cache') =
            rw (held) at rest in
          let same : update id (λ c. record c { lock = lk }) cache ≡ cache' =
            ground (arith, step) in
          subst IsOnce same
            (update-IsOnce id (λ c. record c { lock = lk }) cache (λ c found'. (refl, refl)) once)
    ]

brelse-IsOnce :
    (pid id : ℕ) (cache cache' : List Buf)
    → brelse pid id cache ≡ ok cache'
    → IsOnce cache
    → IsOnce cache'
unfolding brelse
brelse-IsOnce pid id cache cache' e once =
    let (b, found, rest) = >>=-eq-ok (get_buf id cache) _ e in
    let b' : Buf = record b { lock = releasesleep b.lock; refcnt = b.refcnt - 1 } in
    elim (Bool-cases (holdingsleep pid b.lock)) [
      | inr free ↦ absurd (ground (arith, rest))
      | inl held ↦ elim (Bool-cases (b.refcnt == 0)) [
        | inl none_left ↦ absurd (ground (arith, rest))
        | inr some_left ↦ elim (Bool-cases (b.refcnt - 1 == 0)) [
          | inl last ↦
              let step : ok (b' ∷ remove id cache) ≡ ok cache' =
                rw (held, some_left, last) at rest in
              subst IsOnce (ok-injective step)
                (remove-IsOnce id cache b (get_buf-found id cache b found) once)
          | inr shared ↦
              let step : ok (update id (λ c. b') cache) ≡ ok cache' =
                rw (held, some_left, shared) at rest in
              subst IsOnce (ok-injective step)
                (replace-IsOnce id cache b b' found (refl, refl) once)
        ]
      ]
    ]

-- What processes do to the cache.
pub data Step (disksize : ℕ) : List Buf → List Buf → Type 0 where
  gets :
      {c c' : List Buf} (dev blockno id : ℕ) → bget dev blockno c ≡ ok (id, c') → Step disksize c c'
  locks : {c c' : List Buf} (pid id : ℕ) → lock_buf pid id c ≡ ok (some c') → Step disksize c c'
  reads :
      {c c' : List Buf} (pid id : ℕ) (disk disk' : ℕ → Mem)
      → bread_locked disksize pid id c disk ≡ ok (c', disk')
      → Step disksize c c'
  writes :
      {c c' : List Buf} (pid id : ℕ) (disk disk' : ℕ → Mem)
      → bwrite_buf disksize pid id c disk ≡ ok (c', disk')
      → Step disksize c c'
  releases : {c c' : List Buf} (pid id : ℕ) → brelse pid id c ≡ ok c' → Step disksize c c'

pub data Reach (disksize : ℕ) (c : List Buf) : List Buf → Type 0 where
  here : Reach disksize c c
  next : {d e : List Buf} → Reach disksize c d → Step disksize d e → Reach disksize c e

Step-IsOnce : {disksize : ℕ} {c c' : List Buf} → Step disksize c c' → IsOnce c → IsOnce c'
Step-IsOnce (gets {c} {c'} dev blockno id e) once = bget-IsOnce dev blockno id c c' e once
Step-IsOnce (locks {c} {c'} pid id e) once = lock_buf-IsOnce pid id c c' e once
Step-IsOnce {disksize} (reads {c} {c'} pid id disk disk' e) once =
    bread_locked-IsOnce disksize pid id c c' disk disk' e once
Step-IsOnce {disksize} (writes {c} {c'} pid id disk disk' e) once =
    bwrite_buf-IsOnce disksize pid id c c' disk disk' e once
Step-IsOnce (releases {c} {c'} pid id e) once = brelse-IsOnce pid id c c' e once

-- However processes get, lock, read, write and release buffers, no block of a device comes to be in
-- two buffers, if none is at first.
pub Reach-IsOnce : {disksize : ℕ} {c c' : List Buf} → IsOnce c → Reach disksize c c' → IsOnce c'
Reach-IsOnce once here = once
Reach-IsOnce once (next r s) = Step-IsOnce s (Reach-IsOnce once r)
