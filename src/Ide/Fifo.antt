-- ===== src/Ide/Fifo.antt =====
-- ide.c: the requests are served in order, one at a time.
use mathlib.Core.List.{append-nil, append_assoc, map-append}
use mathlib.Core.Path.{subst}
use os.Base.{
  ℕ, inl, inr, Bool-cases, ◌≡◌, refl, sym, ap, ◌∙◌, String, Bool, true, false, not, ◌&&◌, Option,
  none, some, List, [], ◌∷◌, ◌++◌, ◌==◌, map, arith,
}
use os.Base.Result.{Result, ok, ◌>>◌, panic_if, >>=-eq-ok, ok-injective}
use os.Machine.{Mem}
use os.Lock.{holdingsleep}
use os.Bio.{Buf}
use os.Ide.{
  Io, Ide, start, start_next, ideintr, serve, queued, cons_to, iderw, enqueue, received, update,
  idestart,
}

-- The active request: the first of the queue.
abbrev pub active : List ℕ → List ℕ
active [] = []
active (b ∷ rest) = b ∷ []

-- The buffers for which the disk was started.
abbrev pub started : Ide → List ℕ
started s = map (λ (r : ℕ × List Io). r.0) s.requests

-- The buffer for which the disk is started when the request of `b` comes to a queue.
abbrev woken : List ℕ → ℕ → List ℕ
woken [] b = b ∷ []
woken (c ∷ rest) b = []

-- `asked` are the buffers of the requests made, `ended` those of the requests that have ended.
pub record IsFifo (asked ended : List ℕ) (s : Ide) : Type 0 where
  pub in_order : asked ≡ ended ++ s.queue
  pub one_active : started s ≡ ended ++ active s.queue

-- The calls of `iderw`, up to their wait, and the interrupts from an empty queue on, with any changes
-- of the buffers by other code between them: the buffers asked for, and those of which the request
-- has ended, in order.
pub data Run : List ℕ → List ℕ → Ide → Type 0 where
  begins :
      (bufs : ℕ → Buf) (two : Bool)
      → Run [] [] (record { queue = []; bufs = bufs; havedisk1 = two; requests = [] })
  asks :
      {asked ended : List ℕ} (pid b : ℕ) (s t : Ide)
      → iderw pid b s ≡ ok t
      → Run asked ended s
      → Run (asked ++ b ∷ []) ended t
  ends :
      {asked ended : List ℕ} (error : Bool) (input : Mem) (b : ℕ) (s t : Ide)
      → ideintr error input s ≡ ok (t, some b)
      → Run asked ended s
      → Run asked (ended ++ b ∷ []) t
  spurious :
      {asked ended : List ℕ} (error : Bool) (input : Mem) (s t : Ide)
      → ideintr error input s ≡ ok (t, none)
      → Run asked ended s
      → Run asked ended t
  changes :
      {asked ended : List ℕ} (bufs : ℕ → Buf) (s : Ide)
      → Run asked ended s
      → Run asked ended (record s { bufs = bufs })

cons_to-some :
    (c : ℕ) (o : Option (List ℕ)) (r : List ℕ)
    → cons_to c o ≡ some r
    → (q : List ℕ) × (o ≡ some q) × (r ≡ c ∷ q)
cons_to-some c none r h = cc
cons_to-some c (some q) r h = (q, refl, cc)

enqueue-some : (b : ℕ) (q r : List ℕ) → enqueue b q ≡ some r → r ≡ q ++ b ∷ []
unfolding enqueue
enqueue-some b [] r h = ground (arith, h)
enqueue-some b (c ∷ q) r h = elim (Bool-cases (c == b)) [
  | inl there ↦ absurd (ground (arith, h))
  | inr other ↦
      let longer : cons_to c (enqueue b q) ≡ some r = ground (arith, h, other) in
      let (r', put, e) = cons_to-some c (enqueue b q) r longer in
      e ∙ ap (λ q. c ∷ q) (enqueue-some b q r' put)
]

-- What `start` leaves: the queue, and a request more.
start-some :
    (b : ℕ) (s t : Ide)
    → start b s ≡ ok t
    → (t.queue ≡ s.queue) × (t.bufs ≡ s.bufs) × (started t ≡ started s ++ b ∷ [])
unfolding start
start-some b s t h =
    let (out, ran, e) = >>=-eq-ok (idestart (s.bufs b)) _ h in
    let same : record s { requests = s.requests ++ (b, out) ∷ [] } ≡ t = ok-injective e in
    (
      sym (ap (λ s. s.queue) same),
      sym (ap (λ s. s.bufs) same),
      ap started (sym same) ∙ map-append (λ (r : ℕ × List Io). r.0) s.requests ((b, out) ∷ []),
    )

queued-some :
    (b : ℕ) (s t : Ide) (old : List ℕ) (q : Option (List ℕ))
    → queued b s old q ≡ ok t
    → (q ≡ some t.queue) × (started t ≡ started s ++ woken old b)
unfolding queued
queued-some b s t old none h = cc
queued-some b s t [] (some q) h =
    let (same, bufs, more) = start-some b (record s { queue = q }) t h in (ap some (sym same), more)
queued-some b s t (c ∷ rest) (some q) h =
    let same : record s { queue = q } ≡ t = ok-injective h in
    (ap (λ s. some s.queue) same, ap started (sym same) ∙ sym (append-nil (started s)))

panic_if_past :
    (b : Bool) (e : String) (r : Result Ide) {t : Ide} (ended : (panic_if b e >> r) ≡ ok t)
    → r ≡ ok t
panic_if_past true e r ended = cc
panic_if_past false e r ended = ended

iderw-some :
    (pid b : ℕ) (s t : Ide)
    → iderw pid b s ≡ ok t
    → (t.queue ≡ s.queue ++ b ∷ []) × (started t ≡ started s ++ woken s.queue b)
unfolding iderw
iderw-some pid b s t h =
    let buf : Buf = s.bufs b in
    let past : queued b s s.queue (enqueue b s.queue) ≡ ok t =
      panic_if_past (not (buf.dev == 0) && not s.havedisk1) "iderw: ide disk 1 not present" _ (
        panic_if_past (buf.valid && not buf.dirty) "iderw: nothing to do" _
          (panic_if_past (not (holdingsleep pid buf.lock)) "iderw: buf not locked" _ h)) in
    let (put, count) = queued-some b s t s.queue (enqueue b s.queue) past in
    (enqueue-some b s.queue t.queue put, count)

start_next-some :
    (s t : Ide) (rest : List ℕ)
    → start_next s rest ≡ ok t
    → (t.queue ≡ s.queue) × (t.bufs ≡ s.bufs) × (started t ≡ started s ++ active rest)
unfolding start_next
start_next-some s t [] h =
    let same : s ≡ t = ok-injective h in
    (
      sym (ap (λ s. s.queue) same),
      sym (ap (λ s. s.bufs) same),
      ap started (sym same) ∙ sym (append-nil (started s)),
    )
start_next-some s t (b ∷ rest) h = let (same, bufs, more) = start-some b s t h in (same, bufs, more)

serve-some :
    (error : Bool) (input : Mem) (b : ℕ) (s t : Ide) (queue : List ℕ)
    → serve error input s queue ≡ ok (t, some b)
    → (queue ≡ b ∷ t.queue)
      × (started t ≡ started s ++ active t.queue)
      × (t.bufs ≡ update s.bufs b (received error input (s.bufs b)))
unfolding serve
serve-some error input b s t [] h = absurd (ground (arith, ok-injective h))
serve-some error input b s t (c ∷ rest) h =
    let (t', ran, e) =
      >>=-eq-ok
        (start_next
          (record s { queue = rest; bufs = update s.bufs c (received error input (s.bufs c)) })
          rest)
        _ h in
    let (queue, bufs, more) = start_next-some _ t' rest ran in
    let same : t' ≡ t = ap (λ r. r.0) (ok-injective e) in
    let head : c ≡ b = cc in
    let left : t.queue ≡ rest = ap (λ s. s.queue) (sym same) ∙ queue in
    (
      cc,
      ap started (sym same) ∙ more ∙ ap (λ q. started s ++ active q) (sym left),
      ap (λ s. s.bufs) (sym same)
          ∙ bufs
          ∙ ap (λ c. update s.bufs c (received error input (s.bufs c))) head,
    )

serve-none :
    (error : Bool) (input : Mem) (s t : Ide) (queue : List ℕ)
    → serve error input s queue ≡ ok (t, none)
    → s ≡ t
unfolding serve
serve-none error input s t [] h = ap (λ r. r.0) (ok-injective h)
serve-none error input s t (c ∷ rest) h =
    let (t', ran, e) =
      >>=-eq-ok
        (start_next
          (record s { queue = rest; bufs = update s.bufs c (received error input (s.bufs c)) })
          rest)
        _ h in
    absurd (ground (arith, ok-injective e))

active-append : (q : List ℕ) (b : ℕ) → active (q ++ b ∷ []) ≡ active q ++ woken q b
active-append [] b = refl
active-append (c ∷ q) b = refl

-- The requests end in the order in which they were made: those that were made are those that have
-- ended, then those in the queue. The disk was started for the requests that have ended, in that
-- order, and then for the first of the queue if there is one: it never has two at a time, and is
-- never idle while one waits. Between the steps other code may change the buffers in any way, so
-- that a buffer can be asked for again.
pub Run-IsFifo_requests :
    (asked ended : List ℕ) (s : Ide) → Run asked ended s → IsFifo asked ended s
unfolding ideintr
Run-IsFifo_requests _ _ _ (begins bufs two) = record { in_order = refl; one_active = refl }
Run-IsFifo_requests _ _ _ (asks {asked} {ended} pid b s t ran run) =
    let before : IsFifo asked ended s = Run-IsFifo_requests asked ended s run in
    let (queue, count) = iderw-some pid b s t ran in
    record {
      in_order =
          ap (λ l. l ++ b ∷ []) before.in_order
          ∙ append_assoc ended s.queue (b ∷ [])
          ∙ ap (λ q. ended ++ q) (sym queue);
      one_active =
          count
          ∙ ap (λ l. l ++ woken s.queue b) before.one_active
          ∙ append_assoc ended (active s.queue) (woken s.queue b)
          ∙ ap (λ q. ended ++ q) (sym (active-append s.queue b) ∙ ap active (sym queue));
    }
Run-IsFifo_requests _ _ _ (ends {asked} {ended} error input b s t ran run) =
    let before : IsFifo asked ended s = Run-IsFifo_requests asked ended s run in
    let (queue, count, bufs) = serve-some error input b s t s.queue ran in
    record {
      in_order =
          before.in_order ∙ ap (λ q. ended ++ q) queue ∙ sym (append_assoc ended (b ∷ []) t.queue);
      one_active =
          count
          ∙ ap (λ l. l ++ active t.queue) (before.one_active ∙ ap (λ q. ended ++ active q) queue);
    }
Run-IsFifo_requests _ _ _ (spurious {asked} {ended} error input s t ran run) =
    subst (λ s. IsFifo asked ended s) (serve-none error input s t s.queue ran)
      (Run-IsFifo_requests asked ended s run)
Run-IsFifo_requests _ _ _ (changes {asked} {ended} bufs s run) =
    let before : IsFifo asked ended s = Run-IsFifo_requests asked ended s run in
    record { in_order = before.in_order; one_active = before.one_active }
