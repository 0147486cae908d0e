-- ===== src/Ide/Tests.antt =====
-- Two requests to the disk, and the theorem on its queue.
use os.Base.{ℕ, ◌*◌, ◌≡◌, refl, true, false, some, none, List, [], ◌∷◌, ◌==◌}
use os.Base.Result.{ok, panic}
use os.Bio.{Buf}
use os.Proc.Sample.{zero_mem}
use os.Lock.{holdingsleep}
use os.Ide.{
  Ide, Io, update, outb, outsl, idestart, start, start_next, received, serve, ideintr, enqueue,
  queued, iderw, is_done,
}
use os.Ide.Fifo.{begins, asks, ends, changes, IsFifo, Run-IsFifo_requests}

-- Buffer `i` is for block `300 * i`, is locked by process 4, and is to be written if it is the first.
abbrev locked : ℕ → Buf
locked i = record {
  id = i;
  dev = 0;
  blockno = 300 * i;
  valid = i == 1;
  dirty = i == 1;
  lock = record { locked = true; pid = 4 };
  refcnt = 1;
  bytes = zero_mem;
}

abbrev quiet : Ide
quiet = record { queue = []; bufs = locked; havedisk1 = false; requests = [] }

abbrev write_one : List Io
write_one =
    outb 0x3f6 0
    ∷ outb 0x1f2 1
    ∷ outb 0x1f3 44
    ∷ outb 0x1f4 1
    ∷ outb 0x1f5 0
    ∷ outb 0x1f6 224
    ∷ outb 0x1f7 48
    ∷ outsl 0x1f0 zero_mem 128
    ∷ []

abbrev read_two : List Io
read_two =
    outb 0x3f6 0
    ∷ outb 0x1f2 1
    ∷ outb 0x1f3 88
    ∷ outb 0x1f4 2
    ∷ outb 0x1f5 0
    ∷ outb 0x1f6 224
    ∷ outb 0x1f7 32
    ∷ []

abbrev one : Ide
one = record quiet { queue = 1 ∷ []; requests = (1, write_one) ∷ [] }

abbrev two : Ide
two = record one { queue = 1 ∷ 2 ∷ [] }

abbrev served : Ide
served = record {
  queue = 2 ∷ [];
  bufs = update locked 1 (received false zero_mem (locked 1));
  havedisk1 = false;
  requests = (1, write_one) ∷ (2, read_two) ∷ [];
}

ask_one : iderw 4 1 quiet ≡ ok one
unfolding iderw holdingsleep enqueue queued start idestart
ask_one = refl

ask_two : iderw 4 2 one ≡ ok two
unfolding iderw holdingsleep enqueue queued
ask_two = refl

end_one : ideintr false zero_mem two ≡ ok (served, some 1)
unfolding ideintr serve start_next start idestart received
end_one = refl

-- Block 1200 is past the end of the disk.
too_far : iderw 4 4 quiet ≡ panic "incorrect blockno"
unfolding iderw holdingsleep enqueue queued start idestart
too_far = refl

nothing_queued : ideintr false zero_mem quiet ≡ ok (quiet, none)
unfolding ideintr serve
nothing_queued = refl

-- The wait for the first buffer is over, that for the second is not.
waits_over : is_done (served.bufs 1) ≡ true
unfolding received
waits_over = refl

still_waits : is_done (served.bufs 2) ≡ false
still_waits = refl

-- The first buffer is dirty again, and is asked for a second time.
abbrev again : Ide
again = record served { queue = 2 ∷ 1 ∷ []; bufs = locked }

ask_again : iderw 4 1 (record served { bufs = locked }) ≡ ok again
unfolding iderw holdingsleep enqueue queued
ask_again = refl

Run-IsFifo_requests_example : IsFifo (1 ∷ 2 ∷ 1 ∷ []) (1 ∷ []) again
Run-IsFifo_requests_example = Run-IsFifo_requests (1 ∷ 2 ∷ 1 ∷ []) (1 ∷ []) again (
    asks 4 1 (record served { bufs = locked }) again ask_again
      (changes locked served (
        ends false zero_mem 1 two served end_one
          (asks 4 2 one two ask_two (asks 4 1 quiet one ask_one (begins locked false))))))
