-- ===== src/Machine/Frame.antt =====
-- A trap frame saved to memory is read back whole, from any memory that agrees on its 76 bytes.
use os.Base.{ℕ, ◌+◌, ◌*◌, ◌≤◌, ◌<◌, ◌≡◌, ◌∙◌, get_or, arith}
use os.Machine.{
  Mem, TrapFrame, frame_size, frame_words, store_frame, load_frame, load32, store_words,
}
use os.Machine.Memory.{AreWords, load32-congr, load32-store_words}

-- Every register of the frame is a 32-bit word.
abbrev pub IsFrame : TrapFrame → Type 0
IsFrame f = AreWords (frame_words f)

-- `n` holds the bytes of `m` in the window of `len` bytes from `a` on.
abbrev pub Agree : Mem → Mem → ℕ → ℕ → Type 0
Agree m n a len = (x : ℕ) → a ≤ x → x < a + len → n x ≡ m x

module _ (m n : Mem) (a : ℕ) (f : TrapFrame) (v : AreWords (frame_words f))
    (same : Agree (store_frame m a f) n a frame_size) where
  saved_word : (i : ℕ) → i < 19 → load32 n (a + 4 * i) ≡ get_or (frame_words f) i 0
  unfolding store_frame frame_words
  saved_word i h =
      load32-congr n (store_words m a (frame_words f)) (a + 4 * i)
        (λ x p q. same x (omega arith) (omega arith))
      ∙ load32-store_words m a (frame_words f) i v h

  -- Reading the window back gives the frame that was saved there.
  pub load_frame-store_frame : load_frame n a ≡ f
  unfolding load_frame frame_words
  load_frame-store_frame = λ i. record {
    edi = saved_word 0 (omega arith) i;
    esi = saved_word 1 (omega arith) i;
    ebp = saved_word 2 (omega arith) i;
    oesp = saved_word 3 (omega arith) i;
    ebx = saved_word 4 (omega arith) i;
    edx = saved_word 5 (omega arith) i;
    ecx = saved_word 6 (omega arith) i;
    eax = saved_word 7 (omega arith) i;
    gs = saved_word 8 (omega arith) i;
    fs = saved_word 9 (omega arith) i;
    es = saved_word 10 (omega arith) i;
    ds = saved_word 11 (omega arith) i;
    trapno = saved_word 12 (omega arith) i;
    err = saved_word 13 (omega arith) i;
    eip = saved_word 14 (omega arith) i;
    cs = saved_word 15 (omega arith) i;
    eflags = saved_word 16 (omega arith) i;
    esp = saved_word 17 (omega arith) i;
    ss = saved_word 18 (omega arith) i;
  }
