-- ===== src/Machine.antt =====
-- The machine as the signal code sees it: x86.h's `struct trapframe`, 32-bit wrap-around, and the
-- byte-addressed memory of the current process. A `ushort` register of the frame and the padding
-- behind it are one 32-bit word of the model, so a frame is nineteen words, 76 bytes.
pub mod Memory
pub mod Frame
use os.Base.{ℕ, ◌+◌, ◌-◌, ◌*◌, ◌/◌, ◌%◌, ◌^◌, Bool, true, false, List, [], ◌∷◌, ◌==◌, if◌then◌else◌}

-- `uint` sums and differences.
abbrev pub add32 : ℕ → ℕ → ℕ
add32 a b = (a + b) % 2 ^ 32

abbrev pub sub32 : ℕ → ℕ → ℕ
sub32 a b = (a + 2 ^ 32 - b) % 2 ^ 32

-- The byte at each address.
abbrev pub Mem : Type 0
Mem = ℕ → ℕ

abbrev pub store8 : Mem → ℕ → ℕ → Mem
store8 m a v x = if x == a then v else m x

-- `*(int*)a = w`, little-endian
unfoldable pub store32 : Mem → ℕ → ℕ → Mem
store32 m a w =
    store8
      (store8 (store8 (store8 m a (w % 256)) (a + 1) (w / 256 % 256)) (a + 2) (w / 65536 % 256))
      (a + 3) (w / 16777216 % 256)

unfoldable pub load32 : Mem → ℕ → ℕ
load32 m a = m a + 256 * m (a + 1) + 65536 * m (a + 2) + 16777216 * m (a + 3)

unfoldable pub store_bytes : Mem → ℕ → List ℕ → Mem
store_bytes m a [] = m
store_bytes m a (b ∷ bs) = store_bytes (store8 m a b) (a + 1) bs

unfoldable pub store_words : Mem → ℕ → List ℕ → Mem
store_words m a [] = m
store_words m a (w ∷ ws) = store_words (store32 m a w) (a + 4) ws

pub record TrapFrame : Type 0 where
  pub edi : ℕ
  pub esi : ℕ
  pub ebp : ℕ
  pub oesp : ℕ
  pub ebx : ℕ
  pub edx : ℕ
  pub ecx : ℕ
  pub eax : ℕ
  pub gs : ℕ
  pub fs : ℕ
  pub es : ℕ
  pub ds : ℕ
  pub trapno : ℕ
  pub err : ℕ
  pub eip : ℕ
  pub cs : ℕ
  pub eflags : ℕ
  pub esp : ℕ
  pub ss : ℕ

-- `sizeof(struct trapframe)`
abbrev pub frame_size : ℕ
frame_size = 76

unfoldable pub frame_words : TrapFrame → List ℕ
frame_words f =
    f.edi ∷ f.esi ∷ f.ebp ∷ f.oesp ∷ f.ebx ∷ f.edx ∷ f.ecx ∷ f.eax ∷ f.gs ∷ f.fs ∷ f.es ∷ f.ds
    ∷ f.trapno ∷ f.err ∷ f.eip ∷ f.cs ∷ f.eflags ∷ f.esp ∷ f.ss ∷ []

-- `memmove((void*)a, tf, sizeof(struct trapframe))`
unfoldable pub store_frame : Mem → ℕ → TrapFrame → Mem
store_frame m a f = store_words m a (frame_words f)

-- `memmove(tf, (void*)a, sizeof(struct trapframe))`
unfoldable pub load_frame : Mem → ℕ → TrapFrame
load_frame m a = record {
  edi = load32 m (a + 4 * 0);
  esi = load32 m (a + 4 * 1);
  ebp = load32 m (a + 4 * 2);
  oesp = load32 m (a + 4 * 3);
  ebx = load32 m (a + 4 * 4);
  edx = load32 m (a + 4 * 5);
  ecx = load32 m (a + 4 * 6);
  eax = load32 m (a + 4 * 7);
  gs = load32 m (a + 4 * 8);
  fs = load32 m (a + 4 * 9);
  es = load32 m (a + 4 * 10);
  ds = load32 m (a + 4 * 11);
  trapno = load32 m (a + 4 * 12);
  err = load32 m (a + 4 * 13);
  eip = load32 m (a + 4 * 14);
  cs = load32 m (a + 4 * 15);
  eflags = load32 m (a + 4 * 16);
  esp = load32 m (a + 4 * 17);
  ss = load32 m (a + 4 * 18);
}
