-- ===== src/Proc/Sample.antt =====
-- A process, with its frame, for tests.
use os.Base.{false, none, [], replicate}
use os.Machine.{Mem, TrapFrame}
use os.Proc.{Proc, running, null}

abbrev pub user_frame : TrapFrame
user_frame = record {
  edi = 1;
  esi = 2;
  ebp = 3;
  oesp = 0;
  ebx = 5;
  edx = 6;
  ecx = 7;
  eax = 8;
  gs = 0;
  fs = 0;
  es = 35;
  ds = 35;
  trapno = 64;
  err = 0;
  eip = 100;
  cs = 27;
  eflags = 512;
  esp = 4096;
  ss = 35;
}

abbrev pub user_proc : Proc
user_proc = record {
  sz = 4096;
  pgdir = 8192;
  kstack = 0x80801000;
  state = running;
  pid = 3;
  parent = none;
  tf = user_frame;
  chan = null;
  killed = false;
  ofile = [];
  cwd = none;
  name = [];
  pending_signals = 0;
  signal_mask = 0;
  signal_handlers = replicate 32 200;
  user_trap_fram_backup = 0;
  freeze = false;
  old_signal_mask = 0;
}

abbrev pub zero_mem : Mem
zero_mem x = 0
