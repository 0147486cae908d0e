-- ===== src/Proc/Runner/Return.antt =====
-- A user handler's frame, and the way back through `sigret`.
use os.Base.{ℕ, ◌+◌, ◌-◌, ◌^◌, ◌≤◌, ◌<◌, ◌≡◌, refl, ap, ◌∙◌, List, length, get_or, arith}
use os.Machine.{
  frame_words, Mem, TrapFrame, frame_size, sub32, add32, store32, load32, store_bytes, store_frame,
  load_frame,
}
use os.Machine.Memory.{
  load32-store32_self, load32-congr, store32-apart, store_bytes-outside, store_bytes-inside,
}
use os.Machine.Frame.{IsFrame, Agree, load_frame-store_frame}
use os.Proc.{Proc}
use os.Proc.Runner.{deliver, sigret}

module _ (code : List ℕ) where
  -- The user stack has room below `esp` for the saved frame, the code and the two words.
  abbrev pub HasRoom : Proc → Type 0
  HasRoom p = (frame_size + length code + 8 ≤ p.tf.esp) × (p.tf.esp < 2 ^ 32)

  -- Where the frame, the code and the two words go.
  abbrev pub backup_of : Proc → ℕ
  backup_of p = sub32 p.tf.esp frame_size

  abbrev pub text_of : Proc → ℕ
  text_of p = sub32 (backup_of p) (length code)

  -- The frame as it is saved: `esp` is lowered before the copy is made.
  abbrev pub saved : Proc → TrapFrame
  saved p = record (p.tf) { esp = backup_of p }

  -- What is written below the saved frame leaves the frame alone.
  deliver-Agree :
      (i : ℕ) (p : Proc) (m : Mem)
      → HasRoom p
      → Agree
          (store_frame m (backup_of p) (saved p))
          (deliver code i (p, m)).1
          (backup_of p)
          frame_size
  unfolding deliver
  deliver-Agree i p m room x lo hi =
      store32-apart _ (sub32 (text_of p) 8) (text_of p) x (omega arith)
      ∙ store32-apart _ (sub32 (text_of p) 4) i x (omega arith)
      ∙ store_bytes-outside _ (text_of p) code x (omega arith)

  saved-IsFrame : (p : Proc) → IsFrame p.tf → IsFrame (saved p)
  unfolding frame_words
  saved-IsFrame p v = omega arith

  user_trap_fram_backup-deliver :
      (i : ℕ) (p : Proc) (m : Mem) → (deliver code i (p, m)).0.user_trap_fram_backup ≡ backup_of p
  unfolding deliver
  user_trap_fram_backup-deliver i p m = refl

  -- Once a handler was started for signal `i`, `sigret` gives back the frame that was interrupted,
  -- if the process has not written over the saved frame in between.
  pub sigret-deliver :
      (i : ℕ) (p : Proc) (m : Mem) (q : Proc) (n : Mem)
      → IsFrame p.tf
      → HasRoom p
      → q.user_trap_fram_backup ≡ (deliver code i (p, m)).0.user_trap_fram_backup
      → Agree (deliver code i (p, m)).1 n q.user_trap_fram_backup frame_size
      → (sigret (q, n)).0.tf ≡ p.tf
  unfolding sigret
  sigret-deliver i p m q n v room e same =
      ap (λ (f : TrapFrame). record f { esp = add32 f.esp frame_size }) loaded
      ∙ ap (λ (a : ℕ). record (p.tf) { esp = a }) (omega arith)
    where
      at_backup : q.user_trap_fram_backup ≡ backup_of p
      at_backup = e ∙ user_trap_fram_backup-deliver i p m

      loaded : load_frame n q.user_trap_fram_backup ≡ saved p
      loaded =
          ap (load_frame n) at_backup
          ∙ load_frame-store_frame m n (backup_of p) (saved p) (saved-IsFrame p v) (λ x lo hi.
            same x (omega (arith, at_backup)) (omega (arith, at_backup))
            ∙ deliver-Agree i p m room x lo hi)

  -- On a user stack with room, a user handler starts at its entry point with the signal's number as
  -- its argument; its return address is where the bytes of `code` were copied.
  pub deliver_entry :
      (i : ℕ) (p : Proc) (m : Mem)
      → i < 2 ^ 32
      → HasRoom p
      → let (q, n) = deliver code i (p, m) in
        (q.tf.eip ≡ get_or p.signal_handlers i 0)
        × (load32 n q.tf.esp ≡ p.tf.esp - frame_size - length code)
        × (load32 n (q.tf.esp + 4) ≡ i)
        × ((k : ℕ) → k < length code → n (load32 n q.tf.esp + k) ≡ get_or code k 0)
  unfolding deliver
  deliver_entry i p m word room = (refl, ret_addr, arg, λ k h. text k h)
    where
      m2 : Mem
      m2 = store_bytes (store_frame m (backup_of p) (saved p)) (text_of p) code

      m3 : Mem
      m3 = store32 m2 (sub32 (text_of p) 4) i

      m4 : Mem
      m4 = store32 m3 (sub32 (text_of p) 8) (text_of p)

      ret_addr : load32 m4 (sub32 (text_of p) 8) ≡ p.tf.esp - frame_size - length code
      ret_addr =
          load32-store32_self m3 (sub32 (text_of p) 8) (text_of p) (omega arith) ∙ omega arith

      arg : load32 m4 (sub32 (text_of p) 8 + 4) ≡ i
      arg =
          load32-congr m4 m3 (sub32 (text_of p) 8 + 4)
            (λ x lo hi. store32-apart m3 (sub32 (text_of p) 8) (text_of p) x (omega arith))
          ∙ ap (load32 m3) (omega arith)
          ∙ load32-store32_self m2 (sub32 (text_of p) 4) i word

      text : (k : ℕ) → k < length code → m4 (load32 m4 (sub32 (text_of p) 8) + k) ≡ get_or code k 0
      text k h =
          ap (λ (a : ℕ). m4 (a + k)) (ret_addr ∙ omega arith)
          ∙ store32-apart m3 (sub32 (text_of p) 8) (text_of p) (text_of p + k) (omega arith)
          ∙ store32-apart m2 (sub32 (text_of p) 4) i (text_of p + k) (omega arith)
          ∙ store_bytes-inside (store_frame m (backup_of p) (saved p)) (text_of p) code k h
