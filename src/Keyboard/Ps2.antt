-- ===== src/Keyboard/Ps2.antt =====
-- The keyboard controller's set-up, `ps2_enable_irq1_only` of kernel/arch/i386/dev/keyboard.c, and
-- `pic_unmask_irq1` of kernel/arch/i386/boot/user_bouncing.c. The machine answers reads of ports: `answer`
-- gives what the n-th read gets from a port.
use bobliu_os.Base.{
  ℕ, zero, suc, ◌+◌, ◌^◌, List, [], ◌∷◌, ◌++◌, if◌then◌else◌, ◌==◌, bit_and, bit_or,
}
use bobliu_os.Word.{u8, not32}
use bobliu_os.Run.{Run, done, endless, ◌>>=◌}
use bobliu_os.Cpu.Pic.{Outb, outb}

pub record Io : Type 0 where
  pub answer : ℕ → ℕ → ℕ
  pub reads : ℕ
  pub writes : List Outb

abbrev pub inb : ℕ → Io → ℕ × Io
inb port io = (io.answer io.reads port, record io { reads = io.reads + 1 })

abbrev pub put_out : ℕ → ℕ → Io → Io
put_out port val io = record io { writes = io.writes ++ (outb port val ∷ []) }

-- The loops that poll, with fuel.
unfoldable pub ps2_wait_input_clear : ℕ → Io → Run Io
ps2_wait_input_clear zero io = endless
ps2_wait_input_clear (suc fuel) io =
    let status = inb 0x64 io in
    let rest = ps2_wait_input_clear fuel status.1 in
    if bit_and status.0 2 == 0 then done status.1 else rest

unfoldable pub ps2_wait_output_full : ℕ → Io → Run Io
ps2_wait_output_full zero io = endless
ps2_wait_output_full (suc fuel) io =
    let status = inb 0x64 io in
    let rest = ps2_wait_output_full fuel status.1 in
    if bit_and status.0 1 == 0 then rest else done status.1

unfoldable pub ps2_flush : ℕ → Io → Run Io
ps2_flush zero io = endless
ps2_flush (suc fuel) io =
    let status = inb 0x64 io in
    let rest = ps2_flush fuel (inb 0x60 status.1).1 in
    if bit_and status.0 1 == 0 then done status.1 else rest

module _ (fuel : ℕ) where
  unfoldable pub ps2_cmd : ℕ → Io → Run Io
  ps2_cmd cmd io = ps2_wait_input_clear fuel io >>= λ ready. done (put_out 0x64 cmd ready)

  unfoldable pub ps2_read_data : Io → Run (ℕ × Io)
  ps2_read_data io = ps2_wait_output_full fuel io >>= λ ready. done (inb 0x60 ready)

  unfoldable pub ps2_write_data : ℕ → Io → Run Io
  ps2_write_data data_byte io =
      ps2_wait_input_clear fuel io >>= λ ready. done (put_out 0x60 data_byte ready)

  unfoldable pub ps2_enable_irq1_only : Io → Run Io
  ps2_enable_irq1_only io = ps2_flush fuel io >>= λ flushed. ps2_cmd 0xAE flushed >>= λ enabled.
      ps2_cmd 0x20 enabled >>= λ asked. ps2_read_data asked >>= λ cfg.
      ps2_cmd 0x60 cfg.1 >>= λ told.
      ps2_write_data (bit_or cfg.0 1) told >>= λ set_up. ps2_flush fuel set_up

-- The master's mask with the keyboard's line open; the second read is printed.
unfoldable pub pic_unmask_irq1 : Io → Io
pic_unmask_irq1 io =
    let mask = inb 0x21 io in
    (inb 0x21 (put_out 0x21 (u8 (bit_and mask.0 (not32 (2 ^ 1)))) mask.1)).1
