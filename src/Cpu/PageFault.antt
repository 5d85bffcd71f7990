-- ===== src/Cpu/PageFault.antt =====
-- The report of a page fault, kernel/arch/i386/interrupts/page_fault.c. The handler stops the processor
-- after it; what it leaves on the screen and in the page tables is its result.
use bobliu_os.Base.{
  ℕ, ◌+◌, ◌*◌, ◌/◌, ◌^◌, ◌<◌, ◌≡◌, ◌⊎◌, List, not, if◌then◌else◌, ◌==◌, bit_and, bit_or, codes,
}
use bobliu_os.Run.{Run, done, halt, ◌>>=◌, paging_oom}
use bobliu_os.Paging.{
  Paging, load, has, p_present, p_rw, page_mask, translate, paging_map, paging_unmap,
}
use bobliu_os.Paging.Walk.{IsPaged}
use bobliu_os.Vga.{Vga, vga_print, vga_print_hex}
use bobliu_os.Cpu.Isr.{Regs}

abbrev pub pf_tmp_pt_va : ℕ
pf_tmp_pt_va = 0x00FF0000

-- The screen and the page tables.
pub record Report : Type 0 where
  pub vga : Vga
  pub paging : Paging

-- A text, and a number behind it.
abbrev pub labelled : List ℕ → ℕ → Vga → Vga
labelled text x v = vga_print_hex x (vga_print text v)

unfoldable pub print_pf_bits : ℕ → Vga → Vga
print_pf_bits err v =
    let present = vga_print (if bit_and err 1 == 0 then codes "NP " else codes "P ") v in
    let write = vga_print (if bit_and err 2 == 0 then codes "R " else codes "W ") present in
    vga_print (if bit_and err 4 == 0 then codes "K " else codes "U ") write

-- `pd`
unfoldable pub paging_current_pd_virt : Paging → ℕ
paging_current_pd_virt s = s.pd

unfoldable pub print_walk : ℕ → ℕ → ℕ → ℕ → Vga → Vga
print_walk va pdi pti pde v =
    let va_shown = labelled (codes "PF walk: va=") va v in
    let pdi_shown = labelled (codes " pdi=") pdi va_shown in
    let pti_shown = labelled (codes " pti=") pti pdi_shown in
    vga_print (codes "\n") (labelled (codes " pde=") pde pti_shown)

-- The table is looked at through a page that is mapped to it for the time.
unfoldable pub pf_walk : ℕ → Report → Run Report
pf_walk cr2 s =
    let pd = paging_current_pd_virt s.paging in
    let pdi = bit_and (cr2 / 2 ^ 22) 0x3FF in
    let pti = bit_and (cr2 / 2 ^ 12) 0x3FF in
    let pde = load s.paging.mem pd pdi in
    let shown = print_walk cr2 pdi pti pde s.vga in
    let pt_phys = bit_and pde page_mask in
    let entry : Paging → ℕ = λ p. p.mem (translate p.mem p.pd (pf_tmp_pt_va + 4 * pti)) in
    let printed : Paging → Vga = λ p.
      vga_print (codes "\n")
        (labelled (codes " pte=") (entry p) (labelled (codes "PF walk: pt_phys=") pt_phys shown)) in
    if not (has p_present pde)
    then done (record s { vga = vga_print (codes "PF walk: no PDE present\n") shown })
    else (paging_map pf_tmp_pt_va pt_phys (bit_or p_present p_rw) s.paging >>= λ m.
        paging_unmap pf_tmp_pt_va m.1 >>= λ u. done (record { vga = printed m.1; paging = u.1 }))

-- `dbg_iret_eip` and the four others
pub record IretFrame : Type 0 where
  pub eip : ℕ
  pub cs : ℕ
  pub eflags : ℕ
  pub esp : ℕ
  pub ss : ℕ

unfoldable pub page_fault_handler : ℕ → IretFrame → Regs → Report → Run Report
page_fault_handler cr2 f r s =
    let fault = labelled (codes "\nPAGE FAULT: cr2=") cr2 s.vga in
    let eip = labelled (codes " eip=") r.eip fault in
    let err = vga_print (codes " ") (labelled (codes " err=") r.err_code eip) in
    let bits = vga_print (codes "\n") (print_pf_bits r.err_code err) in
    let frame_eip = labelled (codes "IRET frame (last): eip=") f.eip bits in
    let frame_cs = labelled (codes "cs=") f.cs frame_eip in
    let frame_eflags = labelled (codes "eflags=") f.eflags frame_cs in
    let frame_esp = labelled (codes "esp=") f.esp frame_eflags in
    pf_walk cr2 (record s { vga = labelled (codes "ss=") f.ss frame_esp })

-- What the report leaves of the page tables: it stops for want of a frame for a table, changes nothing,
-- or leaves the temporary page unmapped and every other page as it was.
abbrev pub Leaves : Paging → Run Report → Type 0
Leaves s run =
    (run ≡ halt paging_oom)
    ⊎ ((v : Vga) × (run ≡ done (record { vga = v; paging = s })))
    ⊎ ((v : Vga) × (t : Paging) × (run ≡ done (record { vga = v; paging = t }))
        × IsPaged t.pd t.mem t.pmm
        × ((w : ℕ)
            → w < 2 ^ 32
            → translate t.mem t.pd w
              ≡ (if w / 4096 == pf_tmp_pt_va / 4096 then 0 else translate s.mem s.pd w)))
