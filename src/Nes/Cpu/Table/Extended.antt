-- ===== src/Nes/Cpu/Table/Extended.antt =====
-- am-kernels/kernels/litenes/src/cpu.c: the extended instruction set and the instructions that do nothing, as
-- cpu_init lists them.
use riscv32_cpu.Base.{List, [], ◌∷◌}
use riscv32_cpu.Nes.Cpu.Address.{Mode}
use riscv32_cpu.Nes.Cpu.Table.Item.{Handler, Entry, eis, nii}

abbrev pub extended_instructions : List Entry
extended_instructions =
    eis 0x03 8 Handler.aso Mode.indirect_x
    ∷ eis 0x07 5 Handler.aso Mode.zero_page
    ∷ eis 0x0f 6 Handler.aso Mode.absolute
    ∷ eis 0x13 8 Handler.aso Mode.indirect_y
    ∷ eis 0x17 6 Handler.aso Mode.zero_page_x
    ∷ eis 0x1b 7 Handler.aso Mode.absolute_y
    ∷ eis 0x1f 7 Handler.aso Mode.absolute_x
    ∷ eis 0x23 8 Handler.rla Mode.indirect_x
    ∷ eis 0x27 5 Handler.rla Mode.zero_page
    ∷ eis 0x2f 6 Handler.rla Mode.absolute
    ∷ eis 0x33 8 Handler.rla Mode.indirect_y
    ∷ eis 0x37 6 Handler.rla Mode.zero_page_x
    ∷ eis 0x3b 7 Handler.rla Mode.absolute_y
    ∷ eis 0x3f 7 Handler.rla Mode.absolute_x
    ∷ eis 0x43 8 Handler.lse Mode.indirect_x
    ∷ eis 0x47 5 Handler.lse Mode.zero_page
    ∷ eis 0x4f 6 Handler.lse Mode.absolute
    ∷ eis 0x53 8 Handler.lse Mode.indirect_y
    ∷ eis 0x57 6 Handler.lse Mode.zero_page_x
    ∷ eis 0x5b 7 Handler.lse Mode.absolute_y
    ∷ eis 0x5f 7 Handler.lse Mode.absolute_x
    ∷ eis 0x63 8 Handler.rra Mode.indirect_x
    ∷ eis 0x67 5 Handler.rra Mode.zero_page
    ∷ eis 0x6f 6 Handler.rra Mode.absolute
    ∷ eis 0x73 8 Handler.rra Mode.indirect_y
    ∷ eis 0x77 6 Handler.rra Mode.zero_page_x
    ∷ eis 0x7b 7 Handler.rra Mode.absolute_y
    ∷ eis 0x7f 7 Handler.rra Mode.absolute_x
    ∷ eis 0x83 6 Handler.axs Mode.indirect_x
    ∷ eis 0x87 3 Handler.axs Mode.zero_page
    ∷ eis 0x8f 4 Handler.axs Mode.absolute
    ∷ eis 0x93 6 Handler.axa Mode.indirect_y
    ∷ eis 0x97 4 Handler.axs Mode.zero_page_y
    ∷ eis 0x9f 5 Handler.axa Mode.absolute_y
    ∷ eis 0xa3 6 Handler.lax Mode.indirect_x
    ∷ eis 0xa7 3 Handler.lax Mode.zero_page
    ∷ eis 0xaf 4 Handler.lax Mode.absolute
    ∷ eis 0xb3 5 Handler.lax Mode.indirect_y
    ∷ eis 0xb7 4 Handler.lax Mode.zero_page_y
    ∷ eis 0xbf 4 Handler.lax Mode.absolute_y
    ∷ eis 0xc3 8 Handler.dcm Mode.indirect_x
    ∷ eis 0xc7 5 Handler.dcm Mode.zero_page
    ∷ eis 0xcf 6 Handler.dcm Mode.absolute
    ∷ eis 0xd3 8 Handler.dcm Mode.indirect_y
    ∷ eis 0xd7 6 Handler.dcm Mode.zero_page_x
    ∷ eis 0xdb 7 Handler.dcm Mode.absolute_y
    ∷ eis 0xdf 7 Handler.dcm Mode.absolute_x
    ∷ eis 0xe3 8 Handler.ins Mode.indirect_x
    ∷ eis 0xe7 5 Handler.ins Mode.zero_page
    ∷ eis 0xeb 2 Handler.sbc Mode.immediate
    ∷ eis 0xef 6 Handler.ins Mode.absolute
    ∷ eis 0xf3 8 Handler.ins Mode.indirect_y
    ∷ eis 0xf7 6 Handler.ins Mode.zero_page_x
    ∷ eis 0xfb 7 Handler.ins Mode.absolute_y
    ∷ eis 0xff 7 Handler.ins Mode.absolute_x
    ∷ []

abbrev pub unimplemented_instructions : List Entry
unimplemented_instructions =
    nii 0x04 Mode.zero_page
    ∷ nii 0x0c Mode.absolute
    ∷ nii 0x14 Mode.zero_page_x
    ∷ nii 0x1a Mode.implied
    ∷ nii 0x1c Mode.absolute_x
    ∷ nii 0x34 Mode.zero_page_x
    ∷ nii 0x3a Mode.implied
    ∷ nii 0x3c Mode.absolute_x
    ∷ nii 0x44 Mode.zero_page
    ∷ nii 0x54 Mode.zero_page_x
    ∷ nii 0x5a Mode.implied
    ∷ nii 0x5c Mode.absolute_x
    ∷ nii 0x64 Mode.zero_page
    ∷ nii 0x74 Mode.zero_page_x
    ∷ nii 0x7a Mode.implied
    ∷ nii 0x7c Mode.absolute_x
    ∷ nii 0x80 Mode.immediate
    ∷ nii 0xd4 Mode.zero_page_x
    ∷ nii 0xda Mode.implied
    ∷ nii 0xdc Mode.absolute_x
    ∷ nii 0xf4 Mode.zero_page_x
    ∷ nii 0xfa Mode.implied
    ∷ nii 0xfc Mode.absolute_x
    ∷ []
