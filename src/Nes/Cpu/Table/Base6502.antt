-- ===== src/Nes/Cpu/Table/Base6502.antt =====
-- am-kernels/kernels/litenes/src/cpu.c: the base instruction set, as cpu_init lists it.
use riscv32_cpu.Base.{List, [], ◌∷◌}
use riscv32_cpu.Nes.Cpu.Address.{Mode}
use riscv32_cpu.Nes.Cpu.Table.Item.{Handler, Entry, bis}

abbrev pub base_instructions : List Entry
base_instructions =
    bis 0x00 7 Handler.brk Mode.implied
    ∷ bis 0x01 6 Handler.ora Mode.indirect_x
    ∷ bis 0x05 3 Handler.ora Mode.zero_page
    ∷ bis 0x06 5 Handler.asl Mode.zero_page
    ∷ bis 0x08 3 Handler.php Mode.implied
    ∷ bis 0x09 2 Handler.ora Mode.immediate
    ∷ bis 0x0a 2 Handler.asla Mode.implied
    ∷ bis 0x0d 4 Handler.ora Mode.absolute
    ∷ bis 0x0e 6 Handler.asl Mode.absolute
    ∷ bis 0x10 2 Handler.bpl Mode.relative
    ∷ bis 0x11 5 Handler.ora Mode.indirect_y
    ∷ bis 0x15 4 Handler.ora Mode.zero_page_x
    ∷ bis 0x16 6 Handler.asl Mode.zero_page_x
    ∷ bis 0x18 2 Handler.clc Mode.implied
    ∷ bis 0x19 4 Handler.ora Mode.absolute_y
    ∷ bis 0x1d 4 Handler.ora Mode.absolute_x
    ∷ bis 0x1e 7 Handler.asl Mode.absolute_x
    ∷ bis 0x20 6 Handler.jsr Mode.absolute
    ∷ bis 0x21 6 Handler.and Mode.indirect_x
    ∷ bis 0x24 3 Handler.bit Mode.zero_page
    ∷ bis 0x25 3 Handler.and Mode.zero_page
    ∷ bis 0x26 5 Handler.rol Mode.zero_page
    ∷ bis 0x28 4 Handler.plp Mode.implied
    ∷ bis 0x29 2 Handler.and Mode.immediate
    ∷ bis 0x2a 2 Handler.rola Mode.implied
    ∷ bis 0x2c 4 Handler.bit Mode.absolute
    ∷ bis 0x2d 2 Handler.and Mode.absolute
    ∷ bis 0x2e 6 Handler.rol Mode.absolute
    ∷ bis 0x30 2 Handler.bmi Mode.relative
    ∷ bis 0x31 5 Handler.and Mode.indirect_y
    ∷ bis 0x35 4 Handler.and Mode.zero_page_x
    ∷ bis 0x36 6 Handler.rol Mode.zero_page_x
    ∷ bis 0x38 2 Handler.sec Mode.implied
    ∷ bis 0x39 4 Handler.and Mode.absolute_y
    ∷ bis 0x3d 4 Handler.and Mode.absolute_x
    ∷ bis 0x3e 7 Handler.rol Mode.absolute_x
    ∷ bis 0x40 6 Handler.rti Mode.implied
    ∷ bis 0x41 6 Handler.eor Mode.indirect_x
    ∷ bis 0x45 3 Handler.eor Mode.zero_page
    ∷ bis 0x46 5 Handler.lsr Mode.zero_page
    ∷ bis 0x48 3 Handler.pha Mode.implied
    ∷ bis 0x49 2 Handler.eor Mode.immediate
    ∷ bis 0x4a 2 Handler.lsra Mode.implied
    ∷ bis 0x4c 3 Handler.jmp Mode.absolute
    ∷ bis 0x4d 4 Handler.eor Mode.absolute
    ∷ bis 0x4e 6 Handler.lsr Mode.absolute
    ∷ bis 0x50 2 Handler.bvc Mode.relative
    ∷ bis 0x51 5 Handler.eor Mode.indirect_y
    ∷ bis 0x55 4 Handler.eor Mode.zero_page_x
    ∷ bis 0x56 6 Handler.lsr Mode.zero_page_x
    ∷ bis 0x58 2 Handler.cli Mode.implied
    ∷ bis 0x59 4 Handler.eor Mode.absolute_y
    ∷ bis 0x5d 4 Handler.eor Mode.absolute_x
    ∷ bis 0x5e 7 Handler.lsr Mode.absolute_x
    ∷ bis 0x60 6 Handler.rts Mode.implied
    ∷ bis 0x61 6 Handler.adc Mode.indirect_x
    ∷ bis 0x65 3 Handler.adc Mode.zero_page
    ∷ bis 0x66 5 Handler.ror Mode.zero_page
    ∷ bis 0x68 4 Handler.pla Mode.implied
    ∷ bis 0x69 2 Handler.adc Mode.immediate
    ∷ bis 0x6a 2 Handler.rora Mode.implied
    ∷ bis 0x6c 5 Handler.jmp Mode.indirect
    ∷ bis 0x6d 4 Handler.adc Mode.absolute
    ∷ bis 0x6e 6 Handler.ror Mode.absolute
    ∷ bis 0x70 2 Handler.bvs Mode.relative
    ∷ bis 0x71 5 Handler.adc Mode.indirect_y
    ∷ bis 0x75 4 Handler.adc Mode.zero_page_x
    ∷ bis 0x76 6 Handler.ror Mode.zero_page_x
    ∷ bis 0x78 2 Handler.sei Mode.implied
    ∷ bis 0x79 4 Handler.adc Mode.absolute_y
    ∷ bis 0x7d 4 Handler.adc Mode.absolute_x
    ∷ bis 0x7e 7 Handler.ror Mode.absolute_x
    ∷ bis 0x81 6 Handler.sta Mode.indirect_x
    ∷ bis 0x84 3 Handler.sty Mode.zero_page
    ∷ bis 0x85 3 Handler.sta Mode.zero_page
    ∷ bis 0x86 3 Handler.stx Mode.zero_page
    ∷ bis 0x88 2 Handler.dey Mode.implied
    ∷ bis 0x8a 2 Handler.txa Mode.implied
    ∷ bis 0x8c 4 Handler.sty Mode.absolute
    ∷ bis 0x8d 4 Handler.sta Mode.absolute
    ∷ bis 0x8e 4 Handler.stx Mode.absolute
    ∷ bis 0x90 2 Handler.bcc Mode.relative
    ∷ bis 0x91 6 Handler.sta Mode.indirect_y
    ∷ bis 0x94 4 Handler.sty Mode.zero_page_x
    ∷ bis 0x95 4 Handler.sta Mode.zero_page_x
    ∷ bis 0x96 4 Handler.stx Mode.zero_page_y
    ∷ bis 0x98 2 Handler.tya Mode.implied
    ∷ bis 0x99 5 Handler.sta Mode.absolute_y
    ∷ bis 0x9a 2 Handler.txs Mode.implied
    ∷ bis 0x9d 5 Handler.sta Mode.absolute_x
    ∷ bis 0xa0 2 Handler.ldy Mode.immediate
    ∷ bis 0xa1 6 Handler.lda Mode.indirect_x
    ∷ bis 0xa2 2 Handler.ldx Mode.immediate
    ∷ bis 0xa4 3 Handler.ldy Mode.zero_page
    ∷ bis 0xa5 3 Handler.lda Mode.zero_page
    ∷ bis 0xa6 3 Handler.ldx Mode.zero_page
    ∷ bis 0xa8 2 Handler.tay Mode.implied
    ∷ bis 0xa9 2 Handler.lda Mode.immediate
    ∷ bis 0xaa 2 Handler.tax Mode.implied
    ∷ bis 0xac 4 Handler.ldy Mode.absolute
    ∷ bis 0xad 4 Handler.lda Mode.absolute
    ∷ bis 0xae 4 Handler.ldx Mode.absolute
    ∷ bis 0xb0 2 Handler.bcs Mode.relative
    ∷ bis 0xb1 5 Handler.lda Mode.indirect_y
    ∷ bis 0xb4 4 Handler.ldy Mode.zero_page_x
    ∷ bis 0xb5 4 Handler.lda Mode.zero_page_x
    ∷ bis 0xb6 4 Handler.ldx Mode.zero_page_y
    ∷ bis 0xb8 2 Handler.clv Mode.implied
    ∷ bis 0xb9 4 Handler.lda Mode.absolute_y
    ∷ bis 0xba 2 Handler.tsx Mode.implied
    ∷ bis 0xbc 4 Handler.ldy Mode.absolute_x
    ∷ bis 0xbd 4 Handler.lda Mode.absolute_x
    ∷ bis 0xbe 4 Handler.ldx Mode.absolute_y
    ∷ bis 0xc0 2 Handler.cpy Mode.immediate
    ∷ bis 0xc1 6 Handler.cmp Mode.indirect_x
    ∷ bis 0xc4 3 Handler.cpy Mode.zero_page
    ∷ bis 0xc5 3 Handler.cmp Mode.zero_page
    ∷ bis 0xc6 5 Handler.dec Mode.zero_page
    ∷ bis 0xc8 2 Handler.iny Mode.implied
    ∷ bis 0xc9 2 Handler.cmp Mode.immediate
    ∷ bis 0xca 2 Handler.dex Mode.implied
    ∷ bis 0xcc 4 Handler.cpy Mode.absolute
    ∷ bis 0xcd 4 Handler.cmp Mode.absolute
    ∷ bis 0xce 6 Handler.dec Mode.absolute
    ∷ bis 0xd0 2 Handler.bne Mode.relative
    ∷ bis 0xd1 5 Handler.cmp Mode.indirect_y
    ∷ bis 0xd5 4 Handler.cmp Mode.zero_page_x
    ∷ bis 0xd6 6 Handler.dec Mode.zero_page_x
    ∷ bis 0xd8 2 Handler.cld Mode.implied
    ∷ bis 0xd9 4 Handler.cmp Mode.absolute_y
    ∷ bis 0xdd 4 Handler.cmp Mode.absolute_x
    ∷ bis 0xde 7 Handler.dec Mode.absolute_x
    ∷ bis 0xe0 2 Handler.cpx Mode.immediate
    ∷ bis 0xe1 6 Handler.sbc Mode.indirect_x
    ∷ bis 0xe4 3 Handler.cpx Mode.zero_page
    ∷ bis 0xe5 3 Handler.sbc Mode.zero_page
    ∷ bis 0xe6 5 Handler.inc Mode.zero_page
    ∷ bis 0xe8 2 Handler.inx Mode.implied
    ∷ bis 0xe9 2 Handler.sbc Mode.immediate
    ∷ bis 0xea 2 Handler.nop Mode.implied
    ∷ bis 0xec 4 Handler.cpx Mode.absolute
    ∷ bis 0xed 4 Handler.sbc Mode.absolute
    ∷ bis 0xee 6 Handler.inc Mode.absolute
    ∷ bis 0xf0 2 Handler.beq Mode.relative
    ∷ bis 0xf1 5 Handler.sbc Mode.indirect_y
    ∷ bis 0xf5 4 Handler.sbc Mode.zero_page_x
    ∷ bis 0xf6 6 Handler.inc Mode.zero_page_x
    ∷ bis 0xf8 2 Handler.sed Mode.implied
    ∷ bis 0xf9 4 Handler.sbc Mode.absolute_y
    ∷ bis 0xfd 4 Handler.sbc Mode.absolute_x
    ∷ bis 0xfe 7 Handler.inc Mode.absolute_x
    ∷ []
