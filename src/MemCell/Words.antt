-- ===== src/MemCell/Words.antt =====
-- MemCell.cpp: what the words of a cell file stand for, and the kinds of cells that its lines ask for.
use destiny_3d_cache.Prelude.{Bool, true, false, if◌then◌else◌}
use destiny_3d_cache.TypeDef.{
  MemCellType, sram, dram, edram, mram, pcram, fbram, memristor, slc_nand, mlc_nand, CellAccessType,
  cmos_access, bjt_access, diode_access, none_access,
}
use destiny_3d_cache.Text.{Text, codes, same_text}

abbrev pub mem_cell_type_of : Text → MemCellType
mem_cell_type_of w =
    if same_text w (codes "SRAM")
    then sram
    else if same_text w (codes "DRAM")
    then dram
    else if same_text w (codes "eDRAM")
    then edram
    else if same_text w (codes "MRAM")
    then mram
    else if same_text w (codes "PCRAM")
    then pcram
    else if same_text w (codes "FBRAM")
    then fbram
    else if same_text w (codes "memristor")
    then memristor
    else if same_text w (codes "SLCNAND")
    then slc_nand
    else mlc_nand

abbrev pub access_type_of : Text → CellAccessType
access_type_of w =
    if same_text w (codes "CMOS")
    then cmos_access
    else if same_text w (codes "BJT")
    then bjt_access
    else if same_text w (codes "diode")
    then diode_access
    else none_access

abbrev pub is_flash : MemCellType → Bool
is_flash slc_nand = true
is_flash mlc_nand = true
is_flash _ = false

abbrev pub is_edram : MemCellType → Bool
is_edram edram = true
is_edram _ = false

abbrev pub is_dram : MemCellType → Bool
is_dram dram = true
is_dram edram = true
is_dram _ = false

abbrev pub is_sram : MemCellType → Bool
is_sram sram = true
is_sram _ = false

abbrev pub is_cmos_access : CellAccessType → Bool
is_cmos_access cmos_access = true
is_cmos_access _ = false
