-- ===== src/Lib.antt =====
-- DESTINY, a simulator of 3D caches and memories: its search for the best organisation of a memory.
--
-- The program reads a configuration and the files of the memory cells, and for each memory cell
-- `nvsim` (main.cpp) visits the designs of a bank: the loops of macros.h choose the counts of mats
-- and subarrays, the active ones among them and the mux degrees. For each design a bank is
-- initialised (BankWithHtree.cpp or BankWithoutHtree.cpp), which routes its address and data bits to
-- its mats (Mat.cpp), which derive their subarrays (SubArray.cpp) and predecoders
-- (PredecodeBlock.cpp). A legal bank must hold the capacity that was asked for. The best one for
-- each optimization target is kept (Result.cpp), its wires are refined, and a second search may keep
-- to limits. `main` then compares the cells.
--
-- The files, by the code that they model:
-- - Prelude: tests, lists, integers, powers of two, and the rounded logarithms `(int)(log2(x) +
--   0.1)`. Outcome is how an `Initialize` ends: with its object, with `invalid = true`, or in
--   undefined behaviour. Run is how the program goes on: it returns, calls `exit(-1)`, never ends,
--   or leaves the model.
-- - Text: texts as lists of bytes. Scan is `sscanf`, with the conversions that the program uses;
--   Lines is the loop over the lines of a file; Rules is a chain of `if (!strncmp(key, line, ...))`
--   as a list, with the buffer `tmp`, which keeps the word that was read last. Decimal, Words and
--   Lines/Print are about what is printed and read back, Columns about lines with commas.
-- - Double: `double` as an interface of operations, with functions of math.h. Where a theorem needs
--   the order, it takes the laws of IEEE 754 comparisons, `IsOrdered`; Double/Whole is an instance
--   with a NaN.
-- - TypeDef, FunctionUnit, Wire, Bank, InputParameter: the types of the headers with these names. A
--   pair of fields `minX` and `maxX` is a Range, and the bounds of the data array and of the tag
--   array are two values of ArraySpace.
-- - InputParameter/New: the constructor `InputParameter()`. InputParameter/Words and Read:
--   `ReadInputParameterFromFile`, with the branches of the code in their order as the rules of
--   Design, Wires, Spaces and Limits. InputParameter/Settings: what a line may set, as a type, how
--   it is written and what it means, apart from the reader.
-- - MemCell: the class and its constructor; Words and Read have `ReadCellFromFile`, Scaling has
--   `ApplyPVT` and `CellScaling`, Energy has `CalculateWriteEnergy`, `CalculateReadPower` and
--   `GetMemristance`. The supply voltage `tech->vdd` is an argument.
-- - Technology: `InterpolateWith` and `SetLayerCount`. Technology/Layers is about sequences of layer
--   counts.
-- - Search: the loops `BIGFOR` and `BIGFOR_TAG`. A loop is the list of what its body sees, or `none`
--   if it does not end. Search/Size has the macros that set the bounds.
-- - Result: `Result()`, `reset` and `compareAndUpdate`; Result/Best is about sequences of updates.
--   Result/Csv: `printCsvHeader`, `printToCsvFile`, `printAsCacheToCsvFile` and `OUTPUT_TO_FILE`. A
--   line is a text, and how a `double` is printed is an argument.
-- - Mat: `Mat::Initialize` and the part of `SubArray::Initialize` that does not read electrical
--   values.
-- - BankConfig: what both kinds of bank share. BankWithHtree and BankWithoutHtree: their
--   `Initialize`. BankWithHtree/Routing has the levels of the H-tree as lists, the latest level
--   first.
-- - Formula (formula.cpp): `isPow2`; the formulas for gates and wires are analog.
-- - PredecodeBlock: `PredecodeBlock::Initialize`, with each load as a number of gate inputs.
-- - Nvsim: `CALCULATE`, with Nvsim/Wires (the wire macros), Nvsim/Explore (the loops over the
--   designs and the capacity checks), Nvsim/Refine (`TRY_AND_UPDATE`) and Nvsim/Program
--   (`applyConstraint`, `nvsim`, and Cells for the comparison at the end of `main`). Nvsim/Setup:
--   how `main` makes the configuration, and the bounds of the search that it leaves; Node has the
--   technology between two nodes. Nvsim/Rows: the lines of the CSV file for a design of the search.
-- - Examples: a small memory, on which the theorems are applied.
--
-- Bounds and fuel: a doubling loop has `hi + 1` rounds of fuel, which are enough from a lower bound
-- of at least 1, and no number is from 0. The other loops count. An `int` that can be negative is an
-- ℤ; a shift by 31 or more is undefined. The other counts are small products of the bounds of the
-- search and are natural numbers. A number of sets that does not fit an `int`, and a tag of a
-- negative number of bits, are outside of the model. A file has no byte 0 and no line of 5000 bytes
-- or more; a number in it that is negative or does not fit its type is outside of the model, and so
-- is the word of a line that is compared without ever having been read. What `%lf` makes of a text
-- is an argument, `strtod`. A member that a constructor does not set keeps the value that it is
-- given as `memory`.
--
-- Not modelled: the analog formulas for area, latency, energy and leakage, the tables of the
-- technology and the checks of currents and voltages, which are arguments (Simulator and Context);
-- the contents of the files, of which the configuration that `nvsim` reads again is an argument; the
-- output to the console, and the pruning block of `nvsim`, which only writes output.
pub mod Prelude
pub mod Text
pub mod Double
pub mod Formula
pub mod TypeDef
pub mod FunctionUnit
pub mod Wire
pub mod MemCell
pub mod Technology
pub mod Mat
pub mod Bank
pub mod BankConfig
pub mod BankWithHtree
pub mod BankWithoutHtree
pub mod PredecodeBlock
pub mod Result
pub mod InputParameter
pub mod Search
pub mod Nvsim
pub mod Examples
