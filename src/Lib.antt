-- ===== src/Lib.antt =====
-- A model of googlesqlite, which runs GoogleSQL on SQLite.
--
-- The program rewrites a query for SQLite and registers the functions that SQLite lacks. The model
-- has the parts that compute by themselves; it has neither the rewriting, which works on the
-- syntax trees of an external analyzer, nor the database.
--
-- MatchRecognize (internal/match_recognize.go, from `mrInst` on). MATCH_RECOGNIZE becomes a window
-- function over each partition. Pattern has the pattern (`mrPatternNode`), the instructions and
-- the errors; Compile the compiler (`mrCompiler`, `mrCompile`); Vm the machine (`mrVM`: `nextGen`,
-- `add`, `run`); Window the window function (`matchRecognizeWindow`: `Step`, `Inverse`, `Done`,
-- `compute`). Meaning is what a pattern means with no reference to code, and Vm/Accept what a
-- program accepts with no reference to threads; the other modules prove that compiler, machine
-- and window function agree with these. The JSON text of a pattern is a parsed value in the
-- model, and that of a result the list of its entries. The 32-bit stamps of `mrVM` wrap around in
-- the model as they do in the source. Match and row numbers are not bounded.
--
-- Functions (internal/functions): Value has the arguments, the results and the wrappers of
-- helper/sqlfn_sqlfn.go and helper/intconv.go; Pad is string/lpad.go, rpad.go and repeat.go;
-- Substring is string/substr.go, left.go and right.go; Search is string/instr.go and strpos.go;
-- Distance (edit_distance.go), Like, Trim, Split, Replace, Initcap and Translate are the files of string
-- with these names; Range is
-- rangefn/range_ops.go with the comparisons of internal/value/value_range.go. A STRING is the list
-- of its runes and BYTES a list of bytes; text that is not valid UTF-8 is left out. `unicode.IsSpace`,
-- the case forms of a rune, and the comparisons of the elements of a RANGE with the addition of an
-- interval are parameters. Lengths stay far below the bounds
-- of int64, so sums of them do not wrap around.
--
-- NamePath (internal/name_path.go): the default path of a connection. `strings.EqualFold` is a
-- parameter.
--
-- Cli (internal/cli): Script is script.go, the splitter of scripts into statements; an index of the
-- source is the rest of the text in the model, and a scanner's result is how far it moves the index.
-- Session is the dot-commands of command.go (`HandleDot`, `setToggle`, `printCatalog`) and `Exec` of
-- runner.go, Input `RunInput` and `sourceFile`. The database, what runs a query or another statement
-- on it, the catalog's names, the file reader and the classes of runes of package unicode are
-- parameters; the output is a list of messages. A file is the same whenever it is read. Script/Scan,
-- Literal and Seal prove that a token before a semicolon does not depend on what follows it,
-- Script/Complete cuts a text at its last semicolon, Input/Blank and Statements follow the buffer of
-- `RunInput` line by line, Input/Reads the files that read files.
--
-- RangeFrame (internal/functions/window/range_frame.go): RangeFrame has the keys, their order, the
-- offsets and `frame`; Windowed the window function with its inner aggregate (`Step`, `Inverse`,
-- `Done`), and what SQLite calls it with, as the file's first comment says: every row is stepped
-- before the first value, and one row is inverted after each value. Floating point numbers and
-- rationals are types of the caller's with their operations and, in the theorems, their order; the
-- inner aggregate is a parameter with the law that its result is a function of the rows it holds.
-- Search proves the binary search, Keys the order of the keys, Located the rows of a frame, Columns
-- that columns of one type meet its hypotheses, Slide and Run the values. Typed and Best are the
-- aggregates COUNT, MIN and MAX of internal/functions/window/typed.go as inner aggregates.
--
-- ScriptVars (internal/script_vars.go, with isIdentStart and isIdentCont of internal/analyzer.go and
-- the map of internal/conn.go): ScriptVars has the scanners, `splitTopLevelStatements` and
-- `substituteScriptVariables`; Apply the statements DECLARE and SET, the literal of a value, and
-- `applyScriptVariables`; Untouched proves what is left alone. The text is a list of bytes, folding
-- and lowering are those of ASCII, which is all that a keyword or an identifier has, and the
-- database with its state, which answers expressions, is a parameter. White space is trimmed by runes,
-- given by their bytes.
--
-- Sketch (internal/functions/kll/sketch.go): INIT, the merge of sketches, and the quantiles. float64
-- with its order and roundings and the gob encoding of a list of numbers are parameters. Merge is
-- about sketches of parts, Sorted about the order of the values.
--
-- Base has the shared helpers: native numbers, lists measured by them, and signed integers.
--
-- Fuel: `add` recurses on the number of instructions plus 1, since a deeper call meets a stamped
-- instruction; `run_loop` has two rounds more than the partition has rows, since no thread outlives
-- the last row; `compute_loop` has as many rounds as there are rows, since each search moves on;
-- the searches of INSTR and STRPOS have one round more than the text has elements, as many as
-- there are indices; the binary search has as many rounds as there are indices; `RunInput` has one level more than
-- the files nest, with the files ranked by which reads which, since a file that reads itself runs
-- for ever in the source; GENERATE_RANGE_ARRAY stops after 65536 ranges as the source does.
--
-- Not modelled: the analyzer, the formatter, the catalog, the driver and the SQLite bindings, which
-- are glue to external libraries, and the functions of the other files of internal/functions.
pub mod Base
pub mod MatchRecognize
pub mod Functions
pub mod NamePath
pub mod Cli
pub mod RangeFrame
pub mod ScriptVars
pub mod Sketch
