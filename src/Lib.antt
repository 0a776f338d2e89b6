-- ===== src/Lib.antt =====
-- SGCN, a simulator of an accelerator for graph convolutional networks. It reads its options, a
-- configuration, a graph and a matrix of features. The preprocessor deals the rows of the graph to
-- the engines, cuts them into tiles, chooses the cache lines of the features that are kept, and
-- lays everything out in one range of addresses. The controller then runs cycles. In each cycle
-- every engine's graph reader asks for lines of its share of the graph and passes the edges whose
-- lines came back to the feature reader, which asks for the features of their columns through a
-- shared cache; what it passes on makes the engine's SIMD unit write finished lines. The memory
-- hands all of this to the simulator DRAMsim3. A run ends when no write is left.
--
-- The files, and the code that they model:
--   Base, Float     numbers, lists, results, and the single-precision arithmetic of the sizes
--   Common          src/common.h, and the globals of src/preprocessor.cc as one record, `Env`
--   Cache           src/cache.h, src/cache.cc: `Insert`, `Access`, `FindSet`, `FindWay`
--   Memory          src/memory.h, src/memory.cc: the queues and the callbacks
--   GraphReader     src/g_reader.h, src/g_reader.cc: Defs has the state, `VertexRequest` and
--                   `EdgeRequest`, Receiving `GraphReceive`, Passing `NextFeature`
--   FeatureReader   src/f_reader.h, src/f_reader.cc: Defs has the state and the requests, Reading
--                   `ReadNext`, Passing `FeatureReceive` and `PassFtoSIMD`
--   Simd            src/simd.h, src/simd.cc: `GetFeature`, `GetAddress`, `Write`
--   Preprocessor    src/preprocessor.cc: Lac, Tiling, TransXw and AddressMapping are the functions of
--                   these names, Load the constructor and what `ReadData` derives, Split
--                   the function `split`
--   Input           src/main.cc and the reading part of src/preprocessor.cc: Number and Lines have the
--                   functions of the standard library that it calls, Table `ReadIni` and the getters,
--                   Config `ParseIni`, Files `ReadData` and `ReadDAVC`, Options `GetOption`, Program
--                   the constructor from the files on, `main`, and the row of the result table
--   Pipeline        from the graph that is read to the edges that are passed
--   Controller      src/controller.cc: `GCNInference`, `DAVCRead`, `Combination`
--   Tests           the theorems at concrete inputs; Running has a whole run, from the text of the files
--
-- How the code is read. A method is a function from the object's state, and the states that it
-- changes, to the new ones. `none` is a step that the language leaves undefined: a read outside a
-- vector, the front of an empty queue, a division by zero, an `int` made of an infinity. A `uint64_t`
-- is a natural number whose sums and differences are reduced modulo 2 ^ 64; an `int` is a natural
-- number, or an integer where the code can make it negative. The overflow of an `int`, which is
-- undefined, is not modelled but in the reading of the configuration, where it is an error. Code that
-- throws returns a `Result`: the standard exceptions, a call of `exit`, and the undefined steps are
-- its errors. A pointer to the one shared memory or cache is its state, passed along.
-- The arithmetic on `float` is exact rational arithmetic, rounded to 24 bits, ties to even.
--
-- Loops over vectors are recursion on the vector or on the rounds left. The loop of `NextFeature`
-- over rows without edges runs on `skip_fuel`, more rounds than it can make on a well-formed share,
-- and the loop of `FeatureReceive` on one round more than there are answers. The loops of the
-- controller that wait for the simulator take fuel as an argument: whether they end depends on it.
--
-- Not modelled: DRAMsim3, which is the record `Dram`; the JSON library and the result file that it
-- reads, of which two printed numbers are arguments; `getopt`, `stat` and the opening of files, whose
-- answers are arguments; the lock file of the result table; `PrintStatus` and the other messages.
pub mod Base
pub mod Common
pub mod Cache
pub mod Float
pub mod Memory
pub mod Input
pub mod Preprocessor
pub mod Simd
pub mod GraphReader
pub mod FeatureReader
pub mod Controller
pub mod Pipeline
pub mod Tests
