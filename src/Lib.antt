-- ===== src/Lib.antt =====
-- A model of WDB, the weather and water database. It has the call interface, the part of the
-- server that turns the arguments of wci.read and of the browse functions into SQL, runs it, and
-- gives the rows back, with the session that the calls stand in and the SQL types of the
-- arguments; the fields on grids that rows are read from, the files that hold them, and the
-- function that cleans the database; and the program for administrators.
--
-- How the parts work together. A call's arguments are read from SQL arrays and texts
-- (parseReadParameters). build_query hands each of them to a function that reads it, by the
-- constructors of the specification types, and adds a condition to a statement builder; a
-- location may also wrap the statement into a WITH part. The statement is planned through a
-- cache, and run. wciReadFloat is called once for each row: it first walks the tuples of the
-- float table, then runs the grid table's query, and for each tuple of that reads the field
-- behind it and walks its points. Such a field is a blob, a file of floats in row order:
-- getValues looks up the grid of its place, and readPoints reads those grid points from the file
-- that the location asks for. cleanupdb runs the cleaning functions of the database, and last
-- removeUnreferencedFiles, which removes the blobs that no row refers to. The administration
-- program reads lines, finds the command of each in a table, and runs it as an operation that
-- performs a transactor over libpqxx and prints what came of it.
--
-- Base              tests, lists, texts as lists of bytes, integers and decimals, and Outcome: a
--                   value, a C++ exception, ereport(ERROR), the use of a null pointer, or
--                   other undefined behaviour
-- Spec              src/callInterface/types: Time (TimeSpecification.cpp, timeSpec.cpp), Level
--                   (LevelSpecification.cpp, levelSpec.cpp), Place (location.cpp as far as it reads a
--                   location), NamedInteger (wciNamedInteger.cpp and the three enumeration types),
--                   Wildcard (ValueParameterType.cpp, LevelParameterType.cpp), Normal
--                   (wciValueParameter.cpp, wciLevelParameter.cpp, wciLocation.cpp), with Steady
-- Query             src/callInterface/core/wciRead/query and the functions around it: Builder
--                   (core/Builder.cpp), Quote (util.cpp), Time (timeQuery.cpp), Select
--                   (parameterQuery.cpp, levelQuery.cpp, dataversionQuery.cpp and the provider's part
--                   of buildQuery.cpp), Location (types/location.cpp), Build (buildQuery.cpp),
--                   Collection (WciReadParameterCollection.c and _string.cpp), Plan (plan.c), Browse
--                   (core/wciBrowse.c); Condition gives conjunctions of comparisons a text and a
--                   meaning, Operand how their times are read, and Externals gathers the parameters
-- Session           src/callInterface/core/wciSession.cpp and setRole of psqlTupleInterface.c
-- Read              src/callInterface/core/wciRead: Store (ReadStore.cpp, GridPointData.c), Rows
--                   (getData.c), Calls (wciReadFloat.c, wciReadGid.c), Places
--                   (getPlaceSpecification.c); Field and Pending describe the rows for themselves,
--                   and Sequence, Gid, NoGrid and Names are about calls
-- Blob              src/blob: PathGenerator.cpp; Store (fileblobImpl.cpp, bstream.h) with Initialize,
--                   Files for the operations on one file and Sweep for those without a reference;
--                   Sql (fileblob.cpp, fileblobimpl_psql.cpp, database_query.c); Entries, ReadBack,
--                   Floats, Referenced and Drop are about these
-- Grid              src/callInterface/core/wciRead/extractGridData: BaseDataReader.cpp in Grid
--                   itself and, with GeometryCache.cpp, in Cache; Single (SinglePointReader.cpp),
--                   Polygon (PolygonReader.cpp), Points (readPoints.cpp, and getValues of
--                   getData.c); Projection (src/common/projection/WdbProjection.cpp), Transform
--                   (src/callInterface/core/projTransform.cpp), Geometry and Rotate
--                   (src/common/projection/GridGeometry.cpp and gridRotate.h). Doubles is the
--                   interface of the floating-point numbers; Index, Positions, Surround, Bilinear,
--                   Window, Kept, Corners, Remembered, Fields and Stored are about these
-- Clean             src/cleaningProgram/cleanDb.c; Trace is about the statements it executes
-- Admin             src/admin: Words, Table, Commands and Loop
--                   (ui/cmdLine/adminCommandLineInterpreter.cpp, and main.cpp), Output
--                   (ui/cmdLine/adminCommandLineOutput.cpp), Operations
--                   (operations/adminOperations.cpp), Users and Jobs (operations/transactors), over
--                   Transactions, which stands for libpqxx; Documents, RoundTrip, Asked, Find,
--                   GoesOn, Membership, Steady, Safe and Ends are about these
-- Config            src/common/configuration: the options of a program (wdbConfiguration.cpp), and
--                   File, a file of keys and values (WdbConfigFile.cpp); Precedence, Spaces, Lines
--                   and Entries are about these
-- Tests             concrete inputs
--
-- Functions keep their names, in lower case with underscores; a member function takes its object
-- as the last argument and returns the new one. A `float` is its bit pattern, and so is a
-- `double` that is only copied, while the grid readers compute with those of Doubles; a Datum is
-- a machine word, and a geometry its address.
--
-- Parameters. Boost's string algorithms, regular expressions, lexical_cast and Spirit grammar,
-- SPI, GEOS, Boost's paths and the stream output of floats are not part of the repository: they
-- are fields of Externals, Backend, Server and Paths, or arguments. BoostString carries what
-- Boost documents of replace_all_copy for a search text of one character and of to_lower_copy,
-- and Paths what it documents of the last part of a path and of the expression for blob files.
-- getValues is a field of Backend, and Grid.Points has one over a Source. Doubles, RoundsWell,
-- Proj, Geos, Source and Environment are the floating-point numbers of IEEE 754 and what it
-- says of small ones, PROJ, GEOS, what a grid reader takes from the rest of the program, and the
-- operating system under the storage of files. Clock is how PostgreSQL reads times, Weighs what
-- IEEE 754 says of weights, and the Spi of Clean what SPI does with a statement, errors included.
-- LineBoost and Pqxx are Boost's functions on a line and libpqxx under the administration program, ProgramOptions and Host Boost.Program_options and
-- the operating system under the configuration, and FileBoost Boost's functions on a line of a
-- file of keys; Documents, Serves, Throws, Stores and FileDocuments say what their documentation,
-- and that of the server, promises.
--
-- Bounds and fuel. The search for wildcards runs on one round more than the text has characters,
-- since each round goes on behind the wildcard that it found. The loop over fields is recursion
-- on the tuples that are left. `collect` and `gid_answers` count calls of wciReadFloat and
-- wciReadGid. The role command is cut to the buffer's 127 bytes and its terminator, and the plan
-- cache is emptied at 32 plans.
--
-- The loops of the grid readers are recursion on the number of their rounds, which is
-- computed from their bounds. `int` and `unsigned` wrap in the index functions and in the window
-- of a polygon; the array of readSurround_ and the product of its sides keep their bound. The loop
-- of the administration program runs on one round for each line of its input and one for its end.
-- A negated data version wraps, and the history of the administration program keeps 100 lines.
--
-- Not modelled: the map of grid readers, AllPointsReader and extractGridData.c, which nothing
-- calls, the copies of GridGeometry, the lists of reference times and keys and the loading of GRIB
-- files in the administration program, logging, the readers of data configurations, the
-- packing of tuples and getPlaceQuery.c, SQL scripts, and freed memory.
pub mod Base
pub mod Spec
pub mod Session
pub mod Query
pub mod Read
pub mod Blob
pub mod Grid
pub mod Clean
pub mod Admin
pub mod Config
pub mod Tests
