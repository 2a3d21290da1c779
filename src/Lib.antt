-- ===== src/Lib.antt =====
-- Verification of the VM host: the contexts that hold the state of a smart contract call, the
-- execution of contracts and the asynchronous calls between them.
--
-- The host (vmhost/hostCore/host.go) owns one context for each concern. A contract reaches them
-- through its imports; the host pushes the state of every context before a nested call and pops or
-- merges it afterwards. The contexts call each other through the host: the storage context charges
-- gas on the metering context and writes the accounts of the output context, the output context
-- reads balances through the blockchain context, and the metering context keeps its gas counter in
-- the WASM instance of the runtime context.
--
-- The files and the code that they model:
--   Common      lists, integers, byte strings and association lists; no code
--   Overflow    math/overflow.go, math/errors.go
--   Host        the records of the state (vmhost/hostCore/host.go, vmhost/contexts), the errors
--               (vmhost/errors.go), the gas counter and the call stack (vmhost/contexts/runtime.go)
--   Metering    vmhost/contexts/metering.go: the state and the forwarded gas; Metering/Usage the
--               charges and the initial deductions
--   BigInt      vmhost/contexts/bigint.go: big integers by handle, with the numbers in the map;
--               BigInt/Store the same with pointers to numbers that are changed in place
--   Output      vmhost/contexts/output.go: the state stack and the merging of outputs; Output/Account
--               the operations on one account, Output/Transfer the value transfers, Output/Finish
--               GetVMOutput and its gas check, Output/Active AddToActiveState
--   Blockchain  vmhost/contexts/blockchain.go: balances, nonces, code and new addresses
--   Storage     vmhost/contexts/storage.go
--   Memory      vmhost/contexts/runtime.go: MemLoad, MemLoadMultiple, MemStore
--   Runtime     vmhost/contexts/runtime.go: the stacks of runtime states and of WASM instances;
--               Runtime/Control breakpoints and exported functions, Runtime/Start the start of an
--               instance
--   Validator   vmhost/contexts/validator.go, vmhost/contexts/reservedFunctions.go and the verification
--               of contract code of vmhost/contexts/runtime.go
--   Helpers     vmhost/helpers.go: byte slices, padding, LEB128
--   Outside     the node, the WASM engine and the libraries of other repositories, as one record
--   Execution   vmhost/hostCore/execution.go, vmhost/hostCore/breakpoints.go, vmhost/hostCore/host.go:
--               Execution/Input the inputs of calls, Execution/Builtin the built-in functions,
--               Execution/Contract the running of a contract's functions, Execution/Nested the calls
--               of a contract by another, Execution/Run the calls of the node
--   AsyncCall   vmhost/hostCore/asyncCall.go: the gas and the records of asynchronous calls,
--               AsyncCall/Inputs their inputs, AsyncCall/Process their sending and execution,
--               AsyncCall/Callback their processing and callbacks
--   BigIntApi   vmhost/vmhooks/bigIntOps.go: the imports for big integers,
--               BigIntApi/Arith the operations of math/big that they use, BigIntApi/Encoded the
--               imports that move bytes
--   SmallIntApi vmhost/vmhooks/smallIntOps.go: the imports for 64-bit integers
--   Example     concrete states for the tests, which stand in the Tests file of each part
-- The other files below a part hold its lemmas and theorems, and are named for what they prove.
--
-- Conventions. A method of a context becomes a function of the same name in snake case, from the
-- context, or from the host where it reaches other contexts, to the results and the new state. A Go
-- map is an association list without an order that matters; the head of a list is the top of a state
-- stack. A pointer that may be nil is an Option; reading a nil pointer sets the field `panicked` of
-- the host, or gives the outcome `panic` where the memory is read. A uint64 is a natural number with
-- the wrap-around written out, an int32, int64 or int an integer; a big.Int is an integer. The state
-- is copied where the Go code copies it, and shared pointers are modelled as the sharing works: a
-- WASM instance is a number, so that two references to it share its gas counter.
--
-- The blockchain hook, the list of built-in functions, the text of an error and the growing of a WASM
-- memory belong to the node, the Go library and the WASM engine. They are arguments of what calls
-- them. Some loops run on fuel. The search for a free big integer handle (free_handle) tries one
-- handle more than there are values, so one of them is free. The LEB128 encoding (leb128_loop) has
-- ten rounds of seven bits, which is all of a uint64. The bytes and the binary digits of a number
-- (digits, bit_count) have as many rounds as the number itself, each of which divides it by 256 or 2.
--
-- The code of a contract is the function `call` of the engine, from the host to the host: it stands
-- for all that the contract does through its imports, nested calls of its own included. An
-- asynchronous call may lead to further calls of the host; execute_at_depth nests them to a given
-- depth, below which a parameter answers, so that a result for every depth needs no bound on it.
-- The node processes built-in functions and saves compiled code as functions of the input alone: what
-- the node itself changes is not part of the host. The runtime context keeps its records of
-- asynchronous calls as values; the places where Go shares them are named beside the definitions.
--
-- Not modelled: TransferDCDT of the output context, the decoding of gas schedules, the recording of
-- asynchronous calls by the imports, the other imports (vmhost/vmhooks), the bridge of the WASM
-- engine, the tools around the VM, and log lines.
pub mod Common
pub mod Overflow
pub mod Host
pub mod Metering
pub mod BigInt
pub mod Output
pub mod Blockchain
pub mod Storage
pub mod Memory
pub mod Runtime
pub mod Validator
pub mod Helpers
pub mod Example
pub mod Outside
pub mod Execution
pub mod AsyncCall
pub mod BigIntApi
pub mod SmallIntApi
