-- ===== src/Lib.antt =====
-- Cirrus: a parameter server and its workers for machine learning on serverless machines.
--
-- A worker fetches weights of a model from the parameter server, computes a gradient on a
-- minibatch of samples, and sends the gradient back; the server applies it to its model.
-- Workers register and deregister as tasks, and share small values under keys. All of this goes
-- over TCP sockets in binary messages.
--
-- - Server (src/PSSparseServerTask.cpp, src/Tasks.h): a server is the record `Server`, a
--   connection `Conn`, a worker thread's buffers `Worker`. `Server.Dispatch.serve` is the body
--   of gradient_f for one request: it reads the operation, finds the handler in
--   `operation_to_f`, and runs it. Handlers have the names of the source. Server.Tasks has the
--   registry of tasks, Server.Values the key-value store, Server.Models the two models.
--   Server.Protocol composes a client's message, the server and the client's reading of the
--   reply.
-- - Client (src/PSSparseServerInterface.cpp): each call is its message, and what is made of the
--   reply.
-- - Operations (src/Constants.h): the operation codes.
-- - Socket (src/Utils.cpp): the loops of read_all and send_all over the system calls.
--   Server.read_all has the behaviour that Socket.Stream states of the loop.
-- - Bytes (src/Utils.h): store_value and load_value, little-endian. Floats: single and double
--   precision as a record of operations, given by the compiler; IsExact says that a float is
--   its four bytes and that a double holds every float. The tests instantiate it by whole
--   numbers.
-- - Gradient (src/ModelGradient.cpp), SparseDataset (src/SparseDataset.cpp), MfModel
--   (src/MFModel.cpp), SparseMf (src/SparseMFModel.cpp), SparseLr (src/SparseLRModel.cpp),
--   MlUtils (src/MlUtils.cpp): the data that is sent, with its serialization.
-- - Optimizer (src/SGD.cpp, src/AdaGrad.cpp, src/Momentum.cpp, src/Nesterov.cpp): the four
--   methods that apply a gradient.
-- - Text and Configuration (src/Configuration.cpp): words and numbers of a line, the parser of
--   the options, read, check, and the getters that can fail. Server.Startup is the choice of
--   the optimization method from a configuration.
-- - Server.Poll: the loop of the poll threads with the tables of descriptors, and the queue of
--   requests. SparseLr.Dense: minibatch_grad, calc_loss and the older updates.
--   SparseMf.Minibatch: minibatch_grad of the factorization.
-- - SparseIterator (src/S3SparseIterator.cpp): `push_samples` cuts an object into minibatches,
--   `get_next` hands them out, `fetch_object` is a turn of the thread.
-- - MfModel.Training: the training of the dense factorization on a dataset, and its calc_loss.
-- - InputReader (src/InputReader.cpp): a line of numbers, the split into data and labels, the
--   line parsers of criteo, kaggle and rcv1, packed labels, the standardization of ratings. The
--   conversions to a float, the hash function and the square root of a double are parameters.
-- - Checksum (src/Checksum.cpp): the table-driven crc32.
-- - CircularBuffer (src/CircularBuffer.h): the bounded queue of the S3 iterators.
-- - Prelude, Vector: lists, results, tables and the accesses of std::vector.
--
-- Numbers are natural numbers; a 32-bit or 64-bit value keeps its wrap-around, and an int is
-- given by its bit pattern. An access outside an object, a failed assertion and a throw are the
-- three values of `Error`. The loops of Socket run on fuel: one more than the bytes that are
-- asked for, and each round moves a byte, so that it never runs out. The loop over empty queues
-- of SparseIterator runs on one more than the queues of the ring, and each round removes one.
-- All other loops are recursions on what they count.
--
-- Requests are served one after another: the locks, the set-up of sockets and threads, the
-- client of the object store and that of Redis, the threads that read files, the dense models
-- and the main programs are not modelled. The extraction of a double from a line is a
-- parameter. A map is an association list with one entry for each key, and the order of an
-- unordered_map is that of the list.
pub mod Prelude
pub mod Floats
pub mod Bytes
pub mod Vector
pub mod Text
pub mod Checksum
pub mod Socket
pub mod CircularBuffer
pub mod Gradient
pub mod SparseDataset
pub mod MlUtils
pub mod Configuration
pub mod InputReader
pub mod SparseLr
pub mod Optimizer
pub mod MfModel
pub mod SparseMf
pub mod Operations
pub mod Server
pub mod Client
pub mod SparseIterator
