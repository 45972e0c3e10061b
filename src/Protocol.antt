-- ===== src/Protocol.antt =====
-- xposed_service.cpp, lines 151-371, as a protocol: one server and any number of client threads over
-- the shared memory. A step of the model is one section that runs under `workerMutex`, from its
-- acquisition (at the lock, or at the return of `pthread_cond_wait`) to its release (at the unlock,
-- or at the next `pthread_cond_wait`); only `returns` runs without it, as in the source.
-- A thread in `pthread_cond_wait` is asleep until a broadcast, or wakes by itself.
pub mod Defs
pub mod Invariant
pub mod Safety
pub mod Race
