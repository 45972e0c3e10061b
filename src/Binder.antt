-- ===== src/Binder.antt =====
-- The service that is offered over binder: its methods, and the parcels in which they are called.
pub mod Defs
pub mod Range
pub mod Parcel
pub mod Stub
pub mod Proxy
pub mod Remote
pub mod Served
pub mod Broken
