-- ===== src/GenericFs.antt =====
-- crates/kernel-core/src/genericfs.rs and block.rs: the persistent file system over a block device. The
-- device is a parameter with the laws of a disk; an operation takes the device's state and returns its
-- result beside the state that it leaves.
pub mod Device
pub mod Codec
pub mod RoundTrip
pub mod Table
pub mod Steps
pub mod Slots
pub mod Extent
pub mod Gaps
pub mod Growth
pub mod Capacity
pub mod Memory
mod Tests
pub mod Ops
pub mod Mount
pub mod Rounds
