-- ===== src/Pearl.antt =====
-- bob-backend/src/pearl: a replica of a vdisk on a disk is a group of holders, one for each period
-- of time, and a holder is a pearl storage that is opened, used and closed.
pub mod Timestamps
pub mod Storage
pub mod Holder
pub mod Group
