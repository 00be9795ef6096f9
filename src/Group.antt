-- ===== src/Group.antt =====
-- assignment-2/q3: group chat over multicast.
pub mod Strtok
pub mod Command
pub mod Parse
pub mod Fits
pub mod Print
pub mod Roundtrip
pub mod Groups
pub mod Members
pub mod Creation
pub mod Poll
pub mod Files
pub mod Find
pub mod Passing
pub mod Leaving
pub mod Requests
pub mod Arguments
mod Tests
pub mod Transfer
pub mod Receiving
pub mod Program
