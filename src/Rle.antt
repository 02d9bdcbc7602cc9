-- ===== src/Rle.antt =====
-- The RLE encapsulation: the link layer of src/rle-encap.cc, which prepares a packet, and the MAC
-- of src/mac-rle.cc, which cuts packets into fragments and reassembles them.
pub mod Encap
pub mod Burst
pub mod Sender
pub mod Context
pub mod Receiver
pub mod Mac
pub mod RoundTrip
mod Tests
mod ReceiverTests
