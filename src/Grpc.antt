-- ===== src/Grpc.antt =====
-- code/grpc_example/wire.go and rpc.go: the protobuf wire format, and calls on top of it.
mod Varint
mod Groups
mod Sizes
mod Signed
mod Fields
mod Message
mod Reads
mod Rounds
mod Runs
mod Unknown
mod Encodings
mod Parts
mod RoundTrip
mod Fronts
mod Kept
mod Frames
mod Orders
mod Stores
mod Creation
mod Listing
mod Service
mod Remote
mod Watching
mod Examples
mod CallExamples
pub use Varint.*
pub use Groups.*
pub use Sizes.*
pub use Signed.*
pub use Fields.*
pub use Message.*
pub use Reads.*
pub use Rounds.*
pub use Runs.*
pub use Unknown.*
pub use Encodings.*
pub use Parts.*
pub use RoundTrip.*
pub use Fronts.*
pub use Frames.*
pub use Orders.*
pub use Stores.*
pub use Creation.*
pub use Service.*
pub use Remote.*
pub use Listing.*
pub use Watching.*
pub use Kept.*
