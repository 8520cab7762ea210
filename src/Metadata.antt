-- ===== src/Metadata.antt =====
-- src/lib/jxl/image_metadata.cc: the metadata of an image, as bundles of fields.
pub mod Always
pub mod Bundles
pub mod Channel
pub mod Weights
pub mod Transform
pub mod Image
pub mod Defaults
pub mod Valid
pub mod Alpha
pub mod ChannelValid
pub mod ImageValid
pub mod DepthTrip
pub mod Setters
