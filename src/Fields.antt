-- ===== src/Fields.antt =====
-- src/lib/jxl/headers.cc and src/lib/jxl/fields.cc: the image sizes and the numbers of a JPEG XL header.
pub mod SizeHeader
pub mod Bits
pub mod VarInt
pub mod Selector
pub mod Half
pub mod Coder
pub mod MaxBits
pub mod Visit
pub mod Visitors
pub mod Trip
pub mod Size
pub mod Sizes
pub mod Replay
pub mod SizesTrip
pub mod PreviewTrip
pub mod AnimationTrip
pub mod Marked
pub mod BundleTrip
