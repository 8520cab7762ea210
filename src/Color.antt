-- ===== src/Color.antt =====
-- src/lib/jxl/color_encoding_internal.cc and src/lib/jxl/color_management.cc: color encodings and their ICC profiles.
pub mod Bytes
pub mod Md5
pub mod Padding
pub mod ColorSpace
pub mod WhitePoint
pub mod Primaries
pub mod TransferFunction
pub mod RenderingIntent
pub mod Encoding
pub mod Matrices
pub mod Curves
pub mod Names
pub mod Tags
pub mod Profile
pub mod Checksum
pub mod Table
pub mod Grows
pub mod Layout
pub mod Required
pub mod Reader
pub mod TagTable
pub mod Visit
pub mod Everywhere
pub mod PartsValid
pub mod VisitValid
pub mod XyTrip
pub mod Setters
pub mod Convert
pub mod ConvertOut
pub mod ConvertTrip
