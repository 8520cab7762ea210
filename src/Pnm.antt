-- ===== src/Pnm.antt =====
-- src/lib/extras/dec/pnm.cc and src/lib/extras/enc/pnm.cc: the portable anymap formats PGM and PPM
-- (P5, P6), PAM (P7) and PFM (Pf, PF), read and written.
pub mod Lexer
pub mod Decimal
pub mod Header
pub mod Pam
pub mod Raster
pub mod Writer
pub mod RoundTrip
pub mod PamLines
pub mod Rows
pub mod Depths
pub mod HeaderTrip
pub mod PamTrip
pub mod Bounds
pub mod PamRefused
pub mod Formats
