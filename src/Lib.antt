-- ===== src/Lib.antt =====
-- SSIMULACRA 2: a perceptual distance of two images, as a command line tool that is built with a copy
-- of the JPEG XL library. Paths are from the root of the repository.
--
-- The tool (src/ssimulacra2_main.cc) loads two image files, checks that they have one size and at
-- least 8 rows and columns, and prints a score. The metric (src/ssimulacra2.cc) converts both images to a
-- positive XYB, halves them up to five times, and takes norms of error maps at each scale; the score is
-- a weighted sum of the norms, rescaled. The library (src/lib) holds the images, reads and writes the
-- image files, and has the fields of the JPEG XL headers.
--
-- Files and the code that they model:
--   Arith         float and double arithmetic, a parameter: the operations, the rules of IEEE 754 that
--                 the theorems use (Arith/Rules), an arithmetic with both zeros, infinities and NaN that
--                 meets them (Arith/Signed), and one of natural numbers for runs (Arith/Counting)
--   Image         src/lib/jxl/image.h (PlaneBase, Image3, ShrinkTo) and the part of ImageBundle of
--                 src/lib/jxl/image_bundle.h and src/lib/jxl/image_bundle.cc that the metric uses, with the
--                 checks of SetFromImage
--   Metric/Pixels src/ssimulacra2.cc: Downsample, Multiply, MakePositiveXYB, AlphaBlend
--   Metric/Maps   src/ssimulacra2.cc: SSIMMap, EdgeDiffMap, tothe4th
--   Metric/Score  src/ssimulacra2.cc: Msssim::Score with its 108 weights
--   Metric/Compute src/ssimulacra2.cc: Blur and ComputeSSIMULACRA2
--   Metric/Tool   src/ssimulacra2_main.cc: main, with the size and the main frame of CodecInOut of
--                 src/lib/jxl/codec_in_out.h
--   Pnm/Lexer, Pnm/Header, Pnm/Pam, Pnm/Raster
--                 src/lib/extras/dec/pnm.cc: class Parser and DecodeImagePNM; PackedImage of
--                 src/lib/extras/packed_image.h, VerifyDimensions of src/lib/jxl/codec_in_out.h
--   Pnm/Decimal, Pnm/Writer, Pnm/Formats
--                 src/lib/extras/enc/pnm.cc: EncodeHeader, EncodeImagePNM and the accepted formats
--   Fields/SizeHeader
--                 src/lib/jxl/headers.cc: the sizes of SizeHeader and PreviewHeader
--   Fields/Bits, Fields/VarInt, Fields/Selector, Fields/Half, Fields/Coder
--                 src/lib/jxl/fields.cc and src/lib/jxl/fields.h: U64Coder, U32Coder, F16Coder and
--                 BitsCoder over a list of bits
--   Fields/Visit, Fields/Visitors
--                 src/lib/jxl/fields.h and src/lib/jxl/fields.cc: class Visitor, the visitors and Bundle
--   Fields/Sizes  src/lib/jxl/headers.cc: VisitFields of SizeHeader, PreviewHeader and AnimationHeader
--   Metadata/Bundles, Metadata/Channel, Metadata/Transform, Metadata/Weights, Metadata/Image
--                 src/lib/jxl/image_metadata.cc: BitDepth, OpsinInverseMatrix, ToneMapping,
--                 ExtraChannelInfo (with VisitNameString of src/lib/jxl/frame_header.h), CustomTransformData
--                 and ImageMetadata
--   Color/Encoding, Color/Setters, Color/Names, Color/Visit, Color/Convert
--                 src/lib/jxl/color_encoding_internal.h and src/lib/jxl/color_encoding_internal.cc: Customxy,
--                 CustomTransferFunction and ColorEncoding, Description, VisitFields, and the conversions from and
--                 to JxlColorEncoding of src/lib/include/jxl/color_encoding.h; PackSigned of src/lib/jxl/common.h.
--                 Color/ColorSpace, Color/WhitePoint, Color/Primaries, Color/TransferFunction and
--                 Color/RenderingIntent have the members of the enumerations
--   Color/Bytes, Color/Md5, Color/Curves, Color/Tags, Color/Profile
--                 src/lib/jxl/color_management.cc: MaybeCreateProfile and all that it calls, with TF_HLG and TF_PQ
--                 of src/lib/jxl/transfer_functions-inl.h
--   Color/Matrices src/lib/jxl/color_encoding_internal.cc: AdaptToXYZD50, PrimariesToXYZ and PrimariesToXYZD50,
--                 with MatMul and Inv3x3Matrix of src/lib/jxl/linalg.h
--   Threads/RunRange, Threads/Runner, Threads/Barrier
--                 src/lib/threads/thread_parallel_runner_internal.cc and
--                 src/lib/threads/thread_parallel_runner_internal.h: RunRange; Runner before StartWorkers
--                 and behind WorkersReadyBarrier; ThreadFunc,
--                 StartWorkers and WorkersReadyBarrier
-- The modules below these hold proofs and are named for what they prove; Tests holds runs and the
-- theorems at concrete inputs.
--
-- State and results: an object that a function changes is a record that it takes and returns. A
-- JXL_CHECK that aborts, and a Status that is false, are `none`. A buffer is a function from addresses
-- to bytes, a file a list of bytes. size_t arithmetic is written out with its remainder by 2 ^ 64
-- where the code can overflow. A bundle's VisitFields is a program of the calls that it makes of its
-- visitor (Visit): each call holds its default and its value, and what the rest does with the value
-- that the visitor leaves there; the visitors are interpreters of such programs. The workers of a pool
-- are a list of states, and an interleaving is a list that tells which worker takes the next step, and
-- how old the value is that its relaxed load returns. What a thread does under the mutex is one event;
-- a wakeup may be spurious.
--
-- An enumeration of a color encoding is its number, as in the source, where a field may hold any
-- uint32_t until EnumValid has looked at it; an int32_t and a float cast to one are their 32 bits.
--
-- Fuel: the loop over the scales runs at most kNumScales = 6 rounds, as in the source. The loop over
-- the lines of a PAM header has as many rounds as there are bytes, and one more. A number is printed
-- with at most 20 digits, which is enough below 2 ^ 64. A tag of a profile is padded in at most three
-- rounds. The varint has six groups of eight bits, as the source. A step of a worker needs no fuel: a
-- schedule has a step for each of its entries, and a schedule of four steps for each task and three
-- for each worker is long enough for all workers to return.
--
-- Parameters: the colour conversions (TransformTo, ToXYB) and the blur (FastGaussian), with laws on
-- the sizes of their results (and for TransformTo, that it keeps the extra channels and leaves a gray
-- encoding gray); SetFromFile; whether ApplyColorHints succeeds; sqrt and pow; the pattern
-- of a subnormal half float, the comparisons of floats in VisitFields, the default arrays of
-- OpsinInverseMatrix, and the visit of the nested ColorEncoding in ImageMetadata, which is that of
-- Color/Visit wherever floats are given; isfinite, roundf, exp, copysignf, the cast of a float to
-- int32_t, the text of a double, and the threshold of ApproxEq, which the build chooses.
--
-- Runner's calls of StartWorkers and WorkersReadyBarrier are not composed with its two parts: that the
-- workers each take a command once, and that the main thread waits for all, holds without spurious
-- wakeups only, and the theorems say so.
--
-- Not modelled: the dump instrumentation, the text of messages, the other image codecs, colour
-- transforms and the parsing of ICC profiles, which wrap other libraries, the SIMD blur, the padding
-- and alignment of rows, the frames of JPEG XL, and the port to Vulkan, which is in Rust.
pub mod Common
pub mod Arith
pub mod Image
pub mod Metric
pub mod Pnm
pub mod Fields
pub mod Metadata
pub mod Color
pub mod Threads
pub mod Tests
