-- ===== src/Frame.antt =====
-- The frame layer, core/src/frame: the frames and their byte form, the encoder that cuts one
-- stream into frames, and the decoder that puts the frames of many streams back in order.
pub mod Types
pub mod Codec
pub mod Encoder
pub mod Decoder
pub mod Delivery
mod Examples
