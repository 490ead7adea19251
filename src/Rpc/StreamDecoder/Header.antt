-- ===== src/Rpc/StreamDecoder/Header.antt =====
-- The header of a stream, from the bytes that `RpcStreamEncoder::new` writes to the event.
use rust_muxio.Prelude.{
  ℕ, suc, ◌+◌, ◌-◌, ◌%◌, ◌^◌, ◌≡◌, ◌<◌, ◌≤◌, refl, sym, ap, ◌∙◌, some, List, [], ◌∷◌, ◌++◌, ltb,
  if◌then◌else◌, length, take, drop, ok, arith, take-length-append, drop-length-append,
  take-append-drop, take-append_le, drop-append_le, length-append, le→ltb, lt→ltb,
}
use rust_muxio.Prelude.Bytes.{IsU16, IsU32, IsU64, to_le_bytes, from_le_bytes-to_le_bytes}
use rust_muxio.Rpc.Types.{
  RpcMessageType, call, response, event, RpcHeader, RpcStreamEvent, header, payload_chunk,
  message_type_to_u8, message_type_try_from, rpc_frame_frame_header_size,
}
use rust_muxio.Frame.Codec.{read_uint}
use rust_muxio.Rpc.StreamEncoder.{header_bytes}
use rust_muxio.Rpc.StreamDecoder.{RpcStreamDecoder, await_payload, read_header, take_header}

-- A header whose numbers fit their machine types and whose metadata fits the length field.
pub record IsHeader (h : RpcHeader) : Type 0 where
  pub request_id_fits : IsU32 h.rpc_request_id
  pub method_id_fits : IsU64 h.rpc_method_id
  pub metadata_fits : IsU16 (length h.rpc_metadata_bytes)

-- The 15 bytes in front of the metadata, and any bytes `m` behind them.
abbrev pub fixed_part : RpcHeader → List ℕ → List ℕ
fixed_part h m =
    message_type_to_u8 h.rpc_msg_type
    ∷ (to_le_bytes 4 h.rpc_request_id
        ++ (to_le_bytes 8 h.rpc_method_id
            ++ (to_le_bytes 2 (length h.rpc_metadata_bytes % 2 ^ 16) ++ m)))

pub header_bytes_lem : (h : RpcHeader) → header_bytes h ≡ fixed_part h h.rpc_metadata_bytes
unfolding header_bytes
header_bytes_lem h = refl

pub message_type_try_from-to_u8 :
    (t : RpcMessageType) → message_type_try_from (message_type_to_u8 t) ≡ some t
unfolding message_type_try_from message_type_to_u8
message_type_try_from-to_u8 call = refl
message_type_try_from-to_u8 response = refl
message_type_try_from-to_u8 event = refl

-- The bytes that have arrived, `buf`, hold the fixed part once they are 15.
pub fixed_part-take :
    (h : RpcHeader) (buf rest x : List ℕ)
    → 15 ≤ length buf
    → buf ++ rest ≡ fixed_part h x
    → (buf ≡ fixed_part h (drop 15 buf)) × (drop 15 buf ++ rest ≡ x)
fixed_part-take h buf rest x long e =
    let front : take 15 buf ≡ fixed_part h [] =
      sym (take-append_le 15 buf rest long) ∙ ap (λ t. take 15 t) e in
    (
      sym (take-append-drop 15 buf) ∙ ap (λ t. t ++ drop 15 buf) front,
      sym (drop-append_le 15 buf rest long) ∙ ap (λ t. drop 15 t) e,
    )

-- Where the fixed part has arrived the decoder has the header's numbers, and waits for metadata.
pub read_header_lem :
    (h : RpcHeader) (m : List ℕ) (d : RpcStreamDecoder)
    → IsHeader h
    → read_header (record d { buffer = fixed_part h m }) ≡ (
        if ltb (length (fixed_part h m)) (15 + length h.rpc_metadata_bytes)
        then (
          ok [],
          record d {
            buffer = fixed_part h m;
            rpc_method_id = some h.rpc_method_id;
            meta_len = length h.rpc_metadata_bytes;
          },
        )
        else take_header h.rpc_msg_type h.rpc_request_id h.rpc_method_id
            (length h.rpc_metadata_bytes)
            (record d { buffer = fixed_part h m; rpc_method_id = some h.rpc_method_id }))
unfolding read_header read_uint
read_header_lem h m d fits =
    let small : length h.rpc_metadata_bytes % 2 ^ 16 ≡ length h.rpc_metadata_bytes =
      omega (arith, fits.metadata_fits) in
    rw (
      le→ltb (length (fixed_part h m)) rpc_frame_frame_header_size (omega arith),
      message_type_try_from-to_u8 h.rpc_msg_type,
      from_le_bytes-to_le_bytes 4 h.rpc_request_id (omega (arith, fits.request_id_fits)),
      from_le_bytes-to_le_bytes 8 h.rpc_method_id (omega (arith, fits.method_id_fits)),
      from_le_bytes-to_le_bytes 2 (length h.rpc_metadata_bytes % 2 ^ 16) (omega arith),
      small,
    )

-- The events of a header that is complete, with `body` behind it.
abbrev pub first_events : RpcHeader → List ℕ → List RpcStreamEvent
first_events h [] = header h.rpc_request_id h.rpc_method_id h ∷ []
first_events h (b ∷ body) =
    header h.rpc_request_id h.rpc_method_id h
    ∷ payload_chunk h h.rpc_request_id h.rpc_method_id (b ∷ body)
    ∷ []

-- A decoder that has read the header `h`.
abbrev pub opened : RpcHeader → RpcStreamDecoder → RpcStreamDecoder
opened h d = record {
  state = await_payload;
  header = some h;
  rpc_request_id = some h.rpc_request_id;
  rpc_method_id = some h.rpc_method_id;
  buffer = [];
  meta_len = d.meta_len;
}

cut : (n : ℕ) → 15 + n - 15 ≡ n
cut n = omega arith

drop-fixed_part : (h : RpcHeader) (n : ℕ) (x : List ℕ) → drop (15 + n) (fixed_part h x) ≡ drop n x
drop-fixed_part h n x =
    let e : 15 + n
        ≡ suc (
            suc (suc (suc (suc (suc (suc (suc (suc (suc (suc (suc (suc (suc (suc (n))))))))))))))) =
      omega arith in
    ap (λ k. drop k (fixed_part h x)) e

-- A complete header is taken off the buffer.
pub take_header_lem :
    (h : RpcHeader) (body : List ℕ) (d : RpcStreamDecoder)
    → take_header h.rpc_msg_type h.rpc_request_id h.rpc_method_id
        (length h.rpc_metadata_bytes)
        (record d {
          buffer = fixed_part h (h.rpc_metadata_bytes ++ body);
          rpc_method_id = some h.rpc_method_id;
        })
      ≡ (ok (first_events h body), opened h d)
unfolding take_header
take_header_lem h [] d = rw (
  cut (length h.rpc_metadata_bytes),
  drop-fixed_part h (length h.rpc_metadata_bytes),
  take-length-append h.rpc_metadata_bytes [],
  drop-length-append h.rpc_metadata_bytes [],
)
take_header_lem h (b ∷ body) d = rw (
  cut (length h.rpc_metadata_bytes),
  drop-fixed_part h (length h.rpc_metadata_bytes),
  take-length-append h.rpc_metadata_bytes (b ∷ body),
  drop-length-append h.rpc_metadata_bytes (b ∷ body),
)

-- A decoder that has read the fixed part of `h`, and `m` of the metadata.
abbrev pub partial : RpcHeader → List ℕ → RpcStreamDecoder → RpcStreamDecoder
partial h m d = record d {
  buffer = fixed_part h m;
  rpc_method_id = some h.rpc_method_id;
  meta_len = length h.rpc_metadata_bytes;
}

pub read_header-partial :
    (h : RpcHeader) (m : List ℕ) (d : RpcStreamDecoder)
    → IsHeader h
    → length m < length h.rpc_metadata_bytes
    → read_header (record d { buffer = fixed_part h m }) ≡ (ok [], partial h m d)
read_header-partial h m d fits few =
    read_header_lem h m d fits
    ∙ rw (lt→ltb (length (fixed_part h m)) (15 + length h.rpc_metadata_bytes) (omega arith))

pub read_header_complete :
    (h : RpcHeader) (body : List ℕ) (d : RpcStreamDecoder)
    → IsHeader h
    → read_header (record d { buffer = fixed_part h (h.rpc_metadata_bytes ++ body) })
      ≡ (ok (first_events h body), opened h d)
read_header_complete h body d fits =
    let m = h.rpc_metadata_bytes ++ body in
    read_header_lem h m d fits
    ∙ rw
        (le→ltb (length (fixed_part h m)) (15 + length h.rpc_metadata_bytes)
          (omega (arith, length-append h.rpc_metadata_bytes body)))
        (take_header_lem h body d)
