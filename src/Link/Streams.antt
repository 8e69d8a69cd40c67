-- ===== src/Link/Streams.antt =====
-- From the bytes of a frame to its stream at the receiver.
use odin_link_five.Prelude.{
  ℕ, zero, suc, ◌+◌, ◌≡◌, ◌≢◌, refl, ◌∙◌, Bool, false, List, ◌++◌, append_assoc, Option, none, some,
  length, length-append, arith, Bool-cases, inl, inr, le→leb, ◌==◌, below, dec,
}
use odin_link_five.Wire.{StreamHdr, encode_hdr, le32_at, dma_magic}
use odin_link_five.Wire.Codec.{Fits, decode-encode, encode_hdr-ne-dma_magic}
use odin_link_five.FramePool.{FramePool}
use odin_link_five.FramePool
use odin_link_five.Stream.{Alloc, rx_fragment}
use odin_link_five.Receive.{
  Device, Completion, note_min, repost_round, repost_from, rx_repost, update_stream, is_control,
  rx_data, recycle, rx_as, stream_data, verdict, rx_callback,
}
use odin_link_five.Link.{Brings}

repost_round-streams :
    (accepts : ℕ → Bool) (n : ℕ) (go : Device → List ℕ × Device) (got : Option ℕ × FramePool)
    (d : Device)
    → ((e : Device) → (go e).1.streams ≡ e.streams)
    → (repost_round accepts n go got d).1.streams ≡ d.streams
unfolding repost_round
repost_round-streams accepts n go (none, p) d h = refl
repost_round-streams accepts n go (some i, p) d h = elim (Bool-cases (accepts i)) [
  | inl yes' ↦ rw yes' (h _)
  | inr no' ↦ rw no' refl
]

repost_from-streams :
    (accepts : ℕ → Bool) (n : ℕ) (d : Device) → (repost_from accepts n d).1.streams ≡ d.streams
unfolding repost_from
repost_from-streams accepts zero d = refl
repost_from-streams accepts (suc n) d =
    repost_round-streams accepts n (repost_from accepts n) (FramePool.get d.pool) d
      (λ e. repost_from-streams accepts n e)

note_min-streams : (d : Device) → (note_min d).streams ≡ d.streams
unfolding note_min
note_min-streams d = ground arith

rx_repost-streams : (accepts : ℕ → Bool) (d : Device) → (rx_repost accepts d).1.streams ≡ d.streams
unfolding rx_repost
rx_repost-streams accepts d =
    let n = below d.rx_target d.rx_posted in
    note_min-streams (repost_from accepts n d).1 ∙ repost_from-streams accepts n d

recycle-streams :
    (accepts : ℕ → Bool) (c : Completion) (d : Device) → (recycle accepts c d).1.streams ≡ d.streams
unfolding recycle
recycle-streams accepts c d =
    rx_repost-streams accepts (record d { pool = FramePool.put d.pool c.slot })

not_control :
    (h : StreamHdr) (payload : List ℕ) (c : Completion)
    → Fits h
    → h.reserved ≡ 0
    → Brings (encode_hdr h ++ payload) c
    → is_control c ≡ false
unfolding is_control
not_control h payload c f z b =
    let ne : le32_at c.virt 0 ≢ dma_magic =
      rw (b.bytes, append_assoc) (encode_hdr-ne-dma_magic h (payload ++ b.stale) f z) in
    ground arith

data_verdict :
    (h : StreamHdr) (payload : List ℕ) (c : Completion)
    → Fits h
    → h.reserved ≡ 0
    → Brings (encode_hdr h ++ payload) c
    → verdict c ≡ stream_data
unfolding verdict
data_verdict h payload c f z b = ground (arith, not_control h payload c f z b)

length-encode_hdr : (h : StreamHdr) → length (encode_hdr h) ≡ 8
unfolding encode_hdr
length-encode_hdr h = refl

rx_data-streams :
    (a : Alloc) (h : StreamHdr) (payload : List ℕ) (c : Completion) (d : Device)
    → Fits h
    → h.dst_id ≢ 0
    → length payload ≡ h.payload_len
    → Brings (encode_hdr h ++ payload) c
    → (rx_data a c d).streams ≡ update_stream h.dst_id (rx_fragment a h payload) d.streams
unfolding rx_data
rx_data-streams a h payload c d f nz e b =
    let r = decode-encode h payload b.stale f e in
    let v = b.bytes ∙ append_assoc (encode_hdr h) payload b.stale in
    rw (
      v,
      r.0,
      r.1,
      le→leb 8 c.size
          (omega (arith, b.size, length-append (encode_hdr h) payload, length-encode_hdr h)),
      nonzero h.dst_id nz,
    )
  where
    nonzero : (n : ℕ) → n ≢ 0 → (n == 0) ≡ false
    nonzero n ne = ground arith

-- A data frame that completes without error reaches the stream that its header names, and no other:
-- what the callback does to the streams is the fragment's step on that one. The header fits its
-- fields, its pad byte is 0, its target is not the control stream, and the payload has the length
-- that it announces.
pub rx_callback-streams :
    (accepts : ℕ → Bool) (a : Alloc) (h : StreamHdr) (payload : List ℕ) (c : Completion)
    (d : Device)
    → Fits h
    → h.reserved ≡ 0
    → h.dst_id ≢ 0
    → length payload ≡ h.payload_len
    → Brings (encode_hdr h ++ payload) c
    → (rx_callback accepts a c d).1.streams
      ≡ update_stream h.dst_id (rx_fragment a h payload) d.streams
unfolding rx_callback rx_as
rx_callback-streams accepts a h payload c d f z nz e b = rw (data_verdict h payload c f z b) (
    recycle-streams accepts c
      (rx_data a c (record d { rx_posted = dec d.rx_posted; rx_frames_ok = d.rx_frames_ok + 1 }))
    ∙ rx_data-streams a h payload c
        (record d { rx_posted = dec d.rx_posted; rx_frames_ok = d.rx_frames_ok + 1 }) f nz e b)
