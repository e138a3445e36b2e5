-- ===== src/Pipeline/Diff/Tokens.antt =====
-- Stored baselines come back, and checkpoints bound a run of diffs.
use kuberecord.Base.{
  ℕ, ◌<◌, ◌≤◌, ◌≡◌, ◌↔◌, true, Option, none, some, [], ◌∷◌, arith, refl, nat_eq, text_eq, length,
  ◌⊎◌, inl, inr, Option-cases,
}
use kuberecord.Base.Text.{Text, has_prefix}
use kuberecord.Pipeline.Diff.{
  Codec, ok, compress_baseline, decode_stored, zstd_magic, checkpoint_due, count,
}

-- What a codec of zstd promises: a frame opens with the magic number and decodes to what was
-- encoded.
pub record IsCodec (codec : Codec) : Type 0 where
  pub framed :
      (encode : Text → Text) (s : Text)
      → codec.encoder ≡ some encode
      → has_prefix zstd_magic (encode s) ≡ true
  pub decoded :
      (encode : Text → Text) (s : Text)
      → codec.encoder ≡ some encode
      → (decode : Text → Option Text) × (codec.decoder ≡ some decode) × (decode (encode s) ≡ some s)

-- A baseline that was stored is read back as it was, compressed or not.
pub decode-compress :
    (codec : Codec) (s : Text)
    → IsCodec codec
    → decode_stored codec (some (compress_baseline codec s).0) (compress_baseline codec s).1
      ≡ ok (some s)
unfolding decode_stored compress_baseline
decode-compress codec [] h = refl
decode-compress codec (b ∷ s) h = elim (Option-cases codec.encoder) [
  | inl n ↦ rw (n, compress_baseline) refl
  | inr (encode, e) ↦
      let (decode, d, back) = h.decoded encode (b ∷ s) e in
      rw (e, compress_baseline) (rw (h.framed encode (b ∷ s) e, d, back) refl)
]

-- A checkpoint interrupts the diffs exactly if the sink asks for checkpoints and the run has
-- reached the interval or the diff is longer than the state; the count is the reason given first.
-- So with an interval a run that continues is shorter than it, and its diff no longer than the state.
pub checkpoint_due-bounds :
    (every run : ℕ) (diff full : Text)
    → ((checkpoint_due every run diff full ≡ none)
        ↔ ((every ≡ 0) ⊎ ((run < every) × (length diff ≤ length full))))
      × ((checkpoint_due every run diff full ≡ some count) ↔ ((0 < every) × (every ≤ run)))
unfolding checkpoint_due
checkpoint_due-bounds every run diff full =
    ((λ h. ground arith, λ h. ground arith), (λ h. ground arith, λ h. ground arith))
