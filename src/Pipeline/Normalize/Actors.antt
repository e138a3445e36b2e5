-- ===== src/Pipeline/Normalize/Actors.antt =====
-- The operator's annotation of actors, written and read back.
use kuberecord.Base.{
  ◌≡◌, ◌≢◌, false, List, [], ◌∷◌, ◌++◌, arith, refl, ap, ◌∙◌, nat_eq, text_eq, contains, All,
}
use kuberecord.Base.Text.{Text}
use kuberecord.Pipeline.Normalize.{split_comma, non_empty, decode_actors, encode_actors}

-- a name that the annotation can carry
abbrev pub IsActor : Text → Type 0
IsActor actor = (actor ≢ []) × (contains actor b',' ≡ false)

split_comma-flat : (s : Text) → contains s b',' ≡ false → split_comma s ≡ s ∷ []
unfolding split_comma contains
split_comma-flat [] h = refl
split_comma-flat (c ∷ s) h = ground (arith, split_comma-flat s)

split_comma-part :
    (s rest : Text)
    → contains s b',' ≡ false
    → split_comma (s ++ (b',' ∷ rest)) ≡ s ∷ split_comma rest
unfolding split_comma contains
split_comma-part [] rest h = ground arith
split_comma-part (c ∷ s) rest h = ground (arith, split_comma-part s rest)

non_empty-part :
    (part : Text) (parts : List Text)
    → part ≢ []
    → non_empty (part ∷ parts) ≡ part ∷ non_empty parts
unfolding non_empty
non_empty-part part parts n = ground arith

-- Actors with non-empty names and no comma are read back from the annotation as they were written.
pub decode_actors-encode_actors :
    (actors : List Text) → All IsActor actors → decode_actors (encode_actors actors) ≡ actors
unfolding decode_actors encode_actors
decode_actors-encode_actors [] h = ground arith
decode_actors-encode_actors (a ∷ []) h = rw (split_comma-flat a h.0.1) (non_empty-part a [] h.0.0)
decode_actors-encode_actors (a ∷ b ∷ actors) h =
    rw (split_comma-part a (encode_actors (b ∷ actors)) h.0.1) (
      non_empty-part a _ h.0.0
      ∙ ap (λ (rest : List Text). a ∷ rest) (decode_actors-encode_actors (b ∷ actors) h.1))
