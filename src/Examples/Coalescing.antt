-- ===== src/Examples/Coalescing.antt =====
-- One Event recorded at instant 100, a window of 30, and the baseline of a small object.
use kuberecord.Base.{ℕ, ◌+◌, ◌≡◌, ◌≢◌, some, [], ◌∷◌, arith, refl, text_eq, ltb}
use kuberecord.Base.Map.{lookup, Distinct}
use kuberecord.Base.Int.{pos}
use kuberecord.Base.Text.{Text, codes, has_prefix-append}
use kuberecord.Pipeline.Coalesce.{Coalescer, CoalesceEntry, decide, remember}
use kuberecord.Pipeline.Coalesce.Sweeping.{decide-remember}
use kuberecord.Pipeline.Diff.{Codec, zstd_magic}
use kuberecord.Pipeline.Diff.Tokens.{IsCodec}
use kuberecord.Base.Lists.{drop}
use kuberecord.Base.{◌++◌}

abbrev key : Text
key = codes "|Event|shop/web"

abbrev projection : Text
projection = codes "c0"

abbrev recorded : CoalesceEntry
recorded = record { hash = projection; at = 100 }

abbrev one_event : Coalescer
one_event = record { entries = (key, recorded) ∷ []; sweep_at = 512 }

one_event-Distinct : Distinct one_event.entries
unfolding lookup
one_event-Distinct = (refl, tt)

decide-remember_example :
    ((decide key projection (pos 30) 125 (remember key projection 120 (pos 30) one_event)).1
      ≡ ltb 125 (120 + 30))
    × (key ≢ []
        → decide [] projection (pos 30) 125 (remember key projection 120 (pos 30) one_event)
          ≡ decide [] projection (pos 30) 125 one_event)
decide-remember_example =
    decide-remember key [] projection 120 125 30 one_event one_event-Distinct (ground arith)

-- A codec that frames its input and takes the frame off.
abbrev framing : Codec
framing = record { encoder = some (λ s. zstd_magic ++ s); decoder = some (λ s. some (drop 4 s)) }

some-injective {ℓ} : {A : Type ℓ} {a b : A} → some a ≡ some b → a ≡ b
some-injective h = cc

framing-IsCodec : IsCodec framing
framing-IsCodec = record {
  framed = λ encode s e. rw (← some-injective e) (has_prefix-append zstd_magic s);
  decoded = λ encode s e. (_, refl, rw (← some-injective e) refl);
}

abbrev five : ℕ
five = 5
