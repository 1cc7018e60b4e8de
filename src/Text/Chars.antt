-- ===== src/Text/Chars.antt =====
-- What holds of every character of a text holds of every character after it is normalized.
use workflow_forge.Text.{
  Text, is_space, space, lstrip, rstrip, strip, flush, split_from, split, join,
}
use workflow_forge.Base.{ℕ, All, List, ◌∷◌, [], Bool-cases, All-append, inl, ◌&&◌, is_empty, inr}

module _ (P : ℕ → Type 0) where
  All-lstrip : (s : Text) → All P s → All P (lstrip s)
  unfolding lstrip
  All-lstrip [] h = tt
  All-lstrip (c ∷ s) h = elim (Bool-cases (is_space c)) [
    | inl e ↦ rw e (All-lstrip s h.1)
    | inr e ↦ rw e h
  ]

  All-rstrip : (s : Text) → All P s → All P (rstrip s)
  unfolding rstrip
  All-rstrip [] h = tt
  All-rstrip (c ∷ s) h = elim (Bool-cases (is_space c && is_empty (rstrip s))) [
    | inl e ↦ rw e tt
    | inr e ↦ rw e (h.0, All-rstrip s h.1)
  ]

  pub All-strip : (s : Text) → All P s → All P (strip s)
  unfolding strip
  All-strip s h = All-rstrip (lstrip s) (All-lstrip s h)

  All-flush : (w : Text) (ws : List Text) → All P w → All (All P) ws → All (All P) (flush w ws)
  All-flush [] ws h k = k
  All-flush (c ∷ w) ws h k = (h, k)

  All-split_from : (s : Text) → All P s → All P (split_from s).0 × All (All P) (split_from s).1
  unfolding split_from
  All-split_from [] h = (tt, tt)
  All-split_from (c ∷ s) h =
      let (word, words) = All-split_from s h.1 in
      elim (Bool-cases (is_space c)) [
        | inl e ↦ rw e (tt, All-flush (split_from s).0 (split_from s).1 word words)
        | inr e ↦ rw e ((h.0, word), words)
      ]

  All-split : (s : Text) → All P s → All (All P) (split s)
  unfolding split
  All-split s h =
      let (word, words) = All-split_from s h in
      All-flush (split_from s).0 (split_from s).1 word words

  All-join : (ws : List Text) → P space → All (All P) ws → All P (join ws)
  unfolding join
  All-join [] p h = tt
  All-join (w ∷ []) p h = h.0
  All-join (w ∷ v ∷ ws) p h =
      All-append P w (space ∷ join (v ∷ ws)) h.0 (p, All-join (v ∷ ws) p h.1)

  pub All-join-split : (s : Text) → P space → All P s → All P (join (split s))
  All-join-split s p h = All-join (split s) p (All-split s h)
