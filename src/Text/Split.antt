-- ===== src/Text/Split.antt =====
-- Splitting on whitespace and joining by single spaces.
use workflow_forge.Base.{
  ◌≡◌, refl, ap, sym, ◌∙◌, false, List, [], ◌∷◌, ◌++◌, is_empty, inl, inr, arith, Bool-cases, All,
}
use mathlib.Core.List.{append-nil}
use workflow_forge.Text.{
  Text, is_space, space, lstrip, rstrip, strip, flush, split_from, split, join, squeeze,
}

-- A word has a character, and no character of it is whitespace.
abbrev pub HasNoSpace : Text → Type 0
HasNoSpace = All (λ c. is_space c ≡ false)

abbrev pub IsWord : Text → Type 0
IsWord w = HasNoSpace w × (is_empty w ≡ false)

flush-IsWord : (w : Text) (ws : List Text) → HasNoSpace w → All IsWord ws → All IsWord (flush w ws)
flush-IsWord [] ws h k = k
flush-IsWord (x ∷ w) ws h k = ((h, refl), k)

split_from_words : (s : Text) → HasNoSpace (split_from s).0 × All IsWord (split_from s).1
unfolding split_from
split_from_words [] = (tt, tt)
split_from_words (c ∷ s) =
    let (h, k) = split_from_words s in
    elim (Bool-cases (is_space c)) [
      | inl e ↦ rw e (tt, flush-IsWord (split_from s).0 (split_from s).1 h k)
      | inr e ↦ rw e ((e, h), k)
    ]

-- Every part that `split` returns is a word.
pub split-IsWord : (s : Text) → All IsWord (split s)
unfolding split
split-IsWord s =
    let (h, k) = split_from_words s in flush-IsWord (split_from s).0 (split_from s).1 h k

split-lstrip : (s : Text) → split (lstrip s) ≡ split s
unfolding split split_from lstrip
split-lstrip [] = refl
split-lstrip (c ∷ s) = elim (Bool-cases (is_space c)) [
  | inl e ↦ rw e (split-lstrip s)
  | inr e ↦ rw e (rw e)
]

split_from-rstrip : (s : Text) → split_from (rstrip s) ≡ split_from s
unfolding split_from rstrip
split_from-rstrip [] = refl
split_from-rstrip (c ∷ s) = ground (arith, split_from-rstrip s)

-- Stripping first does not change the words.
pub split-strip : (s : Text) → split (strip s) ≡ split s
unfolding strip split
split-strip s = ap (λ p. flush p.0 p.1) (split_from-rstrip (lstrip s)) ∙ split-lstrip s

split_from-append_word :
    (w t : Text) → HasNoSpace w → split_from (w ++ t) ≡ (w ++ (split_from t).0, (split_from t).1)
unfolding split_from
split_from-append_word [] t h = refl
split_from-append_word (c ∷ w) t h = rw h.0 (rw (split_from-append_word w t h.1))

flush_word : (w : Text) (ws : List Text) → is_empty w ≡ false → flush w ws ≡ w ∷ ws
flush_word [] ws h = cc
flush_word (c ∷ w) ws h = refl

split_from-word : (w : Text) → HasNoSpace w → split_from w ≡ (w, [])
unfolding split_from
split_from-word w h = rw append-nil at (split_from-append_word w [] h)

split_from-space : (s : Text) → split_from (space ∷ s) ≡ ([], split s)
unfolding split_from is_space split
split_from-space s = refl

split_from-join :
    (w : Text) (ws : List Text) → All IsWord (w ∷ ws) → split_from (join (w ∷ ws)) ≡ (w, ws)
unfolding join split
split_from-join w [] h = split_from-word w h.0.0
split_from-join w (v ∷ ws) h = rw (split_from-append_word w (space ∷ join (v ∷ ws)) h.0.0) (
    rw (split_from-space (join (v ∷ ws)))
      (rw (split_from-join v ws h.1) (rw (append-nil w) (rw (flush_word v ws h.1.0.1)))))

-- Words that are joined by single spaces are split into the same words.
pub split-join : (ws : List Text) → All IsWord ws → split (join ws) ≡ ws
unfolding split
split-join [] h = unfold join split_from in refl
split-join (w ∷ ws) h = ap (λ p. flush p.0 p.1) (split_from-join w ws h) ∙ flush_word w ws h.0.1

-- The words of a text are those of its squeezed form.
pub split-squeeze : (s : Text) → split (squeeze s) ≡ split s
unfolding squeeze
split-squeeze s = split-join (split (strip s)) (split-IsWord (strip s)) ∙ split-strip s

-- Two texts with the same words have the same squeezed form, and no others.
pub squeeze-eq : (s t : Text) → split s ≡ split t → squeeze s ≡ squeeze t
unfolding squeeze
squeeze-eq s t h = ap join (split-strip s ∙ h ∙ sym (split-strip t))

-- Squeezing is idempotent: a value that was normalized once is not changed again.
pub squeeze_idem : (s : Text) → squeeze (squeeze s) ≡ squeeze s
squeeze_idem s = squeeze-eq (squeeze s) s (split-squeeze s)

-- The words of a text, joined by single spaces, are its squeezed form.
pub squeeze-join-split : (s : Text) → squeeze (join (split s)) ≡ join (split s)
unfolding squeeze
squeeze-join-split s =
    ap join (split-strip (join (split s)) ∙ split-join (split s) (split-IsWord s))
